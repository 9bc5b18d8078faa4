-- ===== src/Event/InOut.antt =====
-- set_stream_event_in_out: the event of a stream on an open socket is registered again.
use jujube.Base.{ℕ, ◌≡◌, ◌≢◌, refl, false, true, ◌==◌, some, arith}
use jujube.Base.Int.{is_neg}
use jujube.Base.Run.{ok, Returns, returns}
use jujube.Base.Store.{lookup}
use jujube.Mem.{Addr}
use jujube.Stream.{TcpStream}
use jujube.World.{World, Jconnect}
use jujube.Event.Epoll.{Registered, Registry-mod}
use jujube.Event.{stream_of, set_stream_event_in_out, eventadd}
use jujube.Event.Close.{conn_at_lem, stream_at_lem}

-- Only the event and the requests to epoll_ctl(2) have changed, and the event is active.
pub record Rearmed (w : World) (i : ℕ) (w' : World) : Type 0 where
  pub memory : w'.memory ≡ w.memory
  pub conns : w'.conns ≡ w.conns
  pub streams : w'.streams ≡ w.streams
  pub closed : w'.closed ≡ w.closed
  pub idle : w'.idle ≡ w.idle
  pub jc : (w'.events i).jc ≡ (w.events i).jc
  pub fd : (w'.events i).fd ≡ (w.events i).fd
  pub active : (w'.events i).status ≡ 1
  pub call_back : (w'.events i).call_back ≡ (w.events i).call_back
  pub others : (k : ℕ) → i ≢ k → w'.events k ≡ w.events k
  pub registry : ((w.events i).status == 1) ≡ true → Registered w → Registered w'

module _ (now : ℕ) (w : World) (i : ℕ) where
  eventadd-Rearmed : (events : ℕ) → Returns (λ _ w'. Rearmed w i w') (eventadd now events i w)
  unfolding eventadd
  eventadd-Rearmed events = returns (record {
    memory = refl;
    conns = refl;
    streams = refl;
    closed = refl;
    idle = refl;
    jc = ground arith;
    fd = ground arith;
    active = ground arith;
    call_back = ground arith;
    others = λ k ne. ground arith;
    registry = λ act r. rw act (Registry-mod i (λ k ne. ground arith) events r act (ground arith));
  })

  module _ (jc : Addr) (c : Jconnect) (a : Addr) (s : TcpStream) (e : (w.events i).jc ≡ some jc)
      (f : lookup jc w.conns ≡ some c) (p : c.stream ≡ some a)
      (g : lookup a w.streams ≡ some s) where
    stream_of_lem : stream_of i w ≡ ok a w
    unfolding stream_of
    stream_of_lem = rw (e, stream_of, conn_at_lem w jc c f, p) refl

    pub set_stream_event_in_out-Rearmed :
        is_neg s.server_sock ≡ false
        → Returns (λ _ w'. Rearmed w i w') (set_stream_event_in_out now i w)
    unfolding set_stream_event_in_out
    set_stream_event_in_out-Rearmed open_sock =
        rw (stream_of_lem, stream_at_lem w a s g, open_sock) (eventadd-Rearmed _)
