-- ===== src/Client/Release.antt =====
-- release_stream_from_connect: a stream ends, and its connection is closed or kept.
use jujube.Base.{
  ℕ, ◌≡◌, ◌≢◌, refl, Bool, true, false, some, none, [], ◌∷◌, ◌++◌, arith, ◌==◌, not, Bool-cases,
  inl, inr,
}
use jujube.Base.Run.{ok, and_then, Returns, returns}
use jujube.Base.Store.{Store, lookup, put, erase, lookup-put_self, lookup-put, lookup-erase}
use jujube.Mem.{Addr, Memory, inc32}
use jujube.Mem.Batch.{AllFreed}
use jujube.Stream.{TcpStream}
use jujube.Stream.Free.{blocks}
use jujube.World.{World, Jconnect, keepalive_cb, conn_close}
use jujube.Connection.{release_connection}
use jujube.Connection.Release.{release_connection_lem}
use jujube.Event.{free_stream, event_reset_cb, eventadd, eventdel, epollin}
use jujube.Event.Close.{Attached, conn_at_lem, stream_at_lem, without_stream, free_stream_lem}
use jujube.Client.{
  not_null, free_if_any, reset_event, release_from, release_stream_from_connect, bad_connect,
}

-- The stream and its blocks are gone, and the connection with its descriptor.
pub record Dropped (w : World) (i jc : ℕ) (c : Jconnect) (a : Addr) (s : TcpStream) (w' : World)
    : Type 0 where
  pub memory : AllFreed w.memory (blocks s) w'.memory
  pub streams : w'.streams ≡ erase a w.streams
  pub gone : lookup jc w'.conns ≡ none
  pub others : (b : Addr) → jc ≢ b → lookup b w'.conns ≡ lookup b w.conns
  pub closed : w'.closed ≡ c.fd ∷ w.closed
  pub idle : w'.idle ≡ w.idle
  pub inactive : ((w'.events i).status == 1) ≡ false
  pub events : (k : ℕ) → i ≢ k → w'.events k ≡ w.events k

-- The stream and its blocks are gone, and the connection waits on the list of idle ones.
pub record Kept (w : World) (i jc : ℕ) (c : Jconnect) (a : Addr) (s : TcpStream) (w' : World)
    : Type 0 where
  pub memory : AllFreed w.memory (blocks s) w'.memory
  pub streams : w'.streams ≡ erase a w.streams
  pub conn : lookup jc w'.conns ≡ some (record c { stream = none; requests = inc32 c.requests })
  pub others : (b : Addr) → jc ≢ b → lookup b w'.conns ≡ lookup b w.conns
  pub closed : w'.closed ≡ w.closed
  pub idle : w'.idle ≡ w.idle ++ jc ∷ []
  pub waits :
      ((w'.events i).call_back ≡ keepalive_cb)
      × ((w'.events i).events ≡ epollin)
      × ((w'.events i).status ≡ 1)

lookup-erase-put :
    (conns : Store Jconnect) (k b : Addr) (c d : Jconnect)
    → k ≢ b
    → lookup b (erase k (put k d (put k c conns))) ≡ lookup b conns
lookup-erase-put conns k b c d ne = ground (
  arith,
  lookup-erase k b (put k d (put k c conns)),
  lookup-put k b d (put k c conns),
  lookup-put k b c conns,
)

lookup-put-put :
    (conns : Store Jconnect) (k b : Addr) (c d : Jconnect)
    → k ≢ b
    → lookup b (put k d (put k c conns)) ≡ lookup b conns
lookup-put-put conns k b c d ne =
    ground (arith, lookup-put k b d (put k c conns), lookup-put k b c conns)

abbrev free_conn : Jconnect → Jconnect
free_conn c = record c { stream = none }

abbrev bad_conn : Jconnect → Jconnect
bad_conn c = record c { is_alive = false; status = conn_close; stream = none }

module _ (now : ℕ) (w : World) (i jc : ℕ) (c : Jconnect) (a : Addr) (s : TcpStream)
    (h : Attached w i jc c a s) where
  release_from_to :
      (b : Bool) (m : Memory)
      → free_stream a s w ≡ ok tt (without_stream w a m)
      → release_from now i b jc w
        ≡ and_then (reset_event now i b jc c (without_stream w a m)) (λ _. release_connection jc)
  unfolding release_from free_if_any
  release_from_to b m f =
      rw (conn_at_lem w jc c h.conn, h.points, stream_at_lem w a s h.stream, f) refl

  release_to :
      (b : Bool) (m : Memory)
      → free_stream a s w ≡ ok tt (without_stream w a m)
      → release_stream_from_connect now i b w
        ≡ and_then (reset_event now i b jc c (without_stream w a m)) (λ _. release_connection jc)
  unfolding release_stream_from_connect not_null
  release_to b m f = rw h.event (release_from_to b m f)

  -- The connection before it is released.
  release_bad_at :
      (m : Memory) (w1 : World)
      → AllFreed w.memory (blocks s) m
      → w1.memory ≡ m
      → w1.streams ≡ erase a w.streams
      → w1.conns ≡ put jc (bad_conn c) w.conns
      → w1.closed ≡ w.closed
      → w1.idle ≡ w.idle
      → ((w1.events i).status == 1) ≡ false
      → ((k : ℕ) → i ≢ k → w1.events k ≡ w.events k)
      → Returns (λ _ w'. Dropped w i jc c a s w') (release_connection jc w1)
  release_bad_at m w1 f em es ec ecl eid est eev =
      rw
        (release_connection_lem w1 jc (bad_conn c)
          (rw ec (lookup-put_self jc (bad_conn c) w.conns)))
        (returns (record {
          memory = rw em f;
          streams = es;
          gone = ground (
            arith,
            lookup-erase jc jc
                (put jc (record (bad_conn c) { requests = inc32 c.requests }) w1.conns),
          );
          others = λ b ne. rw ec (lookup-erase-put w.conns jc b (bad_conn c) _ ne);
          closed = rw ecl refl;
          idle = eid;
          inactive = est;
          events = eev;
        }))

  release_bad :
      (m : Memory)
      → AllFreed w.memory (blocks s) m
      → Returns
          (λ _ w'. Dropped w i jc c a s w')
          (and_then
            (reset_event now i true jc c (without_stream w a m))
            (λ _. release_connection jc))
  unfolding reset_event eventdel
  release_bad m f = elim (Bool-cases ((w.events i).status == 1)) [
    | inl active ↦
        rw active
          (release_bad_at m _ f refl refl refl refl refl (ground arith) (λ k ne. ground arith))
    | inr inactive ↦
        rw inactive (release_bad_at m _ f refl refl refl refl refl inactive (λ k ne. refl))
  ]

  release_ok_at :
      (m : Memory) (w1 : World)
      → AllFreed w.memory (blocks s) m
      → c.is_alive ≡ true
      → w1.memory ≡ m
      → w1.streams ≡ erase a w.streams
      → w1.conns ≡ put jc (free_conn c) w.conns
      → w1.closed ≡ w.closed
      → w1.idle ≡ w.idle
      → ((w1.events i).call_back ≡ keepalive_cb)
        × ((w1.events i).events ≡ epollin)
        × ((w1.events i).status ≡ 1)
      → Returns (λ _ w'. Kept w i jc c a s w') (release_connection jc w1)
  release_ok_at m w1 f alive em es ec ecl eid ev =
      rw
        (
          release_connection_lem w1 jc (free_conn c)
              (rw ec (lookup-put_self jc (free_conn c) w.conns)),
          alive,
        )
        (returns (record {
          memory = rw em f;
          streams = es;
          conn = lookup-put_self jc _ _;
          others = λ b ne. rw ec (lookup-put-put w.conns jc b (free_conn c) _ ne);
          closed = ecl;
          idle = rw eid refl;
          waits = ev;
        }))

  release_ok :
      (m : Memory)
      → AllFreed w.memory (blocks s) m
      → c.is_alive ≡ true
      → Returns
          (λ _ w'. Kept w i jc c a s w')
          (and_then
            (reset_event now i false jc c (without_stream w a m))
            (λ _. release_connection jc))
  unfolding reset_event event_reset_cb eventadd
  release_ok m f alive =
      release_ok_at m _ f alive refl refl refl refl refl (ground arith, ground arith, ground arith)

-- Where an event leads to a connection and that to a stream which owns its blocks, in an allocator
-- with its invariant, release_stream_from_connect with BAD_CONNECT returns: exactly the stream's
-- blocks are freed and the stream is gone, the connection is closed once and freed, the list of
-- idle connections, every other connection and every other event are as before, and the event is
-- inactive.
pub release_stream_from_connect-Dropped :
    (now : ℕ) (w : World) (i jc : ℕ) (c : Jconnect) (a : Addr) (s : TcpStream)
    → Attached w i jc c a s
    → Returns (λ _ w'. Dropped w i jc c a s w') (release_stream_from_connect now i bad_connect w)
release_stream_from_connect-Dropped now w i jc c a s h =
    let (m, e, f) = free_stream_lem w a s h.owns in
    rw (release_to now w i jc c a s h true m e) (release_bad now w i jc c a s h m f)

-- Where an event leads to a connection that is alive and that to a stream which owns its blocks,
-- in an allocator with its invariant, release_stream_from_connect with OK_CONNECT returns: exactly
-- the stream's blocks are freed and the stream is gone, the connection is the last of the list of
-- idle connections, with no stream and one more request, nothing is closed, every other connection
-- is as before, and the event waits for input with keepalive_cb.
pub release_stream_from_connect-Kept :
    (now : ℕ) (w : World) (i jc : ℕ) (c : Jconnect) (a : Addr) (s : TcpStream)
    → Attached w i jc c a s
    → c.is_alive ≡ true
    → Returns (λ _ w'. Kept w i jc c a s w') (release_stream_from_connect now i (not bad_connect) w)
release_stream_from_connect-Kept now w i jc c a s h alive =
    let (m, e, f) = free_stream_lem w a s h.owns in
    rw (release_to now w i jc c a s h false m e) (release_ok now w i jc c a s h m f alive)
