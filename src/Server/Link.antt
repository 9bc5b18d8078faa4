-- ===== src/Server/Link.antt =====
-- The server's side of one connection: from its event to its stream.
use jujube.Base.{arith, ℕ, ◌≡◌, ◌≢◌, ◌∙◌, sym, ap, subst, refl, false, none, some, List, ◌∷◌, ◌==◌}
use jujube.Base.Int.{ℤ}
use jujube.Base.Run.{Run, Cmd, Returns, returns, mono, value}
use jujube.Base.Store.{lookup, lookup-put_self, lookup-put_ne}
use jujube.Mem.{Addr, Memory, view}
use jujube.Mem.Inv.{Inv}
use jujube.Mem.Owned.{held-InUse}
use jujube.Stream.{TcpStream}
use jujube.Stream.Create.{AllFreed-Owned}
use jujube.World.{World, Jconnect, Callback}
use jujube.Event.{close_stream, set_stream_event_in_out}
use jujube.Event.Close.{Attached, stream_at_lem, close_stream-Closed}
use jujube.Event.Epoll.{Registered}
use jujube.Event.Sound.{IsActive}
use jujube.Event.InOut.{Rearmed, set_stream_event_in_out-Rearmed}
use jujube.Server.{Server, lift_world, update_stream}
use jujube.Server.Ready.{Ready}

-- What does not change while a connection is served: its event, with the event's descriptor and
-- callback, its connection, its stream's place, its socket, the allocator without the stream, and the world it is
-- compared with.
pub record Link : Type 0 where
  pub event : ℕ
  pub fd : ℤ
  pub call_back : Callback
  pub jc : Addr
  pub conn : Jconnect
  pub place : Addr
  pub sock : ℤ
  pub base : Memory
  pub before : World

-- No other event, no connection and no other stream has changed.
pub record Spared (k : Link) (w : World) : Type 0 where
  pub events : (j : ℕ) → k.event ≢ j → w.events j ≡ k.before.events j
  pub conns : w.conns ≡ k.before.conns
  pub streams : (b : Addr) → k.place ≢ b → lookup b w.streams ≡ lookup b k.before.streams
  pub idle : w.idle ≡ k.before.idle

-- The event leads to the stream `s`, which is ready with `xs` in its `out_buf`.
pub record Linked (k : Link) (s : TcpStream) (xs : List ℕ) (w : World) : Type 0 where
  pub event : (w.events k.event).jc ≡ some k.jc
  pub fd : (w.events k.event).fd ≡ k.fd
  pub call_back : (w.events k.event).call_back ≡ k.call_back
  pub conn : lookup k.jc w.conns ≡ some k.conn
  pub points : k.conn.stream ≡ some k.place
  pub stream : lookup k.place w.streams ≡ some s
  pub sock : s.server_sock ≡ k.sock
  pub ready : Ready k.base w.memory s xs
  pub closed : w.closed ≡ k.before.closed
  pub spared : Spared k w
  pub registry : Registered k.before → IsActive k.before k.event → Registered w × IsActive w k.event

-- The stream is gone, and with it all its blocks; its descriptor is closed, once.
pub record Ended (k : Link) (w : World) : Type 0 where
  pub inv : Inv w.memory
  pub memory : (a : Addr) → view w.memory a ≡ view k.base a
  pub gone : lookup k.place w.streams ≡ none
  pub closed : w.closed ≡ k.fd ∷ k.before.closed
  pub spared : Spared k w
  pub inactive : ((w.events k.event).status == 1) ≡ false
  pub registry : Registered k.before → IsActive k.before k.event → Registered w

module _ {k : Link} {s : TcpStream} {xs : List ℕ} {w : World} (l : Linked k s xs w) where
  pub Linked-Attached : Attached w k.event k.jc k.conn k.place s
  Linked-Attached = record {
    event = l.event;
    conn = l.conn;
    points = l.points;
    stream = l.stream;
    owns = record {
      inv = l.ready.owned.inv;
      distinct = l.ready.owned.distinct;
      in_use = held-InUse _ l.ready.owned;
    };
  }

  pub close_stream-Ended : Returns (λ _ w'. Ended k w') (close_stream k.event w)
  close_stream-Ended =
      mono (close_stream-Closed w k.event k.jc k.conn k.place s Linked-Attached l.ready.open_sock)
        (λ _ w' c. record {
          inv = c.memory.inv;
          memory = AllFreed-Owned l.ready.owned c.memory;
          gone = c.gone;
          closed = c.closed ∙ (ap (λ f. f ∷ w.closed) l.fd ∙ ap (◌∷◌ k.fd) l.closed);
          inactive = c.inactive;
          registry = λ b act. c.registry (l.registry b act).0;
          spared = record {
            events = λ j ne. c.events j ne ∙ l.spared.events j ne;
            conns = c.conns ∙ l.spared.conns;
            streams = λ b ne. c.others b ne ∙ l.spared.streams b ne;
            idle = c.idle ∙ l.spared.idle;
          };
        })

  Rearmed-Linked : {w' : World} → Rearmed w k.event w' → Linked k s xs w'
  Rearmed-Linked {w'} r = record {
    event = r.jc ∙ l.event;
    fd = r.fd ∙ l.fd;
    call_back = r.call_back ∙ l.call_back;
    conn = ap (lookup k.jc) r.conns ∙ l.conn;
    points = l.points;
    stream = ap (lookup k.place) r.streams ∙ l.stream;
    sock = l.sock;
    ready = subst (λ m. Ready k.base m s xs) (sym r.memory) l.ready;
    closed = r.closed ∙ l.closed;
    registry =
        λ b act. let (r1, a1) = l.registry b act in (r.registry a1 r1, ground (arith, r.active));
    spared = record {
      events = λ j ne. r.others j ne ∙ l.spared.events j ne;
      conns = r.conns ∙ l.spared.conns;
      streams = λ b ne. ap (lookup b) r.streams ∙ l.spared.streams b ne;
      idle = r.idle ∙ l.spared.idle;
    };
  }

  pub set_stream_event_in_out-Linked :
      (now : ℕ)
      → Returns
          (λ _ w'. Linked k s xs w' × (w'.memory ≡ w.memory))
          (set_stream_event_in_out now k.event w)
  set_stream_event_in_out-Linked now =
      mono
        (set_stream_event_in_out-Rearmed now w k.event k.jc k.conn k.place s l.event l.conn l.points
          l.stream l.ready.open_sock)
        (λ _ w' r. (Rearmed-Linked r, r.memory))

  -- A piece of code that works on the stream and its blocks.
  pub update_stream-Linked :
      {A : Type 0} {P : TcpStream × A → Memory → Type 0}
      (f : TcpStream → Cmd Memory (TcpStream × A)) (ys : List ℕ)
      → Returns P (f s w.memory)
      → ((r : TcpStream × A) (m : Memory)
          → P r m
          → Ready k.base m r.0 ys × (r.0.server_sock ≡ s.server_sock))
      → Returns
          (λ v w'. (s' : TcpStream) × P (s', v) w'.memory × Linked k s' ys w')
          (update_stream k.place f w)
  update_stream-Linked {A} {P} f ys run keep = rw (stream_at_lem w k.place s l.stream) (
      let (r, m, e, p) = value run in
      let (ready, same) = keep r m p in
      rw e (
        returns (
          r.0,
          p,
          record {
            event = l.event;
            fd = l.fd;
            call_back = l.call_back;
            conn = l.conn;
            points = l.points;
            stream = lookup-put_self k.place r.0 w.streams;
            sock = same ∙ l.sock;
            ready = ready;
            closed = l.closed;
            registry = l.registry;
            spared = record {
              events = l.spared.events;
              conns = l.spared.conns;
              streams = λ b ne. lookup-put_ne k.place b r.0 w.streams ne ∙ l.spared.streams b ne;
              idle = l.spared.idle;
            };
          },
        )))

-- The same for the server as a whole.
abbrev pub SameTally : Server → Server → Type 0
SameTally sv sv' = (sv'.qps ≡ sv.qps) × (sv'.work ≡ sv.work)

pub Returns-lift_world :
    {A : Type 0} {P : A → World → Type 0} {r : Run World A} (sv : Server)
    → Returns P r
    → Returns (λ a sv'. P a sv'.world × SameTally sv sv') (lift_world r sv)
Returns-lift_world sv (returns p) = returns (p, (refl, refl))
