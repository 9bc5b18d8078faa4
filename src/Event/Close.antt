-- ===== src/Event/Close.antt =====
-- close_stream, and the freeing of a stream with its object.
use jujube.Base.{
  sym, subst, ℕ, ◌≡◌, ◌≢◌, refl, false, some, none, ◌∷◌, arith, ◌==◌, Distinct, Bool-cases, inl,
  inr,
}
use jujube.Base.Int.{is_neg, minus_one}
use jujube.Base.Run.{ok, and_then, Returns, returns, value}
use jujube.Base.Store.{lookup, put, erase, lookup-put_self, lookup-put, lookup-erase}
use jujube.Mem.{Addr, Memory}
use jujube.Mem.Inv.{Inv}
use jujube.Mem.Batch.{InUse, AllFreed}
use jujube.Stream.{TcpStream}
use jujube.Stream.Free.{blocks, free_transaction_stream-AllFreed}
use jujube.World.{World, Jconnect, conn_at, stream_at}
use jujube.Event.Epoll.{Registered, Registry-del}
use jujube.Event.{free_stream, close_active, close_conn, close_stream, eventdel}

-- The stream owns its blocks: they are distinct, in use, and in an allocator with its invariant.
pub record Owns (m : Memory) (s : TcpStream) : Type 0 where
  pub inv : Inv m
  pub distinct : Distinct (blocks s)
  pub in_use : InUse m (blocks s)

-- An event leads to a connection, and that to a stream which owns its blocks.
pub record Attached (w : World) (i jc : ℕ) (c : Jconnect) (a : Addr) (s : TcpStream) : Type 0 where
  pub event : (w.events i).jc ≡ some jc
  pub conn : lookup jc w.conns ≡ some c
  pub points : c.stream ≡ some a
  pub stream : lookup a w.streams ≡ some s
  pub owns : Owns w.memory s

pub conn_at_lem :
    (w : World) (a : Addr) (c : Jconnect) → lookup a w.conns ≡ some c → conn_at a w ≡ ok c w
unfolding conn_at
conn_at_lem w a c e = rw (e, conn_at) refl

pub stream_at_lem :
    (w : World) (a : Addr) (s : TcpStream) → lookup a w.streams ≡ some s → stream_at a w ≡ ok s w
unfolding stream_at
stream_at_lem w a s e = rw (e, stream_at) refl

-- The world without the stream at `a`, with the allocator as it is then.
abbrev pub without_stream : World → Addr → Memory → World
without_stream w a m = record w { memory = m; streams = erase a w.streams }

pub free_stream_lem :
    (w : World) (a : Addr) (s : TcpStream)
    → Owns w.memory s
    → (m : Memory) × (free_stream a s w ≡ ok tt (without_stream w a m))
      × AllFreed w.memory (blocks s) m
unfolding free_stream
free_stream_lem w a s o =
    let (u, m, e, f) =
      value (free_transaction_stream-AllFreed w.memory s o.inv o.distinct o.in_use) in
    (m, rw e refl, f)

-- The stream and its blocks are gone and its socket is closed; the connection still points to it.
pub record Closed (w : World) (i jc : ℕ) (c : Jconnect) (a : Addr) (s : TcpStream) (w' : World)
    : Type 0 where
  pub memory : AllFreed w.memory (blocks s) w'.memory
  pub gone : lookup a w'.streams ≡ none
  pub others : (b : Addr) → a ≢ b → lookup b w'.streams ≡ lookup b w.streams
  pub inactive : ((w'.events i).status == 1) ≡ false
  pub closed : w'.closed ≡ (w.events i).fd ∷ w.closed
  pub dangles : lookup jc w'.conns ≡ some c
  pub conns : w'.conns ≡ w.conns
  pub idle : w'.idle ≡ w.idle
  pub events : (k : ℕ) → i ≢ k → w'.events k ≡ w.events k
  pub registry : Registered w → Registered w'

abbrev shut : TcpStream → TcpStream
shut s = record s { server_sock = minus_one }

module _ (w : World) (i jc : ℕ) (c : Jconnect) (a : Addr) (s : TcpStream)
    (h : Attached w i jc c a s) where
  -- The freeing, in the world that the shutting of the socket leaves.
  close_rest :
      (w1 : World)
      → w1.memory ≡ w.memory
      → w1.streams ≡ put a (shut s) w.streams
      → w1.conns ≡ w.conns
      → w1.idle ≡ w.idle
      → w1.closed ≡ (w.events i).fd ∷ w.closed
      → ((w1.events i).status == 1) ≡ false
      → ((k : ℕ) → i ≢ k → w1.events k ≡ w.events k)
      → (Registered w → Registered w1)
      → Returns (λ _ w'. Closed w i jc c a s w') (and_then (stream_at a w1) (free_stream a))
  close_rest w1 em es ec eid ecl est eev ereg =
      let owns : Owns w1.memory (shut s) = record {
        inv = rw em h.owns.inv;
        distinct = h.owns.distinct;
        in_use = subst (λ m. InUse m (blocks s)) (sym em) h.owns.in_use;
      } in
      let (m, e, f) = free_stream_lem w1 a (shut s) owns in
      rw (stream_at_lem w1 a (shut s) (rw es (lookup-put_self a (shut s) w.streams)), e)
        (returns (record {
          memory = rw (sym em) f;
          gone = ground (arith, lookup-erase a a w1.streams);
          others = λ b ne.
              ground (arith, lookup-erase a b w1.streams, lookup-put a b (shut s) w.streams);
          inactive = est;
          closed = ecl;
          dangles = rw ec h.conn;
          conns = ec;
          idle = eid;
          events = eev;
          registry = ereg;
        }))

  close_conn_lem : close_conn i c w ≡ close_active i a w
  unfolding close_conn
  close_conn_lem = rw (h.points, close_conn) refl

  close_stream_lem : close_stream i w ≡ close_active i a w
  unfolding close_stream
  close_stream_lem = rw (h.event, close_stream, conn_at_lem w jc c h.conn) close_conn_lem

  close_to :
      is_neg s.server_sock ≡ false → Returns (λ _ w'. Closed w i jc c a s w') (close_active i a w)
  unfolding close_active eventdel
  close_to open_sock =
      rw (stream_at_lem w a s h.stream, open_sock)
        (elim (Bool-cases ((w.events i).status == 1)) [
          | inl active ↦ rw active (
              close_rest _ refl refl refl refl (ground arith) (ground arith) (λ k ne. ground arith)
                (λ r. Registry-del i (λ k ne. ground arith) 0 r active (ground arith)))
          | inr inactive ↦
              rw inactive (close_rest _ refl refl refl refl refl inactive (λ k ne. refl) (λ r. r))
        ])

-- Where an event leads to a connection and that to a stream on an open socket which owns its
-- blocks, in an allocator with its invariant, close_stream returns: exactly the stream's blocks are
-- freed and the stream is gone, the event's descriptor is closed once and the event inactive. The
-- connection is as before, and so still points to the stream that is gone. If epoll_ctl(2) has
-- accepted every request so far, and the active events have registered descriptors of their own, it
-- is so afterwards.
pub close_stream-Closed :
    (w : World) (i jc : ℕ) (c : Jconnect) (a : Addr) (s : TcpStream)
    → Attached w i jc c a s
    → is_neg s.server_sock ≡ false
    → Returns (λ _ w'. Closed w i jc c a s w') (close_stream i w)
close_stream-Closed w i jc c a s h open_sock =
    rw (close_stream_lem w i jc c a s h) (close_to w i jc c a s h open_sock)
