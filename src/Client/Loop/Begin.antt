-- ===== src/Client/Loop/Begin.antt =====
-- A transaction begins in a client that runs.
use jujube.Base.{
  ℕ, ◌<◌, ◌≡◌, ◌≢◌, ◌∙◌, sym, ap, refl, true, false, Option, none, some, Option-cases, List, [],
  ◌∷◌, ◌++◌, arith, ◌==◌, has, Bool-cases, inl, inr,
}
use jujube.Base.Int.{is_neg}
use jujube.Base.Run.{ok, Returns, returns, mono}
use jujube.Base.Store.{Store, lookup, put, lookup-put_self, lookup-put_ne}
use jujube.Mem.{Addr, Memory, Malloc, Gives, view}
use jujube.Mem.Batch.{InUse}
use jujube.Stream.{BufBox, TcpStream}
use jujube.Stream.Free.{blocks, work_blocks}
use jujube.Sockets.{create_connect_socket, connect_to, create_connect_socket-ipv4}
use jujube.Ip.Host.{use_ipv4}
use jujube.World.{World, Jconnect}
use jujube.Event.{max_events}
use jujube.Event.Free.{first_free}
use jujube.Event.Sound.{IsActive}
use jujube.Client.Transaction.{LogEntry, Outside, create_transaction}
use jujube.Client.Transaction.Begun.{Begun, Alone, wire, start_stream-Begun}
use jujube.Client.Transaction.Create.{
  Connects, connecting, create_transaction-no_object, create_transaction-no_socket,
  create_transaction-new,
}
use jujube.Client.Loop.Frame.{Serving, Clear, Frame, Runs, Runs-set}

-- malloc(3) of a jconnect gives nothing, or an object that is not in use; an event is free; and the
-- address is one for IPv4, as that of main_loop is.
pub record CanBegin (w : World) (out : Outside) (entry : LogEntry) : Type 0 where
  pub ipv4 : entry.ip.flag ≡ use_ipv4
  pub fresh : (jc : Addr) (c : Jconnect) → out.conn ≡ some (jc, c) → lookup jc w.conns ≡ none
  pub event : ℕ
  pub free : first_free w.events max_events 0 ≡ some event

InUse-has :
    (m : Memory) (l : List Addr) (c : Addr)
    → InUse m l
    → has c l ≡ true
    → (xs : List ℕ) × (view m c ≡ some xs)
InUse-has m [] c u h = absurd (ground (arith, h))
InUse-has m (b ∷ l) c u h = elim (Bool-cases (c == b)) [
  | inl same ↦ (u.0.0, ap (view m) (ground arith) ∙ u.0.1)
  | inr other ↦ InUse-has m l c u.1 (ground arith)
]

work_self : (o : Option BufBox) (a : Addr) → has a (work_blocks o ++ a ∷ []) ≡ true
work_self none a = ground arith
work_self (some b) a = ground arith

-- A stream is in a block of its own.
self_has : (s : TcpStream) → has s.self (blocks s) ≡ true
self_has s = ground (arith, work_self s.work_buf s.self)

-- Only objects that no event leads to have changed.
Runs-conns :
    {w : World} (conns : Store Jconnect) (jc : Addr)
    → Runs w
    → lookup jc w.conns ≡ none
    → ((b : Addr) → jc ≢ b → lookup b conns ≡ lookup b w.conns)
    → Runs (record w { conns = conns })
Runs-conns {w} conns jc v fresh others = record {
  inv = v.inv;
  idle = v.idle;
  jc = v.jc;
  conn = v.conn;
  stream = v.stream;
  serves = λ k lk act.
      let p = v.serves k lk act in
      record {
        attached = record {
          event = p.attached.event;
          conn =
              others (v.jc k)
                (λ q. ground (arith, fresh, ap (λ x. lookup x w.conns) q, p.attached.conn))
              ∙ p.attached.conn;
          points = p.attached.points;
          stream = p.attached.stream;
          owns = p.attached.owns;
        };
        open_sock = p.open_sock;
        sock = p.sock;
        call_back = p.call_back;
        in_data = p.in_data;
        in_holds = p.in_holds;
        out_data = p.out_data;
        out_holds = p.out_holds;
      };
  clear = v.clear;
}

module _ {w w' : World} (v : Runs w) (i jc : Addr) (c : Jconnect) (entry : LogEntry)
    (free : first_free w.events max_events 0 ≡ some i) (b : Begun w.memory w.epoll entry i jc c w')
    (alone : Alone i jc b.stream w w') (open_sock : is_neg c.fd ≡ false) where
  begun-Frame : Frame i jc b.stream w w'
  begun-Frame = record {
    inv = b.sending.owned.inv;
    memory = b.sending.owned.others;
    events = alone.events;
    conns = alone.conns;
    streams = alone.streams;
    idle = alone.idle;
  }

  begun-Serving : Serving w' i jc (record c { stream = some b.stream.self }) b.stream
  begun-Serving = record {
    attached = b.attached;
    open_sock = ap is_neg b.sending.socket ∙ open_sock;
    sock = b.sending.socket ∙ sym b.waits.2;
    call_back = inl b.call_back;
    in_data = wire entry;
    in_holds = b.sending.in_holds;
    out_data = [];
    out_holds = b.sending.out_holds;
  }

  -- A new stream has nothing in common with another.
  begun-Clear :
      (fresh : (k : ℕ) → k < max_events → IsActive w k → jc ≢ v.jc k) (k : ℕ)
      → k < max_events
      → i ≢ k
      → IsActive w k
      → Clear jc b.stream (v.jc k) (v.stream k) × Clear (v.jc k) (v.stream k) jc b.stream
  begun-Clear fresh k lk ne act =
      let p = v.serves k lk act in
      let t = v.stream k in
      let used = InUse-has w.memory (blocks t) in
      let new : (a : Addr) → has a (blocks t) ≡ true → has a (blocks b.stream) ≡ false = λ a mine.
        elim (Bool-cases (has a (blocks b.stream))) [
          | inr other ↦ other
          | inl both ↦
              absurd (
                ground
                  (arith, (used a p.attached.owns.in_use mine).1, b.sending.owned.fresh a both))
        ] in
      let old : (a : Addr) → has a (blocks b.stream) ≡ true → has a (blocks t) ≡ false = λ a mine.
        elim (Bool-cases (has a (blocks t))) [
          | inr other ↦ other
          | inl both ↦ absurd (ground (arith, new a both, mine))
        ] in
      let places : b.stream.self ≢ t.self = λ q.
        ground (
          arith,
          ap (λ a. has a (blocks b.stream)) q,
          new t.self (self_has t),
          self_has b.stream,
        ) in
      (
        record { conns = fresh k lk act; places = places; disjoint = new },
        record {
          conns = λ q. fresh k lk act (sym q);
          places = λ q. places (sym q);
          disjoint = old;
        },
      )

-- A new connection whose socket is set up.
begin-Connects :
    (os : Malloc) ⦃gives : Gives os⦄ (out : Outside) (entry : LogEntry) (w : World) (v : Runs w)
    (i jc : Addr) (c : Jconnect)
    → lookup jc w.conns ≡ none
    → first_free w.events max_events 0 ≡ some i
    → Connects out entry jc c (connect_to out.sockets entry.ip.inx_addr entry.ip.flag entry.port)
    → Returns (λ _ w'. Runs w') (create_transaction os out entry w)
unfolding Runs-conns
begin-Connects os out entry w v i jc c fresh free new =
    let fd = connect_to out.sockets entry.ip.inx_addr entry.ip.flag entry.port in
    let c1 = connecting c fd in
    let w1 = record w { conns = put jc c1 (put jc c w.conns) } in
    let v1 : Runs w1 =
      Runs-conns (put jc c1 (put jc c w.conns)) jc v fresh
        (λ b ne. lookup-put_ne jc b c1 (put jc c w.conns) ne ∙ lookup-put_ne jc b c w.conns ne) in
    let alone : (k : ℕ) → k < max_events → IsActive w k → jc ≢ v.jc k = λ k lk act q.
      ground (arith, fresh, ap (λ x. lookup x w.conns) q, (v.serves k lk act).attached.conn) in
    rw (create_transaction-new os out entry w v.idle jc c fd new) (
      mono
        (start_stream-Begun os out entry w1 i jc c1 v.inv (lookup-put_self jc c1 (put jc c w.conns))
          refl free)
        (λ _ w' (b, rest).
          Runs-set v1 i jc _ b.stream (begun-Frame v1 i jc c1 entry free b rest new.open_sock)
            (begun-Serving v1 i jc c1 entry free b rest new.open_sock)
            (λ k lk ne act.
              begun-Clear v1 i jc c1 entry free b rest new.open_sock alone k lk ne act)))

-- create_transaction in a client that runs, where it can begin.
pub create_transaction-Runs :
    (os : Malloc) ⦃gives : Gives os⦄ (out : Outside) (entry : LogEntry) (w : World)
    → Runs w
    → CanBegin w out entry
    → Returns (λ _ w'. Runs w') (create_transaction os out entry w)
create_transaction-Runs os out entry w v can = elim (Option-cases out.conn) [
  | inl nothing ↦ rw (create_transaction-no_object os out entry w v.idle nothing) (returns v)
  | inr found ↦
      let jc = found.0.0 in
      let c = found.0.1 in
      let socket : (w1 : World)
          → create_connect_socket out.sockets entry.ip entry.ip.flag entry.port w1
            ≡ ok (connect_to out.sockets entry.ip.inx_addr entry.ip.flag entry.port) w1 =
        λ w1.
          create_connect_socket-ipv4 out.sockets entry.ip entry.ip.flag entry.port w1 can.ipv4 in
      elim (Bool-cases
        (is_neg (connect_to out.sockets entry.ip.inx_addr entry.ip.flag entry.port))) [
          | inl bad ↦
              rw (create_transaction-no_socket os out entry w v.idle jc c _ found.1 socket bad) (
                returns (
                  Runs-conns (put jc c w.conns) jc v (can.fresh jc c found.1)
                    (λ b ne. lookup-put_ne jc b c w.conns ne)))
          | inr good ↦
              begin-Connects os out entry w v can.event jc c (can.fresh jc c found.1) can.free
                (record { object = found.1; socket = socket; open_sock = good })
        ]
]
