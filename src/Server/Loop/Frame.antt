-- ===== src/Server/Loop/Frame.antt =====
-- What the active events of the server lead to, and what a change at one event leaves to the others.
use jujube.Base.{
  ℕ, ◌<◌, ◌≡◌, ◌≢◌, ◌∙◌, sym, ap, true, false, Option, some, List, [], ◌∷◌, arith, ◌==◌, has,
  Bool-cases, inl, inr,
}
use jujube.Base.Int.{is_neg}
use jujube.Base.Store.{lookup}
use jujube.Mem.{Addr, Memory, view}
use jujube.Mem.Inv.{Inv}
use jujube.Mem.Batch.{InUse}
use jujube.Buf.Holds.{Holds, Holds-keep}
use jujube.Stream.{TcpStream, mid_http_buf_size}
use jujube.Stream.Free.{blocks}
use jujube.World.{World, Jconnect, data_transfer}
use jujube.Event.{max_events}
use jujube.Event.Close.{Owns}
use jujube.Event.Epoll.{Registered}
use jujube.Event.Sound.{IsActive}
use jujube.Server.Ready.{Work, idle, busy, HasWork}
use jujube.Server.Safe.{Phase}

-- A connection, its place, and its stream with its place.
pub record Spot : Type 0 where
  pub jc : Addr
  pub conn : Jconnect
  pub place : Addr
  pub stream : TcpStream

-- The event waits, by data_transfer, on the open socket of a stream which has all that the server
-- needs, owns its blocks, and has nothing to send; `xs` is in its `out_buf`.
pub record Serving (w : World) (i : ℕ) (p : Spot) : Type 0 where
  pub event : (w.events i).jc ≡ some p.jc
  pub call_back : (w.events i).call_back ≡ data_transfer
  pub sock : p.stream.server_sock ≡ (w.events i).fd
  pub conn : lookup p.jc w.conns ≡ some p.conn
  pub points : p.conn.stream ≡ some p.place
  pub stream : lookup p.place w.streams ≡ some p.stream
  pub owns : Owns w.memory p.stream
  pub xs : List ℕ
  pub out : Holds w.memory p.stream.out_buf.buf xs
  pub room : p.stream.out_buf.buf.buf_len ≡ mid_http_buf_size
  pub open_sock : is_neg p.stream.server_sock ≡ false
  pub part : Option (List ℕ)
  pub work : Work w.memory p.stream part
  pub phase : Phase p.stream part
  pub quiet : p.stream.in_buf.buf.data_len ≡ 0

-- Two connections and their streams with nothing in common.
pub record Clear (p q : Spot) : Type 0 where
  pub conns : p.jc ≢ q.jc
  pub places : p.place ≢ q.place
  pub disjoint : (c : Addr) → has c (blocks q.stream) ≡ true → has c (blocks p.stream) ≡ false

-- Only the event `i`, and the stream of `p` with its blocks, have changed.
pub record Frame (i : ℕ) (p : Spot) (w w' : World) : Type 0 where
  pub inv : Inv w'.memory
  pub memory :
      (c : Addr) (xs : List ℕ)
      → has c (blocks p.stream) ≡ false
      → view w.memory c ≡ some xs
      → view w'.memory c ≡ some xs
  pub events : (k : ℕ) → i ≢ k → w'.events k ≡ w.events k
  pub conns : w'.conns ≡ w.conns
  pub streams : (b : Addr) → p.place ≢ b → lookup b w'.streams ≡ lookup b w.streams
  pub registry : Registered w → IsActive w i → Registered w'

InUse-keep :
    (m m' : Memory) (l : List Addr)
    → ((c : Addr) (xs : List ℕ) → has c l ≡ true → view m c ≡ some xs → view m' c ≡ some xs)
    → InUse m l
    → InUse m' l
InUse-keep m m' [] keep u = tt
InUse-keep m m' (c ∷ l) keep u = (
  (u.0.0, keep c u.0.0 (ground arith) u.0.1),
  InUse-keep m m' l (λ b xs h. keep b xs (ground arith)) u.1,
)

pub InUse-has :
    (m : Memory) (l : List Addr) (c : Addr)
    → InUse m l
    → has c l ≡ true
    → (xs : List ℕ) × (view m c ≡ some xs)
InUse-has m [] c u h = absurd (ground (arith, h))
InUse-has m (b ∷ l) c u h = elim (Bool-cases (c == b)) [
  | inl same ↦ (u.0.0, ap (view m) (ground arith) ∙ u.0.1)
  | inr other ↦ InUse-has m l c u.1 (ground arith)
]

work_block :
    (s : TcpStream) {m : Memory} {got : List ℕ} (w : HasWork m s got)
    → has w.box.buf.buffer (blocks s) ≡ true
work_block s w = ground (arith, w.there)

Work-keep :
    (m m' : Memory) (s : TcpStream) {o : Option (List ℕ)}
    → ((c : Addr) (xs : List ℕ)
        → has c (blocks s) ≡ true
        → view m c ≡ some xs
        → view m' c ≡ some xs)
    → Work m s o
    → Work m' s o
Work-keep m m' s keep (idle e) = idle e
Work-keep m m' s keep (busy w) = busy (record {
  box = w.box;
  there = w.there;
  holds =
      Holds-keep w.holds (keep _ w.holds.bytes (work_block s w) w.holds.block ∙ sym w.holds.block);
  long = w.long;
})

-- Another event serves on.
pub Serving-Frame :
    {i : ℕ} {p q : Spot} {w w' : World} (k : ℕ)
    → i ≢ k
    → Frame i p w w'
    → Clear p q
    → Serving w k q
    → Serving w' k q
Serving-Frame {q = q} {w = w} {w' = w'} k ne f d v =
    let keep : (c : Addr) (xs : List ℕ)
        → has c (blocks q.stream) ≡ true
        → view w.memory c ≡ some xs
        → view w'.memory c ≡ some xs =
      λ c xs h. f.memory c xs (d.disjoint c h) in
    let event = f.events k ne in
    record {
      event = ap (λ e. e.jc) event ∙ v.event;
      call_back = ap (λ e. e.call_back) event ∙ v.call_back;
      sock = v.sock ∙ ap (λ e. e.fd) (sym event);
      conn = ap (lookup q.jc) f.conns ∙ v.conn;
      points = v.points;
      stream = f.streams q.place d.places ∙ v.stream;
      owns = record {
        inv = f.inv;
        distinct = v.owns.distinct;
        in_use = InUse-keep w.memory w'.memory (blocks q.stream) keep v.owns.in_use;
      };
      xs = v.xs;
      out = Holds-keep v.out (
          keep q.stream.out_buf.buf.buffer v.out.bytes (ground arith) v.out.block
          ∙ sym v.out.block);
      room = v.room;
      open_sock = v.open_sock;
      part = v.part;
      work = Work-keep w.memory w'.memory q.stream keep v.work;
      phase = v.phase;
      quiet = v.quiet;
    }

-- The server runs: the active events of the table serve connections of their own, by a table of
-- these, and the requests to epoll_ctl(2) so far are ones that it accepts.
pub record Runs (w : World) : Type 0 where
  pub inv : Inv w.memory
  pub registry : Registered w
  pub spot : ℕ → Spot
  pub serves : (k : ℕ) → k < max_events → IsActive w k → Serving w k (spot k)
  pub clear :
      (j k : ℕ)
      → j < max_events
      → k < max_events
      → j ≢ k
      → IsActive w j
      → IsActive w k
      → Clear (spot j) (spot k)

-- An event is over, or serves a stream of its own.
pub data Outcome (i : ℕ) (p : Spot) (w w' : World) : Type 0 where
  ended : Frame i p w w' → ((w'.events i).status == 1) ≡ false → Outcome i p w w'
  serving :
      (s : TcpStream)
      → Frame i p w w'
      → Serving w' i (record p { stream = s })
      → ((c : Addr) (xs : List ℕ)
          → has c (blocks p.stream) ≡ false
          → view w.memory c ≡ some xs
          → has c (blocks s) ≡ false)
      → Outcome i p w w'

pub Outcome-Frame : {i : ℕ} {p : Spot} {w w' : World} → Outcome i p w w' → Frame i p w w'
Outcome-Frame (ended f over) = f
Outcome-Frame (serving s f v apart) = f
