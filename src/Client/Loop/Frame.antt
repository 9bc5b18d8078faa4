-- ===== src/Client/Loop/Frame.antt =====
-- What the active events of the client lead to, and what a change at one event leaves to the others.
use jujube.Base.{
  ℕ, ◌<◌, ◌≡◌, ◌≢◌, ◌⊎◌, ◌∙◌, sym, ap, subst, true, false, List, [], ◌∷◌, arith, ◌==◌,
  if◌then◌else◌, has, Bool-cases, inl, inr,
}
use jujube.Base.Int.{is_neg}
use jujube.Base.Store.{lookup}
use jujube.Mem.{Addr, Memory, view}
use jujube.Mem.Inv.{Inv}
use jujube.Mem.Batch.{InUse}
use jujube.Buf.Holds.{Holds, Holds-keep}
use jujube.Stream.{TcpStream}
use jujube.Stream.Free.{blocks}
use jujube.World.{World, Jconnect, connect_cb, data_transfer}
use jujube.Event.{max_events}
use jujube.Event.Close.{Attached}
use jujube.Event.Sound.{IsActive}

-- The event waits on the open socket of a stream with its buffers, which owns its blocks.
pub record Serving (w : World) (i jc : ℕ) (c : Jconnect) (s : TcpStream) : Type 0 where
  pub attached : Attached w i jc c s.self s
  pub open_sock : is_neg s.server_sock ≡ false
  pub sock : s.server_sock ≡ (w.events i).fd
  pub call_back : ((w.events i).call_back ≡ connect_cb) ⊎ ((w.events i).call_back ≡ data_transfer)
  pub in_data : List ℕ
  pub in_holds : Holds w.memory s.in_buf.buf in_data
  pub out_data : List ℕ
  pub out_holds : Holds w.memory s.out_buf.buf out_data

-- Two connections and their streams with nothing in common.
pub record Clear (jc : Addr) (s : TcpStream) (jc' : Addr) (s' : TcpStream) : Type 0 where
  pub conns : jc ≢ jc'
  pub places : s.self ≢ s'.self
  pub disjoint : (c : Addr) → has c (blocks s') ≡ true → has c (blocks s) ≡ false

-- Only the event `i`, the connection `jc`, and the stream `s` with its blocks have changed.
pub record Frame (i jc : Addr) (s : TcpStream) (w w' : World) : Type 0 where
  pub inv : Inv w'.memory
  pub memory : (c : Addr) → has c (blocks s) ≡ false → view w'.memory c ≡ view w.memory c
  pub events : (k : ℕ) → i ≢ k → w'.events k ≡ w.events k
  pub conns : (b : Addr) → jc ≢ b → lookup b w'.conns ≡ lookup b w.conns
  pub streams : (b : Addr) → s.self ≢ b → lookup b w'.streams ≡ lookup b w.streams
  pub idle : w'.idle ≡ w.idle

pub Frame-trans :
    {i jc : Addr} {s : TcpStream} {w w1 w' : World}
    → Frame i jc s w w1
    → Frame i jc s w1 w'
    → Frame i jc s w w'
Frame-trans f g = record {
  inv = g.inv;
  memory = λ c h. g.memory c h ∙ f.memory c h;
  events = λ k ne. g.events k ne ∙ f.events k ne;
  conns = λ b ne. g.conns b ne ∙ f.conns b ne;
  streams = λ b ne. g.streams b ne ∙ f.streams b ne;
  idle = g.idle ∙ f.idle;
}

InUse-same :
    (m m' : Memory) (l : List Addr)
    → ((c : Addr) → has c l ≡ true → view m' c ≡ view m c)
    → InUse m l
    → InUse m' l
InUse-same m m' [] e u = tt
InUse-same m m' (c ∷ l) e u =
    ((u.0.0, e c (ground arith) ∙ u.0.1), InUse-same m m' l (λ b h. e b (ground arith)) u.1)

-- Another event serves on.
Serving-Frame :
    {i jc jc' : Addr} {s s' : TcpStream} {c' : Jconnect} {w w' : World} (k : ℕ)
    → i ≢ k
    → Frame i jc s w w'
    → Clear jc s jc' s'
    → Serving w k jc' c' s'
    → Serving w' k jc' c' s'
Serving-Frame {s = s} {s' = s'} {w = w} {w' = w'} k ne f d p =
    let same : (c : Addr) → has c (blocks s') ≡ true → view w'.memory c ≡ view w.memory c =
      λ c h. f.memory c (d.disjoint c h) in
    let event = f.events k ne in
    record {
      attached = record {
        event = ap (λ e. e.jc) event ∙ p.attached.event;
        conn = f.conns _ d.conns ∙ p.attached.conn;
        points = p.attached.points;
        stream = f.streams _ d.places ∙ p.attached.stream;
        owns = record {
          inv = f.inv;
          distinct = p.attached.owns.distinct;
          in_use = InUse-same w.memory w'.memory (blocks s') same p.attached.owns.in_use;
        };
      };
      open_sock = p.open_sock;
      sock = p.sock ∙ ap (λ e. e.fd) (sym event);
      call_back =
          subst (λ e. (e.call_back ≡ connect_cb) ⊎ (e.call_back ≡ data_transfer)) (sym event)
            p.call_back;
      in_data = p.in_data;
      in_holds = Holds-keep p.in_holds (same s'.in_buf.buf.buffer (ground arith));
      out_data = p.out_data;
      out_holds = Holds-keep p.out_holds (same s'.out_buf.buf.buffer (ground arith));
    }

-- The client runs: no connection is idle, and the active events serve connections of their own, by
-- a table of these.
pub record Runs (w : World) : Type 0 where
  pub inv : Inv w.memory
  pub idle : w.idle ≡ []
  pub jc : ℕ → Addr
  pub conn : ℕ → Jconnect
  pub stream : ℕ → TcpStream
  pub serves : (k : ℕ) → k < max_events → IsActive w k → Serving w k (jc k) (conn k) (stream k)
  pub clear :
      (j k : ℕ)
      → j < max_events
      → k < max_events
      → j ≢ k
      → IsActive w j
      → IsActive w k
      → Clear (jc j) (stream j) (jc k) (stream k)

module _ {w w' : World} (v : Runs w) (i : ℕ) where
  -- Another event that is active was so before.
  was-IsActive :
      {jc : Addr} {s : TcpStream} (k : ℕ) → Frame i jc s w w' → i ≢ k → IsActive w' k → IsActive w k
  was-IsActive k f ne active = ap (λ e. e.status == 1) (sym (f.events k ne)) ∙ active

  -- An event is over.
  pub Runs-ended :
      i < max_events
      → IsActive w i
      → Frame i (v.jc i) (v.stream i) w w'
      → ((w'.events i).status == 1) ≡ false
      → Runs w'
  Runs-ended lt active f over =
      let other : (k : ℕ) → IsActive w' k → i ≢ k = λ k act q. ground (arith, over, act, q) in
      record {
        inv = f.inv;
        idle = f.idle ∙ v.idle;
        jc = v.jc;
        conn = v.conn;
        stream = v.stream;
        serves = λ k lk act.
            let ne = other k act in
            let act' = was-IsActive k f ne act in
            Serving-Frame k ne f (v.clear i k lt lk ne active act') (v.serves k lk act');
        clear = λ j k lj lk ne actj actk.
            v.clear j k lj lk ne (was-IsActive j f (other j actj) actj)
              (was-IsActive k f (other k actk) actk);
      }

  -- An event serves, which may have done so before.
  module _ (jc : Addr) (c : Jconnect) (s : TcpStream) (f : Frame i jc s w w')
      (new : Serving w' i jc c s)
      (apart : (k : ℕ)
        → k < max_events
        → i ≢ k
        → IsActive w k
        → Clear jc s (v.jc k) (v.stream k) × Clear (v.jc k) (v.stream k) jc s) where
    set-Serving :
        (k : ℕ)
        → k < max_events
        → IsActive w' k
        → Serving w' k
            (if i == k then jc else v.jc k)
            (if i == k then c else v.conn k)
            (if i == k then s else v.stream k)
    set-Serving k lk act = elim (Bool-cases (i == k)) [
      | inl same ↦ rw same (subst (λ x. Serving w' x jc c s) (ground arith) new)
      | inr differs ↦
          let ne : i ≢ k = ground arith in
          let act' = was-IsActive k f ne act in
          rw differs (Serving-Frame k ne f (apart k lk ne act').0 (v.serves k lk act'))
    ]

    set-Clear :
        (j k : ℕ)
        → j < max_events
        → k < max_events
        → j ≢ k
        → IsActive w' j
        → IsActive w' k
        → Clear
            (if i == j then jc else v.jc j)
            (if i == j then s else v.stream j)
            (if i == k then jc else v.jc k)
            (if i == k then s else v.stream k)
    set-Clear j k lj lk ne actj actk = elim (Bool-cases (i == j)) [
      | inl same ↦
          let differs : (i == k) ≡ false = ground arith in
          let ne' : i ≢ k = ground arith in
          rw (same, differs) (apart k lk ne' (was-IsActive k f ne' actk)).0
      | inr differs ↦ elim (Bool-cases (i == k)) [
        | inl same ↦
            let ne' : i ≢ j = ground arith in
            rw (differs, same) (apart j lj ne' (was-IsActive j f ne' actj)).1
        | inr differs' ↦
            let nj : i ≢ j = ground arith in
            let nk : i ≢ k = ground arith in
            rw (differs, differs')
              (v.clear j k lj lk ne (was-IsActive j f nj actj) (was-IsActive k f nk actk))
      ]
    ]

    pub Runs-set : Runs w'
    Runs-set = record {
      inv = f.inv;
      idle = f.idle ∙ v.idle;
      jc = λ k. if i == k then jc else v.jc k;
      conn = λ k. if i == k then c else v.conn k;
      stream = λ k. if i == k then s else v.stream k;
      serves = set-Serving;
      clear = set-Clear;
    }
