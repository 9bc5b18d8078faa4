-- ===== src/Client/After.antt =====
-- A connection in the course of data_transfer: what a flush of its stream leaves as it was.
use jujube.Base.{
  ℕ, ◌+◌, ◌≡◌, ◌≢◌, ◌∙◌, sym, ap, subst, refl, Bool, true, false, some, none, List, [], ◌∷◌, ◌++◌,
  arith, ◌==◌, if◌then◌else◌, has, Distinct, length, length-append, Bool-cases, inl, inr,
}
use jujube.Base.Int.{is_neg}
use jujube.Base.Run.{pure, and_then, Returns, returns, bind}
use jujube.Base.Store.{Store, lookup, put, erase, lookup-put_self}
use jujube.Mem.{Addr, Memory, view}
use jujube.Mem.Batch.{InUse}
use jujube.Stream.{TcpStream, WriteResult, Flushed}
use jujube.Stream.Free.{blocks, work_blocks}
use jujube.Stream.Flush.{Sent, fails}
use jujube.World.{World, Jconnect}
use jujube.Event.Close.{Owns, Attached}
use jujube.Client.{bad_connect, release_stream_from_connect}
use jujube.Client.Release.{Dropped, release_stream_from_connect-Dropped}

erase-put : {A : Type 0} (k : Addr) (v : A) (s : Store A) → erase k (put k v s) ≡ erase k s
unfolding erase put
erase-put k v [] = ground arith
erase-put k v ((j, w) ∷ s) = ground (arith, erase-put k v s)

-- Every block in use stays in use.
pub InUse-mono :
    (m m' : Memory) (l : List Addr)
    → ((b : Addr) (xs : List ℕ) → view m b ≡ some xs → (ys : List ℕ) × (view m' b ≡ some ys))
    → InUse m l
    → InUse m' l
InUse-mono m m' [] k u = tt
InUse-mono m m' (b ∷ l) k u = (k b u.0.0 u.0.1, InUse-mono m m' l k u.1)

module _ (w : World) (i jc : ℕ) (c : Jconnect) (a : Addr) (s : TcpStream)
    (h : Attached w i jc c a s) where
  -- The connection and its stream after a flush.
  abbrev pub flushed_to : Jconnect → TcpStream → Memory → World
  flushed_to c1 s1 m = record w {
    memory = m;
    streams = put a s1 w.streams;
    conns = put jc c1 w.conns;
  }

  abbrev pub stored : TcpStream → Memory → World
  stored s1 m = record w { memory = m; streams = put a s1 w.streams }

  freed_too :
      (m1 m' : Memory) (b : Addr)
      → view m' b ≡ (if has b (blocks s) then none else view m1 b)
      → (s.in_buf.buf.buffer ≢ b → view m1 b ≡ view w.memory b)
      → view m' b ≡ (if has b (blocks s) then none else view w.memory b)
  freed_too m1 m' b e k = elim (Bool-cases (s.in_buf.buf.buffer == b)) [
    | inl same ↦ ground arith
    | inr other ↦ e ∙ ap (λ v. if has b (blocks s) then none else v) (k (λ q. ground arith))
  ]

  Dropped-after :
      (w1 : World) (c1 : Jconnect) (s1 : TcpStream) (w' : World)
      → blocks s1 ≡ blocks s
      → ((b : Addr) → s.in_buf.buf.buffer ≢ b → view w1.memory b ≡ view w.memory b)
      → w1.streams ≡ put a s1 w.streams
      → ((b : Addr) → jc ≢ b → lookup b w1.conns ≡ lookup b w.conns)
      → c1.fd ≡ c.fd
      → w1.closed ≡ w.closed
      → w1.idle ≡ w.idle
      → w1.events ≡ w.events
      → Dropped w1 i jc c1 a s1 w'
      → Dropped w i jc c a s w'
  Dropped-after w1 c1 s1 w' eb ev es ec efd ecl eid eev d = record {
    memory = record {
      inv = d.memory.inv;
      rule = λ b.
          freed_too w1.memory w'.memory b
            (subst (λ l. view w'.memory b ≡ (if has b l then none else view w1.memory b)) eb
              (d.memory.rule b))
            (ev b);
    };
    streams = d.streams ∙ (ap (erase a) es ∙ erase-put a s1 w.streams);
    gone = d.gone;
    others = λ b ne. d.others b ne ∙ ec b ne;
    closed = d.closed ∙ (rw (efd, ecl) refl);
    idle = d.idle ∙ eid;
    inactive = d.inactive;
    events = λ k ne. d.events k ne ∙ ap (λ e. e k) eev;
  }

  module _ (xs : List ℕ) (writes : List WriteResult) (cur : ℕ) (out : Flushed) (m : Memory)
      (t : Sent w.memory s xs writes cur 0 out m) where
    same_blocks : blocks out.stream ≡ blocks s
    same_blocks =
        ap blocks t.same
        ∙ ap
            (λ x.
              x
              ∷ s.in_buf.self
              ∷ s.out_buf.buf.buffer
              ∷ s.out_buf.self
              ∷ (work_blocks s.work_buf ++ s.self ∷ []))
            t.block

    kept :
        (b : Addr) (ys : List ℕ) → view w.memory b ≡ some ys → (zs : List ℕ) × (view m b ≡ some zs)
    kept b ys e = elim (Bool-cases (s.in_buf.buf.buffer == b)) [
      | inl same ↦ (t.holds.bytes, ap (view m) (ground (arith, t.block)) ∙ t.holds.block)
      | inr other ↦ (ys, t.others b (λ q. ground arith) ∙ e)
    ]

    pub Owns-after : Owns m out.stream
    Owns-after = record {
      inv = t.inv;
      distinct = subst Distinct (sym same_blocks) h.owns.distinct;
      in_use =
          subst (InUse m) (sym same_blocks) (InUse-mono w.memory m (blocks s) kept h.owns.in_use);
    }

    pub Attached-stored : Attached (stored out.stream m) i jc c a out.stream
    Attached-stored = record {
      event = h.event;
      conn = h.conn;
      points = h.points;
      stream = lookup-put_self a out.stream w.streams;
      owns = Owns-after;
    }

    -- What is left of the message.
    pub left : length out.wire + length t.rest ≡ length xs
    left = sym (length-append out.wire t.rest) ∙ ap length t.split

    -- The end of the connection, in a world with the stream as it is after the flush.
    pub drop_after :
        (now : ℕ) (w1 : World) (c1 : Jconnect)
        → Attached w1 i jc c1 a out.stream
        → w1.memory ≡ m
        → w1.streams ≡ put a out.stream w.streams
        → ((b : Addr) → jc ≢ b → lookup b w1.conns ≡ lookup b w.conns)
        → c1.fd ≡ c.fd
        → w1.closed ≡ w.closed
        → w1.idle ≡ w.idle
        → w1.events ≡ w.events
        → Returns
            (λ go w'. (go ≡ false) × Dropped w i jc c a s w')
            (and_then (release_stream_from_connect now i bad_connect w1) (λ _. pure false))
    drop_after now w1 c1 att em es ec efd ecl eid eev =
        bind (release_stream_from_connect-Dropped now w1 i jc c1 a out.stream att) (λ _ w' d.
          returns (
            refl,
            Dropped-after w1 c1 out.stream w' same_blocks
                (λ b ne. ap (λ n. view n b) em ∙ t.others b ne) es ec efd ecl eid eev d,
          ))

    pub code_lem : (b : Bool) → fails writes cur ≡ b → is_neg out.code ≡ b
    code_lem true e = ap is_neg t.code ∙ ground arith
    code_lem false e = ap is_neg t.code ∙ ground arith
