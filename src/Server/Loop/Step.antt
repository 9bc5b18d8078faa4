-- ===== src/Server/Loop/Step.antt =====
-- A step at one event of a server that runs.
use jujube.Base.{
  ℕ, ◌<◌, ◌≡◌, ◌≢◌, ◌∙◌, sym, ap, subst, false, some, List, arith, ◌==◌, if◌then◌else◌, has,
  Bool-cases, inl, inr,
}
use jujube.Mem.{Addr, view}
use jujube.Stream.{TcpStream}
use jujube.Stream.Free.{blocks}
use jujube.World.{World}
use jujube.Event.{max_events}
use jujube.Event.Sound.{IsActive}
use jujube.Server.Loop.Frame.{
  Spot, Serving, Clear, Frame, Runs, Outcome, ended, serving, Serving-Frame, InUse-has,
}

module _ {w w' : World} (v : Runs w) (i : ℕ) (lt : i < max_events) (active : IsActive w i) where
  -- Another event that is active was so before.
  was-IsActive : {p : Spot} (k : ℕ) → Frame i p w w' → i ≢ k → IsActive w' k → IsActive w k
  was-IsActive k f ne act = ap (λ e. e.status == 1) (sym (f.events k ne)) ∙ act

  Runs-ended : Frame i (v.spot i) w w' → ((w'.events i).status == 1) ≡ false → Runs w'
  Runs-ended f over =
      let other : (k : ℕ) → IsActive w' k → i ≢ k = λ k act q. ground (arith, over, act, q) in
      record {
        inv = f.inv;
        registry = f.registry v.registry active;
        spot = v.spot;
        serves = λ k lk act.
            let ne = other k act in
            let act' = was-IsActive k f ne act in
            Serving-Frame k ne f (v.clear i k lt lk ne active act') (v.serves k lk act');
        clear = λ j k lj lk ne actj actk.
            v.clear j k lj lk ne (was-IsActive j f (other j actj) actj)
              (was-IsActive k f (other k actk) actk);
      }

  module _ (s : TcpStream) (f : Frame i (v.spot i) w w')
      (new : Serving w' i (record (v.spot i) { stream = s }))
      (apart : (c : Addr) (xs : List ℕ)
        → has c (blocks (v.spot i).stream) ≡ false
        → view w.memory c ≡ some xs
        → has c (blocks s) ≡ false) where
    abbrev at : Spot
    at = record (v.spot i) { stream = s }

    abbrev spots : ℕ → Spot
    spots k = if i == k then at else v.spot k

    -- The stream has nothing in common with another.
    new-Clear : (k : ℕ) → k < max_events → i ≢ k → IsActive w k → Clear at (v.spot k)
    new-Clear k lk ne act =
        let d = v.clear i k lt lk ne active act in
        let t = (v.spot k).stream in
        record {
          conns = d.conns;
          places = d.places;
          disjoint = λ c mine.
              let (xs, e) = InUse-has w.memory (blocks t) c (v.serves k lk act).owns.in_use mine in
              apart c xs (d.disjoint c mine) e;
        }

    Clear-sym : {p q : Spot} → Clear p q → Clear q p
    Clear-sym {p} {q} d = record {
      conns = λ e. d.conns (sym e);
      places = λ e. d.places (sym e);
      disjoint = λ c h. elim (Bool-cases (has c (blocks q.stream))) [
        | inl both ↦ absurd (ground (arith, d.disjoint c both, h))
        | inr other ↦ other
      ];
    }

    set-Serving : (k : ℕ) → k < max_events → IsActive w' k → Serving w' k (spots k)
    set-Serving k lk act = elim (Bool-cases (i == k)) [
      | inl same ↦ rw same (subst (λ x. Serving w' x at) (ground arith) new)
      | inr differs ↦
          let ne : i ≢ k = ground arith in
          let act' = was-IsActive k f ne act in
          rw differs (Serving-Frame k ne f (v.clear i k lt lk ne active act') (v.serves k lk act'))
    ]

    set-Clear :
        (j k : ℕ)
        → j < max_events
        → k < max_events
        → j ≢ k
        → IsActive w' j
        → IsActive w' k
        → Clear (spots j) (spots k)
    set-Clear j k lj lk ne actj actk = elim (Bool-cases (i == j)) [
      | inl same ↦
          let differs : (i == k) ≡ false = ground arith in
          let ne' : i ≢ k = ground arith in
          rw (same, differs) (new-Clear k lk ne' (was-IsActive k f ne' actk))
      | inr differs ↦
          let nj : i ≢ j = ground arith in
          elim (Bool-cases (i == k)) [
            | inl same ↦
                rw (differs, same) (Clear-sym (new-Clear j lj nj (was-IsActive j f nj actj)))
            | inr differs' ↦
                let nk : i ≢ k = ground arith in
                rw (differs, differs')
                  (v.clear j k lj lk ne (was-IsActive j f nj actj) (was-IsActive k f nk actk))
          ]
    ]

    Runs-set : Runs w'
    Runs-set = record {
      inv = f.inv;
      registry = f.registry v.registry active;
      spot = spots;
      serves = set-Serving;
      clear = set-Clear;
    }

pub Runs-Outcome :
    {w w' : World} (v : Runs w) (i : ℕ)
    → i < max_events
    → IsActive w i
    → Outcome i (v.spot i) w w'
    → Runs w'
Runs-Outcome v i lt active (ended f over) = Runs-ended v i lt active f over
Runs-Outcome v i lt active (serving s f new apart) = Runs-set v i lt active s f new apart
