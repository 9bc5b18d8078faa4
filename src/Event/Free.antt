-- ===== src/Event/Free.antt =====
-- evget's search for a free event.
use jujube.Base.{
  ℕ, zero, suc, ◌+◌, ◌≤◌, ◌<◌, ◌≡◌, ◌≢◌, refl, false, Option, none, some, arith, ◌==◌,
  if◌then◌else◌, Bool-cases, inl, inr,
}
use jujube.Base.Int.{minus_one}
use jujube.Base.Run.{ok, Returns, returns}
use jujube.World.{World, Myevent}
use jujube.Event.{max_events, is_wanted, evget_from, evget}

-- The first free event from `i` on, of `n`.
unfoldable pub first_free : (ℕ → Myevent) → (n i : ℕ) → Option ℕ
first_free table zero i = none
first_free table (suc n) i =
    let rest = first_free table n (i + 1) in if (table i).status == 0 then some i else rest

evget_from-first_free :
    (n i : ℕ) (w : World) → evget_from n i minus_one w ≡ ok (first_free w.events n i) w
unfolding evget_from is_wanted first_free
evget_from-first_free zero i w = refl
evget_from-first_free (suc n) i w = ground (arith, evget_from-first_free n (i + 1) w)

pub evget_free : (w : World) → evget minus_one w ≡ ok (first_free w.events max_events 0) w
unfolding evget
evget_free w = evget_from-first_free max_events 0 w

-- What the first free event of a range is.
abbrev pub FirstFree : (ℕ → Myevent) → (i j : ℕ) → Option ℕ → Type 0
FirstFree table i j none = (k : ℕ) → i ≤ k → k < j → (table k).status ≢ 0
FirstFree table i j (some r) =
    ((table r).status ≡ 0) × (i ≤ r) × (r < j) × ((k : ℕ) → i ≤ k → k < r → (table k).status ≢ 0)

FirstFree-down :
    (table : ℕ → Myevent) (i j : ℕ) (found : Option ℕ)
    → ((table i).status == 0) ≡ false
    → FirstFree table (i + 1) j found
    → FirstFree table i j found
FirstFree-down table i j none busy h = λ k l l'. elim (Bool-cases (i == k)) [
  | inl same ↦ ground arith
  | inr other ↦ h k (ground arith) l'
]
FirstFree-down table i j (some r) busy h = (
  h.0,
  omega arith,
  h.2,
  λ k l l'. elim (Bool-cases (i == k)) [
    | inl same ↦ ground arith
    | inr other ↦ h.3 k (ground arith) l'
  ],
)

pub first_free-FirstFree :
    (table : ℕ → Myevent) (n i j : ℕ) → i + n ≡ j → FirstFree table i j (first_free table n i)
unfolding first_free
first_free-FirstFree table zero i j e = λ k h h'. absurd (omega arith)
first_free-FirstFree table (suc n) i j e = elim (Bool-cases ((table i).status == 0)) [
  | inl free ↦ rw free (ground arith, omega arith, omega arith, λ k h h'. absurd (omega arith))
  | inr busy ↦ rw busy (
      FirstFree-down table i j (first_free table n (i + 1)) busy
        (first_free-FirstFree table n (i + 1) j (omega arith)))
]

-- Asked for -1, evget answers with the first event of status 0 among MAX_EVENTS, or with NULL where
-- all of them are in use; it follows no pointer and changes nothing.
pub evget-FirstFree :
    (w : World)
    → Returns (λ found w'. FirstFree w.events 0 max_events found × (w' ≡ w)) (evget minus_one w)
evget-FirstFree w =
    rw (evget_free w)
      (returns (first_free-FirstFree w.events max_events 0 max_events (omega arith), refl))
