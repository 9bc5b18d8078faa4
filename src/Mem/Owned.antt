-- ===== src/Mem/Owned.antt =====
-- The blocks that a piece of code has come to own since a state `m0` of the allocator.
use jujube.Base.{
  ℕ, ◌≡◌, ◌≢◌, ◌∙◌, sym, refl, ap, true, false, none, some, List, [], ◌∷◌, arith, ◌==◌, has,
  Distinct, ◌⊎◌, Bool-cases, inl, inr,
}
use jujube.Mem.{Addr, Memory, view}
use jujube.Mem.Inv.{Inv}
use jujube.Mem.Spec.{Allocated, Stored}
use jujube.Mem.Batch.{InUse}
use jujube.Mem.Access.{view-apart}

-- The blocks of `l` are distinct, in use, and were not in use in `m0`; the others are as in `m0`.
pub record Owned (m0 : Memory) (l : List Addr) (m : Memory) : Type 0 where
  pub inv : Inv m
  pub distinct : Distinct l
  pub held : (a : Addr) → has a l ≡ true → (xs : List ℕ) × (view m a ≡ some xs)
  pub fresh : (a : Addr) → has a l ≡ true → view m0 a ≡ none
  pub others : (a : Addr) → has a l ≡ false → view m a ≡ view m0 a

pub Owned-nil : {m : Memory} → Inv m → Owned m [] m
Owned-nil v = record {
  inv = v;
  distinct = tt;
  held = λ a h. absurd (cc);
  fresh = λ a h. absurd (cc);
  others = λ a h. refl;
}

module _ {m0 m m' : Memory} {l : List Addr} where
  pub Owned-alloc :
      {size : ℕ} {a : Addr} → Owned m0 l m → Allocated m size a m' → Owned m0 (a ∷ l) m'
  Owned-alloc {a} o got = record {
    inv = got.inv;
    distinct = (unowned, o.distinct);
    held = λ b h. elim (Bool-cases (a == b)) [
      | inl same ↦ (_, ap (view m') (ground arith) ∙ got.zeroed)
      | inr other ↦ let k = o.held b (ground arith) in (k.0, got.others b (λ e. ground arith) ∙ k.1)
    ];
    fresh = λ b h. elim (Bool-cases (a == b)) [
      | inl same ↦ ap (view m0) (ground arith) ∙ (sym (o.others a unowned) ∙ got.fresh)
      | inr other ↦ o.fresh b (ground arith)
    ];
    others = λ b h. got.others b (λ e. ground arith) ∙ o.others b (ground arith);
  }
    where
      unowned : has a l ≡ false
      unowned = elim (Bool-cases (has a l)) [
        | inl mine ↦ absurd (view-apart m got.fresh (o.held a mine).1 refl)
        | inr e ↦ e
      ]

  pub Owned-store :
      {a : Addr} {xs : List ℕ} → has a l ≡ true → Owned m0 l m → Stored m a xs m' → Owned m0 l m'
  Owned-store {a} {xs} mine o s = record {
    inv = s.inv;
    distinct = o.distinct;
    held = λ b h. elim (Bool-cases (a == b)) [
      | inl same ↦ (xs, ap (view m') (ground arith) ∙ s.here)
      | inr other ↦ let k = o.held b h in (k.0, s.others b (λ e. ground arith) ∙ k.1)
    ];
    fresh = o.fresh;
    others = λ b h. s.others b (λ e. ground arith) ∙ o.others b h;
  }

-- The order of the list does not matter.
pub Owned-reorder :
    {m0 m : Memory} {l l' : List Addr}
    → Distinct l'
    → ((a : Addr) → has a l' ≡ has a l)
    → Owned m0 l m
    → Owned m0 l' m
Owned-reorder d e o = record {
  inv = o.inv;
  distinct = d;
  held = λ a h. o.held a (sym (e a) ∙ h);
  fresh = λ a h. o.fresh a (sym (e a) ∙ h);
  others = λ a h. o.others a (sym (e a) ∙ h);
}

module _ {m0 m m' : Memory} {l : List Addr} {a a' : Addr} (v : Inv m') (o : Owned m0 (a ∷ l) m)
    (now : (xs : List ℕ) × (view m' a' ≡ some xs))
    (others : (c : Addr) → a ≢ c → a' ≢ c → view m' c ≡ view m c) where
  -- A block of the list written in place.
  Owned-write : a' ≡ a → Owned m0 (a' ∷ l) m'
  Owned-write e = record {
    inv = v;
    distinct = (ground (arith, o.distinct), o.distinct.1);
    held = λ b h. elim (Bool-cases (a' == b)) [
      | inl same ↦ (now.0, ap (view m') (ground arith) ∙ now.1)
      | inr other ↦
          let k = o.held b (ground arith) in
          (k.0, others b (λ q. ground arith) (λ q. ground arith) ∙ k.1)
    ];
    fresh = λ b h. o.fresh b (ground arith);
    others = λ b h. others b (λ q. ground arith) (λ q. ground arith) ∙ o.others b (ground arith);
  }

  -- A block of the list given up for a new one.
  Owned-replace : view m a' ≡ none → view m' a ≡ none → Owned m0 (a' ∷ l) m'
  Owned-replace new gone = record {
    inv = v;
    distinct = (ground (arith, unowned), o.distinct.1);
    held = λ b h. elim (Bool-cases (a' == b)) [
      | inl same ↦ (now.0, ap (view m') (ground arith) ∙ now.1)
      | inr other ↦
          let k = o.held b (ground arith) in
          (k.0, others b (λ q. ground (arith, o.distinct)) (λ q. ground arith) ∙ k.1)
    ];
    fresh = λ b h. elim (Bool-cases (a' == b)) [
      | inl same ↦ ap (view m0) (ground arith) ∙ (sym (o.others a' unowned) ∙ new)
      | inr other ↦ o.fresh b (ground arith)
    ];
    others = λ b h. elim (Bool-cases (a == b)) [
      | inl same ↦
          let e : a ≡ b = ground arith in
          ap (view m') (sym e) ∙ gone ∙ (sym (o.fresh a (ground arith)) ∙ ap (view m0) e)
      | inr other ↦ others b (λ q. ground arith) (λ q. ground arith) ∙ o.others b (ground arith)
    ];
  }
    where
      unowned : has a' (a ∷ l) ≡ false
      unowned = elim (Bool-cases (has a' (a ∷ l))) [
        | inl mine ↦ absurd (view-apart m new (o.held a' mine).1 refl)
        | inr e ↦ e
      ]

  pub Owned-move : (a' ≡ a) ⊎ ((view m a' ≡ none) × (view m' a ≡ none)) → Owned m0 (a' ∷ l) m'
  Owned-move (inl e) = Owned-write e
  Owned-move (inr (new, gone)) = Owned-replace new gone

Owned-InUse :
    {m0 m : Memory} (l k : List Addr)
    → ((a : Addr) → has a k ≡ true → has a l ≡ true)
    → Owned m0 l m
    → InUse m k
Owned-InUse l [] sub o = tt
Owned-InUse l (a ∷ k) sub o =
    (o.held a (sub a (ground arith)), Owned-InUse l k (λ b h. sub b (ground arith)) o)

pub held-InUse : {m0 m : Memory} (l : List Addr) → Owned m0 l m → InUse m l
held-InUse l o = Owned-InUse l l (λ a h. h) o
