-- ===== src/Base/Lists.antt =====
-- Lists measured and indexed by native numbers, under the library's names.
use Prim.Native.Nat.{ℕ, zero, suc, ◌+◌, ◌-◌, ◌≤◌, min}
use mathlib.Core.Path.{◌≡◌, refl, sym, ap, ◌∙◌}
use mathlib.Core.List.{List, [], ◌∷◌, ◌++◌}
use mathlib.Core.Option.{Option, none, some}
use mathlib.Core.Bool.{Bool, true, false, ◌||◌}
use native.Mathlib.Omega.{arith}
use jujube.Base.Tests.{◌==◌, if◌then◌else◌}

module _ {ℓ} {A : Type ℓ} where
  abbrev pub length : List A → ℕ
  length [] = 0
  length (x ∷ xs) = suc (length xs)

  abbrev pub get_elem? : List A → ℕ → Option A
  get_elem? [] i = none
  get_elem? (x ∷ xs) zero = some x
  get_elem? (x ∷ xs) (suc i) = get_elem? xs i

  abbrev pub set : List A → ℕ → A → List A
  set [] i v = []
  set (x ∷ xs) zero v = v ∷ xs
  set (x ∷ xs) (suc i) v = x ∷ set xs i v

  abbrev pub take : ℕ → List A → List A
  take zero xs = []
  take (suc n) [] = []
  take (suc n) (x ∷ xs) = x ∷ take n xs

  abbrev pub drop : ℕ → List A → List A
  drop zero xs = xs
  drop (suc n) [] = []
  drop (suc n) (x ∷ xs) = drop n xs

  unfoldable pub replicate : ℕ → A → List A
  replicate zero a = []
  replicate (suc n) a = a ∷ replicate n a

module _ {ℓ} {A : Type ℓ} where
  pub length-append : (xs ys : List A) → length (xs ++ ys) ≡ length xs + length ys
  length-append [] ys = omega arith
  length-append (x ∷ xs) ys = omega (arith, length-append xs ys)

  pub take-append-drop : (n : ℕ) (xs : List A) → take n xs ++ drop n xs ≡ xs
  take-append-drop zero xs = refl
  take-append-drop (suc n) [] = refl
  take-append-drop (suc n) (x ∷ xs) = ap (◌∷◌ x) (take-append-drop n xs)

  pub length-take : (n : ℕ) (xs : List A) → length (take n xs) ≡ min n (length xs)
  length-take zero xs = omega arith
  length-take (suc n) [] = omega arith
  length-take (suc n) (x ∷ xs) = omega (arith, length-take n xs)

  pub length-take_le : (n : ℕ) (xs : List A) → n ≤ length xs → length (take n xs) ≡ n
  length-take_le n xs h = omega (arith, length-take n xs)

  pub length-drop : (n : ℕ) (xs : List A) → length (drop n xs) ≡ length xs - n
  length-drop zero xs = omega arith
  length-drop (suc n) [] = omega arith
  length-drop (suc n) (x ∷ xs) = omega (arith, length-drop n xs)

  pub length-replicate : (n : ℕ) (a : A) → length (replicate n a) ≡ n
  unfolding replicate
  length-replicate zero a = refl
  length-replicate (suc n) a = ap suc (length-replicate n a)

  pub length-set : (xs : List A) (i : ℕ) (v : A) → length (set xs i v) ≡ length xs
  length-set [] i v = refl
  length-set (x ∷ xs) zero v = refl
  length-set (x ∷ xs) (suc i) v = ap suc (length-set xs i v)

  -- Taking no more than the first part of an append.
  pub take-append_le : (n : ℕ) (xs ys : List A) → n ≤ length xs → take n (xs ++ ys) ≡ take n xs
  take-append_le zero xs ys h = refl
  take-append_le (suc n) [] ys h = absurd (omega arith)
  take-append_le (suc n) (x ∷ xs) ys h = ap (◌∷◌ x) (take-append_le n xs ys (omega arith))

  -- Taking the first part of an append and `k` entries more.
  pub take-append_add :
      (n k : ℕ) (xs ys : List A) → n ≡ length xs → take (n + k) (xs ++ ys) ≡ xs ++ take k ys
  take-append_add n k [] ys h = let e : n + k ≡ k = omega arith in ap (λ j. take j ys) e
  take-append_add n k (x ∷ xs) ys h =
      let e : n + k ≡ suc (length xs + k) = omega arith in
      ap (λ j. take j (x ∷ xs ++ ys)) e ∙ ap (◌∷◌ x) (take-append_add (length xs) k xs ys refl)

  pub take_all : (n : ℕ) (xs : List A) → length xs ≤ n → take n xs ≡ xs
  take_all zero [] h = refl
  take_all zero (x ∷ xs) h = absurd (omega arith)
  take_all (suc n) [] h = refl
  take_all (suc n) (x ∷ xs) h = ap (◌∷◌ x) (take_all n xs (omega arith))

  pub drop_all : (n : ℕ) (xs : List A) → length xs ≤ n → drop n xs ≡ []
  drop_all zero [] h = refl
  drop_all zero (x ∷ xs) h = absurd (omega arith)
  drop_all (suc n) [] h = refl
  drop_all (suc n) (x ∷ xs) h = drop_all n xs (omega arith)

  -- Dropping no more than the first part of an append.
  pub drop-append_le :
      (n : ℕ) (xs ys : List A) → n ≤ length xs → drop n (xs ++ ys) ≡ drop n xs ++ ys
  drop-append_le zero xs ys h = refl
  drop-append_le (suc n) [] ys h = absurd (omega arith)
  drop-append_le (suc n) (x ∷ xs) ys h = drop-append_le n xs ys (omega arith)

-- `ys` over what stands at `off` in `xs`.
abbrev pub splice {ℓ} : {A : Type ℓ} → List A → ℕ → List A → List A
splice xs off ys = take off xs ++ (ys ++ drop (off + length ys) xs)

module _ {ℓ} {A : Type ℓ} where
  pub length-splice :
      (xs : List A) (off : ℕ) (ys : List A)
      → off + length ys ≤ length xs
      → length (splice xs off ys) ≡ length xs
  length-splice xs off ys h = omega (
    arith,
    length-append (take off xs) (ys ++ drop (off + length ys) xs),
    length-append ys (drop (off + length ys) xs),
    length-take off xs,
    length-drop (off + length ys) xs,
  )

  -- What stands below `off + length ys` after the write.
  pub take-splice :
      (xs : List A) (off : ℕ) (ys : List A)
      → off ≤ length xs
      → take (off + length ys) (splice xs off ys) ≡ take off xs ++ ys
  take-splice xs off ys h =
      take-append_add off (length ys) (take off xs) (ys ++ drop (off + length ys) xs)
        (sym (length-take_le off xs h))
      ∙ ap (◌++◌ (take off xs))
          (take-append_le (length ys) ys _ (omega arith) ∙ take_all (length ys) ys (omega arith))

-- Membership of numbers as a test, and lists without repetition.
abbrev pub has : ℕ → List ℕ → Bool
has a [] = false
has a (x ∷ xs) = (x == a) || has a xs

abbrev pub Distinct : List ℕ → Type 0
Distinct [] = Unit {0}
Distinct (x ∷ xs) = (has x xs ≡ false) × Distinct xs

-- Drops the first occurrence.
unfoldable pub remove : ℕ → List ℕ → List ℕ
remove a [] = []
remove a (x ∷ xs) = if x == a then xs else x ∷ remove a xs

pub has-append : (a : ℕ) (xs ys : List ℕ) → has a (xs ++ ys) ≡ (has a xs || has a ys)
has-append a [] ys = refl
has-append a (x ∷ xs) ys = ground (arith, has-append a xs ys)

-- Of a list without repetition `remove` takes the one occurrence.
pub has-remove :
    (a b : ℕ) (xs : List ℕ)
    → Distinct xs
    → has b (remove a xs) ≡ (if a == b then false else has b xs)
unfolding remove
has-remove a b [] d = ground arith
has-remove a b (x ∷ xs) d = ground (arith, has-remove a b xs d.1)

pub remove-Distinct : (a : ℕ) (xs : List ℕ) → Distinct xs → Distinct (remove a xs)
unfolding remove
remove-Distinct a [] d = tt
remove-Distinct a (x ∷ xs) d = ground (arith, has-remove a x xs d.1, remove-Distinct a xs d.1)

pub append-Distinct :
    (a : ℕ) (xs : List ℕ) → Distinct xs → has a xs ≡ false → Distinct (xs ++ a ∷ [])
append-Distinct a [] d h = (refl, tt)
append-Distinct a (x ∷ xs) d h = ground (arith, has-append x xs (a ∷ []), append-Distinct a xs d.1)

pub length-remove : (a : ℕ) (xs : List ℕ) → has a xs ≡ true → length (remove a xs) + 1 ≡ length xs
unfolding remove
length-remove a [] h = cc
length-remove a (x ∷ xs) h = ground (arith, length-remove a xs)

-- A prefix copied to the front of a list.
pub copied_prefix :
    (zs xs : List ℕ) (n : ℕ)
    → n ≤ length xs
    → n ≤ length zs
    → (take n (splice zs 0 (take n xs)) ≡ take n xs)
      × (length (splice zs 0 (take n xs)) ≡ length zs)
copied_prefix zs xs n h k =
    let e = length-take_le n xs h in
    (
      ap (λ j. take j (splice zs 0 (take n xs))) (omega arith)
          ∙ take-splice zs 0 (take n xs) (omega arith),
      length-splice zs 0 (take n xs) (omega arith),
    )

module _ {ℓ} {A : Type ℓ} where
  pub take-drop : (n k : ℕ) (xs : List A) → take k (drop n xs) ≡ drop n (take (n + k) xs)
  take-drop zero k xs = let e : 0 + k ≡ k = omega arith in rw e
  take-drop (suc n) k [] =
      take_all k [] (omega arith)
      ∙ sym (
          drop_all (suc n) (take (suc n + k) [])
            (omega (arith, length-take {A = A} (suc n + k) [])))
  take-drop (suc n) k (x ∷ xs) =
      let e : suc n + k ≡ suc (n + k) = omega arith in rw e (take-drop n k xs)

  -- A list written at the front can be taken back.
  pub take-splice_front : (zs ys : List A) (n : ℕ) → length ys ≡ n → take n (splice zs 0 ys) ≡ ys
  take-splice_front zs ys n e =
      let e' : n ≡ 0 + length ys = omega arith in rw e' (take-splice zs 0 ys (omega arith))

pub take-take {ℓ} : {A : Type ℓ} (n k : ℕ) (xs : List A) → n ≤ k → take n (take k xs) ≡ take n xs
take-take zero k xs h = refl
take-take (suc n) zero xs h = absurd (omega arith)
take-take (suc n) (suc k) [] h = refl
take-take (suc n) (suc k) (x ∷ xs) h = ap (◌∷◌ x) (take-take n k xs (omega arith))
