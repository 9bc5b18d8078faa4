-- ===== src/Base/Store.antt =====
-- A finite map with numbers for keys, as an association list.
use Prim.Native.Nat.{ℕ}
use mathlib.Core.Path.{◌≡◌, refl}
use mathlib.Core.Logic.{◌≢◌}
use mathlib.Core.Option.{Option, none, some}
use mathlib.Core.List.{List, [], ◌∷◌}
use native.Mathlib.Omega.{arith}
use jujube.Base.Tests.{◌==◌, if◌then◌else◌}

abbrev pub Store {ℓ} : Type ℓ → Type ℓ
Store A = List (ℕ × A)

module _ {ℓ} {A : Type ℓ} where
  unfoldable pub lookup : ℕ → Store A → Option A
  lookup k [] = none
  lookup k ((j, v) ∷ s) = if j == k then some v else lookup k s

  unfoldable pub put : ℕ → A → Store A → Store A
  put k v [] = (k, v) ∷ []
  put k v ((j, w) ∷ s) = if j == k then (k, v) ∷ s else (j, w) ∷ put k v s

  pub lookup-put :
      (k j : ℕ) (v : A) (s : Store A)
      → lookup j (put k v s) ≡ (if k == j then some v else lookup j s)
  unfolding lookup put
  lookup-put k j v [] = refl
  lookup-put k j v ((i, w) ∷ s) = ground (arith, lookup-put k j v s)

  pub lookup-put_self : (k : ℕ) (v : A) (s : Store A) → lookup k (put k v s) ≡ some v
  lookup-put_self k v s = ground (arith, lookup-put k k v s)

  pub lookup-put_ne : (k j : ℕ) (v : A) (s : Store A) → k ≢ j → lookup j (put k v s) ≡ lookup j s
  lookup-put_ne k j v s h = ground (arith, lookup-put k j v s)

  -- Drops the first entry of the key.
  unfoldable pub erase : ℕ → Store A → Store A
  erase k [] = []
  erase k ((j, w) ∷ s) = let rest = erase k s in if j == k then rest else (j, w) ∷ rest

  pub lookup-erase :
      (k j : ℕ) (s : Store A) → lookup j (erase k s) ≡ (if k == j then none else lookup j s)
  unfolding lookup erase
  lookup-erase k j [] = ground arith
  lookup-erase k j ((i, w) ∷ s) = ground (arith, lookup-erase k j s)
