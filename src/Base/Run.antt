-- ===== src/Base/Run.antt =====
-- Commands over a state. `abort` is a failed `assert`, `fault` an access to what is no live object.
use mathlib.Core.Bool.{Bool, true, false}
use mathlib.Core.Path.{◌≡◌, refl, subst, ◌∙◌}

pub data Run (S A : Type 0) : Type 0 where
  ok : A → S → Run S A
  abort : Run S A
  fault : Run S A

abbrev pub Cmd : Type 0 → Type 0 → Type 0
Cmd S A = S → Run S A

abbrev pub pure : {S A : Type 0} → A → Cmd S A
pure a s = ok a s

abbrev pub and_then : {S A B : Type 0} → Run S A → (A → Cmd S B) → Run S B
and_then (ok a s) k = k a s
and_then abort k = abort
and_then fault k = fault

infixl 5 ◌>>=◌ ◌>>◌
abbrev pub ◌>>=◌ : {S A B : Type 0} → Cmd S A → (A → Cmd S B) → Cmd S B
m >>= k = λ s. and_then (m s) k

abbrev pub ◌>>◌ : {S A B : Type 0} → Cmd S A → Cmd S B → Cmd S B
m >> k = m >>= λ _. k

-- Total correctness of a run: it neither aborts nor faults, and what it returns satisfies `P`.
pub data Returns {S A : Type 0} (P : A → S → Type 0) : Run S A → Type 0 where
  returns : {a : A} {s : S} → P a s → Returns P (ok a s)

module _ {S A : Type 0} {P : A → S → Type 0} where
  pub bind :
      {B : Type 0} {Q : B → S → Type 0} {r : Run S A} {k : A → Cmd S B}
      → Returns P r
      → ((a : A) (s : S) → P a s → Returns Q (k a s))
      → Returns Q (and_then r k)
  bind (returns p) next = next _ _ p

  pub mono :
      {Q : A → S → Type 0} {r : Run S A}
      → Returns P r
      → ((a : A) (s : S) → P a s → Q a s)
      → Returns Q r
  mono (returns p) weaken = returns (weaken _ _ p)

  -- What follows a run has one result.
  pub and_then_const :
      {B : Type 0} {x : Run S B} {r : Run S A} {k : A → Cmd S B}
      → Returns P r
      → ((a : A) (s : S) → P a s → k a s ≡ x)
      → and_then r k ≡ x
  and_then_const (returns p) next = next _ _ p

  pub value : {r : Run S A} → Returns P r → (a : A) × (s : S) × (r ≡ ok a s) × P a s
  value (returns {a} {s} p) = (a, s, refl, p)

-- What is known of a run is known of its result.
result : {S A : Type 0} {P : A → S → Type 0} {a : A} {s : S} → Returns P (ok a s) → P a s
result (returns p) = p

pub result_of :
    {S A : Type 0} {P : A → S → Type 0} {r : Run S A} {a : A} {s : S}
    → Returns P r
    → r ≡ ok a s
    → P a s
result_of {P = P} run e = result (subst (Returns P) e run)

pub and_then_assoc :
    {S A B C : Type 0} (r : Run S A) (k : A → Cmd S B) (l : B → Cmd S C)
    → and_then (and_then r k) l ≡ and_then r (λ a s. and_then (k a s) l)
and_then_assoc (ok a s) k l = refl
and_then_assoc abort k l = refl
and_then_assoc fault k l = refl

pub and_then-pure : {S : Type 0} (r : Run S (Unit {0})) → and_then r (λ _. pure tt) ≡ r
and_then-pure (ok a s) = refl
and_then-pure abort = refl
and_then-pure fault = refl

-- A run whose result is known: it returns with `P` where a test holds, and fails an assertion where
-- it does not.
pub data Ends {S A : Type 0} (fine : Bool) (P : A → S → Type 0) (r : Run S A) : Type 0 where
  goes : fine ≡ true → Returns P r → Ends fine P r
  stops : fine ≡ false → r ≡ abort → Ends fine P r

pub Ends-mono :
    {S A : Type 0} {P Q : A → S → Type 0} {r : Run S A} {fine fine' : Bool}
    → fine' ≡ fine
    → Ends fine P r
    → ((a : A) (s : S) → P a s → Q a s)
    → Ends fine' Q r
Ends-mono e (goes f run) weaken = goes (e ∙ f) (mono run weaken)
Ends-mono e (stops f aborts) weaken = stops (e ∙ f) aborts
