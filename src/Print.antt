-- ===== src/Print.antt =====
-- snprintf(3) as the code uses it. A text is the list of its bytes; `int` and `u_int64_t` are their
-- 32-bit and 64-bit patterns.
use native.Mathlib.Nat.{pow-succ'}
use jujube.Base.{
  ℕ, zero, suc, ◌+◌, ◌-◌, ◌*◌, ◌/◌, ◌%◌, ◌^◌, ◌<◌, ◌≤◌, ◌≡◌, refl, Option, none, some, List, [],
  ◌∷◌, ◌++◌, arith, ltb, leb, ◌==◌, if◌then◌else◌, true, false, Bool-cases, inl, inr, length, take,
  splice, length-append, length-take, length-splice,
}

-- `%lu`, by the number of digits there may be; 20 are enough below 2 ^ 64.
unfoldable pub print_digits : ℕ → ℕ → List ℕ
print_digits zero n = []
print_digits (suc fuel) n =
    let front = print_digits fuel (n / 10) in
    if ltb n 10 then (b'0' + n) ∷ [] else front ++ (b'0' + n % 10) ∷ []

unfoldable pub print_unsigned : ℕ → List ℕ
print_unsigned n = print_digits 20 n

-- `%d`
unfoldable pub print_int : ℕ → List ℕ
print_int n = if ltb n (2 ^ 31) then print_unsigned n else b'-' ∷ print_unsigned (2 ^ 32 - n)

-- snprintf(3) of a text to an offset of an array, given the size `n`; none where it writes behind the
-- array.
unfoldable pub snprintf : List ℕ → (off n : ℕ) → List ℕ → Option (List ℕ)
snprintf buff off n text =
    let out = take (n - 1) text ++ 0 ∷ [] in
    if n == 0
    then some buff
    else if leb (off + length out) (length buff)
    then some (splice buff off out)
    else none

-- What snprintf(3) writes to the rest of an array.
pub snprintf-rest :
    (buff : List ℕ) (off : ℕ) (text : List ℕ)
    → off < length buff
    → (snprintf buff off (length buff - off) text
        ≡ some (splice buff off (take (length buff - off - 1) text ++ 0 ∷ [])))
      × (length (splice buff off (take (length buff - off - 1) text ++ 0 ∷ [])) ≡ length buff)
unfolding snprintf
snprintf-rest buff off text lt =
    let n = length buff - off in
    let out = take (n - 1) text ++ 0 ∷ [] in
    let size : off + length out ≤ length buff =
      omega (arith, length-append (take (n - 1) text) (0 ∷ []), length-take (n - 1) text) in
    let some_room : (n == 0) ≡ false = ground arith in
    let within : leb (off + length out) (length buff) ≡ true = ground (arith, size) in
    (rw (some_room, within) refl, length-splice buff off out size)

-- The number that digits stand for, behind digits that stand for `n`.
unfoldable pub decimal_from : ℕ → List ℕ → ℕ
decimal_from n [] = n
decimal_from n (x ∷ xs) = decimal_from (n * 10 + (x - b'0')) xs

unfoldable pub decimal : List ℕ → ℕ
decimal = decimal_from 0

decimal_from-append :
    (n : ℕ) (xs ys : List ℕ) → decimal_from n (xs ++ ys) ≡ decimal_from (decimal_from n xs) ys
unfolding decimal_from
decimal_from-append n [] ys = refl
decimal_from-append n (x ∷ xs) ys = decimal_from-append (n * 10 + (x - b'0')) xs ys

-- Enough digits are all of the number.
decimal-print_digits : (fuel n : ℕ) → n < 10 ^ fuel → decimal (print_digits fuel n) ≡ n
unfolding decimal decimal_from print_digits
decimal-print_digits zero n lt = omega (arith, lt)
decimal-print_digits (suc fuel) n lt = elim (Bool-cases (ltb n 10)) [
  | inl small ↦ rw small (omega arith)
  | inr large ↦
      let ten : 10 ^ suc fuel ≡ 10 * 10 ^ fuel = pow-succ' 10 fuel in
      let front = print_digits fuel (n / 10) in
      let whole : decimal front ≡ n / 10 =
        decimal-print_digits fuel (n / 10) (omega (arith, lt, ten)) in
      rw (large, decimal_from-append 0 front ((b'0' + n % 10) ∷ []), whole) (omega arith)
]

abbrev pub AllDigits : List ℕ → Type 0
AllDigits [] = Unit {0}
AllDigits (x ∷ xs) = (b'0' ≤ x) × (x ≤ b'9') × AllDigits xs

-- A text of digits that stand for a number.
pub record Decimal (n : ℕ) (xs : List ℕ) : Type 0 where
  pub digits : AllDigits xs
  pub value : decimal xs ≡ n
  pub some_digits : 0 < length xs

AllDigits-append : (xs ys : List ℕ) → AllDigits xs → AllDigits ys → AllDigits (xs ++ ys)
AllDigits-append [] ys h g = g
AllDigits-append (x ∷ xs) ys h g = (h.0, h.1, AllDigits-append xs ys h.2 g)

print_digits-AllDigits : (fuel n : ℕ) → AllDigits (print_digits fuel n)
unfolding print_digits
print_digits-AllDigits zero n = tt
print_digits-AllDigits (suc fuel) n = elim (Bool-cases (ltb n 10)) [
  | inl small ↦ rw small (omega arith, ground (arith, small), tt)
  | inr large ↦ rw large (
      AllDigits-append (print_digits fuel (n / 10)) ((b'0' + n % 10) ∷ [])
        (print_digits-AllDigits fuel (n / 10)) (omega arith, omega arith, tt))
]

print_digits-some : (fuel n : ℕ) → 0 < length (print_digits (suc fuel) n)
unfolding print_digits
print_digits-some fuel n = elim (Bool-cases (ltb n 10)) [
  | inl small ↦ rw small (omega arith)
  | inr large ↦
      let front = print_digits fuel (n / 10) in
      rw large (omega (arith, length-append front ((b'0' + n % 10) ∷ [])))
]

pub print_unsigned-Decimal : (n : ℕ) → n < 2 ^ 64 → Decimal n (print_unsigned n)
unfolding print_unsigned
print_unsigned-Decimal n lt = record {
  digits = print_digits-AllDigits 20 n;
  value = decimal-print_digits 20 n (omega (arith, lt));
  some_digits = print_digits-some 19 n;
}

-- The text of an `int`, by its 32-bit pattern.
pub data Signed (n : ℕ) : List ℕ → Type 0 where
  plus : {xs : List ℕ} → n < 2 ^ 31 → Decimal n xs → Signed n xs
  minus_sign : {xs : List ℕ} → 2 ^ 31 ≤ n → Decimal (2 ^ 32 - n) xs → Signed n (b'-' ∷ xs)

pub print_int-Signed : (n : ℕ) → Signed n (print_int n)
unfolding print_int
print_int-Signed n = elim (Bool-cases (ltb n (2 ^ 31))) [
  | inl small ↦
      let lt : n < 2 ^ 31 = ground (arith, small) in
      rw small (plus lt (print_unsigned-Decimal n (omega (arith, lt))))
  | inr large ↦
      rw large
        (minus_sign (ground (arith, large)) (print_unsigned-Decimal (2 ^ 32 - n) (omega arith)))
]
