-- ===== src/Ip/Reads.antt =====
-- What dotted_to_ipaddr reads out of a text that it accepts.
use jujube.Base.{
  eq_of_==, ℕ, zero, suc, ◌+◌, ◌-◌, ◌*◌, ◌%◌, ◌^◌, ◌<◌, ◌≤◌, ◌≡◌, ◌≢◌, ◌∙◌, sym, ap, true, false,
  some, List, [], ◌∷◌, ◌++◌, ◌==◌, arith, take, drop, length, take-append-drop, Option-cases,
  Bool-cases, inl, inr, subst, refl,
}
use mathlib.Core.Option.{some-injective}
use jujube.Base.Int.{pos}
use jujube.Print.{AllDigits, decimal, decimal_from}
use jujube.Ip.{
  Str, parse_parts, parse_checked, one_byte, my_atoi, skip_zeros, digits_value, leading_digits,
  first_is_digit, split_dot, print_dotted, dotted_to_ipaddr, check_symbol, has_double_dot,
  all_digits_dots,
}

-- The number that a part stands for, as an `int`, and that a byte can hold.
abbrev pub Value : Str → ℕ → Type 0
Value p b = (b ≡ decimal p % 2 ^ 32) × (b ≤ 255)

-- A text of `n` parts with dots behind them and a last part, each of them digits and the last not
-- empty, and the bytes that they stand for.
pub data Reads : ℕ → Str → List ℕ → Type 0 where
  last : (p : Str) {b : ℕ} → AllDigits p → 0 < length p → Value p b → Reads zero p (b ∷ [])
  part :
      {n : ℕ} (p : Str) {s : Str} {b : ℕ} {bs : List ℕ}
      → AllDigits p
      → Value p b
      → Reads n s bs
      → Reads (suc n) (p ++ b'.' ∷ s) (b ∷ bs)

digits_value-decimal : (p : Str) (acc : ℕ) → AllDigits p → digits_value p acc ≡ decimal_from acc p
unfolding digits_value decimal_from
digits_value-decimal [] acc h = refl
digits_value-decimal (c ∷ p) acc h =
    ground (arith, digits_value-decimal p (acc * 10 + (c - b'0')) h.2)

skip_zeros-decimal :
    (p : Str) → AllDigits p → AllDigits (skip_zeros p) × (decimal (skip_zeros p) ≡ decimal p)
unfolding skip_zeros decimal decimal_from
skip_zeros-decimal [] h = (tt, refl)
skip_zeros-decimal (c ∷ p) h = elim (Bool-cases (c == b'0')) [
  | inr other ↦ rw other (h, refl)
  | inl zero_digit ↦
      let (d, e) = skip_zeros-decimal p h.2 in
      let none_yet : 0 ≡ 0 * 10 + (c - b'0') = ground arith in
      rw zero_digit (d, e ∙ ap (λ n. decimal_from n p) none_yet)
]

one_byte-Value : (p : Str) {b : ℕ} → AllDigits p → one_byte p ≡ some b → Value p b
unfolding one_byte my_atoi decimal
one_byte-Value p h e =
    let (d, same) = skip_zeros-decimal p h in
    let value = digits_value-decimal (skip_zeros p) 0 d ∙ same in
    (ground (arith, value), ground arith)

-- Digits and dots without a dot are digits.
no_dot-AllDigits : (p : Str) → all_digits_dots p ≡ true → check_symbol p b'.' ≡ 0 → AllDigits p
unfolding all_digits_dots check_symbol
no_dot-AllDigits [] all none_there = tt
no_dot-AllDigits (c ∷ p) all none_there = elim (Bool-cases (c == b'.')) [
  | inl dot ↦ absurd (ground (arith, none_there))
  | inr other ↦ (ground arith, ground arith, no_dot-AllDigits p (ground arith) (ground arith))
]

check_symbol-append :
    (p q : Str) → check_symbol (p ++ q) b'.' ≡ check_symbol p b'.' + check_symbol q b'.'
unfolding check_symbol
check_symbol-append [] q = omega arith
check_symbol-append (c ∷ p) q = omega (arith, check_symbol-append p q)

all_digits_dots-append :
    (p q : Str)
    → all_digits_dots (p ++ q) ≡ true
    → (all_digits_dots p ≡ true) × (all_digits_dots q ≡ true)
unfolding all_digits_dots
all_digits_dots-append [] q h = (refl, h)
all_digits_dots-append (c ∷ p) q h =
    let both = all_digits_dots-append p q (ground arith) in (ground (arith, both.0), both.1)

-- What stands on both sides of the first dot.
record SplitAt (s p q : Str) : Type 0 where
  whole : s ≡ p ++ b'.' ∷ q
  no_dot : check_symbol p b'.' ≡ 0

SplitAt-pair :
    {s p q : Str} (r : Str × Str) → SplitAt s r.0 r.1 → some r ≡ some (p, q) → SplitAt s p q
SplitAt-pair {s} {p} {q} r h e =
    let same = some-injective r (p, q) e in subst (λ x. SplitAt s x.0 x.1) same h

split_dot-SplitAt : (s : Str) {p q : Str} → split_dot s ≡ some (p, q) → SplitAt s p q
unfolding split_dot check_symbol
split_dot-SplitAt [] h = absurd (ground arith)
split_dot-SplitAt (c ∷ s) h = elim (Bool-cases (c == b'.')) [
  | inl dot ↦
      SplitAt-pair ([], s) (record { whole = ap (λ x. x ∷ s) (eq_of_== c b'.' dot); no_dot = refl })
        (ground arith)
  | inr other ↦ elim (Option-cases (split_dot s)) [
    | inl missing ↦ absurd (ground arith)
    | inr ((p1, q1), found) ↦
        let at = split_dot-SplitAt s found in
        SplitAt-pair (c ∷ p1, q1)
          (record { whole = ap (◌∷◌ c) at.whole; no_dot = ground (arith, at.no_dot) })
          (ground arith)
  ]
]

-- A text that is read has a dot for each part but the last.
parse_parts-dots :
    (n : ℕ) (s : Str) {bs : List ℕ} → parse_parts n s ≡ some bs → n ≤ check_symbol s b'.'
unfolding parse_parts check_symbol
parse_parts-dots zero s h = omega arith
parse_parts-dots (suc n) s h = elim (Option-cases (split_dot s)) [
  | inl missing ↦ absurd (ground arith)
  | inr ((p, q), dot) ↦ elim (Option-cases (parse_parts n q)) [
    | inl bad ↦ absurd (ground arith)
    | inr (bs, good) ↦
        let at = split_dot-SplitAt s dot in
        omega (
          arith,
          ap (λ x. check_symbol x b'.') at.whole,
          check_symbol-append p (b'.' ∷ q),
          parse_parts-dots n q good,
        )
  ]
]

leading_digits-all : (p : Str) → AllDigits p → leading_digits p ≡ p
unfolding leading_digits
leading_digits-all [] h = refl
leading_digits-all (c ∷ p) h = ground (arith, leading_digits-all p h.2)

first_is_digit-some : (p : Str) → first_is_digit p ≡ true → 0 < length p
unfolding first_is_digit
first_is_digit-some [] h = absurd (ground arith)
first_is_digit-some (c ∷ p) h = omega arith

parse_parts-last : (s : Str) {bs : List ℕ} → AllDigits s → parse_parts 0 s ≡ some bs → Reads 0 s bs
unfolding parse_parts
parse_parts-last s {bs} d h = elim (Bool-cases (first_is_digit s)) [
  | inr other ↦ absurd (ground arith)
  | inl digit ↦ elim (Option-cases (one_byte (leading_digits s))) [
    | inl big ↦ absurd (ground arith)
    | inr (b, small) ↦
        let e : bs ≡ b ∷ [] = ground arith in
        let whole : one_byte s ≡ some b = ap one_byte (sym (leading_digits-all s d)) ∙ small in
        rw e (last s d (first_is_digit-some s digit) (one_byte-Value s d whole))
  ]
]

parse_parts-Reads :
    (n : ℕ) (s : Str) {bs : List ℕ}
    → all_digits_dots s ≡ true
    → check_symbol s b'.' ≡ n
    → parse_parts n s ≡ some bs
    → Reads n s bs
unfolding parse_parts check_symbol all_digits_dots
parse_parts-Reads zero s all dots h = parse_parts-last s (no_dot-AllDigits s all dots) h
parse_parts-Reads (suc n) s {bs} all dots h = elim (Option-cases (split_dot s)) [
  | inl missing ↦ absurd (ground arith)
  | inr ((p, q), dot) ↦ elim (Option-cases (one_byte p)) [
    | inl big ↦ absurd (ground arith)
    | inr (b, small) ↦ elim (Option-cases (parse_parts n q)) [
      | inl bad ↦ absurd (ground arith)
      | inr (cs, good) ↦
          let e : bs ≡ b ∷ cs = ground arith in
          let at = split_dot-SplitAt s dot in
          let both =
            all_digits_dots-append p (b'.' ∷ q) (ap all_digits_dots (sym at.whole) ∙ all) in
          let d = no_dot-AllDigits p both.0 at.no_dot in
          let behind : check_symbol q b'.' ≡ n = omega (
            arith,
            dots,
            at.no_dot,
            ap (λ x. check_symbol x b'.') at.whole,
            check_symbol-append p (b'.' ∷ q),
          ) in
          rw (e, at.whole)
            (part p d (one_byte-Value p d small)
              (parse_parts-Reads n q (ground (arith, both.1)) behind good))
    ]
  ]
]

-- Two dots in a row are found wherever they are.
has_double_dot-there : (p q : Str) → has_double_dot (p ++ b'.' ∷ b'.' ∷ q) ≡ true
unfolding has_double_dot
has_double_dot-there [] q = refl
has_double_dot-there (c ∷ []) q = ground (arith, has_double_dot-there [] q)
has_double_dot-there (c ∷ d ∷ p) q =
    ground (arith, has_double_dot-there p q, has_double_dot-there (d ∷ p) q)

-- A text that dotted_to_ipaddr accepts has no two dots in a row. Its first 19 bytes, all that are
-- read, are three parts with a dot behind each and a last part, all of digits, the last not empty, and
-- what is behind them are digits; the address has the four numbers that the parts stand for, each of
-- them up to 255, as an `int`; and the text written back is the address's.
pub dotted_to_ipaddr-Reads :
    (s : Str)
    → (dotted_to_ipaddr s).code ≡ pos 1
    → Reads 3 (take 19 s) (dotted_to_ipaddr s).addr
      × AllDigits (drop 19 s)
      × ((p q : Str) → s ≢ p ++ b'.' ∷ b'.' ∷ q)
      × ((dotted_to_ipaddr s).text ≡ print_dotted (dotted_to_ipaddr s).addr)
unfolding dotted_to_ipaddr parse_checked
dotted_to_ipaddr-Reads s h = elim (Option-cases (parse_parts 3 (take 19 s))) [
  | inl bad ↦ absurd (ground arith)
  | inr (bs, good) ↦
      let dots : check_symbol s b'.' ≡ 3 = ground arith in
      let single : has_double_dot s ≡ false = ground arith in
      let all : all_digits_dots s ≡ true = ground arith in
      let pieces = take-append-drop 19 s in
      let both = all_digits_dots-append (take 19 s) (drop 19 s) (ap all_digits_dots pieces ∙ all) in
      let sum =
        sym (check_symbol-append (take 19 s) (drop 19 s))
        ∙ ap (λ x. check_symbol x b'.') pieces
        ∙ dots in
      let least = parse_parts-dots 3 (take 19 s) good in
      let read = parse_parts-Reads 3 (take 19 s) both.0 (omega (arith, sum, least)) good in
      (
        subst (Reads 3 (take 19 s)) (ground arith) read,
        no_dot-AllDigits (drop 19 s) both.1 (omega (arith, sum, least)),
        λ p q e. ground (arith, single, ap has_double_dot e, has_double_dot-there p q),
        ground arith,
      )
]
