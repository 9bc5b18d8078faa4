-- ===== src/Ip/Print.antt =====
-- The text that dotted_to_ipaddr writes back, read again.
use jujube.Base.{
  ℕ, suc, ◌+◌, ◌≤◌, ◌≡◌, ◌∙◌, sym, ap, refl, true, false, some, List, [], ◌∷◌, ◌++◌, arith, length,
  length-append, take_all, ◌==◌,
}
use mathlib.Core.List.{append-nil}
use jujube.Base.Int.{pos}
use jujube.Ip.{
  Str, is_digit, is_blank, skip_blanks, count_words, get_str_num, check_blank, check_symbol,
  skip_zeros, digits_value, my_atoi, has_double_dot, all_digits_dots, split_dot, leading_digits,
  first_is_digit, one_byte, parse_parts, print_byte, print_dotted, parse_checked, dotted_to_ipaddr,
}

abbrev Digits : Str → Type 0
Digits [] = Unit {0}
Digits (c ∷ s) = (is_digit c ≡ true) × Digits s

-- At least one digit, and nothing else.
abbrev Numeral : Str → Type 0
Numeral [] = ⊥
Numeral (c ∷ s) = (is_digit c ≡ true) × Digits s

Numeral-Digits : (p : Str) → Numeral p → Digits p
Numeral-Digits [] h = absurd h
Numeral-Digits (c ∷ p) h = h

check_symbol-Digits : (p r : Str) → Digits p → check_symbol (p ++ r) b'.' ≡ check_symbol r b'.'
unfolding check_symbol
check_symbol-Digits [] r d = refl
check_symbol-Digits (c ∷ p) r (h, d) = ground (arith, check_symbol-Digits p r d)

all_digits_dots-Digits : (p r : Str) → Digits p → all_digits_dots (p ++ r) ≡ all_digits_dots r
unfolding all_digits_dots
all_digits_dots-Digits [] r d = refl
all_digits_dots-Digits (c ∷ p) r (h, d) = ground (arith, all_digits_dots-Digits p r d)

double_dot-digit : (c : ℕ) (r : Str) → is_digit c ≡ true → has_double_dot (c ∷ r) ≡ has_double_dot r
unfolding has_double_dot
double_dot-digit c [] h = refl
double_dot-digit c (d ∷ r) h = ground arith

double_dot-Digits : (p r : Str) → Digits p → has_double_dot (p ++ r) ≡ has_double_dot r
double_dot-Digits [] r d = refl
double_dot-Digits (c ∷ p) r (h, d) = double_dot-digit c (p ++ r) h ∙ double_dot-Digits p r d

-- A dot before a number.
double_dot-dot : (p r : Str) → Numeral p → has_double_dot (b'.' ∷ (p ++ r)) ≡ has_double_dot r
unfolding has_double_dot
double_dot-dot [] r d = absurd d
double_dot-dot (c ∷ p) r (h, d) = ground (arith, double_dot-Digits p r d)

split_dot-Digits : (p r : Str) → Digits p → split_dot (p ++ (b'.' ∷ r)) ≡ some (p, r)
unfolding split_dot
split_dot-Digits [] r d = refl
split_dot-Digits (c ∷ p) r (h, d) =
    let other : (c == b'.') ≡ false = ground arith in rw (other, split_dot-Digits p r d) refl

leading_digits-Digits : (p : Str) → Digits p → leading_digits p ≡ p
unfolding leading_digits
leading_digits-Digits [] d = refl
leading_digits-Digits (c ∷ p) (h, d) = rw (h, leading_digits-Digits p d) refl

first_is_digit-Numeral : (p : Str) → Numeral p → first_is_digit p ≡ true
unfolding first_is_digit
first_is_digit-Numeral [] d = absurd d
first_is_digit-Numeral (c ∷ p) (h, d) = h

-- A text of digits and dots is one word.
count_words-one : (s : Str) (k i : ℕ) → all_digits_dots s ≡ true → count_words s (suc k) i ≡ i
unfolding count_words all_digits_dots is_blank
count_words-one [] k i h = refl
count_words-one (c ∷ s) k i h =
    let visible : is_blank c ≡ false = ground arith in
    let longer : suc k + 1 ≡ suc (suc k) = omega arith in
    let old : (suc k == 0) ≡ false = ground arith in
    rw (visible, longer, old) (count_words-one s (suc k) i (ground arith))

check_blank-one :
    (p r : Str) → Numeral p → all_digits_dots (p ++ r) ≡ true → check_blank (some (p ++ r)) ≡ pos 1
unfolding check_blank get_str_num skip_blanks count_words is_blank all_digits_dots
check_blank-one [] r d all = absurd d
check_blank-one (c ∷ p) r (h, d) all =
    let visible : is_blank c ≡ false = ground arith in
    let one = count_words-one (p ++ r) 0 1 (ground arith) in ground (arith, one, visible)

-- The three lengths of a printed byte.
print_byte-Numeral : (n : ℕ) → n ≤ 255 → Numeral (print_byte n) × (length (print_byte n) ≤ 3)
unfolding print_byte
print_byte-Numeral n h = ground arith

one_byte-print_byte : (n : ℕ) → n ≤ 255 → one_byte (print_byte n) ≡ some n
unfolding one_byte my_atoi print_byte skip_zeros digits_value
one_byte-print_byte n h = ground arith

parse_parts-some :
    (n : ℕ) (s : Str) {part rest : Str} {b : ℕ} {bs : List ℕ}
    → split_dot s ≡ some (part, rest)
    → one_byte part ≡ some b
    → parse_parts n rest ≡ some bs
    → parse_parts (suc n) s ≡ some (b ∷ bs)
unfolding parse_parts
parse_parts-some n s e eb es = rw (parse_parts, e, eb, es) refl

last_part-some :
    (t : Str) {b : ℕ} → Numeral t → one_byte t ≡ some b → parse_parts 0 (t ++ []) ≡ some (b ∷ [])
unfolding parse_parts
last_part-some t nt e =
    rw (append-nil t, first_is_digit-Numeral t nt, leading_digits-Digits t (Numeral-Digits t nt), e)
      refl

-- A text that passes every test.
dotted_to_ipaddr-some :
    (s : Str) (bs : List ℕ)
    → check_blank (some s) ≡ pos 1
    → check_symbol s b'.' ≡ 3
    → has_double_dot s ≡ false
    → all_digits_dots s ≡ true
    → length s ≤ 19
    → parse_parts 3 s ≡ some bs
    → dotted_to_ipaddr s ≡ record { code = pos 1; addr = bs; text = print_dotted bs }
unfolding dotted_to_ipaddr parse_checked
dotted_to_ipaddr-some s bs blank dots double all short parts =
    let whole = take_all 19 s short in
    rw (blank, dots, double, all, parse_checked, whole, parts) refl

-- Four numbers with dots between them.
abbrev dotted : Str → Str → Str → Str → Str
dotted p q r t = p ++ (b'.' ∷ (q ++ (b'.' ∷ (r ++ (b'.' ∷ (t ++ []))))))

module _ (p q r t : Str) (np : Numeral p) (nq : Numeral q) (nr : Numeral r) (nt : Numeral t) where
  dotted-all_digits_dots : all_digits_dots (dotted p q r t) ≡ true
  unfolding all_digits_dots
  dotted-all_digits_dots =
      rw
        (
          all_digits_dots-Digits p (b'.' ∷ (q ++ (b'.' ∷ (r ++ (b'.' ∷ (t ++ []))))))
              (Numeral-Digits p np),
          all_digits_dots-Digits q (b'.' ∷ (r ++ (b'.' ∷ (t ++ [])))) (Numeral-Digits q nq),
          all_digits_dots-Digits r (b'.' ∷ (t ++ [])) (Numeral-Digits r nr),
          all_digits_dots-Digits t [] (Numeral-Digits t nt),
        )
        refl

  dotted-check_symbol : check_symbol (dotted p q r t) b'.' ≡ 3
  unfolding check_symbol
  dotted-check_symbol =
      rw
        (
          check_symbol-Digits p (b'.' ∷ (q ++ (b'.' ∷ (r ++ (b'.' ∷ (t ++ []))))))
              (Numeral-Digits p np),
          check_symbol-Digits q (b'.' ∷ (r ++ (b'.' ∷ (t ++ [])))) (Numeral-Digits q nq),
          check_symbol-Digits r (b'.' ∷ (t ++ [])) (Numeral-Digits r nr),
          check_symbol-Digits t [] (Numeral-Digits t nt),
        )
        refl

  dotted-double_dot : has_double_dot (dotted p q r t) ≡ false
  unfolding has_double_dot
  dotted-double_dot =
      rw
        (
          double_dot-Digits p (b'.' ∷ (q ++ (b'.' ∷ (r ++ (b'.' ∷ (t ++ []))))))
              (Numeral-Digits p np),
          double_dot-dot q (b'.' ∷ (r ++ (b'.' ∷ (t ++ [])))) nq,
          double_dot-dot r (b'.' ∷ (t ++ [])) nr,
          double_dot-dot t [] nt,
        )
        refl

  dotted-parse_parts :
      (a b c d : ℕ)
      → one_byte p ≡ some a
      → one_byte q ≡ some b
      → one_byte r ≡ some c
      → one_byte t ≡ some d
      → parse_parts 3 (dotted p q r t) ≡ some (a ∷ b ∷ c ∷ d ∷ [])
  dotted-parse_parts a b c d ea eb ec ed =
      parse_parts-some 2 _ (split_dot-Digits p _ (Numeral-Digits p np)) ea (
        parse_parts-some 1 _ (split_dot-Digits q _ (Numeral-Digits q nq)) eb (
          parse_parts-some 0 _ (split_dot-Digits r _ (Numeral-Digits r nr)) ec
            (last_part-some t nt ed)))

  dotted-length : length (dotted p q r t) ≡ length p + length q + length r + length t + 3
  dotted-length = omega (
    arith,
    length-append p (b'.' ∷ (q ++ (b'.' ∷ (r ++ (b'.' ∷ (t ++ [])))))),
    length-append q (b'.' ∷ (r ++ (b'.' ∷ (t ++ [])))),
    length-append r (b'.' ∷ (t ++ [])),
    length-append t [],
  )

-- Printing an address of four bytes and reading the text gives the address again: the result is 1,
-- the address is the four bytes, and the text that is written back is the text that was read.
pub dotted_to_ipaddr-print_dotted :
    (a b c d : ℕ)
    → a ≤ 255
    → b ≤ 255
    → c ≤ 255
    → d ≤ 255
    → dotted_to_ipaddr (print_dotted (a ∷ b ∷ c ∷ d ∷ []))
      ≡ record { code = pos 1; addr = a ∷ b ∷ c ∷ d ∷ []; text = print_dotted (a ∷ b ∷ c ∷ d ∷ []) }
unfolding print_dotted
dotted_to_ipaddr-print_dotted a b c d ha hb hc hd =
    let (na, la) = print_byte-Numeral a ha in
    let (nb, lb) = print_byte-Numeral b hb in
    let (nc, lc) = print_byte-Numeral c hc in
    let (nd, ld) = print_byte-Numeral d hd in
    let p = print_byte a in
    let q = print_byte b in
    let r = print_byte c in
    let t = print_byte d in
    let all = dotted-all_digits_dots p q r t na nb nc nd in
    let short : length (dotted p q r t) ≤ 19 =
      omega (arith, dotted-length p q r t na nb nc nd, la, lb, lc, ld) in
    let s = dotted p q r t in
    let printed : s ≡ print_dotted (a ∷ b ∷ c ∷ d ∷ []) =
      ap (λ z. p ++ (b'.' ∷ (q ++ (b'.' ∷ (r ++ (b'.' ∷ z)))))) (append-nil t) in
    ap dotted_to_ipaddr (sym printed)
    ∙ dotted_to_ipaddr-some s (a ∷ b ∷ c ∷ d ∷ []) (check_blank-one p _ na all)
        (dotted-check_symbol p q r t na nb nc nd) (dotted-double_dot p q r t na nb nc nd) all short
        (dotted-parse_parts p q r t na nb nc nd a b c d (one_byte-print_byte a ha)
          (one_byte-print_byte b hb) (one_byte-print_byte c hc) (one_byte-print_byte d hd))
