-- ===== src/Ip.antt =====
-- ip.c: addresses as text. A C string is the list of its bytes before the terminating zero.
pub mod Bytes
pub mod Host
pub mod Print
pub mod Reads
pub mod Text
mod Tests
use jujube.Base.{
  ℕ, zero, suc, ◌+◌, ◌-◌, ◌*◌, ◌/◌, ◌%◌, ◌^◌, Bool, true, false, not, ◌&&◌, ◌||◌, Option, none,
  some, List, [], ◌∷◌, ◌++◌, ltb, leb, ◌==◌, if◌then◌else◌, length, take,
}
use jujube.Base.Int.{ℤ, pos, negsuc, eq_ℤ, minus_one}

abbrev pub Str : Type 0
Str = List ℕ

is_blank : ℕ → Bool
is_blank c = c == b' ' || c == 9

-- The first loop of get_str_num.
skip_blanks : Str → Str
skip_blanks [] = []
skip_blanks (c ∷ s) = if is_blank c then skip_blanks s else c ∷ s

-- Its second loop, over `blank` and `i`: the words of the text.
count_words : Str → ℕ → ℕ → ℕ
count_words [] blank i = i
count_words (c ∷ s) blank i =
    count_words s (if is_blank c then 0 else blank + 1)
      (if not (is_blank c) && blank == 0 then i + 1 else i)

pub get_str_num : Str → ℕ
unfolding skip_blanks count_words is_blank
get_str_num s = count_words (skip_blanks s) 0 0

-- `none` is a null pointer.
pub check_blank : Option Str → ℤ
check_blank none = pos 0
check_blank (some []) = pos 0
check_blank (some (c ∷ s)) =
    let num = get_str_num (c ∷ s) in
    if num == 0 then pos 0 else if num == 1 then pos 1 else minus_one

pub check_symbol : Str → ℕ → ℕ
check_symbol [] symbol = 0
check_symbol (c ∷ s) symbol = (if c == symbol then 1 else 0) + check_symbol s symbol

abbrev pub is_digit : ℕ → Bool
is_digit c = leb b'0' c && leb c b'9'

-- The leading zeros that my_atoi skips.
skip_zeros : Str → Str
skip_zeros [] = []
skip_zeros (c ∷ s) = if c == b'0' then skip_zeros s else c ∷ s

-- atoi(3) of a text that begins with its digits; it stops at the first other byte.
digits_value : Str → ℕ → ℕ
digits_value [] acc = acc
digits_value (c ∷ s) acc =
    let more = digits_value s (acc * 10 + (c - b'0')) in if is_digit c then more else acc

-- The 32-bit pattern of the `int`. C leaves atoi(3) undefined from 2 ^ 31 on; here it is the `int`
-- of strtol(3), as the GNU library has it (a part has 16 digits at most).
pub my_atoi : Str → ℕ
unfolding skip_zeros digits_value
my_atoi s = digits_value (skip_zeros s) 0 % 2 ^ 32

-- The scan for two dots in a row, which looks at the byte behind a dot and skips it.
pub has_double_dot : Str → Bool
has_double_dot [] = false
has_double_dot (c ∷ []) = false
has_double_dot (c ∷ d ∷ s) =
    let behind = has_double_dot s in
    let next = has_double_dot (d ∷ s) in
    if c == b'.' then (if d == b'.' then true else behind) else next

-- Every byte is a digit or a dot.
pub all_digits_dots : Str → Bool
all_digits_dots [] = true
all_digits_dots (c ∷ s) = (is_digit c || c == b'.') && all_digits_dots s

-- strchr(p, '.'): what stands before the dot and what stands behind it.
split_dot : Str → Option (Str × Str)
split_dot [] = none
split_dot (c ∷ s) =
    let rest = split_dot s in
    if c == b'.' then some ([], s) else (elim rest [ none ↦ none | some (p, q) ↦ some (c ∷ p, q) ])

-- The digits at the front of the last part.
leading_digits : Str → Str
leading_digits [] = []
leading_digits (c ∷ s) = let more = leading_digits s in if is_digit c then c ∷ more else []

first_is_digit : Str → Bool
first_is_digit [] = false
first_is_digit (c ∷ s) = is_digit c

-- A part as a byte: a negative `int` has a pattern above 255.
one_byte : Str → Option ℕ
one_byte p = if ltb 255 (my_atoi p) then none else some (my_atoi p)

-- The loop over the first three parts, and the last one.
parse_parts : ℕ → Str → Option (List ℕ)
parse_parts zero p =
    if first_is_digit p
    then (elim (one_byte (leading_digits p)) [ none ↦ none | some b ↦ some (b ∷ []) ])
    else none
parse_parts (suc n) p = elim (split_dot p) [
  | none ↦ none
  | some (part, rest) ↦ elim (one_byte part) [
    | none ↦ none
    | some b ↦ elim (parse_parts n rest) [ none ↦ none | some bs ↦ some (b ∷ bs) ]
  ]
]

-- `sprintf("%d")` of a byte.
pub print_byte : ℕ → Str
print_byte n =
    if ltb n 10
    then (b'0' + n) ∷ []
    else if ltb n 100
    then (b'0' + n / 10) ∷ (b'0' + n % 10) ∷ []
    else (b'0' + n / 100) ∷ (b'0' + n / 10 % 10) ∷ (b'0' + n % 10) ∷ []

pub print_dotted : List ℕ → Str
print_dotted [] = []
print_dotted (b ∷ []) = print_byte b
print_dotted (b ∷ c ∷ bs) = print_byte b ++ (b'.' ∷ print_dotted (c ∷ bs))

-- The result code; where it is 1, the four bytes and the text that is written back.
pub record Dotted : Type 0 where
  pub code : ℤ
  pub addr : List ℕ
  pub text : Str

abbrev rejected : ℤ → Str → Dotted
rejected code s = record { code = code; addr = []; text = s }

-- The text fits the local array of 20 bytes up to its 19th byte.
parse_checked : Str → Dotted
parse_checked s = elim (parse_parts 3 (take 19 s)) [
  | none ↦ rejected minus_one s
  | some bs ↦ record { code = pos 1; addr = bs; text = print_dotted bs }
]

pub dotted_to_ipaddr : Str → Dotted
dotted_to_ipaddr s =
    if not (eq_ℤ (check_blank (some s)) (pos 1))
    then rejected (check_blank (some s)) s
    else if not (check_symbol s b'.' == 3)
    then rejected minus_one s
    else if has_double_dot s
    then rejected minus_one s
    else if not (all_digits_dots s)
    then rejected minus_one s
    else parse_checked s

-- The host addresses that check_host_ipv4 takes.
pub is_host : List ℕ → Bool
is_host (a ∷ b ∷ c ∷ d ∷ []) = not (a == 0 || ltb 223 a || d == 255 || a == 127)
is_host _ = false

-- `none` is a return without a value, which happens for a text of no word.
pub check_host_ipv4 : Str → Option ℤ
check_host_ipv4 s =
    let r = dotted_to_ipaddr s in
    if eq_ℤ r.code (pos 1)
    then some (if is_host r.addr then pos 1 else minus_one)
    else if eq_ℤ r.code minus_one
    then some minus_one
    else none
