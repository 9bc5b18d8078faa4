-- ===== src/Ip/Tests.antt =====
-- ip.c: an address, and texts that are none.
use jujube.Base.{
  none, length, arith, List, ℕ, ◌==◌, if◌then◌else◌, ◌≡◌, ◌⊎◌, inl, inr, ◌↔◌, refl, false, some, [],
  ◌∷◌,
}
use jujube.Base.Int.{ℤ, pos, eq_ℤ}
use jujube.Ip.{
  Str, dotted_to_ipaddr, check_symbol, has_double_dot, all_digits_dots, is_host, print_dotted,
  parse_checked, parse_parts, one_byte, my_atoi, first_is_digit, leading_digits, split_dot,
  check_blank, get_str_num, print_byte,
}
use jujube.Ip.Host.{
  InAddr, InetPton, af_inet, af_inet6, af_other, use_ipv4, padded, jujube_in_addr_init,
  check_host_ip_and_get_verion, Accepts, check_host_ip_and_get_verion_iff,
}
use jujube.Ip.Print.{dotted_to_ipaddr-print_dotted}
use jujube.Ip.Text.{InetNtop, Converts, host_ipv4, ip_2_str, check_host_ip_and_get_verion-ip_2_str}
use jujube.Ip.Bytes.{Bytes, dotted_to_ipaddr-digits}
use jujube.Ip.Reads.{Reads, dotted_to_ipaddr-Reads}
use jujube.Print.{AllDigits}
use jujube.Base.{◌≢◌, take, drop, ◌++◌}

-- 10.0.07.9
abbrev text : Str
text = b'1' ∷ b'0' ∷ b'.' ∷ b'0' ∷ b'.' ∷ b'0' ∷ b'7' ∷ b'.' ∷ b'9' ∷ []

text_code : (dotted_to_ipaddr text).code ≡ pos 1
unfolding dotted_to_ipaddr parse_checked parse_parts one_byte my_atoi first_is_digit leading_digits
    split_dot all_digits_dots has_double_dot check_blank check_symbol get_str_num print_dotted
    print_byte
text_code = refl

dotted_to_ipaddr-Reads_example :
    Reads 3 (take 19 text) (dotted_to_ipaddr text).addr
    × AllDigits (drop 19 text)
    × ((p q : Str) → text ≢ p ++ b'.' ∷ b'.' ∷ q)
    × ((dotted_to_ipaddr text).text ≡ print_dotted (dotted_to_ipaddr text).addr)
dotted_to_ipaddr-Reads_example = dotted_to_ipaddr-Reads text text_code

-- An inet_pton(3) that reads one text, as IPv4.
abbrev one_text : InetPton
one_text af_inet s = if length s == 9 then some (10 ∷ 0 ∷ 7 ∷ 9 ∷ []) else none
one_text af_inet6 s = none
one_text af_other s = none

abbrev read_text : InAddr
read_text = record { inx_addr = padded (10 ∷ 0 ∷ 7 ∷ 9 ∷ []); flag = use_ipv4 }

check_host_ip_and_get_verion_iff_example :
    (check_host_ip_and_get_verion one_text text jujube_in_addr_init ≡ (some (pos 0), read_text))
    ↔ Accepts one_text text read_text
check_host_ip_and_get_verion_iff_example =
    check_host_ip_and_get_verion_iff one_text text jujube_in_addr_init read_text

dotted_to_ipaddr-print_dotted_example :
    dotted_to_ipaddr (print_dotted (10 ∷ 0 ∷ 7 ∷ 9 ∷ []))
    ≡ record { code = pos 1; addr = 10 ∷ 0 ∷ 7 ∷ 9 ∷ []; text = print_dotted (10 ∷ 0 ∷ 7 ∷ 9 ∷ []) }
dotted_to_ipaddr-print_dotted_example =
    dotted_to_ipaddr-print_dotted 10 0 7 9 (omega arith) (omega arith) (omega arith) (omega arith)

-- An inet_pton(3) and an inet_ntop(3) whose text of an IPv6 address is a colon and the bytes.
abbrev read_text_of : InetPton
read_text_of af_inet s =
    let r = dotted_to_ipaddr s in if eq_ℤ r.code (pos 1) then some r.addr else none
read_text_of af_inet6 [] = none
read_text_of af_inet6 (c ∷ bs) = some bs
read_text_of af_other s = none

abbrev write_text_of : InetNtop
write_text_of af_inet (a ∷ b ∷ c ∷ d ∷ rest) size = some (print_dotted (a ∷ b ∷ c ∷ d ∷ []))
write_text_of af_inet bs size = none
write_text_of af_inet6 bs size = some (b':' ∷ bs)
write_text_of af_other bs size = none

eq_cases : (z : ℤ) → (z ≡ pos 1) ⊎ (eq_ℤ z (pos 1) ≡ false)
eq_cases z = ground arith

colon-none : (bs : List ℕ) → read_text_of af_inet (b':' ∷ bs) ≡ none
unfolding all_digits_dots
colon-none bs = elim (eq_cases (dotted_to_ipaddr (b':' ∷ bs)).code) [
  | inl one ↦ absurd (ground (arith, dotted_to_ipaddr-digits (b':' ∷ bs) one))
  | inr other ↦ rw other refl
]

read-print :
    (a b c d : ℕ)
    → Bytes 4 (a ∷ b ∷ c ∷ d ∷ [])
    → read_text_of af_inet (print_dotted (a ∷ b ∷ c ∷ d ∷ [])) ≡ some (a ∷ b ∷ c ∷ d ∷ [])
read-print a b c d h = rw (dotted_to_ipaddr-print_dotted a b c d h.0 h.1.0 h.1.1.0 h.1.1.1.0) refl

read_ipv4 : (bs : List ℕ) → Bytes 4 bs → read_text_of af_inet (print_dotted bs) ≡ some bs
read_ipv4 [] h = absurd h
read_ipv4 (a ∷ []) h = absurd h.1
read_ipv4 (a ∷ b ∷ []) h = absurd h.1.1
read_ipv4 (a ∷ b ∷ c ∷ []) h = absurd h.1.1.1
read_ipv4 (a ∷ b ∷ c ∷ d ∷ []) h = read-print a b c d h
read_ipv4 (a ∷ b ∷ c ∷ d ∷ e ∷ bs) h = absurd h.1.1.1.1

converts : Converts read_text_of write_text_of
converts = record {
  print_ipv4 = λ a b c d size rest h le. refl;
  read_ipv4 = read_ipv4;
  print_ipv6 = λ bs size h le. (b':' ∷ bs, refl, refl, colon-none bs);
}

check_host_ip_and_get_verion-ip_2_str_example :
    check_host_ip_and_get_verion read_text_of (ip_2_str write_text_of read_text) jujube_in_addr_init
    ≡ (some (pos 0), read_text)
unfolding is_host
check_host_ip_and_get_verion-ip_2_str_example =
    check_host_ip_and_get_verion-ip_2_str read_text_of write_text_of read_text jujube_in_addr_init
      converts
      (host_ipv4 10 0 7 9 (omega arith, (omega arith, (omega arith, (omega arith, tt)))) refl)
