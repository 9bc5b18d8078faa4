-- ===== src/Ip/Text.antt =====
-- ip.c: an address written as text. inet_ntop(3) is a parameter.
use jujube.Base.{
  ℕ, zero, suc, subst, ◌≡◌, ◌∙◌, ap, refl, true, false, Option, none, some, List, [], ◌∷◌, ◌≤◌,
  length, take_all, take-append_le, arith, ◌==◌, if◌then◌else◌, replicate,
}
use jujube.Base.Int.{pos}
use jujube.Ip.{Str, print_dotted, is_host, check_host_ipv4}
use jujube.Ip.Bytes.{Bytes, check_host_ipv4_iff}
use jujube.Ip.Print.{dotted_to_ipaddr-print_dotted}
use jujube.Ip.Host.{
  InAddr, Family, InetPton, af_inet, af_inet6, use_ipv4, use_ipv6, padded, is_unspecified,
  is_loopback, ipv4, ipv6, Accepts, check_host_ip_and_get_verion, check_host_ip_and_get_verion_iff,
}

-- inet_ntop(3) for the bytes from the address on and the size of the buffer: the text, or none for
-- a null pointer.
abbrev pub InetNtop : Type 0
InetNtop = Family → List ℕ → ℕ → Option Str

-- INET6_ADDRSTRLEN
abbrev inet6_addrstrlen : ℕ
inet6_addrstrlen = 46

-- The text in the static buffer.
pub ip_2_str : InetNtop → InAddr → Str
ip_2_str ntop in_addr =
    elim (ntop (if in_addr.flag == use_ipv4 then af_inet else af_inet6) in_addr.inx_addr
      inet6_addrstrlen) [ none ↦ [] | some p ↦ p ]

-- What the pages of inet_pton(3) and inet_ntop(3) say: IPv4 is four decimal numbers with dots, in
-- 16 bytes with the zero; what is written for IPv6, in 46 bytes, is read as those bytes, and is no
-- text of IPv4.
pub record Converts (pton : InetPton) (ntop : InetNtop) : Type 0 where
  pub print_ipv4 :
      (a b c d size : ℕ) (rest : List ℕ)
      → Bytes 4 (a ∷ b ∷ c ∷ d ∷ [])
      → 16 ≤ size
      → ntop af_inet (a ∷ b ∷ c ∷ d ∷ rest) size ≡ some (print_dotted (a ∷ b ∷ c ∷ d ∷ []))
  pub read_ipv4 : (bs : List ℕ) → Bytes 4 bs → pton af_inet (print_dotted bs) ≡ some bs
  pub print_ipv6 :
      (bs : List ℕ) (size : ℕ)
      → Bytes 16 bs
      → 46 ≤ size
      → (text : Str) × (ntop af_inet6 bs size ≡ some text)
        × (pton af_inet6 text ≡ some bs)
        × (pton af_inet text ≡ none)

-- An address that a host may have, in either version.
pub data HostAddr : InAddr → Type 0 where
  host_ipv4 :
      (a b c d : ℕ)
      → Bytes 4 (a ∷ b ∷ c ∷ d ∷ [])
      → is_host (a ∷ b ∷ c ∷ d ∷ []) ≡ true
      → HostAddr (record { inx_addr = padded (a ∷ b ∷ c ∷ d ∷ []); flag = use_ipv4 })
  host_ipv6 :
      (bs : List ℕ)
      → Bytes 16 bs
      → is_unspecified bs ≡ false
      → is_loopback bs ≡ false
      → HostAddr (record { inx_addr = bs; flag = use_ipv6 })

length-Bytes : (n : ℕ) (bs : List ℕ) → Bytes n bs → length bs ≡ n
length-Bytes zero [] h = refl
length-Bytes zero (b ∷ bs) h = absurd h
length-Bytes (suc n) [] h = absurd h
length-Bytes (suc n) (b ∷ bs) h = ap suc (length-Bytes n bs h.1)

padded-Bytes : (bs : List ℕ) → Bytes 16 bs → padded bs ≡ bs
padded-Bytes bs h =
    let len = length-Bytes 16 bs h in
    take-append_le 16 bs (replicate 16 0) (omega arith) ∙ take_all 16 bs (omega arith)

check_host_ipv4-print_dotted :
    (a b c d : ℕ)
    → Bytes 4 (a ∷ b ∷ c ∷ d ∷ [])
    → is_host (a ∷ b ∷ c ∷ d ∷ []) ≡ true
    → check_host_ipv4 (print_dotted (a ∷ b ∷ c ∷ d ∷ [])) ≡ some (pos 1)
check_host_ipv4-print_dotted a b c d bytes host =
    let r = dotted_to_ipaddr-print_dotted a b c d bytes.0 bytes.1.0 bytes.1.1.0 bytes.1.1.1.0 in
    (check_host_ipv4_iff (print_dotted (a ∷ b ∷ c ∷ d ∷ []))).1
      (ap (λ x. x.code) r, ap (λ x. is_host x.addr) r ∙ host)

-- Where inet_pton(3) and inet_ntop(3) do what their pages say, the text that ip_2_str writes for an
-- address a host may have, of either version, is accepted by check_host_ip_and_get_verion, which
-- gives the same address with the same flag.
pub check_host_ip_and_get_verion-ip_2_str :
    (pton : InetPton) (ntop : InetNtop) (in_addr jaddr : InAddr)
    → Converts pton ntop
    → HostAddr in_addr
    → check_host_ip_and_get_verion pton (ip_2_str ntop in_addr) jaddr ≡ (some (pos 0), in_addr)
unfolding ip_2_str replicate
check_host_ip_and_get_verion-ip_2_str pton ntop _ jaddr conv (host_ipv4 a b c d bytes host) =
    let bs = a ∷ b ∷ c ∷ d ∷ [] in
    rw (ip_2_str, conv.print_ipv4 a b c d 46 (replicate 12 0) bytes (omega arith))
      ((check_host_ip_and_get_verion_iff pton (print_dotted bs) jaddr _).1
        (ipv4 bs (conv.read_ipv4 bs bytes) (check_host_ipv4-print_dotted a b c d bytes host)))
check_host_ip_and_get_verion-ip_2_str pton ntop _ jaddr conv (host_ipv6 bs bytes set other) =
    let (text, printed, read6, read4) = conv.print_ipv6 bs 46 bytes (omega arith) in
    let whole = padded-Bytes bs bytes in
    let as_is : Accepts pton text (record { inx_addr = bs; flag = use_ipv6 }) =
      subst (λ x. Accepts pton text (record { inx_addr = x; flag = use_ipv6 })) whole
        (ipv6 bs read4 read6 (ap is_unspecified whole ∙ set) (ap is_loopback whole ∙ other)) in
    rw (ip_2_str, printed) ((check_host_ip_and_get_verion_iff pton text jaddr _).1 as_is)
