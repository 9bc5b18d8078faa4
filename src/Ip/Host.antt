-- ===== src/Ip/Host.antt =====
-- ip.c: an address in either version. inet_pton(3) is a parameter.
use jujube.Base.{
  ap, subst, ℕ, ◌/◌, ◌%◌, ◌≡◌, ◌↔◌, refl, Bool, true, false, ◌&&◌, not, Option, none, some,
  Option-cases, List, [], ◌∷◌, ◌++◌, arith, ◌==◌, if◌then◌else◌, replicate, take, drop, inl, inr,
}
use jujube.Base.Int.{ℤ, pos, negsuc, eq_ℤ, minus_one}
use jujube.Ip.{Str, check_host_ipv4}

-- jujube_in_addr: the 16 bytes of the union `inx_addr`, and the flag.
pub record InAddr : Type 0 where
  pub inx_addr : List ℕ
  pub flag : ℕ

-- NONE_IP, USE_IPV4, USE_IPV6
abbrev pub none_ip : ℕ
none_ip = 1

abbrev pub use_ipv4 : ℕ
use_ipv4 = 2

abbrev pub use_ipv6 : ℕ
use_ipv6 = 4

-- AF_INET, AF_INET6, and every other number.
pub data Family : Type 0 where
  af_inet af_inet6 af_other : Family

-- inet_pton(3) for a family that it knows: the bytes of the address, or none for a text that is no
-- address (a return value of 0).
abbrev pub InetPton : Type 0
InetPton = Family → Str → Option (List ℕ)

pub jujube_in_addr_init : InAddr
jujube_in_addr_init = record { inx_addr = replicate 16 0; flag = none_ip }

-- The bytes that inet_pton(3) writes lie at the start of a zeroed in6_addr.
pton_known : Option (List ℕ) → InAddr → ℤ × InAddr
pton_known none jaddr = (pos 0, jaddr)
pton_known (some bytes) jaddr =
    (pos 1, record jaddr { inx_addr = take 16 (bytes ++ replicate 16 0) })

pub jujube_pton : InetPton → Family → Str → InAddr → ℤ × InAddr
jujube_pton pton af_other ip jaddr = (minus_one, jaddr)
jujube_pton pton af_inet ip jaddr = pton_known (pton af_inet ip) jaddr
jujube_pton pton af_inet6 ip jaddr = pton_known (pton af_inet6 ip) jaddr

all_zero : List ℕ → Bool
all_zero [] = true
all_zero (b ∷ bs) = b == 0 && all_zero bs

-- IN6_IS_ADDR_UNSPECIFIED and IN6_IS_ADDR_LOOPBACK
pub is_unspecified : List ℕ → Bool
is_unspecified bs = all_zero (take 16 bs)

ends_in_one : List ℕ → Bool
ends_in_one [] = false
ends_in_one (b ∷ bs) = b == 1

pub is_loopback : List ℕ → Bool
is_loopback bs = all_zero (take 15 bs) && ends_in_one (drop 15 bs)

pub check_host_ipv6 : InAddr → ℤ
check_host_ipv6 jaddr =
    if is_unspecified jaddr.inx_addr
    then minus_one
    else if is_loopback jaddr.inx_addr
    then negsuc 1
    else pos 0

-- `none` is the value that check_host_ipv4 does not return.
pub check_host_ip : Str → InAddr → Option ℤ
check_host_ip server_ip jaddr =
    if jaddr.flag / 2 % 2 == 1
    then (elim (check_host_ipv4 server_ip) [
      | none ↦ none
      | some r ↦ some (if eq_ℤ r (pos 1) then pos 0 else minus_one)
    ])
    else if jaddr.flag / 4 % 2 == 1
    then some (check_host_ipv6 jaddr)
    else some (pos 0)

-- The address is copied out and then checked.
checked : Str → InAddr → Option ℤ × InAddr
checked server_ip tmp_addr = (check_host_ip server_ip tmp_addr, tmp_addr)

-- The address as IPv6, when it is none of IPv4.
try_ipv6 : InetPton → Str → InAddr → InAddr → Option ℤ × InAddr
try_ipv6 pton server_ip tmp_addr jaddr =
    let (ret, tmp_addr) = jujube_pton pton af_inet6 server_ip tmp_addr in
    if not (eq_ℤ ret (pos 1))
    then (some minus_one, jaddr)
    else checked server_ip (record tmp_addr { flag = use_ipv6 })

pub check_host_ip_and_get_verion : InetPton → Str → InAddr → Option ℤ × InAddr
check_host_ip_and_get_verion pton server_ip jaddr =
    let (ret, tmp_addr) = jujube_pton pton af_inet server_ip jujube_in_addr_init in
    if eq_ℤ ret (pos 1)
    then checked server_ip (record tmp_addr { flag = use_ipv4 })
    else if eq_ℤ ret (pos 0)
    then try_ipv6 pton server_ip tmp_addr jaddr
    else (some (negsuc 1), jaddr)

-- The 16 bytes that an address of inet_pton(3) becomes.
abbrev pub padded : List ℕ → List ℕ
padded bytes = take 16 (bytes ++ replicate 16 0)

-- Which text check_host_ip_and_get_verion makes into which address.
pub data Accepts (pton : InetPton) (s : Str) : InAddr → Type 0 where
  ipv4 :
      (bytes : List ℕ)
      → pton af_inet s ≡ some bytes
      → check_host_ipv4 s ≡ some (pos 1)
      → Accepts pton s (record { inx_addr = padded bytes; flag = use_ipv4 })
  ipv6 :
      (bytes : List ℕ)
      → pton af_inet s ≡ none
      → pton af_inet6 s ≡ some bytes
      → is_unspecified (padded bytes) ≡ false
      → is_loopback (padded bytes) ≡ false
      → Accepts pton s (record { inx_addr = padded bytes; flag = use_ipv6 })

Accepts-sound :
    (pton : InetPton) (s : Str) (jaddr : InAddr)
    → (check_host_ip_and_get_verion pton s jaddr).0 ≡ some (pos 0)
    → Accepts pton s (check_host_ip_and_get_verion pton s jaddr).1
unfolding check_host_ip_and_get_verion jujube_pton pton_known check_host_ip checked try_ipv6
    check_host_ipv6 jujube_in_addr_init
Accepts-sound pton s jaddr e = elim (Option-cases (pton af_inet s)) [
  | inr (bytes, q) ↦ rw q (ipv4 bytes q (ground arith))
  | inl q ↦ elim (Option-cases (pton af_inet6 s)) [
    | inl q6 ↦ absurd (ground arith)
    | inr (bytes, q6) ↦ rw (q, q6) (ipv6 bytes q q6 (ground arith) (ground arith))
  ]
]

Accepts-complete :
    (pton : InetPton) (s : Str) (jaddr addr : InAddr)
    → Accepts pton s addr
    → check_host_ip_and_get_verion pton s jaddr ≡ (some (pos 0), addr)
unfolding check_host_ip_and_get_verion jujube_pton pton_known check_host_ip checked try_ipv6
    check_host_ipv6 jujube_in_addr_init
Accepts-complete pton s jaddr _ (ipv4 bytes q ok4) = rw (q, ok4) refl
Accepts-complete pton s jaddr _ (ipv6 bytes q q6 u l) = rw (q, q6, u, l) refl

-- check_host_ip_and_get_verion returns 0 with an address exactly if inet_pton(3) reads the text as
-- IPv4, check_host_ipv4 accepts it, and the address is that one with USE_IPV4, or inet_pton(3) reads
-- it as IPv6 alone, neither unspecified nor loopback, and the address is that one with USE_IPV6.
pub check_host_ip_and_get_verion_iff :
    (pton : InetPton) (s : Str) (jaddr addr : InAddr)
    → (check_host_ip_and_get_verion pton s jaddr ≡ (some (pos 0), addr)) ↔ Accepts pton s addr
check_host_ip_and_get_verion_iff pton s jaddr addr = (
  λ e. subst (Accepts pton s) (ap (λ r. r.1) e) (Accepts-sound pton s jaddr (ap (λ r. r.0) e)),
  Accepts-complete pton s jaddr addr,
)
