-- ===== src/Ip/Bytes.antt =====
-- Numbers that bytes hold, and what check_host_ipv4 accepts.
use jujube.Base.{ℕ, zero, suc, ◌≤◌, ◌≡◌, true, some, List, [], ◌∷◌, arith, ◌↔◌}
use jujube.Base.Int.{pos}
use jujube.Ip.{Str, dotted_to_ipaddr, check_host_ipv4, is_host, all_digits_dots}

-- `n` numbers, each of which a byte can hold.
abbrev pub Bytes : ℕ → List ℕ → Type 0
Bytes zero [] = Unit {0}
Bytes zero (b ∷ bs) = ⊥
Bytes (suc n) [] = ⊥
Bytes (suc n) (b ∷ bs) = (b ≤ 255) × Bytes n bs

-- Nothing but digits and dots is accepted.
pub dotted_to_ipaddr-digits :
    (s : Str) → (dotted_to_ipaddr s).code ≡ pos 1 → all_digits_dots s ≡ true
unfolding dotted_to_ipaddr
dotted_to_ipaddr-digits s h = ground arith

-- check_host_ipv4 accepts a text exactly if dotted_to_ipaddr does and the first byte of the
-- address is from 1 to 223 and not 127, and the last is not 255.
pub check_host_ipv4_iff :
    (s : Str)
    → (check_host_ipv4 s ≡ some (pos 1))
      ↔ (((dotted_to_ipaddr s).code ≡ pos 1) × (is_host (dotted_to_ipaddr s).addr ≡ true))
unfolding check_host_ipv4
check_host_ipv4_iff s = (λ h. (ground arith, ground arith), λ h. ground arith)
