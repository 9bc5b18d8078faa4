-- ===== src/Mem/Statistics.antt =====
-- statistics_mem_info: the counters as text. `int` and `u_int64_t` are their 32-bit and 64-bit
-- patterns, but for `cur_sz`, which stays far below 2 ^ 31.
pub mod Fits
pub mod Reports
pub mod Spec
mod Tests
use jujube.Base.{
  ℕ, zero, suc, ◌+◌, ◌-◌, ◌*◌, ◌/◌, ◌%◌, ◌^◌, Bool, ◌&&◌, Option, none, some, List, [], ◌∷◌, ◌++◌,
  length, take, splice, ltb, leb, ◌==◌, if◌then◌else◌,
}
use jujube.Print.{print_int, print_unsigned, snprintf}
use jujube.Mem.{Memory, Stat}
use jujube.Mem.Class.{type_max, block_size}

-- `mem_stat[i].blocks_used + mem_stat[i].blocks_free`
pub blocks_of : Stat → ℕ
blocks_of s = (s.blocks_used + s.blocks_free) % 2 ^ 32

pub is_counted : Stat → Bool
is_counted s = ltb 0 (blocks_of s) && ltb (blocks_of s) (2 ^ 31)

-- The size of the blocks of a class with their headers, each of `offset` bytes.
pub class_bytes : (offset i : ℕ) → Stat → ℕ
class_bytes offset i s = blocks_of s * (block_size i + offset) % 2 ^ 64

-- "%d: %lu,%d,%d\n"
pub class_line : (offset i : ℕ) → Stat → List ℕ
class_line offset i s =
    print_int (block_size i)
    ++ (b':'
        ∷ b' '
        ∷ (print_unsigned (class_bytes offset i s)
            ++ (b',' ∷ (print_int s.blocks_used ++ (b',' ∷ (print_int s.blocks_free ++ 10 ∷ []))))))

-- "Total size:%lu "
pub total_line : ℕ → List ℕ
total_line total =
    b'T'
    ∷ b'o'
    ∷ b't'
    ∷ b'a'
    ∷ b'l'
    ∷ b' '
    ∷ b's'
    ∷ b'i'
    ∷ b'z'
    ∷ b'e'
    ∷ b':'
    ∷ (print_unsigned total ++ b' ' ∷ [])

-- `size_t`
pub sub_size : ℕ → ℕ → ℕ
sub_size a b = (a + 2 ^ 64 - b) % 2 ^ 64

-- The array and the locals `cur_sz` and `total_mem_sz`.
pub record Printed : Type 0 where
  pub buff : List ℕ
  pub cur_sz : ℕ
  pub total : ℕ

-- The line of a class that has blocks.
print_class : (offset buff_sz i : ℕ) → Stat → Printed → Option Printed
print_class offset buff_sz i s p =
    let line = class_line offset i s in
    if is_counted s
    then (elim (snprintf p.buff p.cur_sz (sub_size buff_sz p.cur_sz) line) [
      | none ↦ none
      | some buff ↦ some (record {
        buff = buff;
        cur_sz = p.cur_sz + length line;
        total = (p.total + class_bytes offset i s) % 2 ^ 64;
      })
    ])
    else some p

-- The loop over the classes, by the rounds left.
print_from : (offset buff_sz : ℕ) → (ℕ → Stat) → (rounds i : ℕ) → Printed → Option Printed
print_from offset buff_sz stats zero i p = some p
print_from offset buff_sz stats (suc n) i p = elim (print_class offset buff_sz i (stats i) p) [
  | none ↦ none
  | some q ↦
      let rest = print_from offset buff_sz stats n (i + 1) q in
      if ltb (sub_size buff_sz 3) q.cur_sz then some q else rest
]

-- The last line, where there is room for a part of it.
print_total : ℕ → Printed → Option Printed
print_total buff_sz p =
    let line = total_line p.total in
    if ltb p.cur_sz buff_sz
    then (elim (snprintf p.buff p.cur_sz (sub_size buff_sz p.cur_sz) line) [
      | none ↦ none
      | some buff ↦ some (record p { buff = buff; cur_sz = p.cur_sz + length line })
    ])
    else some p

-- The array and `cur_sz`, which is returned; none where the array is written behind its end.
pub statistics_mem_info : (offset : ℕ) → Memory → List ℕ → (buff_sz : ℕ) → Option (List ℕ × ℕ)
statistics_mem_info offset m buff buff_sz =
    elim (print_from offset buff_sz m.stats type_max 0
      (record { buff = buff; cur_sz = 0; total = 0 })) [
        | none ↦ none
        | some p ↦ elim (print_total buff_sz p) [ none ↦ none | some q ↦ some (q.buff, q.cur_sz) ]
      ]
