-- ===== src/Mem/Statistics/Fits.antt =====
-- statistics_mem_info keeps to its array.
use jujube.Base.{
  ℕ, zero, suc, ◌+◌, ◌-◌, ◌^◌, ◌≤◌, ◌<◌, ◌≡◌, ◌∙◌, sym, ap, refl, Option, some, List, length, arith,
  ltb, Bool-cases, inl, inr,
}
use jujube.Print.{snprintf-rest}
use jujube.Mem.{Memory, Stat}
use jujube.Mem.Class.{type_max}
use jujube.Mem.Statistics.{
  Printed, sub_size, print_class, print_from, print_total, statistics_mem_info, is_counted,
  class_line, total_line,
}

-- A result with an array of the size `n`.
data Sized (n : ℕ) : Option Printed → Type 0 where
  sized : (p : Printed) → length p.buff ≡ n → Sized n (some p)

result :
    {n : ℕ} {o : Option Printed} → Sized n o → (p : Printed) × (o ≡ some p) × (length p.buff ≡ n)
result (sized p e) = (p, refl, e)

pub sub_size-sub : (a b : ℕ) → b ≤ a → a < 2 ^ 64 → sub_size a b ≡ a - b
unfolding sub_size
sub_size-sub a b le small = omega arith

module _ (offset buff_sz : ℕ) (le : 3 ≤ buff_sz) (small : buff_sz < 2 ^ 64) where
  print_class-Sized :
      (i : ℕ) (s : Stat) (p : Printed)
      → length p.buff ≡ buff_sz
      → p.cur_sz + 3 ≤ buff_sz
      → Sized buff_sz (print_class offset buff_sz i s p)
  unfolding print_class
  print_class-Sized i s p size room = elim (Bool-cases (is_counted s)) [
    | inr empty ↦ rw empty (sized p size)
    | inl counted ↦
        let line = class_line offset i s in
        let (written, same) = snprintf-rest p.buff p.cur_sz line (omega (arith, size)) in
        let n : sub_size buff_sz p.cur_sz ≡ length p.buff - p.cur_sz =
          sub_size-sub buff_sz p.cur_sz (omega arith) small ∙ ap (λ x. x - p.cur_sz) (sym size) in
        rw (counted, n, written) (sized _ (same ∙ size))
  ]

  print_from-Sized :
      (stats : ℕ → Stat) (n i : ℕ) (p : Printed)
      → length p.buff ≡ buff_sz
      → p.cur_sz + 3 ≤ buff_sz
      → Sized buff_sz (print_from offset buff_sz stats n i p)
  unfolding print_from
  print_from-Sized stats zero i p size room = sized p size
  print_from-Sized stats (suc n) i p size room =
      let (q, e, same) = result (print_class-Sized i (stats i) p size room) in
      let limit = sub_size-sub buff_sz 3 le small in
      rw (print_from, e)
        (elim (Bool-cases (ltb (sub_size buff_sz 3) q.cur_sz)) [
          | inl full ↦ rw full (sized q same)
          | inr more ↦
              rw more (print_from-Sized stats n (i + 1) q same (ground (arith, limit, more)))
        ])

  print_total-Sized :
      (p : Printed) → length p.buff ≡ buff_sz → Sized buff_sz (print_total buff_sz p)
  unfolding print_total
  print_total-Sized p size = elim (Bool-cases (ltb p.cur_sz buff_sz)) [
    | inr full ↦ rw full (sized p size)
    | inl room ↦
        let line = total_line p.total in
        let (written, same) = snprintf-rest p.buff p.cur_sz line (ground (arith, size, room)) in
        let n : sub_size buff_sz p.cur_sz ≡ length p.buff - p.cur_sz =
          sub_size-sub buff_sz p.cur_sz (ground (arith, room)) small
          ∙ ap (λ x. x - p.cur_sz) (sym size) in
        rw (room, n, written) (sized _ (same ∙ size))
  ]

  -- With an array of at least three bytes, whatever the counters are, statistics_mem_info never
  -- writes behind the end of the array, also where it breaks off its text: it returns, and the array
  -- has its size.
  pub statistics_mem_info-Sized :
      (m : Memory) (buff : List ℕ)
      → length buff ≡ buff_sz
      → (r : List ℕ × ℕ) × (statistics_mem_info offset m buff buff_sz ≡ some r)
        × (length r.0 ≡ buff_sz)
  unfolding statistics_mem_info
  statistics_mem_info-Sized m buff size =
      let start : Printed = record { buff = buff; cur_sz = 0; total = 0 } in
      let (p, e, same) = result (print_from-Sized m.stats type_max 0 start size (omega arith)) in
      let (q, e', same') = result (print_total-Sized p same) in
      ((q.buff, q.cur_sz), rw (statistics_mem_info, e, e') refl, same')
