-- ===== src/Mem/Statistics/Spec.antt =====
-- What the text of statistics_mem_info says.
use jujube.Base.{
  length, take, some, ℕ, zero, suc, ◌+◌, ◌*◌, ◌%◌, ◌^◌, ◌≤◌, ◌<◌, ◌≡◌, ◌⊎◌, ◌∙◌, subst, refl, List,
  [], ◌∷◌, ◌++◌, arith, ltb, Bool-cases, inl, inr, false,
}
use jujube.Print.{print_unsigned, Decimal, Signed, print_int-Signed, print_unsigned-Decimal}
use jujube.Mem.{Memory, Stat}
use jujube.Mem.Class.{type_max, block_size}
use jujube.Mem.Statistics.{
  statistics_mem_info, is_counted, blocks_of, class_bytes, class_line, total_line,
}
use jujube.Mem.Statistics.Reports.{lines, total_from, report, statistics_mem_info-report}

-- The blocks of a class, used and free.
abbrev blocks : Stat → ℕ
blocks s = (s.blocks_used + s.blocks_free) % 2 ^ 32

abbrev bytes : (offset i : ℕ) → Stat → ℕ
bytes offset i s = blocks s * (block_size i + offset) % 2 ^ 64

-- "<size>: <bytes>,<used>,<free>" and a line feed, in decimal.
pub record Line (offset i : ℕ) (s : Stat) (text : List ℕ) : Type 0 where
  pub size : List ℕ
  pub sum : List ℕ
  pub used : List ℕ
  pub free : List ℕ
  pub has_size : Signed (block_size i) size
  pub has_sum : Decimal (bytes offset i s) sum
  pub has_used : Signed s.blocks_used used
  pub has_free : Signed s.blocks_free free
  pub whole : text ≡ size ++ (b':' ∷ b' ' ∷ (sum ++ (b',' ∷ (used ++ (b',' ∷ (free ++ 10 ∷ []))))))

-- The lines of `n` classes from `i` on, one for each that has blocks, and the sum of their bytes; a
-- number of blocks that is negative as an `int` is passed over.
pub data Lines (offset : ℕ) (stats : ℕ → Stat) : (n i : ℕ) → List ℕ → ℕ → Type 0 where
  no_more : {i : ℕ} → Lines offset stats zero i [] 0
  skipped :
      {n i t : ℕ} {xs : List ℕ}
      → (blocks (stats i) ≡ 0) ⊎ (2 ^ 31 ≤ blocks (stats i))
      → Lines offset stats n (i + 1) xs t
      → Lines offset stats (suc n) i xs t
  printed :
      {n i t : ℕ} {xs ys : List ℕ}
      → 0 < blocks (stats i)
      → blocks (stats i) < 2 ^ 31
      → Line offset i (stats i) xs
      → Lines offset stats n (i + 1) ys t
      → Lines offset stats (suc n) i (xs ++ ys) (bytes offset i (stats i) + t)

-- All lines, and "Total size:<sum of the bytes> ".
pub record IsReport (offset : ℕ) (m : Memory) (text : List ℕ) : Type 0 where
  pub classes : List ℕ
  pub sum : ℕ
  pub total : List ℕ
  pub has_classes : Lines offset m.stats type_max 0 classes sum
  pub has_total : Decimal (sum % 2 ^ 64) total
  pub whole :
      text
      ≡ classes
        ++ (b'T'
            ∷ b'o'
            ∷ b't'
            ∷ b'a'
            ∷ b'l'
            ∷ b' '
            ∷ b's'
            ∷ b'i'
            ∷ b'z'
            ∷ b'e'
            ∷ b':'
            ∷ (total ++ b' ' ∷ []))

class_line-Line : (offset i : ℕ) (s : Stat) → Line offset i s (class_line offset i s)
unfolding class_line class_bytes blocks_of
class_line-Line offset i s = record {
  size = _;
  sum = _;
  used = _;
  free = _;
  has_size = print_int-Signed (block_size i);
  has_sum = print_unsigned-Decimal (bytes offset i s) (omega arith);
  has_used = print_int-Signed s.blocks_used;
  has_free = print_int-Signed s.blocks_free;
  whole = refl;
}

not_counted : (s : Stat) → is_counted s ≡ false → (blocks s ≡ 0) ⊎ (2 ^ 31 ≤ blocks s)
unfolding is_counted blocks_of
not_counted s h = elim (Bool-cases (ltb 0 (blocks s))) [
  | inl some_blocks ↦ inr (ground (arith, some_blocks, h))
  | inr no_blocks ↦ inl (ground (arith, no_blocks))
]

-- The code's lines, with the sum that it has at the end when it is at `t`.
lines-Lines :
    (offset : ℕ) (stats : ℕ → Stat) (n i t : ℕ)
    → t < 2 ^ 64
    → (sum : ℕ) × Lines offset stats n i (lines offset stats n i) sum
      × (total_from offset stats n i t ≡ (t + sum) % 2 ^ 64)
unfolding lines total_from is_counted blocks_of class_bytes
lines-Lines offset stats zero i t lt = (0, no_more, omega (arith, lt))
lines-Lines offset stats (suc n) i t lt = elim (Bool-cases (is_counted (stats i))) [
  | inr empty ↦
      let (sum, k, e) = lines-Lines offset stats n (i + 1) t lt in
      rw empty (sum, skipped (not_counted (stats i) empty) k, e)
  | inl counted ↦
      let (sum, k, e) =
        lines-Lines offset stats n (i + 1) ((t + bytes offset i (stats i)) % 2 ^ 64)
          (omega arith) in
      rw counted (
        bytes offset i (stats i) + sum,
        printed (ground (arith, counted)) (ground (arith, counted))
            (class_line-Line offset i (stats i)) k,
        e ∙ omega arith,
      )
]

report-IsReport : (offset : ℕ) (m : Memory) → IsReport offset m (report offset m)
unfolding report total_line
report-IsReport offset m =
    let (sum, k, e) = lines-Lines offset m.stats type_max 0 0 (omega arith) in
    let total = total_from offset m.stats type_max 0 0 in
    let same : total ≡ sum % 2 ^ 64 = omega (arith, e) in
    record {
      classes = lines offset m.stats type_max 0;
      sum = sum;
      total = print_unsigned total;
      has_classes = k;
      has_total =
          subst (λ n. Decimal n (print_unsigned total)) same
            (print_unsigned-Decimal total (omega (arith, same)));
      whole = refl;
    }

-- Where the array has room for the text and its zero, statistics_mem_info writes it at the start of
-- the array and returns its length. The text has a line for each class that has blocks, in the order
-- of their sizes, with the size of the class, the bytes of its blocks with their headers, and how
-- many are used and free, in decimal; and at its end the sum of the bytes, modulo 2 ^ 64.
pub statistics_mem_info-IsReport :
    (offset buff_sz : ℕ) (m : Memory) (buff : List ℕ)
    → buff_sz < 2 ^ 64
    → length buff ≡ buff_sz
    → length (report offset m) < buff_sz
    → (text : List ℕ) × (new : List ℕ) × IsReport offset m text
      × (statistics_mem_info offset m buff buff_sz ≡ some (new, length text))
      × (take (length text + 1) new ≡ text ++ 0 ∷ [])
statistics_mem_info-IsReport offset buff_sz m buff small size room =
    let (new, e, front) = statistics_mem_info-report offset buff_sz small m buff size room in
    (report offset m, new, report-IsReport offset m, e, front)
