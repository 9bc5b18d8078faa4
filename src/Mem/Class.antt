-- ===== src/Mem/Class.antt =====
-- The size classes of mem.c: class `i` serves blocks of `1 << (i + 4)` bytes.
use jujube.Base.{
  ℕ, zero, suc, ◌+◌, ◌*◌, ◌^◌, ◌≤◌, ◌<◌, ◌≡◌, inl, inr, false, arith, ltb, leb, ◌==◌, if◌then◌else◌,
  ltb→lt, Bool-cases,
}

-- MEM_TYPE_MAX
abbrev pub type_max : ℕ
type_max = 17

-- MAX_EXT_MEM_BLOCK
abbrev pub max_ext_block : ℕ
max_ext_block = 1024 * 1024

unfoldable pub block_size : ℕ → ℕ
block_size i = 2 ^ (i + 4)

-- The loop over the classes: the first that is large enough, or where the loop ended.
class_from : (rounds i size : ℕ) → ℕ
class_from zero i size = i
class_from (suc n) i size =
    let next = class_from n (i + 1) size in if leb size (block_size i) then i else next

unfoldable pub size_class : ℕ → ℕ
unfolding class_from block_size
size_class size = class_from type_max 0 size

-- What the loop from class `i` found.
record Found (n i size r : ℕ) : Type 0 where
  lower : i ≤ r
  upper : r ≤ i + n
  fits : r < i + n → size ≤ block_size r
  least : (k : ℕ) → i ≤ k → k < r → block_size k < size

class_from_next :
    {n i size r : ℕ}
    → leb size (block_size i) ≡ false
    → Found n (i + 1) size r
    → Found (suc n) i size r
class_from_next {n} {i} {size} {r} large f = record {
  lower = omega (arith, f.lower);
  upper = omega (arith, f.upper);
  fits = λ h. f.fits (omega arith);
  least = λ k h h'. elim (Bool-cases (k == i)) [
    | inl e ↦ ground arith
    | inr ne ↦ f.least k (ground arith) h'
  ];
}

class_from-Found : (n i size : ℕ) → Found n i size (class_from n i size)
unfolding class_from
class_from-Found zero i size = record {
  lower = omega arith;
  upper = omega arith;
  fits = λ h. absurd (omega arith);
  least = λ k h h'. absurd (omega arith);
}
class_from-Found (suc n) i size = elim (Bool-cases (leb size (block_size i))) [
  | inl small ↦ rw small (record {
    lower = omega arith;
    upper = omega arith;
    fits = λ h. ground arith;
    least = λ k h h'. absurd (omega arith);
  })
  | inr large ↦ rw large (class_from_next large (class_from-Found n (i + 1) size))
]

-- A size that the allocator serves has a class, and it is the smallest that holds it.
pub record IsClassOf (size i : ℕ) : Type 0 where
  pub in_range : i < type_max
  pub fits : size ≤ block_size i
  pub least : (k : ℕ) → k < i → block_size k < size

-- For a size within MAX_EXT_MEM_BLOCK the loop of mem_alloc and mem_free stops at a class in range
-- whose blocks are large enough, and no class before it has blocks that are.
pub size_class-IsClassOf : (size : ℕ) → size ≤ max_ext_block → IsClassOf size (size_class size)
unfolding size_class
size_class-IsClassOf size h = record {
  in_range = in_range;
  fits = found.fits in_range;
  least = λ k l. found.least k (omega arith) l;
}
  where
    found : Found type_max 0 size (class_from type_max 0 size)
    found = class_from-Found type_max 0 size

    in_range : class_from type_max 0 size < type_max
    in_range = elim (Bool-cases (ltb (class_from type_max 0 size) type_max)) [
      | inl l ↦ ltb→lt _ _ l
      | inr g ↦
          let big : block_size 16 < size = found.least 16 (omega arith) (ground arith) in
          absurd (omega arith)
    ]
