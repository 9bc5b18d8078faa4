-- ===== src/Mem/Spec.antt =====
-- What mem_alloc and mem_free promise to the owners of blocks.
use jujube.Base.{ℕ, ◌≡◌, ◌≢◌, none, some, List, replicate}
use jujube.Base.Store.{lookup}
use jujube.Mem.{Addr, Memory, view}
use jujube.Mem.Class.{block_size, size_class}
use jujube.Mem.Inv.{Inv}

-- A block of zeros that nobody had, while the other blocks in use keep their bytes.
pub record Allocated (m : Memory) (size : ℕ) (a : Addr) (m' : Memory) : Type 0 where
  pub inv : Inv m'
  pub fresh : view m a ≡ none
  pub zeroed : view m' a ≡ some (replicate (block_size (size_class size)) 0)
  pub others : (b : Addr) → a ≢ b → view m' b ≡ view m b
  pub entries_kept : (b : Addr) → a ≢ b → lookup b m'.entries ≡ lookup b m.entries

-- The block is gone, and the other blocks in use keep their bytes.
pub record Freed (m : Memory) (a : Addr) (m' : Memory) : Type 0 where
  pub inv : Inv m'
  pub gone : view m' a ≡ none
  pub others : (b : Addr) → a ≢ b → view m' b ≡ view m b

-- The block holds `xs`, and the other blocks in use keep their bytes.
pub record Stored (m : Memory) (a : Addr) (xs : List ℕ) (m' : Memory) : Type 0 where
  pub inv : Inv m'
  pub here : view m' a ≡ some xs
  pub others : (b : Addr) → a ≢ b → view m' b ≡ view m b
