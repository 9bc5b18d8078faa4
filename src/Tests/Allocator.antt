-- ===== src/Tests/Allocator.antt =====
-- mem.c: a malloc(3), and blocks of a started allocator.
use Prim.Native.String.{String}
use mathlib.Core.Option.{some-injective}
use jujube.Base.{◌⊎◌, ◌≢◌, suc, ◌+◌, ◌≤◌, ◌≡◌, ◌⊎◌, refl, none, some, Option, [], ◌∷◌, arith}
use jujube.Base.Run.{ok, abort, fault, Returns, value, ◌>>=◌, ◌>>◌}
use jujube.Base.Store.{Store, lookup}
use jujube.Mem.{
  Addr, Entry, Memory, Malloc, Gives, mem_module_init, mem_alloc, mem_free, mem_realloc,
}
use jujube.Mem.Class.{IsClassOf, size_class, size_class-IsClassOf, block_size}
use jujube.Mem.Spec.{Allocated, Freed}
use jujube.Mem.Access.{view_entry}
use jujube.Mem.Alloc.{mem_alloc-Allocated}
use jujube.Mem.Free.{mem_free-Freed, mem_free_twice}
use jujube.Mem.Realloc.{Moved, copied, mem_realloc-Moved}
use jujube.Mem.Init.{static_memory, init-Inv}
use jujube.Mem.Module.{nothing, mem_check_mod_count, mem_check_mod_count-alloc_free}
use jujube.Mem.History.{Keeps, allocs, frees, reallocs, writes, run, run-init-Inv}

-- An address above all that are taken.
abbrev pub above : Store Entry → Addr
above [] = 0
above ((a, e) ∷ s) = suc a + above s

pub above-fresh : (s : Store Entry) (a : Addr) → above s ≤ a → lookup a s ≡ none
unfolding lookup
above-fresh [] a h = refl
above-fresh ((b, e) ∷ s) a h = ground (arith, above-fresh s a (omega arith))

pub above-some : (s : Store Entry) (a : Addr) → some (above s) ≡ some a → lookup a s ≡ none
above-some s a e = above-fresh s a (omega (arith, some-injective (above s) a e))

abbrev pub os : Malloc
os = record { place = λ s. some (above s); place_fresh = above-some }

instance pub os-Gives : Gives os
os-Gives = record { address = above; found = λ s. refl }

abbrev pub started : Memory
started = mem_module_init static_memory

abbrev pub tag : Option String
tag = some "test"

size_class-IsClassOf_example : IsClassOf 20 (size_class 20)
size_class-IsClassOf_example = size_class-IsClassOf 20 (omega arith)

mem_alloc-Allocated_example :
    Returns
      (λ a m'. Allocated started 20 a m' × (20 ≤ block_size (size_class 20)))
      (mem_alloc os tag 20 started)
mem_alloc-Allocated_example = mem_alloc-Allocated os tag started 20 init-Inv (omega arith)

-- The state after that call, and its block.
abbrev pub first :
    (a : Addr) × (m : Memory) × (mem_alloc os tag 20 started ≡ ok a m)
    × (Allocated started 20 a m × (20 ≤ block_size (size_class 20)))
first = value (mem_alloc-Allocated os tag started 20 init-Inv (omega arith))

mem_free-Freed_example : Returns (λ _ m'. Freed first.1 first.0 m') (mem_free first.0 first.1)
mem_free-Freed_example = mem_free-Freed first.1 first.0 first.3.0.inv first.3.0.zeroed

-- The state after that call: the block is free.
abbrev freed :
    (r : Unit {0}) × (m : Memory) × (mem_free first.0 first.1 ≡ ok r m) × Freed first.1 first.0 m
freed = value (mem_free-Freed first.1 first.0 first.3.0.inv first.3.0.zeroed)

mem_free_twice_example : (mem_free first.0 freed.1 ≡ abort) ⊎ (mem_free first.0 freed.1 ≡ fault)
mem_free_twice_example = mem_free_twice freed.1 first.0 freed.3.inv freed.3.gone

-- The entry of the first block.
abbrev entry : Entry
entry = (view_entry first.1 first.0 first.3.0.zeroed).0

entry-found : lookup first.0 first.1.entries ≡ some entry
entry-found = (view_entry first.1 first.0 first.3.0.zeroed).1

entry-held : entry.refcount ≡ 1
entry-held =
    let used = (view_entry first.1 first.0 first.3.0.zeroed).3 in
    ground (arith, (first.3.0.inv.entry first.0 entry entry-found).counted)

mem_realloc-Moved_example :
    Returns
      (Moved first.1 first.0 (copied entry entry.obj 20 60))
      (mem_realloc os first.0 20 60 first.1)
mem_realloc-Moved_example =
    mem_realloc-Moved os first.1 first.0 entry 20 60 first.3.0.inv entry-found entry-held
      (omega arith)

run-init-Inv_example : Keeps (
    run os
      (allocs tag 20 ∷ writes 0 0 (1 ∷ []) ∷ reallocs 0 20 60 ∷ frees 0 ∷ [])
      (mem_module_init static_memory))
run-init-Inv_example =
    run-init-Inv os (allocs tag 20 ∷ writes 0 0 (1 ∷ []) ∷ reallocs 0 20 60 ∷ frees 0 ∷ [])

abbrev label : String
label = "test"

mem_check_mod_count-alloc_free_example :
    Returns
      (λ r m'. ((label ≡ label) × (r.0 ≡ 1)) ⊎ ((label ≢ label) × (r.0 ≡ 0)))
      ((mem_alloc os (some label) 20 >> mem_check_mod_count (some label) 0) started)
    × Returns
        (λ r m'. r.0 ≡ 0)
        (((mem_alloc os (some label) 20 >>= mem_free) >> mem_check_mod_count (some label) 0)
          started)
unfolding mem_module_init
mem_check_mod_count-alloc_free_example =
    mem_check_mod_count-alloc_free os label label 0 20 0 started init-Inv (omega arith) nothing
