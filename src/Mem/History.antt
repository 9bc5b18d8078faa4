-- ===== src/Mem/History.antt =====
-- Any sequence of calls of the allocator, and of writes by the owners of blocks.
use Prim.Native.String.{String}
use jujube.Base.{
  ℕ, ◌+◌, ◌≡◌, ◌⊎◌, inl, inr, ◌&&◌, Option, List, [], ◌∷◌, arith, ltb, leb, ◌==◌, length,
  Bool-cases, Option-cases, ltb→lt,
}
use jujube.Base.Run.{Run, ok, abort, fault, Cmd, pure, ◌>>◌, and_then, Returns, returns}
use jujube.Base.Store.{lookup}
use jujube.Mem.{
  Addr, Memory, Malloc, Gives, Entry, mem_module_init, mem_alloc, mem_free, mem_realloc, copy_block,
  header, load, load_entry, store, view,
}
use jujube.Mem.Class.{max_ext_block}
use jujube.Mem.Inv.{Inv}
use jujube.Mem.Alloc.{mem_alloc-Allocated, mem_alloc-abort}
use jujube.Mem.Access.{store-Stored, store_unused, store_past}
use jujube.Mem.Free.{mem_free-Freed, mem_free_twice}
use jujube.Mem.Init.{static_memory, init-Inv}

-- Where the run returns, the state is well formed.
abbrev pub Keeps : {A : Type 0} → Run Memory A → Type 0
Keeps (ok a m) = Inv m
Keeps abort = Unit {0}
Keeps fault = Unit {0}

module _ {A : Type 0} where
  Keeps-then :
      {B : Type 0} (r : Run Memory A) (k : A → Cmd Memory B)
      → Keeps r
      → ((a : A) (m : Memory) → Inv m → Keeps (k a m))
      → Keeps (and_then r k)
  Keeps-then (ok a m) k h next = next a m h
  Keeps-then abort k h next = tt
  Keeps-then fault k h next = tt

  Keeps-Returns :
      {P : A → Memory → Type 0} {r : Run Memory A}
      → Returns P r
      → ((a : A) (m : Memory) → P a m → Inv m)
      → Keeps r
  Keeps-Returns (returns p) inv = inv _ _ p

  Keeps-stop : {r : Run Memory A} → (r ≡ abort) ⊎ (r ≡ fault) → Keeps r
  Keeps-stop (inl e) = rw e tt
  Keeps-stop (inr e) = rw e tt

mem_alloc-Keeps :
    (os : Malloc) ⦃gives : Gives os⦄ (name : Option String) (size : ℕ) (m : Memory)
    → Inv m
    → Keeps (mem_alloc os name size m)
mem_alloc-Keeps os name size m v = elim (Bool-cases (ltb max_ext_block size)) [
  | inl big ↦ Keeps-stop (inl (mem_alloc-abort os name m size v (ltb→lt _ _ big)))
  | inr fits ↦
      Keeps-Returns (mem_alloc-Allocated os name m size v (ground arith)) (λ a m' p. p.0.inv)
]

mem_free-Keeps : (a : Addr) (m : Memory) → Inv m → Keeps (mem_free a m)
mem_free-Keeps a m v = elim (Option-cases (view m a)) [
  | inl unused ↦ Keeps-stop (mem_free_twice m a v unused)
  | inr (xs, used) ↦ Keeps-Returns (mem_free-Freed m a v used) (λ _ m' p. p.inv)
]

store-Keeps : (a : Addr) (off : ℕ) (ys : List ℕ) (m : Memory) → Inv m → Keeps (store a off ys m)
store-Keeps a off ys m v = elim (Option-cases (view m a)) [
  | inl unused ↦ Keeps-stop (inr (store_unused m a off ys unused))
  | inr (xs, used) ↦ elim (Bool-cases (leb (off + length ys) (length xs))) [
    | inl fits ↦ Keeps-Returns (store-Stored m a off ys v used (ground arith)) (λ _ m' p. p.inv)
    | inr past ↦ Keeps-stop (inr (store_past m a off ys used past))
  ]
]

load-Keeps : (a : Addr) (off n : ℕ) (m : Memory) → Inv m → Keeps (load a off n m)
unfolding load load_entry
load-Keeps a off n m v = elim (Option-cases (lookup a m.entries)) [
  | inl missing ↦ rw (missing, load) tt
  | inr (e, found) ↦ elim (Bool-cases (e.refcount == 0)) [
    | inl unused ↦ Keeps-stop (inr (ground arith))
    | inr used ↦ elim (Bool-cases (leb (off + n) (length e.obj))) [
      | inl fits ↦ rw (found, load) (rw used (rw fits v))
      | inr past ↦ Keeps-stop (inr (ground arith))
    ]
  ]
]

header-Keeps : (a : Addr) (m : Memory) → Inv m → Keeps (header a m)
unfolding header
header-Keeps a m v = elim (Option-cases (lookup a m.entries)) [
  | inl missing ↦ Keeps-stop (inr (ground arith))
  | inr (e, found) ↦ rw (found, header) v
]

copy_block-Keeps :
    (buf new_buf : Addr) (me : Entry) (old_size new_size : ℕ) (m : Memory)
    → Inv m
    → Keeps (copy_block buf new_buf me old_size new_size m)
unfolding copy_block
copy_block-Keeps buf new_buf me old_size new_size m v =
    elim (Bool-cases (leb old_size me.obj_size && leb old_size new_size)) [
      | inl copies ↦ rw copies (
          Keeps-then (load buf 0 old_size m) (λ bytes. store new_buf 0 bytes)
            (load-Keeps buf 0 old_size m v) (λ bytes m' v'. store-Keeps new_buf 0 bytes m' v'))
      | inr skips ↦ rw skips v
    ]

mem_realloc-Keeps :
    (os : Malloc) ⦃gives : Gives os⦄ (buf : Addr) (old_size new_size : ℕ) (m : Memory)
    → Inv m
    → Keeps (mem_realloc os buf old_size new_size m)
unfolding mem_realloc
mem_realloc-Keeps os buf old_size new_size m v =
    Keeps-then (header buf m) _ (header-Keeps buf m v) (λ old m1 v1.
      Keeps-then (mem_alloc os old.module_name new_size m1) _
        (mem_alloc-Keeps os old.module_name new_size m1 v1)
        (λ new_buf m2 v2. Keeps-then (header buf m2) _ (header-Keeps buf m2 v2) (λ me m3 v3.
          Keeps-then (copy_block buf new_buf me old_size new_size m3) _
            (copy_block-Keeps buf new_buf me old_size new_size m3 v3)
            (λ _ m4 v4.
              Keeps-then (mem_free buf m4) _ (mem_free-Keeps buf m4 v4) (λ _ m5 v5. v5)))))

-- A call, with any arguments.
pub data Call : Type 0 where
  allocs : Option String → ℕ → Call
  frees : Addr → Call
  reallocs : Addr → ℕ → ℕ → Call
  writes : Addr → ℕ → List ℕ → Call

pub step : Malloc → Call → Cmd Memory (Unit {0})
step os (allocs name size) = mem_alloc os name size >> pure tt
step os (frees a) = mem_free a
step os (reallocs a old_size new_size) = mem_realloc os a old_size new_size >> pure tt
step os (writes a off ys) = store a off ys

pub run : Malloc → List Call → Cmd Memory (Unit {0})
run os [] = pure tt
run os (c ∷ cs) = step os c >> run os cs

step-Keeps : (os : Malloc) ⦃gives : Gives os⦄ (c : Call) (m : Memory) → Inv m → Keeps (step os c m)
unfolding step
step-Keeps os (allocs name size) m v =
    Keeps-then (mem_alloc os name size m) _ (mem_alloc-Keeps os name size m v) (λ a m' v'. v')
step-Keeps os (frees a) m v = mem_free-Keeps a m v
step-Keeps os (reallocs a o n) m v =
    Keeps-then (mem_realloc os a o n m) _ (mem_realloc-Keeps os a o n m v) (λ a m' v'. v')
step-Keeps os (writes a off ys) m v = store-Keeps a off ys m v

run-Keeps :
    (os : Malloc) ⦃gives : Gives os⦄ (cs : List Call) (m : Memory) → Inv m → Keeps (run os cs m)
unfolding run
run-Keeps os [] m v = v
run-Keeps os (c ∷ cs) m v =
    Keeps-then (step os c m) _ (step-Keeps os c m v) (λ _ m' v'. run-Keeps os cs m' v')

-- After mem_module_init, no sequence of calls and writes, whatever their arguments, leads the
-- allocator out of its invariant, unless it stops at a failed assertion or a bad access: each
-- block is in use with one reference and on the list of used blocks, or free and in the pool of
-- its class alone, and the counters of mem_stat count the blocks of each class modulo 2 ^ 32.
-- malloc(3) is taken not to fail (`Gives`).
pub run-init-Inv :
    (os : Malloc) ⦃gives : Gives os⦄ (cs : List Call)
    → Keeps (run os cs (mem_module_init static_memory))
run-init-Inv os cs = run-Keeps os cs (mem_module_init static_memory) init-Inv
