-- ===== src/Mem/Alloc.antt =====
-- mem_alloc: what it returns, and that it keeps the invariant.
use Prim.Native.String.{String}
use jujube.Base.{
  ℕ, ◌≤◌, ◌<◌, ◌≡◌, refl, Option, none, some, List, [], ◌∷◌, arith, ◌==◌, length-replicate,
  if◌then◌else◌, le→ltb, lt→ltb, lt→leb, Bool-cases, inl, inr,
}
use jujube.Base.Run.{ok, abort, fault, Returns, returns, mono}
use jujube.Base.Store.{lookup, put, lookup-put}
use jujube.Mem.{
  Addr, Entry, Memory, Malloc, Gives, new_entry, count_new, alloc_at, alloc_new, alloc_from,
  mem_alloc, view,
}
use jujube.Mem.Class.{type_max, max_ext_block, block_size, size_class, size_class-IsClassOf}
use jujube.Mem.Count.{count_class, count_class-put}
use jujube.Mem.Inv.{Inv, EntryOk, EntryOk-frame}
use jujube.Mem.Spec.{Allocated}
use jujube.Mem.Reuse.{alloc_reuse-Allocated}

module _ (os : Malloc) ⦃gives : Gives os⦄ (module_name : Option String) (m : Memory) (size : ℕ)
    (v : Inv m) where
  abbrev place : Addr
  place = gives.address m.entries

  place_fresh : lookup place m.entries ≡ none
  place_fresh = os.place_fresh m.entries place (gives.found m.entries)

  alloc_new_lem :
      alloc_new os (size_class size) module_name size m
      ≡ alloc_at place (size_class size) module_name size m
  unfolding alloc_new
  alloc_new_lem = rw (alloc_new, gives.found m.entries) refl

  fresh_entry : Addr → ℕ → Option Entry
  fresh_entry b i = if place == b then some (new_entry i module_name size) else lookup b m.entries

  lookup-fresh :
      (b : Addr)
      → lookup b (put place (new_entry (size_class size) module_name size) m.entries)
        ≡ fresh_entry b (size_class size)
  unfolding fresh_entry
  lookup-fresh b = lookup-put place b (new_entry (size_class size) module_name size) m.entries

  alloc_new-EntryOk :
      (m' : Memory)
      → m'.entries ≡ put place (new_entry (size_class size) module_name size) m.entries
      → m'.pools ≡ m.pools
      → m'.used_list ≡ place ∷ m.used_list
      → size_class size < type_max
      → size ≤ block_size (size_class size)
      → (b : Addr) (e : Entry) → lookup b m'.entries ≡ some e
      → EntryOk m' b e
  unfolding new_entry fresh_entry
  alloc_new-EntryOk m' es ps us lt fits b e h = elim (Bool-cases (place == b)) [
    | inl same ↦ record {
      guarded = ground (arith, rule);
      in_range = ground (arith, rule);
      sized = ground (arith, rule, length-replicate (block_size (size_class size)) zeros);
      fits = ground (arith, rule);
      counted = ground (arith, rule);
      used = ground (arith, rule);
      pooled = λ i. ground (arith, rule, v.unpooled b i, place_fresh);
    }
    | inr other ↦
        EntryOk-frame {m = m} (v.entry b e (ground (arith, rule))) (ground arith)
          (λ i. ground arith)
  ]
    where
      zeros : ℕ
      zeros = 0

      rule : lookup b m'.entries ≡ fresh_entry b (size_class size)
      rule = rw es (lookup-fresh b)

  alloc_new-Inv :
      (m' : Memory)
      → size_class size < type_max
      → size ≤ block_size (size_class size)
      → alloc_at place (size_class size) module_name size m ≡ ok place m'
      → Inv m'
  unfolding alloc_at count_new new_entry count_class fresh_entry
  alloc_new-Inv m' lt fits e = record {
    entry = alloc_new-EntryOk m' (ground arith) (ground arith) (ground arith) lt fits;
    unused = λ b h. ground (arith, lookup-fresh b, v.unused b);
    unpooled = λ b i h. ground (arith, lookup-fresh b, v.unpooled b i);
    used_distinct = ground (arith, v.unused place, place_fresh);
    pool_distinct = λ i. ground (arith, v.pool_distinct i);
    free_count = λ i. ground (arith, v.free_count i);
    used_count = λ i. ground (
      arith,
      v.used_count i,
      v.unused place,
      place_fresh,
      lookup-fresh place,
      count_class-put m.entries i place (new_entry (size_class size) module_name size) m.used_list,
    );
  }

  alloc_new-Allocated :
      size_class size < type_max
      → size ≤ block_size (size_class size)
      → Returns (Allocated m size) (alloc_new os (size_class size) module_name size m)
  unfolding alloc_at new_entry view fresh_entry
  alloc_new-Allocated lt fits = rw alloc_new_lem (
      returns (record {
        inv = alloc_new-Inv _ lt fits refl;
        fresh = ground (arith, place_fresh);
        zeroed = ground (arith, lookup-fresh place);
        others = λ b ne. ground (arith, lookup-fresh b);
        entries_kept = λ b ne. ground (arith, lookup-fresh b);
      }))

  alloc_from-Allocated :
      (l : List Addr)
      → m.pools (size_class size) ≡ l
      → size_class size < type_max
      → size ≤ block_size (size_class size)
      → Returns (Allocated m size) (alloc_from os (size_class size) module_name size l m)
  unfolding alloc_from
  alloc_from-Allocated [] e lt fits = alloc_new-Allocated lt fits
  alloc_from-Allocated (a ∷ rest) e lt fits =
      alloc_reuse-Allocated module_name m (size_class size) a rest v e size refl

  -- In an allocator that satisfies its invariant a request within MAX_EXT_MEM_BLOCK is served:
  -- mem_alloc returns a block of zeros, large enough for the size, that nobody had, leaves the
  -- bytes of every other block in use, and keeps the invariant. malloc(3) is taken not to fail
  -- (`Gives`).
  pub mem_alloc-Allocated :
      size ≤ max_ext_block
      → Returns
          (λ a m'. Allocated m size a m' × (size ≤ block_size (size_class size)))
          (mem_alloc os module_name size m)
  unfolding mem_alloc
  mem_alloc-Allocated h =
      let c = size_class-IsClassOf size h in
      rw (le→ltb max_ext_block size h, lt→leb type_max (size_class size) c.in_range)
        (mono (alloc_from-Allocated (m.pools (size_class size)) refl c.in_range c.fits)
          (λ a m' p. (p, c.fits)))

  -- A larger one fails the assertion.
  pub mem_alloc-abort : max_ext_block < size → mem_alloc os module_name size m ≡ abort
  unfolding mem_alloc
  mem_alloc-abort h = rw (lt→ltb max_ext_block size h)

-- Where the pool of the class is empty and malloc(3) gives NULL, mem_alloc makes a bad access.
pub mem_alloc-null :
    (os : Malloc) (module_name : Option String) (m : Memory) (size : ℕ)
    → size ≤ max_ext_block
    → m.pools (size_class size) ≡ []
    → os.place m.entries ≡ none
    → mem_alloc os module_name size m ≡ fault
unfolding mem_alloc alloc_from alloc_new
mem_alloc-null os module_name m size h empty nothing =
    let c = size_class-IsClassOf size h in
    rw
      (
        le→ltb max_ext_block size h,
        lt→leb type_max (size_class size) c.in_range,
        empty,
        alloc_from,
        alloc_new,
        nothing,
      )
      refl
