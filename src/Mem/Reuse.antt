-- ===== src/Mem/Reuse.antt =====
-- mem_alloc from a pool that holds a block.
use Prim.Native.String.{String}
use jujube.Base.{
  ℕ, ◌≡◌, ◌≢◌, refl, Option, some, List, ◌∷◌, arith, ◌==◌, has, replicate, length-replicate,
  if◌then◌else◌, Bool-cases, Option-cases, inl, inr,
}
use jujube.Base.Run.{ok, Returns, returns}
use jujube.Base.Store.{lookup, put, lookup-put}
use jujube.Mem.{Addr, Entry, Memory, inc32, count_reuse, set_at, alloc_reuse, view}
use jujube.Mem.Class.{block_size, size_class}
use jujube.Mem.Count.{count_class, count_class-put_same}
use jujube.Mem.Inv.{Inv, EntryOk, EntryOk-frame}
use jujube.Mem.Spec.{Allocated}

module _ (module_name : Option String) (m : Memory) (i : ℕ) (a : Addr) (rest : List Addr)
    (v : Inv m) (top : m.pools i ≡ a ∷ rest) where
  -- The entry on top of a pool is free and of its class.
  pooled_entry :
      (e : Entry) → lookup a m.entries ≡ some e → (e.refcount ≡ 0) × (size_class e.obj_size ≡ i)
  pooled_entry e h = ground (arith, (v.entry a e h).pooled i)

  pool_top : (e : Entry) × (lookup a m.entries ≡ some e)
  pool_top = elim (Option-cases (lookup a m.entries)) [
    | inl missing ↦ absurd (ground (arith, v.unpooled a i missing))
    | inr found ↦ found
  ]

  abbrev reused : Entry → Entry
  reused e = record e {
    module_name = module_name;
    refcount = inc32 e.refcount;
    obj = replicate (block_size i) 0;
  }

  has-rest : (b j : ℕ) → a ≢ b → has b (set_at m.pools i rest j) ≡ has b (m.pools j)
  has-rest b j ne = ground arith

  alloc_reuse-EntryOk :
      (old : Entry) (m' : Memory)
      → lookup a m.entries ≡ some old
      → m'.entries ≡ put a (reused old) m.entries
      → m'.pools ≡ set_at m.pools i rest
      → m'.used_list ≡ a ∷ m.used_list
      → (b : Addr) (e : Entry) → lookup b m'.entries ≡ some e
      → EntryOk m' b e
  alloc_reuse-EntryOk old m' ho es ps us b e h = elim (Bool-cases (a == b)) [
    | inl same ↦ record {
      guarded = ground (arith, rule, k.guarded);
      in_range = ground (arith, rule, k.in_range);
      sized = ground (arith, rule, pooled_entry old ho, length-replicate {A = ℕ} (block_size i) 0);
      fits = ground (arith, rule, k.fits);
      counted = ground (arith, rule, pooled_entry old ho);
      used = ground (arith, rule, pooled_entry old ho);
      pooled = λ j. ground (arith, rule, k.pooled j, v.pool_distinct i, pooled_entry old ho);
    }
    | inr other ↦
        EntryOk-frame {m = m} (v.entry b e (ground (arith, rule))) (ground arith)
          (λ j. ground (arith, has-rest b j))
  ]
    where
      k : EntryOk m a old
      k = v.entry a old ho

      rule : lookup b m'.entries ≡ (if a == b then some (reused old) else lookup b m.entries)
      rule = rw es (lookup-put a b (reused old) m.entries)

  alloc_reuse-Inv :
      (old : Entry) (m' : Memory)
      → lookup a m.entries ≡ some old
      → alloc_reuse i module_name a rest m ≡ ok a m'
      → Inv m'
  unfolding alloc_reuse count_reuse count_class
  alloc_reuse-Inv old m' ho e = record {
    entry = alloc_reuse-EntryOk old m' ho (ground arith) (ground arith) (ground arith);
    unused = λ b h. ground (arith, lookup-put a b (reused old) m.entries, v.unused b);
    unpooled = λ b j h. ground (arith, lookup-put a b (reused old) m.entries, v.unpooled b j);
    used_distinct = ground (arith, k.used, pooled_entry old ho, v.used_distinct);
    pool_distinct = λ j. ground (arith, v.pool_distinct j);
    free_count = λ j. ground (arith, v.free_count j);
    used_count = λ j. ground (
      arith,
      v.used_count j,
      pooled_entry old ho,
      lookup-put a a (reused old) m.entries,
      count_class-put_same m.entries j a (reused old) old m.used_list ho refl,
    );
  }
    where
      k : EntryOk m a old
      k = v.entry a old ho

  abbrev after_reuse : Entry → Memory
  after_reuse old = record m {
    entries = put a (reused old) m.entries;
    pools = set_at m.pools i rest;
    used_list = a ∷ m.used_list;
    stats = set_at m.stats i (count_reuse (m.stats i));
  }

  alloc_reuse-ok :
      (old : Entry)
      → lookup a m.entries ≡ some old
      → alloc_reuse i module_name a rest m ≡ ok a (after_reuse old)
  unfolding alloc_reuse
  alloc_reuse-ok old ho = ground (arith, pooled_entry old ho)

  pub alloc_reuse-Allocated :
      (size : ℕ)
      → size_class size ≡ i
      → Returns (Allocated m size) (alloc_reuse i module_name a rest m)
  unfolding view
  alloc_reuse-Allocated size c =
      let (old, ho) = pool_top in
      let run = alloc_reuse-ok old ho in
      rw run (
        returns (record {
          inv = alloc_reuse-Inv old (after_reuse old) ho run;
          fresh = ground (arith, pooled_entry old ho);
          zeroed = ground (arith, pooled_entry old ho, lookup-put a a (reused old) m.entries);
          others = λ b ne. ground (arith, lookup-put a b (reused old) m.entries);
          entries_kept = λ b ne. ground (arith, lookup-put a b (reused old) m.entries);
        }))
