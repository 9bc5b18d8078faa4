-- ===== src/Mem/Free.antt =====
-- mem_free.
use jujube.Base.{
  ℕ, ◌≡◌, ◌⊎◌, refl, ◌&&◌, ◌||◌, none, some, List, [], ◌∷◌, ◌++◌, arith, ◌==◌, has, remove,
  has-append, has-remove, remove-Distinct, append-Distinct, length-append, if◌then◌else◌,
  Bool-cases, Option-cases, inl, inr,
}
use jujube.Base.Run.{ok, abort, fault, Returns, returns}
use jujube.Base.Store.{lookup, put, lookup-put}
use jujube.Mem.{Addr, Entry, Memory, dec32, count_free, set_at, free_entry, mem_free, view}
use jujube.Mem.Class.{size_class}
use jujube.Mem.Count.{count_class-remove, count_class-put_same}
use jujube.Mem.Inv.{Inv, EntryOk, EntryOk-frame}
use jujube.Mem.Spec.{Freed}
use jujube.Mem.Access.{view_entry}

module _ (m : Memory) (a : Addr) (old : Entry) (v : Inv m) (ho : lookup a m.entries ≡ some old)
    (held : old.refcount ≡ 1) where
  abbrev freed : Entry
  freed = record old { refcount = dec32 old.refcount }

  abbrev class : ℕ
  class = size_class old.obj_size

  abbrev after_free : Memory
  after_free = record m {
    entries = put a freed m.entries;
    pools = set_at m.pools class (m.pools class ++ a ∷ []);
    used_list = remove a m.used_list;
    stats = set_at m.stats class (count_free (m.stats class));
  }

  mem_free-ok : mem_free a m ≡ ok tt after_free
  unfolding mem_free free_entry
  mem_free-ok = ground (arith, k.guarded, k.in_range)
    where
      k : EntryOk m a old
      k = v.entry a old ho

  has-pool :
      (b j : ℕ) → has b (after_free.pools j) ≡ (has b (m.pools j) || ((class == j) && (a == b)))
  has-pool b j = ground (arith, has-append b (m.pools class) (a ∷ []))

  after_free-EntryOk :
      (b : Addr) (e : Entry) → lookup b after_free.entries ≡ some e → EntryOk after_free b e
  after_free-EntryOk b e h = elim (Bool-cases (a == b)) [
    | inl same ↦ record {
      guarded = ground (arith, rule, k.guarded);
      in_range = ground (arith, rule, k.in_range);
      sized = ground (arith, rule, k.sized);
      fits = ground (arith, rule, k.fits);
      counted = ground (arith, rule);
      used = ground (arith, rule, has-remove a b m.used_list v.used_distinct);
      pooled = λ j. ground (arith, rule, k.pooled j, has-pool b j);
    }
    | inr other ↦
        EntryOk-frame {m = m} (v.entry b e (ground (arith, rule)))
          (ground (arith, has-remove a b m.used_list v.used_distinct))
          (λ j. ground (arith, has-pool b j))
  ]
    where
      k : EntryOk m a old
      k = v.entry a old ho

      rule : lookup b after_free.entries ≡ (if a == b then some freed else lookup b m.entries)
      rule = lookup-put a b freed m.entries

  after_free-Inv : Inv after_free
  unfolding count_free
  after_free-Inv = record {
    entry = after_free-EntryOk;
    unused = λ b h. ground (
      arith,
      lookup-put a b freed m.entries,
      v.unused b,
      has-remove a b m.used_list v.used_distinct,
    );
    unpooled =
        λ b j h. ground (arith, lookup-put a b freed m.entries, v.unpooled b j, has-pool b j);
    used_distinct = remove-Distinct a m.used_list v.used_distinct;
    pool_distinct = λ j. ground (
      arith,
      v.pool_distinct j,
      k.pooled j,
      append-Distinct a (m.pools class) (v.pool_distinct class),
    );
    free_count = λ j. ground (arith, v.free_count j, length-append (m.pools class) (a ∷ []));
    used_count = λ j. ground (
      arith,
      v.used_count j,
      k.used,
      count_class-put_same m.entries j a freed old (remove a m.used_list) ho refl,
      count_class-remove m.entries j a m.used_list,
    );
  }
    where
      k : EntryOk m a old
      k = v.entry a old ho

  mem_free-Freed_at : Returns (λ _ m'. Freed m a m') (mem_free a m)
  unfolding view
  mem_free-Freed_at = rw mem_free-ok (
      returns (record {
        inv = after_free-Inv;
        gone = ground (arith, lookup-put a a freed m.entries);
        others = λ b ne. ground (arith, lookup-put a b freed m.entries);
      }))

  -- The entry and the list afterwards.
  pub mem_free_lem :
      Returns
        (λ _ m'.
          Inv m'
          × (m'.entries ≡ put a (record old { refcount = dec32 old.refcount }) m.entries)
          × (m'.used_list ≡ remove a m.used_list))
        (mem_free a m)
  mem_free_lem = rw mem_free-ok (returns (after_free-Inv, refl, refl))

-- Where the invariant holds, a block in use goes back to its pool by mem_free: it is no longer in
-- use, the other blocks in use keep their bytes, and the invariant is kept.
pub mem_free-Freed :
    (m : Memory) (a : Addr) {xs : List ℕ}
    → Inv m
    → view m a ≡ some xs
    → Returns (λ _ m'. Freed m a m') (mem_free a m)
mem_free-Freed m a v h =
    let (e, found, _, held) = view_entry m a h in
    mem_free-Freed_at m a e v found (ground (arith, (v.entry a e found).counted))

-- Where the invariant holds, a block that is not in use, freed already or never given out, is not
-- freed: mem_free on it stops at an assertion or at a bad access.
pub mem_free_twice :
    (m : Memory) (a : Addr)
    → Inv m
    → view m a ≡ none
    → (mem_free a m ≡ abort) ⊎ (mem_free a m ≡ fault)
unfolding mem_free free_entry view
mem_free_twice m a v h = elim (Option-cases (lookup a m.entries)) [
  | inl missing ↦ inr (ground arith)
  | inr (e, found) ↦ inl (ground arith)
]
