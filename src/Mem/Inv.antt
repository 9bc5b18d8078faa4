-- ===== src/Mem/Inv.antt =====
-- The invariant of the allocator's state.
use jujube.Base.{
  ℕ, ◌%◌, ◌^◌, ◌≤◌, ◌<◌, ◌≡◌, ◌∙◌, ◌&&◌, false, none, some, ◌==◌, has, Distinct, length,
}
use jujube.Base.Store.{lookup}
use jujube.Mem.{Addr, Entry, Memory, guard_byte}
use jujube.Mem.Class.{type_max, block_size, size_class}
use jujube.Mem.Count.{count_class}

-- An entry is in use and listed as such, or free and in the pool of its class alone.
pub record EntryOk (m : Memory) (a : Addr) (e : Entry) : Type 0 where
  pub guarded : e.guard ≡ guard_byte
  pub in_range : size_class e.obj_size < type_max
  pub sized : length e.obj ≡ block_size (size_class e.obj_size)
  pub fits : e.obj_size ≤ block_size (size_class e.obj_size)
  pub counted : e.refcount ≤ 1
  pub used : has a m.used_list ≡ (e.refcount == 1)
  pub pooled : (i : ℕ) → has a (m.pools i) ≡ ((e.refcount == 0) && (size_class e.obj_size == i))

pub record Inv (m : Memory) : Type 0 where
  pub entry : (a : Addr) (e : Entry) → lookup a m.entries ≡ some e → EntryOk m a e
  pub unused : (a : Addr) → lookup a m.entries ≡ none → has a m.used_list ≡ false
  pub unpooled : (a i : ℕ) → lookup a m.entries ≡ none → has a (m.pools i) ≡ false
  pub used_distinct : Distinct m.used_list
  pub pool_distinct : (i : ℕ) → Distinct (m.pools i)
  pub free_count : (i : ℕ) → (m.stats i).blocks_free ≡ length (m.pools i) % 2 ^ 32
  pub used_count : (i : ℕ) → (m.stats i).blocks_used ≡ count_class m.entries i m.used_list % 2 ^ 32

-- What a change leaves where it was stays well formed.
pub EntryOk-frame :
    {m m' : Memory} {a : Addr} {e : Entry}
    → EntryOk m a e
    → has a m'.used_list ≡ has a m.used_list
    → ((i : ℕ) → has a (m'.pools i) ≡ has a (m.pools i))
    → EntryOk m' a e
EntryOk-frame k u p = record {
  guarded = k.guarded;
  in_range = k.in_range;
  sized = k.sized;
  fits = k.fits;
  counted = k.counted;
  used = u ∙ k.used;
  pooled = λ i. p i ∙ k.pooled i;
}
