-- ===== src/Mem/Access.antt =====
-- Reads and writes of a block in use.
use jujube.Base.{
  ℕ, ◌+◌, ◌≤◌, ◌≡◌, ◌≢◌, refl, ap, false, none, some, List, arith, ◌==◌, leb, length, take, drop,
  splice, length-splice, if◌then◌else◌, Bool-cases, Option-cases, inl, inr,
}
use jujube.Base.Run.{ok, fault, Returns, returns}
use jujube.Base.Store.{lookup, put, lookup-put}
use jujube.Mem.{Addr, Entry, Memory, load, load_entry, store, store_entry, view}
use jujube.Mem.Count.{count_class-put_same}
use jujube.Mem.Inv.{Inv, EntryOk, EntryOk-frame}
use jujube.Mem.Spec.{Stored}

-- The entry behind a block that is in use.
pub view_entry :
    (m : Memory) (a : Addr) {xs : List ℕ}
    → view m a ≡ some xs
    → (e : Entry) × (lookup a m.entries ≡ some e) × (e.obj ≡ xs) × (e.refcount == 0 ≡ false)
unfolding view
view_entry m a h = elim (Option-cases (lookup a m.entries)) [
  | inl missing ↦ absurd (ground arith)
  | inr (e, found) ↦ (e, found, ground arith, ground arith)
]

-- A read within the bounds of a block in use returns its bytes and changes nothing.
pub load-ok :
    (m : Memory) (a : Addr) (off n : ℕ) {xs : List ℕ}
    → view m a ≡ some xs
    → off + n ≤ length xs
    → load a off n m ≡ ok (take n (drop off xs)) m
unfolding load load_entry
load-ok m a off n h le = let (e, found, obj, held) = view_entry m a h in ground arith

module _ (m : Memory) (a : Addr) (off : ℕ) (ys : List ℕ) (old : Entry)
    (found : lookup a m.entries ≡ some old) (held : (old.refcount == 0) ≡ false)
    (fits : off + length ys ≤ length old.obj) where
  abbrev written : Entry
  written = record old { obj = splice old.obj off ys }

  abbrev after_store : Memory
  after_store = record m { entries = put a written m.entries }

  store-run : store a off ys m ≡ ok tt after_store
  unfolding store store_entry
  store-run = ground arith

  after_store-Inv : Inv m → Inv after_store
  after_store-Inv v = record {
    entry = λ b e h. elim (Bool-cases (a == b)) [
      | inl same ↦
          let k : EntryOk m a old = v.entry a old found in
          record {
            guarded = ground (arith, rule b, k.guarded);
            in_range = ground (arith, rule b, k.in_range);
            sized = ground (arith, rule b, k.sized, length-splice old.obj off ys fits);
            fits = ground (arith, rule b, k.fits);
            counted = ground (arith, rule b, k.counted);
            used = ground (arith, rule b, k.used);
            pooled = λ j. ground (arith, rule b, k.pooled j);
          }
      | inr other ↦ EntryOk-frame {m = m} (v.entry b e (ground (arith, rule b))) refl (λ j. refl)
    ];
    unused = λ b h. ground (arith, rule b, v.unused b);
    unpooled = λ b j h. ground (arith, rule b, v.unpooled b j);
    used_distinct = v.used_distinct;
    pool_distinct = v.pool_distinct;
    free_count = v.free_count;
    used_count = λ j. ground (
      arith,
      v.used_count j,
      count_class-put_same m.entries j a written old m.used_list found refl,
    );
  }
    where
      rule :
          (b : Addr)
          → lookup b after_store.entries ≡ (if a == b then some written else lookup b m.entries)
      rule b = lookup-put a b written m.entries

  store-Stored_at :
      Inv m → Returns (λ _ m'. Stored m a (splice old.obj off ys) m') (store a off ys m)
  unfolding view
  store-Stored_at v = rw store-run (
      returns (record {
        inv = after_store-Inv v;
        here = ground (arith, lookup-put a a written m.entries);
        others = λ b ne. ground (arith, lookup-put a b written m.entries);
      }))

-- A write within the bounds of a block in use puts the bytes there and changes no other block.
pub store-Stored :
    (m : Memory) (a : Addr) (off : ℕ) (ys : List ℕ) {xs : List ℕ}
    → Inv m
    → view m a ≡ some xs
    → off + length ys ≤ length xs
    → Returns (λ _ m'. Stored m a (splice xs off ys) m') (store a off ys m)
store-Stored m a off ys v h le =
    let (e, found, obj, held) = view_entry m a h in
    rw (← obj) (store-Stored_at m a off ys e found held (ground arith) v)

-- A block that is in no use is another than one in use.
pub view-apart :
    (m : Memory) {a c : Addr} {xs : List ℕ} → view m a ≡ none → view m c ≡ some xs → a ≢ c
view-apart m h k same = let e = ap (view m) same in cc

-- A write to a block in no use, or past the end of one, is a bad access.
pub store_unused :
    (m : Memory) (a : Addr) (off : ℕ) (ys : List ℕ) → view m a ≡ none → store a off ys m ≡ fault
unfolding store store_entry view
store_unused m a off ys h = ground arith

pub store_past :
    (m : Memory) (a : Addr) (off : ℕ) (ys : List ℕ) {xs : List ℕ}
    → view m a ≡ some xs
    → leb (off + length ys) (length xs) ≡ false
    → store a off ys m ≡ fault
unfolding store store_entry view
store_past m a off ys h p = ground arith
