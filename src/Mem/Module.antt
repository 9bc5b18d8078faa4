-- ===== src/Mem/Module.antt =====
-- mem.c: mem_check_mod_count, the number of blocks in use that carry a module's name. It is far below
-- 2 ^ 63, which the `int64_t` of the source holds.
use Prim.Native.String.{String}
use text.Mathlib.Text.{◌==◌ as same_text}
use text.Mathlib.TextEquality.{eq_iff}
use mathlib.Core.Option.{some-injective}
use jujube.Base.{
  ◌≢◌, ◌⊎◌, Bool-cases, ℕ, ◌+◌, ◌≤◌, ◌≡◌, ◌∙◌, ap, refl, Bool, true, false, Option, none, some,
  List, [], ◌∷◌, arith, ◌==◌, ltb, if◌then◌else◌, Option-cases, has, remove, le→ltb, lt→leb, inl,
  inr,
}
use jujube.Base.Run.{
  Cmd, ok, pure, and_then, ◌>>=◌, ◌>>◌, fault, Returns, returns, bind, mono, value, result_of,
}
use jujube.Base.Store.{Store, lookup, put, lookup-put, lookup-put_self}
use jujube.Mem.{
  Addr, Entry, Memory, Malloc, Gives, mem_alloc, mem_free, alloc_from, alloc_new, alloc_at,
  alloc_reuse, new_entry, inc32,
}
use jujube.Mem.Class.{max_ext_block, type_max, size_class, size_class-IsClassOf}
use jujube.Mem.Inv.{Inv}
use jujube.Mem.Alloc.{mem_alloc-Allocated}
use jujube.Mem.Free.{mem_free_lem}

-- `q->module != NULL && strcmp(q->module, module) == 0`
pub is_named : String → Option String → Bool
is_named name none = false
is_named name (some s) = same_text s name

-- The loop over MEM_USED_LIST: the count, and `*objsize`.
count_from : String → List Addr → ℕ → Cmd Memory (ℕ × ℕ)
count_from name [] objsize m = ok (0, objsize) m
count_from name (a ∷ l) objsize m = elim (lookup a m.entries) [
  | none ↦ fault
  | some e ↦
      let named = is_named name e.module_name in
      and_then
        (count_from name l
          (if named then (if ltb 0 objsize then objsize else e.obj_size) else objsize) m)
        (λ (count, objsize'). pure (if named then count + 1 else count, objsize'))
]

pub mem_check_mod_count : Option String → ℕ → Cmd Memory (ℕ × ℕ)
mem_check_mod_count none objsize m = ok (0, objsize) m
mem_check_mod_count (some name) objsize m = count_from name m.used_list objsize m

-- `q->module` is the name.
is_named_eq : (name : String) (o : Option String) → is_named name o ≡ true → o ≡ some name
unfolding is_named
is_named_eq name none h = absurd (ground (arith, h))
is_named_eq name (some s) h = ap some ((eq_iff s name).0 h)

is_named_refl : (name : String) → is_named name (some name) ≡ true
unfolding is_named
is_named_refl name = (eq_iff name name).1 refl

is_named_ne : (name : String) (o : Option String) → is_named name o ≡ false → o ≢ some name
is_named_ne name o h e = ground (arith, h, ap (is_named name) e, is_named_refl name)

-- `n` of the entries at the addresses of a list have the name.
pub data Counted (name : String) (s : Store Entry) : List Addr → ℕ → Type 0 where
  nothing : Counted name s [] 0
  named :
      {a : Addr} {l : List Addr} {n : ℕ} (e : Entry)
      → lookup a s ≡ some e
      → e.module_name ≡ some name
      → Counted name s l n
      → Counted name s (a ∷ l) (n + 1)
  other :
      {a : Addr} {l : List Addr} {n : ℕ} (e : Entry)
      → lookup a s ≡ some e
      → e.module_name ≢ some name
      → Counted name s l n
      → Counted name s (a ∷ l) n

-- 1 for an entry of the name.
abbrev weight : String → Option Entry → ℕ
weight name none = 0
weight name (some e) = if is_named name e.module_name then 1 else 0

named_in : String → Store Entry → List Addr → ℕ
named_in name s [] = 0
named_in name s (a ∷ l) = weight name (lookup a s) + named_in name s l

-- How many blocks in use have the name.
pub mod_count : String → Memory → ℕ
mod_count name m = named_in name m.entries m.used_list

abbrev AllThere : Store Entry → List Addr → Type 0
AllThere s [] = Unit {0}
AllThere s (a ∷ l) = ((e : Entry) × (lookup a s ≡ some e)) × AllThere s l

count_from-named_in :
    (name : String) (l : List Addr) (objsize : ℕ) (m : Memory)
    → AllThere m.entries l
    → Returns (λ r m'. (r.0 ≡ named_in name m.entries l) × (m' ≡ m)) (count_from name l objsize m)
unfolding count_from named_in
count_from-named_in name [] objsize m h = returns (refl, refl)
count_from-named_in name (a ∷ l) objsize m ((e, found), h) =
    rw (found, count_from)
      (bind (count_from-named_in name l _ m h)
        (λ r m' (c, same). returns (ground (arith, c), same)))

named_in-Counted :
    (name : String) (s : Store Entry) (l : List Addr) (n : ℕ)
    → Counted name s l n
    → named_in name s l ≡ n
unfolding named_in
named_in-Counted name s _ _ nothing = refl
named_in-Counted name s (a ∷ l) _ (named {n} e found is c) =
    let yes_named : is_named name e.module_name ≡ true =
      ap (is_named name) is ∙ is_named_refl name in
    ground (arith, found, yes_named, named_in-Counted name s l n c)
named_in-Counted name s (a ∷ l) n (other e found is_not c) =
    elim (Bool-cases (is_named name e.module_name)) [
      | inl yes_named ↦ absurd (is_not (is_named_eq name e.module_name yes_named))
      | inr not_named ↦ ground (arith, found, not_named, named_in-Counted name s l n c)
    ]

AllThere-used :
    (m : Memory) (l : List Addr)
    → Inv m
    → ((b : Addr) → has b l ≡ true → has b m.used_list ≡ true)
    → AllThere m.entries l
AllThere-used m [] v h = tt
AllThere-used m (a ∷ l) v h = (there, AllThere-used m l v (λ b p. h b (ground arith)))
  where
    there : (e : Entry) × (lookup a m.entries ≡ some e)
    there = elim (Option-cases (lookup a m.entries)) [
      | inl missing ↦ absurd (ground (arith, v.unused a missing, h a (ground arith)))
      | inr found ↦ found
    ]

mem_check_mod_count_lem :
    (name : String) (objsize : ℕ) (m : Memory)
    → Inv m
    → Returns
        (λ r m'. (r.0 ≡ mod_count name m) × (m' ≡ m))
        (mem_check_mod_count (some name) objsize m)
unfolding mem_check_mod_count mod_count
mem_check_mod_count_lem name objsize m v =
    count_from-named_in name m.used_list objsize m (AllThere-used m m.used_list v (λ b h. h))

named_in-put :
    (name : String) (a : Addr) (e : Entry) (s : Store Entry) (l : List Addr)
    → has a l ≡ false
    → named_in name (put a e s) l ≡ named_in name s l
unfolding named_in
named_in-put name a e s [] h = refl
named_in-put name a e s (b ∷ l) h = ground (arith, lookup-put a b e s, named_in-put name a e s l)

-- An entry that keeps its name.
named_in-put_same :
    (name : String) (a : Addr) (e old : Entry) (s : Store Entry) (l : List Addr)
    → lookup a s ≡ some old
    → e.module_name ≡ old.module_name
    → named_in name (put a e s) l ≡ named_in name s l
unfolding named_in
named_in-put_same name a e old s [] h k = refl
named_in-put_same name a e old s (b ∷ l) h k =
    ground (arith, lookup-put a b e s, named_in-put_same name a e old s l h k)

-- What mem_alloc writes into the entry and the list.
record Labelled (label : String) (m : Memory) (a : Addr) (m' : Memory) : Type 0 where
  e : Entry
  name : e.module_name ≡ some label
  count : e.refcount ≡ 1
  entries : m'.entries ≡ put a e m.entries
  used : m'.used_list ≡ a ∷ m.used_list
  fresh : has a m.used_list ≡ false

alloc_reuse-Labelled :
    (label : String) (m : Memory) (i : ℕ) (a : Addr) (rest : List Addr)
    → Inv m
    → m.pools i ≡ a ∷ rest
    → Returns (Labelled label m) (alloc_reuse i (some label) a rest m)
unfolding alloc_reuse
alloc_reuse-Labelled label m i a rest v pool = elim (Option-cases (lookup a m.entries)) [
  | inl missing ↦ absurd (ground (arith, v.unpooled a i missing, pool))
  | inr (e, found) ↦
      let k = v.entry a e found in
      let free : e.refcount ≡ 0 = ground (arith, k.pooled i, pool) in
      let one : (inc32 e.refcount == 1) ≡ true = ground arith in
      rw (found, alloc_reuse, one)
        (returns (record {
          e = _;
          name = refl;
          count = ground arith;
          entries = refl;
          used = refl;
          fresh = ground (arith, k.used);
        }))
]

module _ (os : Malloc) ⦃gives : Gives os⦄ (label : String) (m : Memory) (size : ℕ) (v : Inv m) where
  alloc_from-Labelled :
      (i : ℕ) (l : List Addr)
      → m.pools i ≡ l
      → Returns (Labelled label m) (alloc_from os i (some label) size l m)
  unfolding alloc_from alloc_new alloc_at new_entry
  alloc_from-Labelled i [] e =
      rw (alloc_from, alloc_new, gives.found m.entries)
        (returns (record {
          e = _;
          name = refl;
          count = refl;
          entries = refl;
          used = refl;
          fresh =
              v.unused (gives.address m.entries)
                (os.place_fresh m.entries (gives.address m.entries) (gives.found m.entries));
        }))
  alloc_from-Labelled i (a ∷ rest) e = alloc_reuse-Labelled label m i a rest v e

  mem_alloc-Labelled :
      size ≤ max_ext_block → Returns (Labelled label m) (mem_alloc os (some label) size m)
  unfolding mem_alloc
  mem_alloc-Labelled h =
      let c = size_class-IsClassOf size h in
      rw (le→ltb max_ext_block size h, lt→leb type_max (size_class size) c.in_range)
        (alloc_from-Labelled (size_class size) (m.pools (size_class size)) refl)

  -- The new block counts, if it has the name.
  mod_count-alloc :
      (name : String) (a : Addr) (m' : Memory)
      → Labelled label m a m'
      → mod_count name m' ≡ mod_count name m + (if is_named name (some label) then 1 else 0)
  unfolding mod_count named_in
  mod_count-alloc name a m' k =
      ap (named_in name m'.entries) k.used
      ∙ (ap (λ s. named_in name s (a ∷ m.used_list)) k.entries
          ∙ ground (
            arith,
            named_in-put name a k.e m.entries m.used_list k.fresh,
            lookup-put_self a k.e m.entries,
            k.name,
          ))

  -- Its freeing takes it away again.
  mod_count-free :
      (name : String) (a : Addr) (m1 m' : Memory)
      → Labelled label m a m1
      → (e : Entry) → lookup a m1.entries ≡ some e
      → (e' : Entry) → e'.module_name ≡ e.module_name
      → m'.entries ≡ put a e' m1.entries
      → m'.used_list ≡ remove a m1.used_list
      → mod_count name m' ≡ mod_count name m
  unfolding mod_count named_in remove
  mod_count-free name a m1 m' k e found e' same es us =
      rw
        (
          es,
          us,
          named_in-put_same name a e' e m1.entries (remove a m1.used_list) found same,
          k.entries,
          k.used,
        )
        (ground (arith, named_in-put name a k.e m.entries m.used_list k.fresh))

-- In an allocator with its invariant in which `n` of the used blocks have the name that
-- mem_check_mod_count is asked for: after a block within MAX_EXT_MEM_BLOCK has been allocated
-- under that name it returns one more than `n`, after one has been allocated under another name
-- it returns `n`, and so it does when the block has been freed. malloc(3) is taken not to fail
-- (`Gives`).
pub mem_check_mod_count-alloc_free :
    (os : Malloc) ⦃gives : Gives os⦄ (label name : String) (n size objsize : ℕ) (m : Memory)
    → Inv m
    → size ≤ max_ext_block
    → Counted name m.entries m.used_list n
    → Returns
        (λ r m'. ((label ≡ name) × (r.0 ≡ n + 1)) ⊎ ((label ≢ name) × (r.0 ≡ n)))
        ((mem_alloc os (some label) size >> mem_check_mod_count (some name) objsize) m)
      × Returns
          (λ r m'. r.0 ≡ n)
          (((mem_alloc os (some label) size >>= mem_free)
              >> mem_check_mod_count (some name) objsize)
            m)
unfolding mod_count
mem_check_mod_count-alloc_free os label name n size objsize m v h counted =
    let (a, m1, run, p) = value (mem_alloc-Allocated os (some label) m size v h) in
    let k = result_of (mem_alloc-Labelled os label m size v h) run in
    let found : lookup a m1.entries ≡ some k.e =
      ap (lookup a) k.entries ∙ lookup-put_self a k.e m.entries in
    let (u, m2, run2, (v2, es, us)) = value (mem_free_lem m1 a k.e p.0.inv found k.count) in
    let before : mod_count name m ≡ n = named_in-Counted name m.entries m.used_list n counted in
    let more = mod_count-alloc os label m size v name a m1 k in
    (
      rw run (
          mono (mem_check_mod_count_lem name objsize m1 p.0.inv) (λ r m' (c, same).
            elim (Bool-cases (is_named name (some label))) [
              | inl is ↦ inl (
                some-injective label name (is_named_eq name (some label) is),
                c ∙ more ∙ ground (arith, is, before),
              )
              | inr is_not ↦ inr (
                λ e. is_named_ne name (some label) is_not (ap some e),
                c ∙ more ∙ ground (arith, is_not, before),
              )
            ])),
      rw (run, run2)
          (mono (mem_check_mod_count_lem name objsize m2 v2) (λ r m' (c, same).
            c ∙ mod_count-free os label m size v name a m1 m2 k k.e found _ refl es us ∙ before)),
    )
