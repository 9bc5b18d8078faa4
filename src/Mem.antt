-- ===== src/Mem.antt =====
-- mem.c: the pool allocator. A block is named by the address of its `obj`; what malloc(3) returns
-- is a parameter. Counters of type `int` are their 32-bit patterns.
pub mod Class
pub mod Count
pub mod Inv
pub mod Spec
pub mod Reuse
pub mod Alloc
pub mod Free
pub mod Access
pub mod Realloc
pub mod Batch
pub mod Owned
pub mod Init
pub mod History
pub mod Module
pub mod Statistics
use Prim.Native.String.{String}
use jujube.Base.{
  ℕ, ◌+◌, ◌-◌, ◌%◌, ◌^◌, ◌≡◌, ◌&&◌, not, Option, none, some, List, [], ◌∷◌, ◌++◌, ltb, leb, ◌==◌,
  if◌then◌else◌, take, drop, length, replicate, remove, splice,
}
use jujube.Base.Run.{Run, ok, abort, fault, Cmd, pure, and_then, ◌>>=◌, ◌>>◌}
use jujube.Base.Store.{Store, lookup, put}
use Class.{type_max, max_ext_block, block_size, size_class}

abbrev pub Addr : Type 0
Addr = ℕ

-- mem_entry_t with the block behind it; `guard` is the byte after the block.
pub record Entry : Type 0 where
  pub obj_size : ℕ
  pub refcount : ℕ
  pub module_name : Option String
  pub guard : ℕ
  pub obj : List ℕ

-- mem_stat_t
pub record Stat : Type 0 where
  pub blocks_used : ℕ
  pub blocks_free : ℕ

-- The allocator's globals, and the entries that malloc(3) has given out.
pub record Memory : Type 0 where
  pub entries : Store Entry
  pub pools : ℕ → List Addr
  pub used_list : List Addr
  pub stats : ℕ → Stat

-- malloc(3): a block that is not allocated yet, or `none`, which is NULL.
pub record Malloc : Type 0 where
  pub place : Store Entry → Option Addr
  pub place_fresh : (s : Store Entry) (a : Addr) → place s ≡ some a → lookup a s ≡ none

-- A malloc(3) that does not run out of memory.
pub record Gives (os : Malloc) : Type 0 where
  pub address : Store Entry → Addr
  pub found : (s : Store Entry) → os.place s ≡ some (address s)

abbrev pub inc32 : ℕ → ℕ
inc32 n = (n + 1) % 2 ^ 32

abbrev pub dec32 : ℕ → ℕ
dec32 n = (n + 2 ^ 32 - 1) % 2 ^ 32

-- An array with one element changed.
abbrev pub set_at : {A : Type 0} → (ℕ → A) → ℕ → A → ℕ → A
set_at f i v j = if i == j then v else f j

abbrev pub guard_byte : ℕ
guard_byte = 0xf

-- mem_module_init
unfoldable pub mem_module_init : Memory → Memory
mem_module_init m = record m {
  pools = λ i. if ltb i type_max then [] else m.pools i;
  used_list = [];
  stats = λ i. if ltb i type_max then record { blocks_used = 0; blocks_free = 0 } else m.stats i;
}

-- A new entry of class `i`.
new_entry : ℕ → Option String → ℕ → Entry
new_entry i module_name size = record {
  obj_size = size;
  refcount = 1;
  module_name = module_name;
  guard = guard_byte;
  obj = replicate (block_size i) 0;
}

count_new : Stat → Stat
count_new s = record s { blocks_used = inc32 s.blocks_used }

count_reuse : Stat → Stat
count_reuse s = record s { blocks_used = inc32 s.blocks_used; blocks_free = dec32 s.blocks_free }

count_free : Stat → Stat
count_free s = record s { blocks_used = dec32 s.blocks_used; blocks_free = inc32 s.blocks_free }

-- A block that malloc(3) has given.
alloc_at : Addr → ℕ → Option String → ℕ → Cmd Memory Addr
alloc_at a i module_name size m = ok a (record m {
  entries = put a (new_entry i module_name size) m.entries;
  used_list = a ∷ m.used_list;
  stats = set_at m.stats i (count_new (m.stats i));
})

-- The result of malloc(3) is not tested: its header is written through NULL.
alloc_new : Malloc → ℕ → Option String → ℕ → Cmd Memory Addr
alloc_new os i module_name size m = elim (os.place m.entries) [
  | none ↦ fault
  | some a ↦ alloc_at a i module_name size m
]

-- The first block of pool `i`; its `obj_size` stays what it was.
pub alloc_reuse : ℕ → Option String → Addr → List Addr → Cmd Memory Addr
alloc_reuse i module_name a rest m = elim (lookup a m.entries) [
  | none ↦ fault
  | some e ↦
      if inc32 e.refcount == 1
      then ok a (record m {
        entries =
            put a
              (record e {
                module_name = module_name;
                refcount = inc32 e.refcount;
                obj = replicate (block_size i) 0;
              })
              m.entries;
        pools = set_at m.pools i rest;
        used_list = a ∷ m.used_list;
        stats = set_at m.stats i (count_reuse (m.stats i));
      })
      else abort
]

alloc_from : Malloc → ℕ → Option String → ℕ → List Addr → Cmd Memory Addr
alloc_from os i module_name size [] m = alloc_new os i module_name size m
alloc_from os i module_name size (a ∷ rest) m = alloc_reuse i module_name a rest m

-- mem_alloc
pub mem_alloc : Malloc → Option String → ℕ → Cmd Memory Addr
mem_alloc os module_name size m =
    if ltb max_ext_block size
    then abort
    else let i = size_class size in
      if leb type_max i then abort else alloc_from os i module_name size (m.pools i) m

free_entry : Addr → Entry → Cmd Memory (Unit {0})
free_entry a e m =
    let i = size_class e.obj_size in
    let count = dec32 e.refcount in
    if leb type_max i
    then abort
    else if not (e.guard == guard_byte)
    then abort
    else if not (count == 0)
    then abort
    else ok tt (record m {
      entries = put a (record e { refcount = count }) m.entries;
      pools = set_at m.pools i (m.pools i ++ a ∷ []);
      used_list = remove a m.used_list;
      stats = set_at m.stats i (count_free (m.stats i));
    })

-- mem_free
pub mem_free : Addr → Cmd Memory (Unit {0})
mem_free a m = elim (lookup a m.entries) [ none ↦ fault | some e ↦ free_entry a e m ]

-- A block in use, read and written by its owner within its bounds: memcpy(3) and the like.
load_entry : ℕ → ℕ → Entry → Cmd Memory (List ℕ)
load_entry off n e m =
    if e.refcount == 0
    then fault
    else if leb (off + n) (length e.obj)
    then ok (take n (drop off e.obj)) m
    else fault

pub load : Addr → ℕ → ℕ → Cmd Memory (List ℕ)
load a off n m = elim (lookup a m.entries) [ none ↦ fault | some e ↦ load_entry off n e m ]

store_entry : Addr → ℕ → List ℕ → Entry → Cmd Memory (Unit {0})
store_entry a off ys e m =
    if e.refcount == 0
    then fault
    else if leb (off + length ys) (length e.obj)
    then ok tt (record m { entries = put a (record e { obj = splice e.obj off ys }) m.entries })
    else fault

pub store : Addr → ℕ → List ℕ → Cmd Memory (Unit {0})
store a off ys m = elim (lookup a m.entries) [ none ↦ fault | some e ↦ store_entry a off ys e m ]

-- The header of a block, for its owner.
pub header : Addr → Cmd Memory Entry
header a m = elim (lookup a m.entries) [ none ↦ fault | some e ↦ ok e m ]

-- The copy of mem_realloc, where the size that the old block records allows it.
pub copy_block : Addr → Addr → Entry → ℕ → ℕ → Cmd Memory (Unit {0})
copy_block buf new_buf me old_size new_size =
    if leb old_size me.obj_size && leb old_size new_size
    then (do bytes ← load buf 0 old_size; store new_buf 0 bytes)
    else pure tt

-- mem_realloc
pub mem_realloc : Malloc → Addr → ℕ → ℕ → Cmd Memory Addr
mem_realloc os buf old_size new_size = do
  old ← header buf
  new_buf ← mem_alloc os old.module_name new_size
  me ← header buf
  copy_block buf new_buf me old_size new_size
  mem_free buf
  pure new_buf

-- What the owners of blocks can see: the bytes of the blocks in use.
pub view : Memory → Addr → Option (List ℕ)
view m a = elim (lookup a m.entries) [
  | none ↦ none
  | some e ↦ if e.refcount == 0 then none else some e.obj
]
