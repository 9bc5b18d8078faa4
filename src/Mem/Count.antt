-- ===== src/Mem/Count.antt =====
-- How many of a list's blocks are of a class.
use jujube.Base.{
  ℕ, ◌+◌, ◌≡◌, refl, true, false, Option, none, some, List, [], ◌∷◌, arith, ◌==◌, if◌then◌else◌,
  has, remove,
}
use jujube.Base.Store.{Store, lookup, put, lookup-put}
use jujube.Mem.{Addr, Entry}
use jujube.Mem.Class.{size_class}

-- 1 for an entry of class `i`.
abbrev pub weight : ℕ → Option Entry → ℕ
weight i none = 0
weight i (some e) = if size_class e.obj_size == i then 1 else 0

unfoldable pub count_class : Store Entry → ℕ → List Addr → ℕ
count_class s i [] = 0
count_class s i (a ∷ rest) = weight i (lookup a s) + count_class s i rest

-- A change of an entry that is not listed, or that keeps its size, does not count.
pub count_class-put :
    (s : Store Entry) (i a : ℕ) (e : Entry) (l : List Addr)
    → has a l ≡ false
    → count_class (put a e s) i l ≡ count_class s i l
unfolding count_class
count_class-put s i a e [] h = refl
count_class-put s i a e (b ∷ l) h = ground (arith, lookup-put a b e s, count_class-put s i a e l)

pub count_class-put_same :
    (s : Store Entry) (i a : ℕ) (e old : Entry) (l : List Addr)
    → lookup a s ≡ some old
    → e.obj_size ≡ old.obj_size
    → count_class (put a e s) i l ≡ count_class s i l
unfolding count_class
count_class-put_same s i a e old [] h k = refl
count_class-put_same s i a e old (b ∷ l) h k =
    ground (arith, lookup-put a b e s, count_class-put_same s i a e old l h k)

pub count_class-remove :
    (s : Store Entry) (i a : ℕ) (l : List Addr)
    → has a l ≡ true
    → count_class s i (remove a l) + weight i (lookup a s) ≡ count_class s i l
unfolding count_class remove
count_class-remove s i a [] h = cc
count_class-remove s i a (b ∷ l) h = ground (arith, count_class-remove s i a l)
