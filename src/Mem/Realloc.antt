-- ===== src/Mem/Realloc.antt =====
-- mem_realloc.
use jujube.Base.{
  ℕ, ◌≤◌, ◌≡◌, ◌≢◌, refl, ◌∙◌, sym, subst, ◌&&◌, none, some, List, arith, leb, length, take, splice,
  replicate, length-replicate, length-take_le, if◌then◌else◌, Bool-cases, inl, inr,
}
use jujube.Base.Run.{ok, Returns, returns, bind}
use jujube.Base.Store.{lookup}
use jujube.Mem.{Addr, Entry, Memory, Malloc, Gives, header, mem_realloc, copy_block, view}
use jujube.Mem.Class.{max_ext_block, block_size, size_class}
use jujube.Mem.Inv.{Inv}
use jujube.Mem.Spec.{Stored}
use jujube.Mem.Access.{load-ok, store-Stored}
use jujube.Mem.Alloc.{mem_alloc-Allocated}
use jujube.Mem.Free.{mem_free-Freed}

-- The first `n` bytes of the old block over a block of zeros.
abbrev pub moved : List ℕ → ℕ → ℕ → List ℕ
moved xs n size = splice (replicate (block_size (size_class size)) 0) 0 (take n xs)

-- The new block has the bytes `xs`, the old one is gone, and the others keep theirs.
pub record Moved (m : Memory) (buf : Addr) (xs : List ℕ) (a : Addr) (m' : Memory) : Type 0 where
  pub inv : Inv m'
  pub fresh : view m a ≡ none
  pub here : view m' a ≡ some xs
  pub gone : view m' buf ≡ none
  pub others : (b : Addr) → buf ≢ b → a ≢ b → view m' b ≡ view m b

header-ok : (m : Memory) (a : Addr) (e : Entry) → lookup a m.entries ≡ some e → header a m ≡ ok e m
unfolding header
header-ok m a e h = ground arith

-- What the copy leaves in the new block.
abbrev pub copied : Entry → List ℕ → ℕ → ℕ → List ℕ
copied e xs old_size new_size =
    if leb old_size e.obj_size && leb old_size new_size
    then moved xs old_size new_size
    else replicate (block_size (size_class new_size)) 0

module _ (m : Memory) (buf a : Addr) (e : Entry) (xs : List ℕ) (old_size new_size : ℕ) (v : Inv m)
    (held : view m buf ≡ some xs) (sized : e.obj_size ≤ length xs)
    (there : view m a ≡ some (replicate (block_size (size_class new_size)) 0))
    (room : new_size ≤ block_size (size_class new_size)) where
  copy_block-Stored :
      Returns
        (λ _ m'. Stored m a (copied e xs old_size new_size) m')
        (copy_block buf a e old_size new_size m)
  unfolding copy_block
  copy_block-Stored = elim (Bool-cases (leb old_size e.obj_size && leb old_size new_size)) [
    | inl copies ↦ rw (copies) (
        rw (load-ok m buf 0 old_size held (ground arith)) (
          store-Stored m a 0 (take old_size xs) v there (
            ground (
              arith,
              length-take_le old_size xs,
              length-replicate {A = ℕ} (block_size (size_class new_size)) 0,
            ))))
    | inr skips ↦ rw skips (returns (record { inv = v; here = there; others = λ b ne. refl }))
  ]

-- A block in use is what its entry says.
view-entry :
    (m : Memory) (a : Addr) (e : Entry)
    → lookup a m.entries ≡ some e
    → e.refcount ≡ 1
    → view m a ≡ some e.obj
unfolding view
view-entry m a e h k = ground arith

-- Where the invariant holds, `buf` is an entry with one reference and the new size is within
-- MAX_EXT_MEM_BLOCK, mem_realloc returns another block, whose bytes are the first `old_size` of
-- the old one and then zeros, if `old_size` is at most the new size and at most the size that the
-- entry records (`obj_size`); otherwise the new block is all zeros. The old block is freed, the
-- others keep their bytes, and the invariant is kept. malloc(3) is taken not to fail (`Gives`).
pub mem_realloc-Moved :
    (os : Malloc) ⦃gives : Gives os⦄ (m : Memory) (buf : Addr) (e : Entry) (old_size new_size : ℕ)
    → Inv m
    → lookup buf m.entries ≡ some e
    → e.refcount ≡ 1
    → new_size ≤ max_ext_block
    → Returns
        (Moved m buf (copied e e.obj old_size new_size))
        (mem_realloc os buf old_size new_size m)
unfolding mem_realloc
mem_realloc-Moved os m buf e old_size new_size v found held le = rw (header-ok m buf e found) (
    bind (mem_alloc-Allocated os e.module_name m new_size v le) (λ a m1 (got, room).
      let seen = view-entry m buf e found held in
      let ne : a ≢ buf = λ same. absurd_seen seen (subst (λ b. view m b ≡ none) same got.fresh) in
      let seen1 = got.others buf ne ∙ seen in
      rw (header-ok m1 buf e (got.entries_kept buf ne ∙ found)) (
        bind
          (copy_block-Stored m1 buf a e e.obj old_size new_size got.inv seen1
            (ground (arith, (v.entry buf e found).sized, (v.entry buf e found).fits)) got.zeroed
            room)
          (λ _ m2 put. bind (mem_free-Freed m2 buf put.inv (put.others buf ne ∙ seen1)) (λ _ m3 fr.
            returns (record {
              inv = fr.inv;
              fresh = got.fresh;
              here = fr.others a (λ same. ne (sym same)) ∙ put.here;
              gone = fr.gone;
              others = λ b nb na. fr.others b nb ∙ put.others b na ∙ got.others b na;
            }))))))
  where
    absurd_seen : {xs : List ℕ} → view m buf ≡ some xs → view m buf ≡ none → ⊥
    absurd_seen h k = cc
