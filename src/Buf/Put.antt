-- ===== src/Buf/Put.antt =====
-- buf_put appends.
use jujube.Base.{
  ℕ, ◌+◌, ◌-◌, ◌%◌, ◌≤◌, ◌<◌, ◌≡◌, ◌≢◌, ◌⊎◌, ◌∙◌, sym, ap, refl, none, some, List, ◌++◌, length,
  take, splice, replicate, arith, ltb, leb, lt→ltb, copied_prefix, length-splice, take-splice,
  length-take_le, length-replicate, if◌then◌else◌, Bool-cases, inl, inr,
}
use jujube.Base.Run.{abort, Returns, returns, bind, mono}
use jujube.Mem.{Addr, Memory, Malloc, Gives, view, store}
use jujube.Mem.Class.{max_ext_block, block_size, size_class}
use jujube.Mem.Inv.{Inv}
use jujube.Mem.Alloc.{mem_alloc-Allocated, mem_alloc-abort}
use jujube.Mem.Access.{view-apart, load-ok, store-Stored}
use jujube.Mem.Free.{mem_free-Freed}
use jujube.Buf.{Buf, size_mod, buf_free_space, buf_realloc, reserve, buf_put}
use jujube.Buf.Holds.{Holds}

-- The buffer holds `xs`, in its old block or in one that was free, in which case the old one is
-- given up; every other block is as it was.
pub record Became (m : Memory) (b : Buf) (xs : List ℕ) (b' : Buf) (m' : Memory) : Type 0 where
  pub inv : Inv m'
  pub holds : Holds m' b' xs
  pub place : (b'.buffer ≡ b.buffer) ⊎ ((view m b'.buffer ≡ none) × (view m' b.buffer ≡ none))
  pub others : (c : Addr) → b.buffer ≢ c → b'.buffer ≢ c → view m' c ≡ view m c

-- In a memory where `m`'s block is still there or the buffer has moved to a block that was free.
pub store_at_end :
    (m : Memory) (b : Buf) (xs ys : List ℕ)
    → Inv m
    → Holds m b xs
    → b.data_len + length ys ≤ b.buf_len
    → Returns
        (λ _ m'. Became m b (xs ++ ys) (record b { data_len = b.data_len + length ys }) m')
        (store b.buffer b.data_len ys m)
store_at_end m b xs ys v h room =
    mono (store-Stored m b.buffer b.data_len ys v h.block (omega (arith, h.sized))) (λ _ m' s.
      record {
        inv = s.inv;
        holds = record {
          bytes = splice h.bytes b.data_len ys;
          block = s.here;
          sized = omega (arith, length-splice h.bytes b.data_len ys, h.sized);
          small = h.small;
          within = room;
          contents =
              take-splice h.bytes b.data_len ys (omega (arith, h.sized, h.within))
              ∙ ap (λ zs. zs ++ ys) h.contents;
        };
        place = inl refl;
        others = λ c ne ne'. s.others c ne;
      })

-- What buf_realloc leaves: the same data in a longer buffer.
pub record Grown (m : Memory) (b : Buf) (xs : List ℕ) (n : ℕ) (b' : Buf) (m' : Memory)
    : Type 0 where
  pub became : Became m b xs b' m'
  pub length_grown : b'.buf_len ≡ b.buf_len + n
  pub data_kept : b'.data_len ≡ b.data_len
  pub fresh : view m b'.buffer ≡ none

pub buf_realloc-Grown :
    (os : Malloc) ⦃gives : Gives os⦄ (m : Memory) (b : Buf) (xs : List ℕ) (n : ℕ)
    → Inv m
    → Holds m b xs
    → b.buf_len + n ≤ max_ext_block
    → Returns (Grown m b xs n) (buf_realloc os b n m)
unfolding buf_realloc
buf_realloc-Grown os m b xs n v h le =
    let e : (b.buf_len + n) % size_mod ≡ b.buf_len + n = omega arith in
    rw e (
      bind (mem_alloc-Allocated os (some "buf") m (b.buf_len + n) v le) (λ a m1 (got, room).
        let ne = view-apart m got.fresh h.block in
        let front =
          copied_prefix (replicate (block_size (size_class (b.buf_len + n))) 0) h.bytes b.data_len
            (omega (arith, h.sized, h.within))
            (omega (
              arith,
              h.within,
              length-replicate {A = ℕ} (block_size (size_class (b.buf_len + n))) 0,
            )) in
        let seen1 = got.others b.buffer ne ∙ h.block in
        rw (load-ok m1 b.buffer 0 b.data_len seen1 (omega (arith, h.sized, h.within))) (
          bind
            (store-Stored m1 a 0 (take b.data_len h.bytes) got.inv got.zeroed (
              omega (
                arith,
                length-take_le b.data_len h.bytes,
                h.sized,
                h.within,
                length-replicate {A = ℕ} (block_size (size_class (b.buf_len + n))) 0,
              )))
            (λ _ m2 put.
              bind (mem_free-Freed m2 b.buffer put.inv (put.others b.buffer ne ∙ seen1)) (λ _ m3 fr.
                returns (record {
                  became = record {
                    inv = fr.inv;
                    holds = record {
                      bytes =
                          splice (replicate (block_size (size_class (b.buf_len + n))) 0) 0
                            (take b.data_len h.bytes);
                      block = fr.others a (λ same. ne (sym same)) ∙ put.here;
                      sized = omega (
                        arith,
                        front.1,
                        length-replicate {A = ℕ} (block_size (size_class (b.buf_len + n))) 0,
                      );
                      small = omega arith;
                      within = omega (arith, h.within);
                      contents = front.0 ∙ h.contents;
                    };
                    place = inr (got.fresh, fr.gone);
                    others = λ c apart na. fr.others c apart ∙ put.others c na ∙ got.others c na;
                  };
                  length_grown = refl;
                  data_kept = refl;
                  fresh = got.fresh;
                }))))))

-- The buffer grows, by the size of the whole request, only if the bytes do not fit.
abbrev pub new_len : Buf → ℕ → ℕ
new_len b n = if leb (b.data_len + n) b.buf_len then b.buf_len else b.buf_len + n

-- What `reserve` leaves: room for `n` bytes.
record Reserved (m : Memory) (b : Buf) (xs : List ℕ) (n : ℕ) (b' : Buf) (m' : Memory) : Type 0 where
  became : Became m b xs b' m'
  room : b'.data_len + n ≤ b'.buf_len
  grown : b'.buf_len ≡ new_len b n

-- There is room for `n` bytes, or the buffer may grow by `n`.
abbrev pub CanTake : Buf → ℕ → Type 0
CanTake b n = (b.data_len + n ≤ b.buf_len) ⊎ (b.buf_len + n ≤ max_ext_block)

pub free_space-sub :
    (b : Buf)
    → b.data_len ≤ b.buf_len
    → b.buf_len ≤ max_ext_block
    → buf_free_space b ≡ b.buf_len - b.data_len
unfolding buf_free_space
free_space-sub b h k = omega arith

reserve-Reserved :
    (os : Malloc) ⦃gives : Gives os⦄ (m : Memory) (b : Buf) (xs : List ℕ) (n : ℕ)
    → Inv m
    → Holds m b xs
    → CanTake b n
    → Returns (Reserved m b xs n) (reserve os b n m)
unfolding reserve
reserve-Reserved os m b xs n v h can = elim (Bool-cases (ltb (buf_free_space b) n)) [
  | inl full ↦ rw full (
      mono (buf_realloc-Grown os m b xs n v h (ground (arith, free, h.within))) (λ b' m' g. record {
        became = g.became;
        room = omega (arith, g.length_grown, g.data_kept, h.within);
        grown = ground (arith, g.length_grown, free, h.within);
      }))
  | inr room ↦ rw room (
      returns (record {
        became = record { inv = v; holds = h; place = inl refl; others = λ c ne ne'. refl };
        room = ground (arith, free, h.within);
        grown = ground (arith, free, h.within);
      }))
]
  where
    free : buf_free_space b ≡ b.buf_len - b.data_len
    free = free_space-sub b h.within h.small

-- A buffer that has moved, or not, and was then written in place.
Became-place :
    {m m1 m2 : Memory} {b b1 b2 : Buf} {xs ys zs : List ℕ}
    → Holds m b zs
    → Became m b xs b1 m1
    → Became m1 b1 ys b2 m2
    → b2.buffer ≡ b1.buffer
    → (b2.buffer ≡ b.buffer) ⊎ ((view m b2.buffer ≡ none) × (view m2 b.buffer ≡ none))
Became-place {m} {m1} {m2} {b} {b1} {b2} h r s e = elim r.place [
  | inl stay ↦ inl (e ∙ stay)
  | inr (new, gone) ↦ inr (
    ap (view m) e ∙ new,
    let apart = view-apart m new h.block in s.others b.buffer apart (λ q. apart (sym e ∙ q)) ∙ gone,
  )
]

-- On a buffer that holds `xs`, in an allocator with its invariant, buf_put appends: where the
-- buffer has room for the bytes or may grow by them, it returns with the bytes behind the data,
-- in its old block or in one that was in no use; every other block is as it was. malloc(3) is
-- taken not to fail (`Gives`).
pub buf_put-append :
    (os : Malloc) ⦃gives : Gives os⦄ (m : Memory) (b : Buf) (xs ys : List ℕ)
    → Inv m
    → Holds m b xs
    → CanTake b (length ys)
    → Returns
        (λ b' m'. Became m b (xs ++ ys) b' m' × (b'.buf_len ≡ new_len b (length ys)))
        (buf_put os b ys m)
unfolding buf_put
buf_put-append os m b xs ys v h can =
    bind (reserve-Reserved os m b xs (length ys) v h can) (λ b' m' r.
      let k = r.became.holds in
      let e : (b'.data_len + length ys) % size_mod ≡ b'.data_len + length ys =
        omega (arith, r.room, k.small) in
      bind (store_at_end m' b' xs ys r.became.inv k r.room) (λ _ m'' s. rw e (
        returns (
          record {
            inv = s.inv;
            holds = s.holds;
            place = Became-place h r.became s refl;
            others = λ c ne ne'. s.others c ne' ne' ∙ r.became.others c ne ne';
          },
          r.grown,
        ))))

-- On a buffer that holds `xs`, in an allocator with its invariant, buf_put of more bytes than the
-- buffer has room for, where the larger block would exceed MAX_EXT_MEM_BLOCK (and its size is
-- below 2 ^ 64), stops at the assertion of mem_alloc. malloc(3) is taken not to fail (`Gives`).
pub buf_put-abort :
    (os : Malloc) ⦃gives : Gives os⦄ (m : Memory) (b : Buf) (xs ys : List ℕ)
    → Inv m
    → Holds m b xs
    → b.buf_len < b.data_len + length ys
    → max_ext_block < b.buf_len + length ys
    → b.buf_len + length ys < size_mod
    → buf_put os b ys m ≡ abort
unfolding buf_put reserve buf_realloc
buf_put-abort os m b xs ys v h full big wrap =
    rw (lt→ltb (buf_free_space b) (length ys) short)
      (rw (mem_alloc-abort os (some "buf") m ((b.buf_len + length ys) % size_mod) v (omega arith)))
  where
    short : buf_free_space b < length ys
    short = omega (arith, free_space-sub b h.within h.small)
