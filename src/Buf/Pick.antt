-- ===== src/Buf/Pick.antt =====
-- buf_pick drops from the front, and clear_space drops all.
use jujube.Base.{
  ℕ, ◌-◌, ◌≤◌, ◌<◌, ◌≡◌, ◌∙◌, sym, ap, refl, false, List, [], ◌∷◌, length, take, drop, splice,
  arith, ltb, le→ltb, length-splice, length-take_le, length-drop, Bool-cases, inl, inr, take-drop,
  take-splice_front,
}
use jujube.Base.Run.{abort, Returns, returns, bind}
use jujube.Mem.{Memory}
use jujube.Mem.Inv.{Inv}
use jujube.Mem.Access.{load-ok, store-Stored}
use jujube.Buf.{Buf, clear_space, shift_down, buf_pick}
use jujube.Buf.Holds.{Holds, data_len-length}
use jujube.Buf.Put.{Became}

-- On a buffer that holds at least `len` bytes, in an allocator with its invariant, buf_pick
-- removes the first `len` of them and keeps the rest in order, in the same block; every other
-- block is as it was.
pub buf_pick-drop :
    (m : Memory) (b : Buf) (xs : List ℕ) (len : ℕ)
    → Inv m
    → Holds m b xs
    → len ≤ length xs
    → Returns
        (λ b' m'.
          Became m b (drop len xs) b' m' × (b'.buffer ≡ b.buffer) × (b'.buf_len ≡ b.buf_len))
        (buf_pick b len m)
unfolding buf_pick shift_down
buf_pick-drop m b xs len v h le =
    rw (le→ltb b.data_len len (omega (arith, data_len-length h)))
      (elim (Bool-cases (ltb 0 (b.data_len - len))) [
        | inl some_left ↦ rw some_left (
            rw
              (load-ok m b.buffer len rest h.block
                (omega (arith, h.within, h.sized, data_len-length h)))
              (bind
                (store-Stored m b.buffer 0 moved v h.block (omega (arith, size, h.within, h.sized)))
                (λ _ m' s. returns (
                  record {
                    inv = s.inv;
                    holds = record {
                      bytes = splice h.bytes 0 moved;
                      block = s.here;
                      sized = omega (arith, h.sized, h.within, size, length-splice h.bytes 0 moved);
                      small = h.small;
                      within = omega (arith, h.within);
                      contents = take-splice_front h.bytes moved rest size ∙ slice;
                    };
                    place = inl refl;
                    others = λ c ne ne'. s.others c ne;
                  },
                  refl,
                  refl,
                ))))
        | inr none_left ↦ rw none_left (
            returns (
              record {
                inv = v;
                holds = record {
                  bytes = h.bytes;
                  block = h.block;
                  sized = h.sized;
                  small = h.small;
                  within = omega (arith, h.within);
                  contents =
                      ap (λ n. take n h.bytes) (nothing none_left)
                      ∙ sym (ap (λ n. take n (drop len h.bytes)) (nothing none_left))
                      ∙ slice;
                };
                place = inl refl;
                others = λ c ne ne'. refl;
              },
              refl,
              refl,
            ))
      ])
  where
    nothing : ltb 0 (b.data_len - len) ≡ false → b.data_len - len ≡ 0
    nothing e = ground arith

    rest : ℕ
    rest = b.data_len - len

    moved : List ℕ
    moved = take rest (drop len h.bytes)

    size : length moved ≡ rest
    size =
        length-take_le rest (drop len h.bytes)
          (omega (arith, length-drop len h.bytes, h.within, h.sized))

    slice : moved ≡ drop len xs
    slice =
        take-drop len rest h.bytes
        ∙ ap (λ n. drop len (take n h.bytes)) (omega (arith, data_len-length h))
        ∙ ap (drop len) h.contents

-- More than there is fails the assertion.
pub buf_pick-abort :
    (m : Memory) (b : Buf) (xs : List ℕ) (len : ℕ)
    → Holds m b xs
    → length xs < len
    → buf_pick b len m ≡ abort
unfolding buf_pick
buf_pick-abort m b xs len h more = ground (arith, data_len-length h)

-- On a buffer of positive length, in an allocator with its invariant, clear_space leaves no data
-- and the same block; every other block is as it was.
pub clear_space-nil :
    (m : Memory) (b : Buf) (xs : List ℕ)
    → Inv m
    → Holds m b xs
    → 0 < b.buf_len
    → Returns
        (λ b' m'. Became m b [] b' m' × (b'.buffer ≡ b.buffer) × (b'.buf_len ≡ b.buf_len))
        (clear_space b m)
unfolding clear_space
clear_space-nil m b xs v h pos =
    bind (store-Stored m b.buffer 0 (0 ∷ []) v h.block (omega (arith, h.sized))) (λ _ m' s.
      returns (
        record {
          inv = s.inv;
          holds = record {
            bytes = splice h.bytes 0 (0 ∷ []);
            block = s.here;
            sized = omega (arith, h.sized, length-splice h.bytes 0 (0 ∷ []));
            small = h.small;
            within = omega arith;
            contents = refl;
          };
          place = inl refl;
          others = λ c ne ne'. s.others c ne;
        },
        refl,
        refl,
      ))
