-- ===== src/Buf/Holds.antt =====
-- What a buffer stands for: the first `data_len` bytes of its block.
use jujube.Base.{
  ℕ, ◌≤◌, ◌≡◌, ◌∙◌, ap, some, List, length, take, arith, length-take_le, take-take, sym,
}
use jujube.Mem.{Memory, view}
use jujube.Mem.Class.{max_ext_block}
use jujube.Buf.{Buf}

pub record Holds (m : Memory) (b : Buf) (xs : List ℕ) : Type 0 where
  pub bytes : List ℕ
  pub block : view m b.buffer ≡ some bytes
  pub sized : b.buf_len ≤ length bytes
  pub small : b.buf_len ≤ max_ext_block
  pub within : b.data_len ≤ b.buf_len
  pub contents : take b.data_len bytes ≡ xs

module _ {m : Memory} {b : Buf} {xs : List ℕ} where
  pub data_len-length : Holds m b xs → b.data_len ≡ length xs
  data_len-length h = omega (arith, length-take_le b.data_len h.bytes, ap length h.contents)

  -- A change that spares the block spares the buffer.
  pub Holds-keep : {m' : Memory} → Holds m b xs → view m' b.buffer ≡ view m b.buffer → Holds m' b xs
  Holds-keep h e = record {
    bytes = h.bytes;
    block = e ∙ h.block;
    sized = h.sized;
    small = h.small;
    within = h.within;
    contents = h.contents;
  }

  -- The first bytes of the block are the first of the data.
  pub take-contents : (h : Holds m b xs) (n : ℕ) → n ≤ length xs → take n h.bytes ≡ take n xs
  take-contents h n le =
      sym (take-take n b.data_len h.bytes (omega (arith, data_len-length h)))
      ∙ ap (take n) h.contents
