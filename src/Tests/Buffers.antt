-- ===== src/Tests/Buffers.antt =====
-- buf.c: buffers over the first block of a started allocator.
use jujube.Base.{ℕ, ◌*◌, ◌≡◌, refl, inl, List, [], ◌∷◌, arith, replicate, length-replicate}
use jujube.Base.Run.{ok, abort, Returns, value}
use jujube.Mem.{Memory}
use jujube.Mem.Class.{block_size, size_class}
use jujube.Buf.{Buf, buf_put, buf_pick}
use jujube.Buf.Holds.{Holds}
use jujube.Buf.Put.{Became, new_len, buf_put-append, buf_put-abort}
use jujube.Buf.Pick.{buf_pick-drop}
use jujube.Tests.Allocator.{os, os-Gives, first}

abbrev buffer : Buf
buffer = record { buffer = first.0; buf_len = 20; data_len = 0 }

buffer-Holds : Holds first.1 buffer []
buffer-Holds = record {
  bytes = replicate (block_size (size_class 20)) 0;
  block = first.3.0.zeroed;
  sized = omega (arith, first.3.1, length-replicate {A = ℕ} (block_size (size_class 20)) 0);
  small = omega arith;
  within = omega arith;
  contents = refl;
}

abbrev message : List ℕ
message = 1 ∷ 2 ∷ 3 ∷ []

buf_put-append_example :
    Returns
      (λ b m. Became first.1 buffer message b m × (b.buf_len ≡ new_len buffer 3))
      (buf_put os buffer message first.1)
buf_put-append_example =
    buf_put-append os first.1 buffer [] message first.3.0.inv buffer-Holds (inl (omega arith))

-- The buffer with the message.
abbrev filled :
    (b : Buf) × (m : Memory) × (buf_put os buffer message first.1 ≡ ok b m)
    × (Became first.1 buffer message b m × (b.buf_len ≡ 20))
filled =
    value
      (buf_put-append os first.1 buffer [] message first.3.0.inv buffer-Holds (inl (omega arith)))

buf_pick-drop_example :
    Returns
      (λ b m.
        Became filled.1 filled.0 (3 ∷ []) b m
        × (b.buffer ≡ filled.0.buffer)
        × (b.buf_len ≡ filled.0.buf_len))
      (buf_pick filled.0 2 filled.1)
buf_pick-drop_example =
    buf_pick-drop filled.1 filled.0 message 2 filled.3.0.inv filled.3.0.holds (omega arith)

-- A mebibyte does not fit.
abbrev flood : List ℕ
flood = replicate (1024 * 1024) 0

buf_put-abort_example : buf_put os buffer flood first.1 ≡ abort
buf_put-abort_example =
    buf_put-abort os first.1 buffer [] flood first.3.0.inv buffer-Holds
      (omega (arith, length-replicate {A = ℕ} (1024 * 1024) 0))
      (omega (arith, length-replicate {A = ℕ} (1024 * 1024) 0))
      (omega (arith, length-replicate {A = ℕ} (1024 * 1024) 0))
