-- ===== src/Buf.antt =====
-- buf.c: a growing byte buffer over a block of mem.c. A `size_t` is a number below 2 ^ 64, and the
-- bytes at a `char *` argument are a list.
pub mod Holds
pub mod Put
pub mod Pick
pub mod Owned
use jujube.Base.{ℕ, ◌+◌, ◌-◌, ◌%◌, ◌^◌, some, List, [], ◌∷◌, ltb, if◌then◌else◌, length}
use jujube.Base.Run.{Run, abort, Cmd, pure, and_then, ◌>>=◌, ◌>>◌}
use jujube.Mem.{Addr, Memory, Malloc, mem_alloc, mem_free, load, store}

-- buf_t
pub record Buf : Type 0 where
  pub buffer : Addr
  pub buf_len : ℕ
  pub data_len : ℕ

abbrev pub size_mod : ℕ
size_mod = 2 ^ 64

unfoldable pub buf_free_space : Buf → ℕ
buf_free_space b = (b.buf_len + size_mod - b.data_len) % size_mod

-- The return value is always 0.
pub clear_space : Buf → Cmd Memory Buf
clear_space b = do store b.buffer 0 (0 ∷ []); pure (record b { data_len = 0 })

unfoldable pub buf_data_size : Buf → ℕ
buf_data_size b = b.data_len

-- A block and an offset in it.
unfoldable pub buf_end_position : Buf → Addr × ℕ
buf_end_position b = (b.buffer, b.data_len)

-- The memmove of buf_pick, which `len` bytes have left.
shift_down : Buf → ℕ → Cmd Memory Buf
shift_down b len =
    if ltb 0 b.data_len
    then (do bytes ← load b.buffer len b.data_len; store b.buffer 0 bytes; pure b)
    else pure b

pub buf_pick : Buf → ℕ → Cmd Memory Buf
buf_pick b len m =
    if ltb b.data_len len
    then abort
    else shift_down (record b { data_len = b.data_len - len }) len m

pub buf_realloc : Malloc → Buf → ℕ → Cmd Memory Buf
buf_realloc os b len = do
  n ← mem_alloc os (some "buf") ((b.buf_len + len) % size_mod)
  bytes ← load b.buffer 0 b.data_len
  store n 0 bytes
  mem_free b.buffer
  pure (record b { buffer = n; buf_len = (b.buf_len + len) % size_mod })

-- The growth of buf_put: buf_realloc always returns 0, so buf_put never returns -1.
reserve : Malloc → Buf → ℕ → Cmd Memory Buf
reserve os b len = if ltb (buf_free_space b) len then buf_realloc os b len else pure b

pub buf_put : Malloc → Buf → List ℕ → Cmd Memory Buf
buf_put os b bytes = do
  let len = length bytes
  b ← reserve os b len
  store b.buffer b.data_len bytes
  pure (record b { data_len = (b.data_len + len) % size_mod })
