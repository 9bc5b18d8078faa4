-- ===== src/Stream.antt =====
-- stream.c: a TCP stream with its buffers, on an LP64 Linux. The results of a socket's calls are a
-- list; the call behind the last would block, which a non-blocking socket reports as EAGAIN.
pub mod Create
pub mod Free
pub mod Flush
pub mod Feed
use Prim.Native.String.{String}
use jujube.Base.{
  ℕ, ◌+◌, ◌-◌, ◌*◌, ◌/◌, ◌%◌, Bool, true, false, ◌||◌, Option, none, some, List, [], ◌∷◌, ◌++◌, ltb,
  ◌==◌, if◌then◌else◌, length, take, min,
}
use jujube.Base.Int.{ℤ, pos, negsuc, is_neg, minus_one}
use jujube.Base.Run.{Run, Cmd, pure, and_then, ◌>>=◌, ◌>>◌}
use jujube.Mem.{Addr, Memory, Malloc, mem_alloc, mem_free, load, store}
use jujube.Buf.{Buf, buf_free_space, buf_data_size, buf_end_position, buf_pick, buf_put, size_mod}

-- A buf_t in a block of its own.
pub record BufBox : Type 0 where
  pub self : Addr
  pub buf : Buf

-- The flags of a tcp_stream.
pub record Flags : Type 0 where
  pub eof : Bool
  pub server_closed : Bool
  pub need_close_connect : Bool

-- tcp_stream, in the block `self`; the fields that no code reads or writes are left out.
pub record TcpStream : Type 0 where
  pub self : Addr
  pub data_start : ℕ
  pub data_in : ℕ
  pub data_out : ℕ
  pub data_begin : ℕ
  pub server_sock : ℤ
  pub in_buf : BufBox
  pub out_buf : BufBox
  pub reply_body_size_left : ℤ
  pub work_buf : Option BufBox
  pub data_recved : ℕ
  pub content_len : ℕ
  pub flags : Flags

-- sizeof(tcp_stream), sizeof(buf_t), cfg_http_buf_size, mid_http_buf_size
abbrev pub stream_size : ℕ
stream_size = 152

abbrev pub buf_size : ℕ
buf_size = 24

abbrev pub cfg_http_buf_size : ℕ
cfg_http_buf_size = 8 * 1024

abbrev pub mid_http_buf_size : ℕ
mid_http_buf_size = 64 * 1024

-- What time(2) and gettimeofday(2) return: seconds, and seconds with microseconds.
pub record Clock : Type 0 where
  pub time : ℕ
  pub tv_sec : ℕ
  pub tv_usec : ℕ

-- A new buf_t with its block, as stream_create makes two.
pub create_buf : Malloc → String → String → ℕ → Cmd Memory BufBox
create_buf os name block_name len = do
  self ← mem_alloc os (some name) buf_size
  block ← mem_alloc os (some block_name) len
  pure (record { self = self; buf = record { buffer = block; buf_len = len; data_len = 0 } })

pub stream_create : Malloc → Clock → ℤ → Cmd Memory TcpStream
stream_create os clock sock = do
  self ← mem_alloc os (some "stream") stream_size
  in_buf ← create_buf os "http_stream_in_buf" "http_stream_in_buf_data" cfg_http_buf_size
  store in_buf.buf.buffer 0 (0 ∷ [])
  out_buf ← create_buf os "http_stream_out_buf" "http_stream_out_buf_data_4" mid_http_buf_size
  pure (record {
    self = self;
    data_start = clock.time;
    data_in = 0;
    data_out = 0;
    data_begin = clock.tv_sec * 1000 + clock.tv_usec / 1000;
    server_sock = sock;
    in_buf = in_buf;
    out_buf = out_buf;
    reply_body_size_left = pos 0;
    work_buf = none;
    data_recved = 0;
    content_len = 0;
    flags = record { eof = false; server_closed = false; need_close_connect = false };
  })

abbrev pub set_in : TcpStream → Buf → TcpStream
set_in s b = record s { in_buf = record { self = s.in_buf.self; buf = b } }

abbrev pub set_out : TcpStream → Buf → TcpStream
set_out s b = record s { out_buf = record { self = s.out_buf.self; buf = b } }

-- The message is the first `len` bytes at `buff`; mem_alloc never returns NULL.
pub new_transaction_stream : Malloc → Clock → ℤ → List ℕ → List ℕ → ℕ → Cmd Memory TcpStream
new_transaction_stream os clock sock prefix_len buff len = do
  s ← stream_create os clock sock
  let s = record s {
    flags = record {
      eof = s.flags.eof;
      server_closed = false;
      need_close_connect = s.flags.need_close_connect;
    };
  }
  b ← buf_put os s.in_buf.buf (take 8 prefix_len)
  b ← buf_put os b (take len buff)
  pure (set_in s b)

free_work : Option BufBox → Cmd Memory (Unit {0})
free_work none = pure tt
free_work (some b) = do mem_free b.buf.buffer; mem_free b.self

-- `none` is NULL. The stream is gone with its block.
pub free_transaction_stream : Option TcpStream → Cmd Memory (Unit {0})
free_transaction_stream none = pure tt
free_transaction_stream (some s) = do
  mem_free s.in_buf.buf.buffer
  mem_free s.in_buf.self
  mem_free s.out_buf.buf.buffer
  mem_free s.out_buf.self
  free_work s.work_buf
  mem_free s.self

-- What write(2) reports.
pub data WriteResult : Type 0 where
  wrote : ℕ → WriteResult
  write_eintr write_again write_error : WriteResult

-- The stream after the call, its return value, and the bytes that the socket has taken.
pub record Flushed : Type 0 where
  pub stream : TcpStream
  pub code : ℤ
  pub wire : List ℕ

abbrev flushed : TcpStream → ℤ → Cmd Memory Flushed
flushed s code = pure (record { stream = s; code = code; wire = [] })

abbrev send_first : List ℕ → Cmd Memory Flushed → Cmd Memory Flushed
send_first bytes rest = do r ← rest; pure (record r { wire = bytes ++ r.wire })

-- write(2) takes no more than it is offered.
flush_loop : List WriteResult → ℕ → ℕ → TcpStream → Cmd Memory Flushed
flush_loop [] cur_size t s = flushed s (pos t)
flush_loop (write_eintr ∷ rs) cur_size t s = flush_loop rs cur_size t s
flush_loop (write_again ∷ rs) cur_size t s = flushed s (pos t)
flush_loop (write_error ∷ rs) cur_size t s =
    if cur_size == 0 then flushed s (pos t) else flushed s minus_one
flush_loop (wrote n ∷ rs) cur_size t s =
    let r = min n cur_size in
    let next = λ (b : Buf). flush_loop rs (cur_size - r) (t + r) (set_in s b) in
    if r == 0 then flushed s (pos t) else (do
      bytes ← load s.in_buf.buf.buffer 0 r
      b ← buf_pick s.in_buf.buf r
      send_first bytes (next b))

-- How much stream_flush_out sends; `size` is compared as a `size_t`.
unfoldable pub flush_size : ℤ → ℕ → ℕ
flush_size (pos n) have = if ltb have n || n == 0 then have else n
flush_size (negsuc n) have = have

pub stream_flush_out : List WriteResult → TcpStream → ℤ → Cmd Memory Flushed
stream_flush_out rs s size =
    if is_neg s.server_sock
    then flushed s minus_one
    else flush_loop rs (flush_size size (buf_data_size s.in_buf.buf)) 0 s

-- What read(2) reports; no bytes are the end of the stream.
pub data ReadResult : Type 0 where
  got : List ℕ → ReadResult
  read_eintr read_again read_error : ReadResult

pub record Fed : Type 0 where
  pub stream : TcpStream
  pub code : ℤ

abbrev fed : TcpStream → ℤ → Cmd Memory Fed
fed s code = pure (record { stream = s; code = code })

abbrev close_flag : TcpStream → TcpStream
close_flag s = record s {
  flags = record {
    eof = s.flags.eof;
    server_closed = true;
    need_close_connect = s.flags.need_close_connect;
  };
}

-- The bytes go behind the data of `out_buf`.
receive : TcpStream → List ℕ → Cmd Memory Fed
receive s bytes = do
  let b = s.out_buf.buf
  let (block, end) = buf_end_position b
  store block end bytes
  fed (set_out s (record b { data_len = (b.data_len + length bytes) % size_mod }))
      (pos (length bytes))

-- read(2) gives no more than it is asked for.
feed_some : TcpStream → List ℕ → Cmd Memory Fed
feed_some s bytes = if length bytes == 0 then fed (close_flag s) minus_one else receive s bytes

-- The loop returns as soon as it has read something, so `t` is 0 at each of its tests.
feed_loop : List ReadResult → TcpStream → Cmd Memory Fed
feed_loop [] s = fed s (pos 0)
feed_loop (read_eintr ∷ rs) s = feed_loop rs s
feed_loop (read_again ∷ rs) s = fed s (pos 0)
feed_loop (read_error ∷ rs) s = fed s minus_one
feed_loop (got bytes ∷ rs) s = feed_some s (take (buf_free_space s.out_buf.buf) bytes)

-- With no room the loop ends at its first test, and `data_in` grows by `t`, which is 0.
pub stream_feed_out : List ReadResult → TcpStream → Cmd Memory Fed
stream_feed_out rs s =
    if is_neg s.server_sock
    then fed s minus_one
    else if buf_free_space s.out_buf.buf == 0
    then fed (record s { data_in = s.data_in + 0 }) (pos 0)
    else feed_loop rs s
