-- ===== src/Server.antt =====
-- server.c: the reassembly of messages. Where server.c says `ev->stream`, which event.h no longer
-- has, the model reads `ev->jc->stream`, as event.c does. do_work, which no file defines, is
-- what the server hands the bytes to. Bytes of a word are in the order of a little-endian machine.
pub mod Ready
pub mod Collect
pub mod Open
pub mod Link
pub mod Step
pub mod Transfer
pub mod Header
pub mod Message
pub mod Malformed
pub mod Lost
pub mod Safe
pub mod Loop
pub mod Split
pub mod Overrun
use jujube.Base.{
  ℕ, ◌+◌, ◌*◌, ◌%◌, ◌^◌, Bool, true, false, ◌&&◌, ◌||◌, not, Option, none, some, List, [], ◌∷◌, ltb,
  ◌==◌, if◌then◌else◌,
}
use jujube.Base.Int.{ℤ, pos, is_neg, minus_one, eq_ℤ, minus}
use jujube.Base.Run.{Run, ok, abort, fault, Cmd, pure, and_then, ◌>>=◌, ◌>>◌}
use jujube.Base.Words.{le_value}
use jujube.Mem.{Addr, Memory, Malloc, load, store}
use jujube.Buf.{Buf, buf_data_size, buf_end_position, buf_pick, buf_put, clear_space}
use jujube.Stream.{
  BufBox, TcpStream, set_out, create_buf, WriteResult, ReadResult, stream_flush_out,
  stream_feed_out,
}
use jujube.World.{World, stream_at, set_stream, in_memory}
use jujube.Event.{close_stream, set_stream_event_in_out}
use jujube.Client.{stream_in, check_sock}

-- LOG_MAX_LEN
abbrev pub log_max_len : ℕ
log_max_len = 1024 * 32

-- The globals of server.c with the rest of the process; `work` is what do_work has been given, the
-- latest first.
pub record Server : Type 0 where
  pub world : World
  pub qps : ℕ
  pub work : List (List ℕ)

abbrev pub lift_world : {A : Type 0} → Run World A → Server → Run Server A
lift_world (ok a w) sv = ok a (record sv { world = w })
lift_world abort sv = abort
lift_world fault sv = fault

abbrev pub in_world : {A : Type 0} → Cmd World A → Cmd Server A
in_world c sv = lift_world (c sv.world) sv

-- A piece of code that changes one stream and its blocks.
abbrev pub update_stream :
    {A : Type 0} → Addr → (TcpStream → Cmd Memory (TcpStream × A)) → Cmd World A
update_stream a f = do s ← stream_at a; r ← in_memory (f s); set_stream a r.0; pure r.1

-- The work buffer that a message is collected in; a null pointer is followed.
unfoldable pub work_of : Option BufBox → Cmd Memory BufBox
work_of none m = fault
work_of (some b) m = ok b m

-- What collect_data does to the stream before its test.
pub move_data : Malloc → TcpStream → Cmd Memory (TcpStream × Unit {0})
move_data os s = do
  let n = buf_data_size s.out_buf.buf
  w ← work_of s.work_buf
  bytes ← load s.out_buf.buf.buffer 0 n
  b ← buf_put os w.buf bytes
  o ← clear_space s.out_buf.buf
  pure (
    record s {
      out_buf = record { self = s.out_buf.self; buf = o };
      work_buf = some (record { self = w.self; buf = b });
      data_recved = s.data_recved + n;
      reply_body_size_left = minus s.reply_body_size_left n;
    },
    tt,
  )

clear_out : TcpStream → Cmd Memory (TcpStream × Unit {0})
clear_out s = do o ← clear_space s.out_buf.buf; pure (set_out s o, tt)

-- The test of collect_data: need more, received, or failed.
pub collect_test : ℕ → Addr → TcpStream → Cmd World ℤ
collect_test i a s =
    if not (eq_ℤ s.reply_body_size_left (pos 0))
    then pure (pos 0)
    else if not (s.data_recved == s.content_len)
    then (do update_stream a clear_out; close_stream i; pure minus_one)
    else pure (pos 1)

-- `none` is NULL.
pub collect_data : Malloc → ℕ → Option Addr → Cmd World ℤ
collect_data os i none = pure minus_one
collect_data os i (some a) = do update_stream a (move_data os); s ← stream_at a; collect_test i a s

pub alloc_work_buff : Malloc → TcpStream → Cmd Memory TcpStream
alloc_work_buff os s = do
  b ← create_buf os "work_buf" "work_buf_data" log_max_len
  store b.buf.buffer 0 (0 ∷ [])
  pure (record s { work_buf = some b })

-- do_work on the collected bytes, and the count of requests.
pub give_work : Addr → Cmd Server (Unit {0})
give_work a = do
  s ← in_world (stream_at a)
  w ← in_world (in_memory (work_of s.work_buf))
  bytes ← in_world (in_memory (load w.buf.buffer 0 s.data_recved))
  λ sv. ok tt (record sv { qps = (sv.qps + 1) % 2 ^ 64; work = bytes ∷ sv.work })

-- What data_transfer does with the result of collect_data: whether it goes on.
pub after_collect : ℕ → Addr → ℤ → Cmd Server Bool
after_collect i a ret =
    if eq_ℤ ret (pos 1)
    then (do give_work a; in_world (close_stream i); pure false)
    else pure (not (eq_ℤ ret minus_one))

pub collect_step : Malloc → ℕ → Addr → Cmd Server Bool
collect_step os i a = do ret ← in_world (collect_data os i (some a)); after_collect i a ret

-- The header of a message is taken off, and a work buffer made for the rest.
pub open_message : Malloc → ℕ → TcpStream → Cmd Memory (TcpStream × Unit {0})
open_message os len s = do
  o ← buf_pick s.out_buf.buf 8
  s ←
      alloc_work_buff os
        (set_out (record s { reply_body_size_left = pos len; content_len = len }) o)
  pure (s, tt)

is_positive : ℤ → Bool
is_positive z = not (is_neg z || eq_ℤ z (pos 0))

-- Between messages: a header that is complete and in range opens one.
pub header_step : Malloc → ℕ → Addr → TcpStream → Cmd Server Bool
header_step os i a s = if ltb (buf_data_size s.out_buf.buf) 8 then pure true else (do
  bytes ← in_world (in_memory (load s.out_buf.buf.buffer 0 8))
  let len = le_value bytes
  if ltb log_max_len len || len == 0
      then (do in_world (update_stream a clear_out); in_world (close_stream i); pure false)
      else (do
        in_world (update_stream a (open_message os len))
        s ← in_world (stream_at a)
        if is_positive s.reply_body_size_left then collect_step os i a else pure true))

-- By how much of the message is left; for less than nothing nothing is done.
pub left_step : Malloc → ℕ → Addr → TcpStream → Cmd Server Bool
left_step os i a s =
    if is_positive s.reply_body_size_left
    then collect_step os i a
    else if eq_ℤ s.reply_body_size_left (pos 0)
    then header_step os i a s
    else pure true

-- stream_feed_out, and its return value.
pub feed : List ReadResult → TcpStream → Cmd Memory (TcpStream × ℤ)
feed reads s = do r ← stream_feed_out reads s; pure (r.stream, r.code)

pub flush : List WriteResult → TcpStream → Cmd Memory (TcpStream × ℤ)
flush writes s = do r ← stream_flush_out writes s minus_one; pure (r.stream, r.code)

-- A read that fails: with nothing in `out_buf` the stream is closed.
pub failed_read : Malloc → ℕ → Addr → Cmd Server Bool
failed_read os i a = do
  s ← in_world (stream_at a)
  if buf_data_size s.out_buf.buf == 0
      then (do in_world (close_stream i); pure false)
      else collect_step os i a

-- A zero behind the data, where there is room.
pub end_data : TcpStream → Cmd Memory (TcpStream × Unit {0})
end_data s =
    if ltb s.out_buf.buf.data_len s.out_buf.buf.buf_len
    then (do
      let (block, end) = buf_end_position s.out_buf.buf
      store block end (0 ∷ [])
      pure (s, tt))
    else pure (s, tt)

pub after_read : Malloc → ℕ → Addr → Cmd Server Bool
after_read os i a = do
  in_world (update_stream a end_data)
  s ← in_world (stream_at a)
  left_step os i a s

-- The part of data_transfer for a readable socket: whether it goes on.
pub read_step : Malloc → List ReadResult → ℕ → Addr → Cmd Server Bool
read_step os reads i a = do
  s ← in_world (stream_at a)
  if not (buf_data_size s.out_buf.buf == 0) then (λ sv. abort) else (do
    ret ← in_world (update_stream a (feed reads))
    goes_on ← (if is_neg ret then failed_read os i a else pure true)
    if goes_on then after_read os i a else pure false)

pub write_step : List WriteResult → ℕ → Addr → Cmd World Bool
write_step writes i a = do
  ret ← update_stream a (flush writes)
  if is_neg ret then (do close_stream i; pure false) else pure true

-- server.c:230 calls set_event_in_out, which no file defines: it is read as set_stream_event_in_out,
-- which client.c calls at the same place.
pub data_transfer :
    Malloc
    → (now : ℕ) → List WriteResult
    → List ReadResult
    → ℤ
    → (read_event write_event : Bool) → ℕ
    → Cmd Server (Unit {0})
data_transfer os now writes reads sock read_event write_event i = do
  a ← in_world (stream_in i)
  s ← in_world (stream_at a)
  in_world (check_sock sock s)
  if not read_event && not write_event then in_world (close_stream i) else (do
    goes_on ← (if write_event then in_world (write_step writes i a) else pure true)
    goes_on ← (if goes_on && read_event then read_step os reads i a else pure goes_on)
    if goes_on then in_world (set_stream_event_in_out now i) else pure tt)
