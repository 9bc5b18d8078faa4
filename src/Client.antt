-- ===== src/Client.antt =====
-- client.c: what the client does with connections and their streams. An event is named by its place
-- in `g_events`, a flag of a callback is a Boolean, and the result of getsockopt(2) is not used.
pub mod Release
pub mod After
pub mod Data
pub mod Keepalive
pub mod Transaction
pub mod Loop
use jujube.Base.{ℕ, Bool, true, false, ◌&&◌, not, Option, none, some, List, ◌==◌, if◌then◌else◌}
use jujube.Base.Int.{ℤ, is_neg, minus_one, eq_ℤ}
use jujube.Base.Run.{Run, ok, abort, fault, Cmd, pure, and_then, ◌>>=◌, ◌>>◌}
use jujube.Base.Store.{Store, put}
use jujube.Mem.{Addr, Malloc}
use jujube.Buf.{buf_data_size}
use jujube.Stream.{
  TcpStream, Clock, new_transaction_stream, WriteResult, ReadResult, stream_flush_out,
  stream_feed_out,
}
use jujube.World.{
  World, Jconnect, ConnStatus, begin_conn, conn_estab, conn_close, Callback, no_cb, connect_cb,
  keepalive_cb, data_transfer, accept_cb, conn_at, set_conn, stream_at, set_stream, in_memory,
}
use jujube.Connection.{get_connection, release_connection, release_keepalive_connection}
use jujube.Event.{
  evget, eventset, event_reset_cb, eventadd, eventdel, epollin, epollout, set_stream_event_in_out,
  free_stream,
}

-- BAD_CONNECT is `true`, OK_CONNECT is `false`.
abbrev pub bad_connect : Bool
bad_connect = true

-- A null pointer is followed.
unfoldable pub not_null : Option Addr → Cmd World Addr
not_null none w = fault
not_null (some a) w = ok a w

-- The event of the connection, by its status; with any other status `ev` has no value.
attach_event : ℕ → Addr → Jconnect → Cmd World ℕ
attach_event now jc c = elim c.status [
  | begin_conn ↦ (do
    found ← evget minus_one
    i ← not_null found
    eventset now i jc connect_cb
    pure i)
  | conn_estab ↦ (do found ← evget c.fd; i ← not_null found; event_reset_cb i data_transfer; pure i)
  | conn_close ↦ (λ w. fault)
]

pub attach_stream_to_connect : ℕ → Addr → Addr → Cmd World (Unit {0})
attach_stream_to_connect now jc s = do
  c ← conn_at jc
  set_conn jc (record c { stream = some s })
  i ← attach_event now jc c
  eventadd now epollout i

-- free_transaction_stream of `jc->stream`, which may be NULL.
free_if_any : Option Addr → Cmd World (Unit {0})
free_if_any none = pure tt
free_if_any (some a) = do s ← stream_at a; free_stream a s

-- The connection's event after its stream is gone.
reset_event : ℕ → ℕ → Bool → Addr → Jconnect → Cmd World (Unit {0})
reset_event now i is_bad_conn jc c =
    if is_bad_conn
    then (do
      set_conn jc (record c { is_alive = false; status = conn_close; stream = none })
      eventdel i)
    else (do
      set_conn jc (record c { stream = none })
      event_reset_cb i keepalive_cb
      eventadd now epollin i)

release_from : ℕ → ℕ → Bool → Addr → Cmd World (Unit {0})
release_from now i is_bad_conn jc = do
  c ← conn_at jc
  free_if_any c.stream
  reset_event now i is_bad_conn jc c
  release_connection jc

pub release_stream_from_connect : ℕ → ℕ → Bool → Cmd World (Unit {0})
release_stream_from_connect now i is_bad_conn w =
    and_then (not_null (w.events i).jc w) (release_from now i is_bad_conn)

-- `ev->jc->stream`, through which the callbacks read.
unfoldable pub stream_in : ℕ → Cmd World Addr
stream_in i w = and_then (not_null (w.events i).jc w) (λ jc. do c ← conn_at jc; not_null c.stream)

-- assert(sock == s->server_sock)
unfoldable pub check_sock : ℤ → TcpStream → Cmd World (Unit {0})
check_sock sock s w = if eq_ℤ sock s.server_sock then ok tt w else abort

pub on_connect : ℕ → ℤ → (write_event : Bool) → ℕ → Cmd World (Unit {0})
on_connect now sock write_event i = do
  a ← stream_in i
  s ← stream_at a
  check_sock sock s
  if not write_event
      then release_stream_from_connect now i bad_connect
      else (do event_reset_cb i data_transfer; eventadd now epollout i)

pub on_keepalive : ℕ → Cmd World (Unit {0})
on_keepalive i w = and_then (not_null (w.events i).jc w) (λ jc. do
  c ← conn_at jc
  set_conn jc (record c { is_alive = false })
  eventdel i
  release_keepalive_connection jc)

-- `ev->jc->is_alive = 1; ev->jc->status = CONN_ESTAB`
pub establish : ℕ → Cmd World (Unit {0})
establish i w =
    and_then (not_null (w.events i).jc w)
      (λ jc. do c ← conn_at jc; set_conn jc (record c { is_alive = true; status = conn_estab }))

-- The end of data_transfer: a readable connection is read once and released.
pub read_part : ℕ → List ReadResult → (read_event : Bool) → ℕ → Addr → Cmd World (Unit {0})
read_part now reads read_event i a = if not read_event then set_stream_event_in_out now i else (do
  s ← stream_at a
  r ← in_memory (stream_feed_out reads s)
  set_stream a r.stream
  release_stream_from_connect now i bad_connect)

-- The part for a writable connection: whether data_transfer goes on.
pub write_part : ℕ → List WriteResult → ℕ → Addr → TcpStream → Cmd World Bool
write_part now writes i a s = do
  r ← in_memory (stream_flush_out writes s minus_one)
  set_stream a r.stream
  if is_neg r.code then (do release_stream_from_connect now i bad_connect; pure false) else (do
    establish i
    if buf_data_size r.stream.in_buf.buf == 0
        then (do release_stream_from_connect now i bad_connect; pure false)
        else pure true)

-- data_transfer, with what the socket's writes and reads report.
pub on_data :
    ℕ
    → List WriteResult
    → List ReadResult
    → ℤ
    → (read_event write_event : Bool) → ℕ
    → Cmd World (Unit {0})
on_data now writes reads sock read_event write_event i = do
  a ← stream_in i
  s ← stream_at a
  check_sock sock s
  if not read_event && not write_event then release_stream_from_connect now i bad_connect else (do
    goes_on ← (if write_event then write_part now writes i a s else pure true)
    if goes_on then read_part now reads read_event i a else pure tt)
