-- ===== src/Client/Transaction.antt =====
-- client.c: create_transaction, with what the calls of the system return.
pub mod Begun
pub mod Create
use jujube.Base.{ℕ, Bool, false, Option, none, some, List, if◌then◌else◌}
use jujube.Base.Int.{ℤ, is_neg}
use jujube.Base.Words.{le_bytes}
use jujube.Base.Run.{Cmd, pure, and_then, ◌>>=◌, ◌>>◌}
use jujube.Mem.{Addr, Malloc}
use jujube.Stream.{Clock, new_transaction_stream}
use jujube.Ip.Host.{InAddr}
use jujube.Sockets.{SocketCalls, create_connect_socket}
use jujube.World.{World, Jconnect, begin_conn, conn_at, set_conn, set_stream, in_memory}
use jujube.Connection.{get_connection}
use jujube.Client.{attach_stream_to_connect}

-- transfer_log_entry; `proto` and `msg_len` are read by no code.
pub record LogEntry : Type 0 where
  pub ip : InAddr
  pub port : ℕ
  pub gather_logmsg : List ℕ

-- The clocks, the calls for a socket, and malloc(3) of a jconnect with what the memory holds.
pub record Outside : Type 0 where
  pub now : ℕ
  pub clock : Clock
  pub sockets : SocketCalls
  pub conn : Option (Addr × Jconnect)

-- `compress_ret`, the number of bytes that are sent of every message.
abbrev pub compress_ret : ℕ
compress_ret = 512

-- `none` where malloc(3) or the socket fails; the object that malloc(3) gave is not freed.
new_connection : Outside → Option (Addr × Jconnect) → LogEntry → Cmd World (Option Addr)
new_connection out none entry = pure none
new_connection out (some (jc, c)) entry =
    set_conn jc c
    >> (create_connect_socket out.sockets entry.ip entry.ip.flag entry.port >>= (λ sock.
        (if is_neg sock then pure none else (do
          set_conn jc (record c { fd = sock; is_alive = false; status = begin_conn })
          pure (some jc)))))

-- A connection of the pool, or else a new one.
connection_for : Outside → LogEntry → Option Addr → Cmd World (Option Addr)
connection_for out entry (some jc) = pure (some jc)
connection_for out entry none = new_connection out out.conn entry

-- A stream for the message on the connection; NULL means the end.
pub start_stream : Malloc → Outside → LogEntry → Option Addr → Cmd World (Unit {0})
start_stream os out entry none = pure tt
start_stream os out entry (some jc) = do
  c ← conn_at jc
  s ← in_memory (
      new_transaction_stream os out.clock c.fd (le_bytes 8 compress_ret) entry.gather_logmsg
        compress_ret)
  set_stream s.self s
  attach_stream_to_connect out.now jc s.self

pub create_transaction : Malloc → Outside → LogEntry → Cmd World (Unit {0})
create_transaction os out entry = do
  found ← get_connection
  jc ← connection_for out entry found
  start_stream os out entry jc
