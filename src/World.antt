-- ===== src/World.antt =====
-- The objects that connection.c, event.c and client.c share, and the system calls they make. An
-- object that has been freed is no longer in its store, so to follow a pointer to it is a fault.
use jujube.Base.{ℕ, Bool, Option, none, some, List, ◌∷◌, ◌==◌, if◌then◌else◌}
use jujube.Base.Int.{ℤ}
use jujube.Base.Run.{Run, ok, abort, fault, Cmd}
use jujube.Base.Store.{Store, lookup, put, erase}
use jujube.Mem.{Addr, Memory}
use jujube.Stream.{TcpStream}

-- BEGIN_CONN, CONN_ESTAB, CONN_CLOSE
pub data ConnStatus : Type 0 where
  begin_conn conn_estab conn_close : ConnStatus

-- jconnect, without the fields that no code reads.
pub record Jconnect : Type 0 where
  pub fd : ℤ
  pub is_alive : Bool
  pub requests : ℕ
  pub status : ConnStatus
  pub stream : Option Addr

-- connect_pool; the numbers are of type uint32_t.
pub record ConnectPool : Type 0 where
  pub max_connects : ℕ
  pub max_alive_times : ℕ
  pub max_txn : ℕ
  pub current_total : ℕ

-- The functions that are given as `call_back`.
pub data Callback : Type 0 where
  no_cb connect_cb keepalive_cb data_transfer accept_cb : Callback

-- myevent_s; `arg` is always the event itself, and `thandler` is never read.
pub record Myevent : Type 0 where
  pub fd : ℤ
  pub events : ℕ
  pub call_back : Callback
  pub status : ℕ
  pub last_active : ℕ
  pub jc : Option Addr

pub data EpollOp : Type 0 where
  ctl_add ctl_mod ctl_del : EpollOp

-- A call of epoll_ctl(2), whose result the code ignores.
pub record EpollCall : Type 0 where
  pub op : EpollOp
  pub fd : ℤ
  pub events : ℕ

-- `conns` and `streams` are the objects behind pointers; `idle` is the list g_jconnect; `epoll` and
-- `closed` are the calls of epoll_ctl(2) and close(2), the latest first.
pub record World : Type 0 where
  pub memory : Memory
  pub conns : Store Jconnect
  pub streams : Store TcpStream
  pub pool : ConnectPool
  pub idle : List Addr
  pub events : ℕ → Myevent
  pub epoll : List EpollCall
  pub closed : List ℤ

abbrev pub lift : {A : Type 0} → Run Memory A → World → Run World A
lift (ok a m) w = ok a (record w { memory = m })
lift abort w = abort
lift fault w = fault

-- A piece of code that works on the allocator alone.
abbrev pub in_memory : {A : Type 0} → Cmd Memory A → Cmd World A
in_memory c w = lift (c w.memory) w

-- `jc->...`
unfoldable pub conn_at : Addr → Cmd World Jconnect
conn_at a w = elim (lookup a w.conns) [ none ↦ fault | some c ↦ ok c w ]

abbrev pub set_conn : Addr → Jconnect → Cmd World (Unit {0})
set_conn a c w = ok tt (record w { conns = put a c w.conns })

unfoldable pub stream_at : Addr → Cmd World TcpStream
stream_at a w = elim (lookup a w.streams) [ none ↦ fault | some s ↦ ok s w ]

abbrev pub set_stream : Addr → TcpStream → Cmd World (Unit {0})
set_stream a s w = ok tt (record w { streams = put a s w.streams })

-- close(2) and free(3)
abbrev pub close_fd : ℤ → Cmd World (Unit {0})
close_fd fd w = ok tt (record w { closed = fd ∷ w.closed })

abbrev pub free_conn : Addr → Cmd World (Unit {0})
free_conn a w = ok tt (record w { conns = erase a w.conns })

-- The fields of one event changed.
abbrev pub set_event : ℕ → Myevent → Cmd World (Unit {0})
set_event i ev w = ok tt (record w { events = λ j. if i == j then ev else w.events j })

abbrev pub event_at : ℕ → Cmd World Myevent
event_at i w = ok (w.events i) w

abbrev pub epoll_ctl : EpollOp → ℤ → ℕ → Cmd World (Unit {0})
epoll_ctl op fd events w =
    ok tt (record w { epoll = record { op = op; fd = fd; events = events } ∷ w.epoll })
