-- ===== src/Event.antt =====
-- event.c: the table of events, and the time-outs. An event is named by its place in `g_events`.
pub mod Free
pub mod Epoll
pub mod Close
pub mod InOut
pub mod Sound
pub mod Sweep
pub mod Expire
pub mod Listen
use jujube.Base.{
  ℕ, zero, suc, ◌+◌, ◌-◌, Bool, true, false, ◌&&◌, not, Option, none, some, List, [], ◌∷◌, ltb, leb,
  ◌==◌, if◌then◌else◌,
}
use jujube.Base.Int.{ℤ, pos, negsuc, is_neg, minus_one, eq_ℤ}
use jujube.Base.Run.{Run, ok, abort, fault, Cmd, pure, and_then, ◌>>=◌, ◌>>◌}
use jujube.Base.Store.{lookup, erase}
use jujube.Mem.{Addr, mem_free}
use jujube.Buf.{buf_free_space, buf_data_size}
use jujube.Stream.{TcpStream, free_transaction_stream}
use jujube.World.{
  World, Jconnect, Myevent, Callback, EpollOp, ctl_add, ctl_mod, ctl_del, conn_at, stream_at,
  set_stream, close_fd, event_at, set_event, epoll_ctl, in_memory,
}

-- MAX_EVENTS
abbrev pub max_events : ℕ
max_events = 1024

-- EPOLLIN and EPOLLOUT
abbrev pub epollin : ℕ
epollin = 1

abbrev pub epollout : ℕ
epollout = 4

-- `g_events[i].jc && g_events[i].jc->fd == fd`
has_conn_fd : Option Addr → ℤ → Cmd World Bool
has_conn_fd none fd = pure false
has_conn_fd (some a) fd = do c ← conn_at a; pure (eq_ℤ c.fd fd)

-- The test of the loop of evget at one event.
is_wanted : Myevent → ℤ → Cmd World Bool
is_wanted ev fd =
    if ev.status == 0 && eq_ℤ fd minus_one
    then pure true
    else if not (eq_ℤ fd minus_one)
    then has_conn_fd ev.jc fd
    else pure false

evget_from : (rounds i : ℕ) → ℤ → Cmd World (Option ℕ)
evget_from zero i fd w = ok none w
evget_from (suc n) i fd w =
    and_then (is_wanted (w.events i) fd w)
      (λ found. if found then pure (some i) else evget_from n (i + 1) fd)

-- `none` is NULL: the table is full, or no event has that descriptor.
pub evget : ℤ → Cmd World (Option ℕ)
evget fd = evget_from max_events 0 fd

unfoldable pub eventset : ℕ → ℕ → Addr → Callback → Cmd World (Unit {0})
eventset now i jc call_back = do
  c ← conn_at jc
  set_event i (record {
    fd = c.fd;
    events = 0;
    call_back = call_back;
    status = 0;
    last_active = now;
    jc = some jc;
  })

unfoldable pub event_reset_cb : ℕ → Callback → Cmd World (Unit {0})
event_reset_cb i call_back = do ev ← event_at i; set_event i (record ev { call_back = call_back })

unfoldable pub eventadd : ℕ → ℕ → ℕ → Cmd World (Unit {0})
eventadd now events i = do
  ev ← event_at i
  set_event i (record ev { last_active = now; events = events; status = 1 })
  epoll_ctl (if ev.status == 1 then ctl_mod else ctl_add) ev.fd events

unfoldable pub eventdel : ℕ → Cmd World (Unit {0})
eventdel i = do
  ev ← event_at i
  if not (ev.status == 1)
      then pure tt
      else (do set_event i (record ev { status = 0 }); epoll_ctl ctl_del ev.fd 0)

-- `ev->jc->stream`, which the function wants to be there.
stream_of : ℕ → Cmd World Addr
stream_of i w = elim (w.events i).jc [
  | none ↦ fault
  | some a ↦ and_then (conn_at a w) (λ c. λ w'. elim c.stream [ none ↦ abort | some s ↦ ok s w' ])
]

pub set_stream_event_in_out : ℕ → ℕ → Cmd World (Unit {0})
set_stream_event_in_out now i = do
  a ← stream_of i
  s ← stream_at a
  let readable = ltb 0 (buf_free_space s.out_buf.buf)
  let writable = ltb 0 (buf_data_size s.in_buf.buf)
  if is_neg s.server_sock
      then pure tt
      else eventadd now ((if readable then epollin else 0) + (if writable then epollout else 0)) i

-- free(3) of a stream's blocks: its object is gone.
pub free_stream : Addr → TcpStream → Cmd World (Unit {0})
free_stream a s w =
    and_then (in_memory (free_transaction_stream (some s)) w)
      (λ _ w'. ok tt (record w' { streams = erase a w'.streams }))

-- The stream of the event is closed with its socket and freed; `ev->jc->stream` stays.
close_active : ℕ → Addr → Cmd World (Unit {0})
close_active i a = do
  s ← stream_at a
  (if is_neg s.server_sock then pure tt else (do
    eventdel i
    ev ← event_at i
    close_fd ev.fd
    set_stream a (record s { server_sock = minus_one })))
  s ← stream_at a
  free_stream a s

close_conn : ℕ → Jconnect → Cmd World (Unit {0})
close_conn i c = elim c.stream [ none ↦ pure tt | some a ↦ close_active i a ]

-- The argument `reason` is not used.
pub close_stream : ℕ → Cmd World (Unit {0})
close_stream i w = elim (w.events i).jc [
  | none ↦ ok tt w
  | some a ↦ and_then (conn_at a w) (close_conn i)
]

-- One round of expires_house_keeping at an event; `now - last_active` is signed.
expire_one : ℕ → ℤ → ℕ → Cmd World (Unit {0})
expire_one now except_fd i w =
    let ev = w.events i in
    if not (ev.status == 1)
    then ok tt w
    else if leb (ev.last_active + 10) now && not (eq_ℤ except_fd ev.fd)
    then (eventdel i >> close_stream i) w
    else ok tt w

-- The rounds left, from `checkpos`: the new position.
expire_from : (rounds checkpos : ℕ) → ℕ → ℤ → Cmd World ℕ
expire_from zero checkpos now except_fd = pure checkpos
expire_from (suc n) checkpos now except_fd =
    let i = if checkpos == max_events then 0 else checkpos in
    expire_one now except_fd i >> expire_from n (i + 1) now except_fd

pub expires_house_keeping : ℕ → ℕ → ℤ → Cmd World ℕ
expires_house_keeping start now except_fd = expire_from (max_events + 1) start now except_fd
