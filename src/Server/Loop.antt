-- ===== src/Server/Loop.antt =====
-- server.c: the loop of main_rcv_loop. accept_conn is a parameter: it calls functions of event.c with
-- arguments that they do not have.
pub mod Frame
pub mod Step
pub mod Serve
pub mod Drain
pub mod Round
pub mod Boot
use jujube.Base.{ℕ, ◌+◌, ◌||◌, Option, none, some, List, [], ◌∷◌, leb, if◌then◌else◌}
use jujube.Base.Int.{ℤ, pos, is_neg, eq_ℤ, minus_one}
use jujube.Base.Run.{Cmd, fault, pure, and_then, ◌>>=◌, ◌>>◌}
use jujube.Mem.{Malloc}
use jujube.World.{Callback, no_cb, connect_cb, keepalive_cb, data_transfer, accept_cb, close_fd}
use jujube.Ip.Host.{InAddr}
use jujube.Event.Listen.{ListenCalls, Listening, init_listensocket}
use jujube.Event.{expires_house_keeping}
use jujube.Client.Loop.{Report}
use jujube.Server
use jujube.Server.{Server, in_world}

-- `ev->call_back(ev->fd, ..., ev->arg)`; the callbacks of the client are not in this program.
pub run_callback : Malloc → Cmd Server (Unit {0}) → Callback → Report → ℤ → Cmd Server (Unit {0})
run_callback os accept_conn no_cb r sock = λ sv. fault
run_callback os accept_conn connect_cb r sock = λ sv. fault
run_callback os accept_conn keepalive_cb r sock = λ sv. fault
run_callback os accept_conn accept_cb r sock = accept_conn
run_callback os accept_conn data_transfer r sock =
    Server.data_transfer os r.now r.writes r.reads sock r.readable r.writable r.event

pub perform : Malloc → Cmd Server (Unit {0}) → Report → Cmd Server (Unit {0})
perform os accept_conn r sv =
    let ev = sv.world.events r.event in run_callback os accept_conn ev.call_back r ev.fd sv

unfoldable pub run_reports : Malloc → Cmd Server (Unit {0}) → List Report → Cmd Server (Unit {0})
run_reports os accept_conn [] = pure tt
run_reports os accept_conn (r ∷ rs) = perform os accept_conn r >> run_reports os accept_conn rs

-- What one round meets: the time, and epoll_wait(2), which reports events of the server that it is
-- called in, none where a signal interrupts it; `none` is any other failure.
pub record Turn : Type 0 where
  pub now : ℕ
  pub epoll_wait : Server → Option (List Report)

-- The locals of main_rcv_loop.
pub record Locals : Type 0 where
  pub checkpos : ℕ
  pub next_time : ℕ

-- The count of requests starts again every ten seconds.
reset_qps : Turn → Locals → Cmd Server ℕ
reset_qps turn l sv =
    if leb l.next_time turn.now
    then pure (turn.now + 10) (record sv { qps = 0 })
    else pure l.next_time sv

-- The callbacks of the events that are reported; `none` leaves the loop.
after_wait :
    Malloc → Cmd Server (Unit {0}) → Locals → Option (List Report) → Cmd Server (Option Locals)
after_wait os accept_conn l none = pure none
after_wait os accept_conn l (some reports) = do run_reports os accept_conn reports; pure (some l)

pub main_rcv_loop_round :
    Malloc → Cmd Server (Unit {0}) → Turn → Locals → Cmd Server (Option Locals)
main_rcv_loop_round os accept_conn turn l = do
  next_time ← reset_qps turn l
  checkpos ← in_world (expires_house_keeping l.checkpos turn.now minus_one)
  λ sv.
      after_wait os accept_conn (record { checkpos = checkpos; next_time = next_time })
        (turn.epoll_wait sv) sv

-- The rounds, one for each turn, until the loop is left.
unfoldable pub main_rcv_loop_rounds :
    Malloc → Cmd Server (Unit {0}) → List Turn → Locals → Cmd Server (Option Locals)
main_rcv_loop_rounds os accept_conn [] l = pure (some l)
main_rcv_loop_rounds os accept_conn (turn ∷ turns) l = do
  next ← main_rcv_loop_round os accept_conn turn l
  (elim next [ none ↦ pure none | some l ↦ main_rcv_loop_rounds os accept_conn turns l ])

-- The time that main_rcv_loop starts at, what its calls of the system return, its address, and its
-- turns.
pub record Start : Type 0 where
  pub efd : ℤ
  pub calls : ListenCalls
  pub now : ℕ
  pub port : ℕ
  pub ip : InAddr
  pub turns : List Turn

-- The epoll instance is closed behind the loop.
leave : ℤ → Option Locals → Cmd Server (Unit {0})
leave efd none = in_world (close_fd efd)
leave efd (some l) = pure tt

-- What the call is asked to listen on, and where the loop is; `none` has no epoll instance.
pub main_rcv_loop :
    Malloc → Cmd Server (Unit {0}) → Start → Cmd Server (Option (Option Listening × Option Locals))
main_rcv_loop os accept_conn start =
    if is_neg start.efd || eq_ℤ start.efd (pos 0) then pure none else (do
      listening ← in_world (init_listensocket start.calls start.now start.port start.ip)
      l ←
          main_rcv_loop_rounds os accept_conn start.turns
            (record { checkpos = 0; next_time = start.now + 10 })
      leave start.efd l
      pure (some (listening, l)))
