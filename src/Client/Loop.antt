-- ===== src/Client/Loop.antt =====
-- client.c: main_loop. What it does between two calls of epoll_wait(2) is a sequence of requests:
-- a transaction, the house keeping, and one call of a callback for each event that is reported.
pub mod Frame
pub mod Outcome
pub mod Parts
pub mod Calls
pub mod Begin
pub mod Reach
pub mod Round
use jujube.Base.{ℕ, ◌+◌, ◌%◌, ◌^◌, ◌||◌, Bool, List, [], ◌∷◌, leb, if◌then◌else◌}
use jujube.Base.Int.{ℤ}
use jujube.Base.Run.{Cmd, fault, pure, and_then, ◌>>=◌, ◌>>◌}
use jujube.Mem.{Malloc}
use jujube.Stream.{WriteResult, ReadResult}
use jujube.World.{World, Callback, no_cb, connect_cb, keepalive_cb, data_transfer, accept_cb}
use jujube.Event.{expires_house_keeping}
use jujube.Client.{on_connect, on_keepalive, on_data}
use jujube.Client.Transaction.{LogEntry, Outside, create_transaction}

-- A reported event: EPOLLIN and EPOLLOUT, the clock, and what the socket's calls return.
pub record Report : Type 0 where
  pub event : ℕ
  pub readable : Bool
  pub writable : Bool
  pub now : ℕ
  pub writes : List WriteResult
  pub reads : List ReadResult

-- `ev->call_back(ev->fd, ..., ev->arg)`; accept_conn is not in this program.
run_callback : Callback → Report → ℤ → Cmd World (Unit {0})
run_callback no_cb r sock = λ w. fault
run_callback accept_cb r sock = λ w. fault
run_callback connect_cb r sock = on_connect r.now sock r.writable r.event
run_callback keepalive_cb r sock = on_keepalive r.event
run_callback data_transfer r sock =
    on_data r.now r.writes r.reads sock r.readable r.writable r.event

pub data Request : Type 0 where
  begin : Outside → LogEntry → Request
  keep_house : (start now : ℕ) (tickle : ℤ) → Request
  report : Report → Request

pub perform : Malloc → Request → Cmd World (Unit {0})
perform os (begin out entry) = create_transaction os out entry
perform os (keep_house start now tickle) = expires_house_keeping start now tickle >> pure tt
perform os (report r) = λ w. run_callback (w.events r.event).call_back r (w.events r.event).fd w

-- What one round of main_loop meets: the time, what a transaction needs, and epoll_wait(2), which
-- reports events of the world that it is called in.
pub record Turn : Type 0 where
  pub now : ℕ
  pub tickle : ℤ
  pub out : Outside
  pub entry : LogEntry
  pub epoll_wait : World → List Report

-- The locals of main_loop; `next_time` is the 32-bit pattern of an `int`.
pub record Locals : Type 0 where
  pub checkpos : ℕ
  pub next_time : ℕ

run_reports : Malloc → List Report → Cmd World (Unit {0})
run_reports os [] = pure tt
run_reports os (r ∷ rs) = perform os (report r) >> run_reports os rs

-- `now >= next_time`, where the `int` becomes a `long` and may be negative.
unfoldable pub is_due : (now next_time : ℕ) → Bool
is_due now next_time = leb (2 ^ 31) next_time || leb next_time now

-- A transaction when it is time for one: the new `next_time`.
begin_if_due : Malloc → Turn → ℕ → Cmd World ℕ
begin_if_due os turn next_time =
    if is_due turn.now next_time
    then (do create_transaction os turn.out turn.entry; pure ((turn.now + 1) % 2 ^ 32))
    else pure next_time

pub main_loop_round : Malloc → Turn → Locals → Cmd World Locals
main_loop_round os turn l = do
  next_time ← begin_if_due os turn l.next_time
  checkpos ← expires_house_keeping l.checkpos turn.now turn.tickle
  λ w. run_reports os (turn.epoll_wait w) w
  pure (record { checkpos = checkpos; next_time = next_time })
