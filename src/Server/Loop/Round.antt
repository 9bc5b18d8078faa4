-- ===== src/Server/Loop/Round.antt =====
-- The rounds of a server that runs.
use jujube.Base.{
  ℕ, ◌≤◌, ◌≡◌, ◌≢◌, ◌∙◌, refl, true, Option, none, some, Option-cases, List, [], ◌∷◌, arith, leb,
  Bool-cases, inl, inr,
}
use jujube.Base.Int.{minus_one}
use jujube.Base.Run.{Cmd, Returns, returns, bind, mono, goes, stops}
use jujube.Mem.{Malloc, Gives}
use jujube.Event.{max_events}
use jujube.Event.Close.{close_stream-Closed}
use jujube.Event.Epoll.{Registry-del}
use jujube.Event.Sweep.{Closes, deleted, expires_house_keeping_lem}
use jujube.Client.Loop.{Report}
use jujube.Client.Loop.Round.{Reported}
use jujube.Server.{Server}
use jujube.Server.Link.{Returns-lift_world}
use jujube.Server.Loop.{
  Turn, Locals, reset_qps, after_wait, main_rcv_loop_round, main_rcv_loop_rounds,
}
use jujube.Server.Loop.Frame.{Runs, ended}
use jujube.Server.Loop.Step.{Runs-Outcome}
use jujube.Server.Loop.Drain.{all_drained, run_reports-Ends}
use jujube.Base.{subst, sym}

-- House keeping may close the connection of an active event.
close_stream-Runs : Closes Runs
close_stream-Runs w i call e v lt active =
    let p = v.serves i lt active in
    let q = v.spot i in
    mono
      (close_stream-Closed (deleted w i call) i q.jc q.conn q.place q.stream
        (record {
          event = ground (arith, p.event);
          conn = p.conn;
          points = p.points;
          stream = p.stream;
          owns = p.owns;
        })
        p.open_sock)
      (λ _ w' c.
        let others : (k : ℕ) → i ≢ k → w'.events k ≡ w.events k =
          λ k ne. c.events k ne ∙ ground arith in
        (
          Runs-Outcome v i lt active (
              ended
                (record {
                  inv = c.memory.inv;
                  memory = λ a xs h e. ground (arith, c.memory.rule a, h, e);
                  events = others;
                  conns = c.conns;
                  streams = c.others;
                  registry = λ r act.
                      c.registry
                        (rw e (Registry-del i (λ k ne. ground arith) 0 r act (ground arith)));
                })
                c.inactive),
          record { inactive = c.inactive; events = others },
        ))

-- What epoll_wait(2) is expected to report: active events of the table, each once, and a readable
-- one only where nothing is left of an earlier read.
abbrev pub Waits : Turn → Type 0
Waits turn =
    (sv : Server) (rs : List Report)
    → turn.epoll_wait sv ≡ some rs
    → Reported sv.world rs × (all_drained sv.world rs ≡ true)

abbrev pub AllWait : List Turn → Type 0
AllWait [] = Unit {0}
AllWait (turn ∷ turns) = Waits turn × AllWait turns

-- A round leaves the loop, or the next one starts from a position of the table.
abbrev pub GoesOn : Option Locals → Type 0
GoesOn none = Unit {0}
GoesOn (some l) = l.checkpos ≤ max_events

after_wait-Runs :
    (os : Malloc) ⦃gives : Gives os⦄ (accept_conn : Cmd Server (Unit {0})) (turn : Turn)
    (l : Locals) (sv : Server)
    → Runs sv.world
    → l.checkpos ≤ max_events
    → Waits turn
    → Returns
        (λ next sv'. Runs sv'.world × GoesOn next)
        (after_wait os accept_conn l (turn.epoll_wait sv) sv)
unfolding after_wait
after_wait-Runs os accept_conn turn l sv v le waits = elim (Option-cases (turn.epoll_wait sv)) [
  | inl failed ↦ rw failed (returns (v, tt))
  | inr (rs, e) ↦
      let (reported, drained) = waits sv rs e in
      rw e (elim (run_reports-Ends os accept_conn rs sv v reported) [
        | goes fine run ↦ bind run (λ _ sv1 v1. returns (v1, le))
        | stops blocked aborts ↦ absurd (ground (arith, blocked, drained))
      ])
]

-- The count of requests, and the time at which it starts again.
reset_qps-same :
    (turn : Turn) (l : Locals) (sv : Server)
    → Returns (λ next sv'. sv'.world ≡ sv.world) (reset_qps turn l sv)
unfolding reset_qps
reset_qps-same turn l sv = elim (Bool-cases (leb l.next_time turn.now)) [
  | inl due ↦ rw due (returns refl)
  | inr early ↦ rw early (returns refl)
]

main_rcv_loop_round-Runs :
    (os : Malloc) ⦃gives : Gives os⦄ (accept_conn : Cmd Server (Unit {0})) (turn : Turn)
    (l : Locals) (sv : Server)
    → Runs sv.world
    → l.checkpos ≤ max_events
    → Waits turn
    → Returns
        (λ next sv'. Runs sv'.world × GoesOn next)
        (main_rcv_loop_round os accept_conn turn l sv)
unfolding main_rcv_loop_round
main_rcv_loop_round-Runs os accept_conn turn l sv v le waits =
    bind (reset_qps-same turn l sv) (λ next sv1 same.
      bind
        (Returns-lift_world sv1 (
          expires_house_keeping_lem turn.now minus_one Runs close_stream-Runs l.checkpos sv1.world
            (subst Runs (sym same) v) le))
        (λ pos' sv2 (h, t). after_wait-Runs os accept_conn turn _ sv2 h.sound h.position waits))

-- In a server that runs, at a `checkpos` up to MAX_EVENTS, with any callback for the listening
-- socket: the rounds of main_rcv_loop return, as many as there are, whatever the sockets do, with a
-- server that runs, as long as no connection comes, epoll_wait(2) reports only active events of the
-- table, each once, and a readable event only where no bytes of an earlier read are left.
pub main_rcv_loop_rounds-Runs :
    (os : Malloc) ⦃gives : Gives os⦄ (accept_conn : Cmd Server (Unit {0})) (turns : List Turn)
    (l : Locals) (sv : Server)
    → Runs sv.world
    → l.checkpos ≤ max_events
    → AllWait turns
    → Returns
        (λ next sv'. Runs sv'.world × GoesOn next)
        (main_rcv_loop_rounds os accept_conn turns l sv)
unfolding main_rcv_loop_rounds
main_rcv_loop_rounds-Runs os accept_conn [] l sv v le waits = returns (v, le)
main_rcv_loop_rounds-Runs os accept_conn (turn ∷ turns) l sv v le waits =
    bind (main_rcv_loop_round-Runs os accept_conn turn l sv v le waits.0) (λ next sv1 (v1, on).
      elim (Option-cases next) [
        | inl left ↦ rw left (returns (v1, tt))
        | inr (l1, e) ↦
            rw e
              (main_rcv_loop_rounds-Runs os accept_conn turns l1 sv1 v1 (subst GoesOn e on) waits.1)
      ])
