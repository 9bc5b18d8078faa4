-- ===== src/Client/Loop/Round.antt =====
-- One round of main_loop in a client that runs.
use jujube.Base.{
  ◌⊎◌, arith, true, leb, ℕ, ◌+◌, ◌<◌, ◌≤◌, ◌≡◌, ◌≢◌, ◌∙◌, ap, refl, List, [], ◌∷◌, ◌==◌, ◌%◌, ◌^◌,
  Bool-cases, inl, inr,
}
use jujube.Base.Run.{Returns, returns, bind}
use jujube.Mem.{Malloc, Gives}
use jujube.World.{World}
use jujube.Event.{max_events}
use jujube.Event.Sound.{IsActive}
use jujube.Event.Sweep.{expires_house_keeping_lem}
use jujube.Client.Loop.{Report, Turn, Locals, run_reports, is_due, begin_if_due, main_loop_round}
use jujube.Client.Loop.Frame.{Runs}
use jujube.Client.Loop.Begin.{CanBegin, create_transaction-Runs}
use jujube.Client.Loop.Reach.{report-Runs, close_stream-Runs}

-- No report is for the event `i`.
abbrev pub Without : ℕ → List Report → Type 0
Without i [] = Unit {0}
Without i (r ∷ rs) = (i ≢ r.event) × Without i rs

-- Reports of active events of the table, each once.
abbrev pub Reported : World → List Report → Type 0
Reported w [] = Unit {0}
Reported w (r ∷ rs) =
    (r.event < max_events) × IsActive w r.event × Without r.event rs × Reported w rs

-- They are so still when another event has changed.
Reported-keep :
    (w w' : World) (i : ℕ) (rs : List Report)
    → ((k : ℕ) → i ≢ k → w'.events k ≡ w.events k)
    → Without i rs
    → Reported w rs
    → Reported w' rs
Reported-keep w w' i [] e d h = tt
Reported-keep w w' i (r ∷ rs) e d h =
    (h.0, ap (λ x. x.status == 1) (e r.event d.0) ∙ h.1, h.2, Reported-keep w w' i rs e d.1 h.3)

run_reports-Runs :
    (os : Malloc) ⦃gives : Gives os⦄ (rs : List Report) (w : World)
    → Runs w
    → Reported w rs
    → Returns (λ _ w'. Runs w') (run_reports os rs w)
unfolding run_reports
run_reports-Runs os [] w v h = returns v
run_reports-Runs os (r ∷ rs) w v h = bind (report-Runs os w r v h.0 h.1) (λ _ w1 (v1, others).
    run_reports-Runs os rs w1 v1 (Reported-keep w w1 r.event rs others h.2 h.3))

-- `next_time`, an `int`, after a round at `now`: a transaction was due if it was negative or not
-- later than `now`.
pub data Next (now old new : ℕ) : Type 0 where
  due_next : (2 ^ 31 ≤ old) ⊎ (old ≤ now) → new ≡ (now + 1) % 2 ^ 32 → Next now old new
  not_yet : old < 2 ^ 31 → now < old → new ≡ old → Next now old new

-- What `now >= next_time` says.
is_due-Next : (now old : ℕ) → is_due now old ≡ true → (2 ^ 31 ≤ old) ⊎ (old ≤ now)
unfolding is_due
is_due-Next now old h = elim (Bool-cases (leb (2 ^ 31) old)) [
  | inl negative ↦ inl (ground (arith, negative))
  | inr positive ↦ inr (ground (arith, positive, h))
]

begin_if_due-Runs :
    (os : Malloc) ⦃gives : Gives os⦄ (turn : Turn) (next_time : ℕ) (w : World)
    → Runs w
    → CanBegin w turn.out turn.entry
    → Returns (λ next w'. Runs w' × Next turn.now next_time next) (begin_if_due os turn next_time w)
unfolding begin_if_due is_due
begin_if_due-Runs os turn next_time w v can = elim (Bool-cases (is_due turn.now next_time)) [
  | inl due ↦ rw due (
      bind (create_transaction-Runs os turn.out turn.entry w v can)
        (λ _ w' v'. returns (v', due_next (is_due-Next turn.now next_time due) refl)))
  | inr early ↦ rw early (returns (v, not_yet (ground (arith, early)) (ground (arith, early)) refl))
]

-- In a client that runs, at a `checkpos` up to MAX_EVENTS, while an event is free, for an IPv4
-- address and where malloc(3) gives no object that is in use: where epoll_wait(2) reports only
-- events of the table that are active, each once, a round of main_loop returns, whatever the
-- sockets do, with a client that runs, `checkpos` up to MAX_EVENTS, and `next_time`, an `int`, a
-- second later, modulo 2 ^ 32, if there was a transaction in this round. malloc(3) is taken not
-- to fail (`Gives`).
pub main_loop_round-Runs :
    (os : Malloc) ⦃gives : Gives os⦄ (turn : Turn) (l : Locals) (w : World)
    → Runs w
    → CanBegin w turn.out turn.entry
    → l.checkpos ≤ max_events
    → ((w1 : World) → Reported w1 (turn.epoll_wait w1))
    → Returns
        (λ l' w'. Runs w' × (l'.checkpos ≤ max_events) × Next turn.now l.next_time l'.next_time)
        (main_loop_round os turn l w)
unfolding main_loop_round
main_loop_round-Runs os turn l w v can le waits =
    bind (begin_if_due-Runs os turn l.next_time w v can) (λ next w1 (v1, e).
      bind
        (expires_house_keeping_lem turn.now turn.tickle Runs close_stream-Runs l.checkpos w1 v1 le)
        (λ pos' w2 h.
          bind (run_reports-Runs os (turn.epoll_wait w2) w2 h.sound (waits w2))
            (λ _ w3 v3. returns (v3, h.position, e))))
