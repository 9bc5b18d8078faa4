-- ===== src/Client/Loop/Reach.antt =====
-- main_loop: from the start of the program no request fails.
use jujube.Base.{
  ℕ, ◌<◌, ◌≤◌, ◌≡◌, ◌≢◌, ◌∙◌, sym, ap, refl, false, none, inl, inr, [], ◌∷◌, arith, has,
}
use jujube.Base.Int.{ℤ, pos}
use jujube.Base.Run.{ok, Returns, returns, bind, mono, value, result_of}
use jujube.Base.Store.{lookup}
use jujube.Mem.{Malloc, Gives, mem_module_init}
use jujube.Mem.Init.{static_memory, init-Inv}
use jujube.Stream.{BufBox, TcpStream}
use jujube.World.{World, begin_conn, no_cb, ctl_add}
use jujube.Event.{max_events, epollin}
use jujube.Event.Close.{close_stream-Closed}
use jujube.Event.Sound.{IsActive}
use jujube.Event.Sweep.{Closes, deleted, expires_house_keeping_lem}
use jujube.Client.Loop.{Report, Request, begin, keep_house, report, run_callback, perform}
use jujube.Client.Loop.Frame.{Runs, Runs-ended, Runs-set}
use jujube.Client.Loop.Outcome.{Outcome, ended, serving, Frame-same}
use jujube.Client.Loop.Calls.{on_connect-Outcome, on_data-Outcome}
use jujube.Client.Loop.Begin.{CanBegin, create_transaction-Runs}

-- What a callback comes to is a client that runs.
Runs-Outcome :
    {w w' : World} (v : Runs w) (i : ℕ)
    → i < max_events
    → IsActive w i
    → Outcome i (v.jc i) (v.stream i) w w'
    → Runs w'
Runs-Outcome v i lt active (ended f over) = Runs-ended v i lt active f over
Runs-Outcome v i lt active (serving c s f p self same) =
    Runs-set v i (v.jc i) c s (Frame-same (sym self) (sym same) f) p (λ k lk ne act.
      let d = v.clear i k lt lk ne active act in
      let e = v.clear k i lk lt (λ q. ne (sym q)) act active in
      (
        record {
          conns = d.conns;
          places = λ q. d.places (sym self ∙ q);
          disjoint = λ a h. ap (has a) same ∙ d.disjoint a h;
        },
        record {
          conns = e.conns;
          places = λ q. e.places (q ∙ self);
          disjoint = λ a h. e.disjoint a (ap (has a) (sym same) ∙ h);
        },
      ))

-- No other event has changed.
outcome_events :
    {w w' : World} {i jc : ℕ} {s : TcpStream}
    → Outcome i jc s w w'
    → (k : ℕ) → i ≢ k
    → w'.events k ≡ w.events k
outcome_events (ended f over) = f.events
outcome_events (serving c s' f p self same) = f.events

pub report-Runs :
    (os : Malloc) ⦃gives : Gives os⦄ (w : World) (r : Report)
    → Runs w
    → r.event < max_events
    → IsActive w r.event
    → Returns
        (λ _ w'. Runs w' × ((k : ℕ) → r.event ≢ k → w'.events k ≡ w.events k))
        (perform os (report r) w)
unfolding perform run_callback
report-Runs os w r v lt active =
    let p = v.serves r.event lt active in
    elim p.call_back [
      | inl connects ↦ rw connects (
          mono (on_connect-Outcome p r.now r.writable)
            (λ _ w' o. (Runs-Outcome v r.event lt active o, outcome_events o)))
      | inr transfers ↦ rw transfers (
          mono (on_data-Outcome p r.now r.writes r.reads r.readable r.writable)
            (λ _ w' o. (Runs-Outcome v r.event lt active o, outcome_events o)))
    ]

pub close_stream-Runs : Closes Runs
close_stream-Runs w i call e v lt active =
    let p = v.serves i lt active in
    let s = v.stream i in
    mono
      (close_stream-Closed (deleted w i call) i (v.jc i) (v.conn i) s.self s
        (record {
          event = ground (arith, p.attached.event);
          conn = p.attached.conn;
          points = p.attached.points;
          stream = p.attached.stream;
          owns = p.attached.owns;
        })
        p.open_sock)
      (λ _ w' c.
        let others : (k : ℕ) → i ≢ k → w'.events k ≡ w.events k =
          λ k ne. c.events k ne ∙ ground arith in
        (
          Runs-ended v i lt active
              (record {
                inv = c.memory.inv;
                memory = λ a h. ground (arith, c.memory.rule a, h);
                events = others;
                conns = λ b ne. ap (lookup b) c.conns;
                streams = c.others;
                idle = c.idle;
              })
              c.inactive,
          record { inactive = c.inactive; events = others },
        ))

-- What main_loop may do next.
abbrev pub Allowed : World → Request → Type 0
Allowed w (begin out entry) = CanBegin w out entry
Allowed w (keep_house start now tickle) = start ≤ max_events
Allowed w (report r) = (r.event < max_events) × IsActive w r.event

perform-Runs :
    (os : Malloc) ⦃gives : Gives os⦄ (w : World) (r : Request)
    → Runs w
    → Allowed w r
    → Returns (λ _ w'. Runs w') (perform os r w)
unfolding perform
perform-Runs os w (begin out entry) v can = create_transaction-Runs os out entry w v can
perform-Runs os w (keep_house start now tickle) v le =
    bind (expires_house_keeping_lem now tickle Runs close_stream-Runs start w v le)
      (λ end w' h. returns h.sound)
perform-Runs os w (report r) v (lt, active) =
    mono (report-Runs os w r v lt active) (λ _ w' (v', e). v')

-- The world in which main_loop starts: the pool is empty, the allocator has been started, and
-- `tickle` is registered.
abbrev pub booted : ℤ → World
booted tickle = record {
  memory = mem_module_init static_memory;
  conns = [];
  streams = [];
  pool = record { max_connects = 10; max_alive_times = 60; max_txn = 100; current_total = 0 };
  idle = [];
  events = λ i. record {
    fd = pos 0;
    events = 0;
    call_back = no_cb;
    status = 0;
    last_active = 0;
    jc = none;
  };
  epoll = record { op = ctl_add; fd = tickle; events = epollin } ∷ [];
  closed = [];
}

-- No event leads to this.
abbrev no_stream : TcpStream
no_stream =
    let empty : BufBox = record {
      self = 0;
      buf = record { buffer = 0; data_len = 0; buf_len = 0 };
    } in
    record {
      self = 0;
      data_start = 0;
      data_in = 0;
      data_out = 0;
      data_begin = 0;
      server_sock = pos 0;
      in_buf = empty;
      out_buf = empty;
      reply_body_size_left = pos 0;
      work_buf = none;
      data_recved = 0;
      content_len = 0;
      flags = record { eof = false; server_closed = false; need_close_connect = false };
    }

pub booted-Runs : (tickle : ℤ) → Runs (booted tickle)
booted-Runs tickle = record {
  inv = init-Inv;
  idle = refl;
  jc = λ k. 0;
  conn = λ k. record {
    fd = pos 0;
    is_alive = false;
    requests = 0;
    status = begin_conn;
    stream = none;
  };
  stream = λ k. no_stream;
  serves = λ k lk act. absurd (ground (arith, act));
  clear = λ j k lj lk ne actj actk. absurd (ground (arith, actj));
}

-- The states of the client: what the requests lead to, in any order in which they are allowed.
pub data Reachable (os : Malloc) : World → Type 0 where
  boot : (tickle : ℤ) → Reachable os (booted tickle)
  step :
      {w w' : World} (r : Request)
      → Reachable os w
      → Allowed w r
      → perform os r w ≡ ok tt w'
      → Reachable os w'

Reachable-Runs : {os : Malloc} ⦃gives : Gives os⦄ {w : World} → Reachable os w → Runs w
Reachable-Runs (boot tickle) = booted-Runs tickle
Reachable-Runs {os} (step {w} r h a e) = result_of (perform-Runs os w r (Reachable-Runs h) a) e

-- In every state that the client reaches from its start, by transactions, house keeping and
-- callbacks in any order, with any results of the sockets' calls, each further request returns
-- with a state that is again reachable: no assertion fails and no bad access is made. A request
-- is a transaction to an IPv4 address while an event is free and where malloc(3) gives no object
-- that is in use, house keeping from a position up to MAX_EVENTS, or the callback of an event
-- that is active. malloc(3) is taken not to fail (`Gives`).
pub reachable-Returns :
    (os : Malloc) ⦃gives : Gives os⦄ (w : World) (r : Request)
    → Reachable os w
    → Allowed w r
    → Returns (λ _ w'. Reachable os w' × Runs w') (perform os r w)
reachable-Returns os w r h a =
    let (u, w', e, v) = value (perform-Runs os w r (Reachable-Runs h) a) in
    rw e (returns (step r h a e, v))
