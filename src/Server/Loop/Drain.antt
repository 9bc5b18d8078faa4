-- ===== src/Server/Loop/Drain.antt =====
-- One callback of a server that runs, and the callbacks of a round.
use jujube.Base.{
  ℕ, ◌<◌, ◌≡◌, ◌≢◌, ◌∙◌, sym, ap, refl, Bool, true, ◌&&◌, ◌||◌, not, Option, none, some, List, [],
  ◌∷◌, ◌==◌,
}
use jujube.Base.Run.{Cmd, returns, Ends, Ends-mono, goes, stops, value}
use jujube.Base.Store.{lookup}
use jujube.Mem.{Addr, Malloc, Gives}
use jujube.Buf.Holds.{data_len-length}
use jujube.World.{World}
use jujube.Event.{max_events}
use jujube.Event.Sound.{IsActive}
use jujube.Client.Loop.{Report}
use jujube.Client.Loop.Round.{Without, Reported}
use jujube.Server.{Server}
use jujube.Server.Safe.Transfer.{data_transfer-Ends}
use jujube.Server.Loop.{run_callback, perform, run_reports}
use jujube.Server.Loop.Frame.{Spot, Serving, Runs, Outcome, Serving-Frame, Outcome-Frame}
use jujube.Server.Loop.Step.{Runs-Outcome}
use jujube.Server.Loop.Serve.{link_of, base_of, Serving-Served, Settled-Outcome}

-- How many bytes are left in the `out_buf` that an event leads to.
size_at : World → Option Addr → ℕ
size_at w none = 0
size_at w (some a) = elim (lookup a w.streams) [ none ↦ 0 | some s ↦ s.out_buf.buf.data_len ]

stream_from : World → Option Addr → Option Addr
stream_from w none = none
stream_from w (some jc) = elim (lookup jc w.conns) [ none ↦ none | some c ↦ c.stream ]

pub left_over : World → ℕ → ℕ
unfolding size_at stream_from
left_over w i = size_at w (stream_from w (w.events i).jc)

-- Nothing is left of an earlier read where there is more to read.
abbrev pub is_drained : World → Report → Bool
is_drained w r = not r.readable || left_over w r.event == 0

abbrev pub all_drained : World → List Report → Bool
all_drained w [] = true
all_drained w (r ∷ rs) = is_drained w r && all_drained w rs

left_over-Serving :
    (w : World) (i : ℕ) (p : Spot) (v : Serving w i p)
    → left_over w i ≡ p.stream.out_buf.buf.data_len
unfolding left_over size_at stream_from
left_over-Serving w i p v = rw (v.event, stream_from, v.conn, v.points, size_at, v.stream) refl

-- What is left of the reads of the other events is not touched.
left_over-Outcome :
    {w w' : World} (v : Runs w) (i k : ℕ)
    → Outcome i (v.spot i) w w'
    → i < max_events
    → IsActive w i
    → k < max_events
    → i ≢ k
    → IsActive w k
    → left_over w' k ≡ left_over w k
left_over-Outcome {w} {w'} v i k o lt active lk ne act =
    let q = v.spot k in
    let s = v.serves k lk act in
    left_over-Serving w' k q
      (Serving-Frame k ne (Outcome-Frame o) (v.clear i k lt lk ne active act) s)
    ∙ sym (left_over-Serving w k q s)

-- What the call of a callback leaves: a server that runs, and the other events as they were.
record Called (i : ℕ) (w w' : World) : Type 0 where
  runs : Runs w'
  events : (k : ℕ) → i ≢ k → w'.events k ≡ w.events k
  others : (k : ℕ) → k < max_events → i ≢ k → IsActive w k → left_over w' k ≡ left_over w k

-- The callback of an active event.
perform-Ends :
    (os : Malloc) ⦃gives : Gives os⦄ (accept_conn : Cmd Server (Unit {0})) (sv : Server)
    (r : Report)
    → Runs sv.world
    → r.event < max_events
    → IsActive sv.world r.event
    → Ends
        (is_drained sv.world r)
        (λ _ sv'. Called r.event sv.world sv'.world)
        (perform os accept_conn r sv)
unfolding perform run_callback
perform-Ends os accept_conn sv r v lt active =
    let w = sv.world in
    let p = v.serves r.event lt active in
    let (m0, o) = base_of p in
    let size = left_over-Serving w r.event (v.spot r.event) p ∙ data_len-length p.out in
    rw p.call_back (
      Ends-mono (ap (λ n. not r.readable || n == 0) size)
        (data_transfer-Ends os r.now r.writes r.reads (link_of w r.event (v.spot r.event) m0)
          r.readable r.writable sv p.xs (Serving-Served p m0 o))
        (λ _ sv' d.
          let out = Settled-Outcome p m0 o d in
          record {
            runs = Runs-Outcome v r.event lt active out;
            events = (Outcome-Frame out).events;
            others = λ k lk ne act. left_over-Outcome v r.event k out lt active lk ne act;
          }))

-- What a callback leaves to the reports behind it.
Reported-Called :
    (w w' : World) (i : ℕ) (rs : List Report)
    → Called i w w'
    → Without i rs
    → Reported w rs
    → Reported w' rs × (all_drained w' rs ≡ all_drained w rs)
Reported-Called w w' i [] c d h = (tt, refl)
Reported-Called w w' i (r ∷ rs) c d h =
    let (reported, e) = Reported-Called w w' i rs c d.1 h.3 in
    (
      (h.0, ap (λ x. x.status == 1) (c.events r.event d.0) ∙ h.1, h.2, reported),
      cc (c.others r.event h.0 d.0 h.1, e),
    )

-- In a server that runs, where epoll_wait(2) has reported active events of the table, each once:
-- the callbacks return with a server that runs, if for no readable event bytes of an earlier read
-- are left; else an assertion fails. No bad access is made. malloc(3) is taken not to fail
-- (`Gives`).
pub run_reports-Ends :
    (os : Malloc) ⦃gives : Gives os⦄ (accept_conn : Cmd Server (Unit {0})) (rs : List Report)
    (sv : Server)
    → Runs sv.world
    → Reported sv.world rs
    → Ends (all_drained sv.world rs) (λ _ sv'. Runs sv'.world) (run_reports os accept_conn rs sv)
unfolding run_reports
run_reports-Ends os accept_conn [] sv v h = goes refl (returns v)
run_reports-Ends os accept_conn (r ∷ rs) sv v h =
    elim (perform-Ends os accept_conn sv r v h.0 h.1) [
      | stops blocked aborts ↦ stops (rw blocked refl) (rw aborts refl)
      | goes fine run ↦
          let (u, sv1, e, c) = value run in
          let (reported, same) = Reported-Called sv.world sv1.world r.event rs c h.2 h.3 in
          rw (fine, e)
            (Ends-mono (sym same) (run_reports-Ends os accept_conn rs sv1 c.runs reported)
              (λ _ sv2 v2. v2))
    ]
