-- ===== src/Server/Loop/Serve.antt =====
-- An event that serves, as the connection of one call of data_transfer.
use jujube.Base.{ℕ, ◌≡◌, ◌∙◌, sym, refl, false, some, List, arith, has, Bool-cases, inl, inr}
use jujube.Base.Run.{value}
use jujube.Mem.{Addr, Memory, view}
use jujube.Mem.Batch.{free_all-AllFreed}
use jujube.Mem.Owned.{Owned, held-InUse}
use jujube.Stream.Free.{blocks}
use jujube.World.{World}
use jujube.Server.Link.{Link, Linked, Ended}
use jujube.Server.Safe.{Served}
use jujube.Server.Safe.Transfer.{Settled, served, over}
use jujube.Server.Loop.Frame.{Spot, Serving, Outcome, ended, serving, InUse-has}

-- The connection of an event that serves.
abbrev pub link_of : World → ℕ → Spot → Memory → Link
link_of w i p base = record {
  event = i;
  fd = (w.events i).fd;
  call_back = (w.events i).call_back;
  jc = p.jc;
  conn = p.conn;
  place = p.place;
  sock = (w.events i).fd;
  base = base;
  before = w;
}

-- The allocator without the stream of the event.
pub base_of :
    {w : World} {i : ℕ} {p : Spot}
    → Serving w i p
    → (m0 : Memory) × Owned m0 (blocks p.stream) w.memory
base_of {w} {i} {p} v =
    let (u, m0, e, f) =
      value
        (free_all-AllFreed w.memory (blocks p.stream) v.owns.inv v.owns.distinct v.owns.in_use) in
    (
      m0,
      record {
        inv = v.owns.inv;
        distinct = v.owns.distinct;
        held = λ a h. InUse-has w.memory (blocks p.stream) a v.owns.in_use h;
        fresh = λ a h. ground (arith, f.rule a, h);
        others = λ a h. ground (arith, f.rule a, h);
      },
    )

module _ {w : World} {i : ℕ} {p : Spot} (v : Serving w i p) (m0 : Memory)
    (o : Owned m0 (blocks p.stream) w.memory) where
  pub Serving-Linked : Linked (link_of w i p m0) p.stream v.xs w
  Serving-Linked = record {
    event = v.event;
    fd = refl;
    call_back = refl;
    conn = v.conn;
    points = v.points;
    stream = v.stream;
    sock = v.sock;
    ready = record { owned = o; out = v.out; room = v.room; open_sock = v.open_sock };
    closed = refl;
    registry = λ r act. (r, act);
    spared = record { events = λ j ne. refl; conns = refl; streams = λ b ne. refl; idle = refl };
  }

  pub Serving-Served : Served (link_of w i p m0) v.xs w
  Serving-Served = record {
    stream = p.stream;
    part = v.part;
    linked = Serving-Linked;
    work = v.work;
    phase = v.phase;
    quiet = v.quiet;
  }

  -- A block that another stream has is not of this stream, before or after.
  Owned-apart :
      {m' : Memory} {l : List Addr} (c : Addr) (xs : List ℕ)
      → Owned m0 l m'
      → has c (blocks p.stream) ≡ false
      → view w.memory c ≡ some xs
      → (has c l ≡ false) × (view m' c ≡ some xs)
  Owned-apart {l = l} c xs o' h e =
      let before : view m0 c ≡ some xs = sym (o.others c h) ∙ e in
      elim (Bool-cases (has c l)) [
        | inl mine ↦ absurd (ground (arith, o'.fresh c mine, before))
        | inr other ↦ (other, o'.others c other ∙ before)
      ]

  pub Ended-Outcome : {w' : World} → Ended (link_of w i p m0) w' → Outcome i p w w'
  Ended-Outcome d =
      ended
        (record {
          inv = d.inv;
          memory = λ c xs h e. d.memory c ∙ (sym (o.others c h) ∙ e);
          events = d.spared.events;
          conns = d.spared.conns;
          streams = d.spared.streams;
          registry = d.registry;
        })
        d.inactive

  pub Settled-Outcome : {w' : World} → Settled (link_of w i p m0) w' → Outcome i p w w'
  Settled-Outcome (over d) = Ended-Outcome d
  Settled-Outcome (served xs r) =
      let l = r.linked in
      serving r.stream
        (record {
          inv = l.ready.owned.inv;
          memory = λ c ys h e. (Owned-apart c ys l.ready.owned h e).1;
          events = l.spared.events;
          conns = l.spared.conns;
          streams = l.spared.streams;
          registry = λ r act. (l.registry r act).0;
        })
        (record {
          event = l.event;
          call_back = l.call_back ∙ v.call_back;
          sock = l.sock ∙ sym l.fd;
          conn = l.conn;
          points = l.points;
          stream = l.stream;
          owns = record {
            inv = l.ready.owned.inv;
            distinct = l.ready.owned.distinct;
            in_use = held-InUse _ l.ready.owned;
          };
          xs = xs;
          out = l.ready.out;
          room = l.ready.room;
          open_sock = l.ready.open_sock;
          part = r.part;
          work = r.work;
          phase = r.phase;
          quiet = r.quiet;
        })
        (λ c ys h e. (Owned-apart c ys l.ready.owned h e).0)
