-- ===== src/Client/Loop/Outcome.antt =====
-- What the call of a callback comes to: the connection has ended, or it is served on.
use jujube.Base.{
  ℕ, ◌≡◌, ◌≢◌, ◌⊎◌, ◌∙◌, sym, ap, subst, refl, false, some, List, arith, ◌==◌, has, Distinct,
  Bool-cases, inl, inr,
}
use jujube.Base.Run.{Returns, mono}
use jujube.Base.Store.{lookup, lookup-erase}
use jujube.Mem.{Addr, Memory, view}
use jujube.Mem.Inv.{Inv}
use jujube.Mem.Batch.{InUse}
use jujube.Buf.Holds.{Holds}
use jujube.Stream.{TcpStream}
use jujube.Stream.Free.{blocks}
use jujube.World.{World, Jconnect, connect_cb, data_transfer}
use jujube.Event.Close.{Owns, Attached}
use jujube.Client.{release_stream_from_connect, bad_connect}
use jujube.Client.After.{InUse-mono}
use jujube.Client.Release.{Dropped, release_stream_from_connect-Dropped}
use jujube.Client.Loop.Frame.{Serving, Frame, Frame-trans}

pub data Outcome (i jc : Addr) (s : TcpStream) (w w' : World) : Type 0 where
  ended : Frame i jc s w w' → ((w'.events i).status == 1) ≡ false → Outcome i jc s w w'
  serving :
      (c' : Jconnect) (s' : TcpStream)
      → Frame i jc s w w'
      → Serving w' i jc c' s'
      → s'.self ≡ s.self
      → blocks s' ≡ blocks s
      → Outcome i jc s w w'

-- The same stream, as far as its blocks are concerned.
pub Frame-same :
    {i jc : Addr} {s s' : TcpStream} {w w' : World}
    → s'.self ≡ s.self
    → blocks s' ≡ blocks s
    → Frame i jc s' w w'
    → Frame i jc s w w'
Frame-same e eb f = record {
  inv = f.inv;
  memory = λ c h. f.memory c (ap (has c) eb ∙ h);
  events = f.events;
  conns = f.conns;
  streams = λ b ne. f.streams b (λ q. ne (sym e ∙ q));
  idle = f.idle;
}

pub Outcome-trans :
    {i jc : Addr} {s s1 : TcpStream} {w w1 w' : World}
    → Frame i jc s w w1
    → s1.self ≡ s.self
    → blocks s1 ≡ blocks s
    → Outcome i jc s1 w1 w'
    → Outcome i jc s w w'
Outcome-trans f e eb (ended g over) = ended (Frame-trans f (Frame-same e eb g)) over
Outcome-trans f e eb (serving c' s' g p e' eb') =
    serving c' s' (Frame-trans f (Frame-same e eb g)) p (e' ∙ e) (eb' ∙ eb)

Dropped-Frame :
    {w w' : World} {i jc : Addr} {c : Jconnect} {s : TcpStream}
    → Dropped w i jc c s.self s w'
    → Frame i jc s w w'
Dropped-Frame {w} {w'} {s = s} d = record {
  inv = d.memory.inv;
  memory = λ c h. ground (arith, d.memory.rule c, h);
  events = d.events;
  conns = d.others;
  streams = λ b ne. ap (lookup b) d.streams ∙ ground (arith, lookup-erase s.self b w.streams);
  idle = d.idle;
}

-- The connection is given up.
pub release-Outcome :
    (now : ℕ) (w : World) (i jc : Addr) (c : Jconnect) (s : TcpStream)
    → Attached w i jc c s.self s
    → Returns (λ _ w'. Outcome i jc s w w') (release_stream_from_connect now i bad_connect w)
release-Outcome now w i jc c s h =
    mono (release_stream_from_connect-Dropped now w i jc c s.self s h)
      (λ _ w' d. ended (Dropped-Frame d) d.inactive)

-- One block of a stream is written.
pub Owns-write :
    (m m' : Memory) (s s' : TcpStream) (b : Addr) (zs : List ℕ)
    → Owns m s
    → Inv m'
    → blocks s' ≡ blocks s
    → view m' b ≡ some zs
    → ((c : Addr) → b ≢ c → view m' c ≡ view m c)
    → Owns m' s'
Owns-write m m' s s' b zs o v eb e others = record {
  inv = v;
  distinct = subst Distinct (sym eb) o.distinct;
  in_use = subst (InUse m') (sym eb) (InUse-mono m m' (blocks s) stays o.in_use);
}
  where
    stays : (c : Addr) (ys : List ℕ) → view m c ≡ some ys → (xs : List ℕ) × (view m' c ≡ some xs)
    stays c ys f = elim (Bool-cases (b == c)) [
      | inl same ↦ (zs, ap (view m') (ground arith) ∙ e)
      | inr other ↦ (ys, others c (λ q. ground arith) ∙ f)
    ]

-- Only the event has changed, and it waits for the same connection.
pub rearmed-Outcome :
    {w w' : World} {i jc : Addr} {c : Jconnect} {s : TcpStream}
    → Serving w i jc c s
    → w'.memory ≡ w.memory
    → w'.conns ≡ w.conns
    → w'.streams ≡ w.streams
    → w'.idle ≡ w.idle
    → ((k : ℕ) → i ≢ k → w'.events k ≡ w.events k)
    → (w'.events i).jc ≡ (w.events i).jc
    → (w'.events i).fd ≡ (w.events i).fd
    → ((w'.events i).call_back ≡ connect_cb) ⊎ ((w'.events i).call_back ≡ data_transfer)
    → Outcome i jc s w w'
rearmed-Outcome {w} {w'} {i} {jc} {c} {s} p em ec es eid eev ej efd cb =
    let owns : Owns w'.memory s = subst (λ m. Owns m s) (sym em) p.attached.owns in
    serving c s
      (record {
        inv = owns.inv;
        memory = λ a h. ap (λ m. view m a) em;
        events = eev;
        conns = λ b ne. ap (lookup b) ec;
        streams = λ b ne. ap (lookup b) es;
        idle = eid;
      })
      (record {
        attached = record {
          event = ej ∙ p.attached.event;
          conn = ap (lookup jc) ec ∙ p.attached.conn;
          points = p.attached.points;
          stream = ap (lookup s.self) es ∙ p.attached.stream;
          owns = owns;
        };
        open_sock = p.open_sock;
        sock = p.sock ∙ sym efd;
        call_back = cb;
        in_data = p.in_data;
        in_holds = subst (λ m. Holds m s.in_buf.buf p.in_data) (sym em) p.in_holds;
        out_data = p.out_data;
        out_holds = subst (λ m. Holds m s.out_buf.buf p.out_data) (sym em) p.out_holds;
      })
      refl refl
