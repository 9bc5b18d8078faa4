-- ===== src/Server/Safe/Transfer.antt =====
-- data_transfer, whatever the socket does.
use jujube.Base.{
  Bool-cases, inl, inr, not, ◌||◌, ◌∷◌, arith, ◌<◌, ◌∙◌, length, ◌==◌, if◌then◌else◌, ◌≡◌, sym,
  subst, ℕ, refl, Bool, true, false, List, [],
}
use jujube.Base.Int.{eq_ℤ_refl}
use jujube.Base.Run.{
  Ends, goes, stops, Cmd, abort, and_then_const, ◌>>=◌, ◌>>◌, Returns, returns, bind, mono, pure,
}
use jujube.Buf.{buf_data_size}
use jujube.Buf.Holds.{data_len-length}
use jujube.Mem.{Addr, Malloc, Gives}
use jujube.Stream.{WriteResult, ReadResult}
use jujube.Event.{set_stream_event_in_out}
use jujube.Event.Close.{stream_at_lem}
use jujube.Client.{stream_in, check_sock}
use jujube.Server.{Server, lift_world, in_world, read_step, data_transfer}
use jujube.Server.Ready.{Work}
use jujube.World.{World, stream_at}
use jujube.Server.Link.{
  Link, Ended, close_stream-Ended, set_stream_event_in_out-Linked, Returns-lift_world,
}
use jujube.Server.Transfer.{stream_in_lem}
use jujube.Server.Safe.{Served, Onward, on, off}
use jujube.Server.Safe.Sockets.{read_step-Onward, write_step-Onward}

-- The connection is served on, or it has ended.
pub data Settled (k : Link) (w : World) : Type 0 where
  served : (xs : List ℕ) → Served k xs w → Settled k w
  over : Ended k w → Settled k w

-- The end of data_transfer.
rearm-Settled :
    (now : ℕ) (k : Link) (go : Bool) (sv : Server)
    → Onward k go sv.world
    → Returns
        (λ _ sv'. Settled k sv'.world)
        ((if go then (λ v. lift_world (set_stream_event_in_out now k.event v.world) v) else pure tt)
          sv)
rearm-Settled now k go sv (off e end) = rw e (returns (over end))
rearm-Settled now k go sv (on xs e r) = rw e (
    mono (Returns-lift_world sv (set_stream_event_in_out-Linked r.linked now)) (λ _ sv' ((l, m), t).
      served xs (record {
        stream = r.stream;
        part = r.part;
        linked = l;
        work = subst (λ x. Work x r.stream r.part) (sym m) r.work;
        phase = r.phase;
        quiet = r.quiet;
      })))

-- The way from the event to the stream, and the assertion on its socket.
entered :
    (f : Addr → Cmd Server (Unit {0})) (k : Link) (xs : List ℕ) (sv : Server)
    → Served k xs sv.world
    → (do
      a ← in_world (stream_in k.event)
      s ← in_world (stream_at a)
      in_world (check_sock k.sock s)
      f a)
        sv
      ≡ f k.place sv
unfolding check_sock
entered f k xs sv v =
    let l = v.linked in
    rw
      (
        stream_in_lem k v.stream xs sv.world l,
        stream_at_lem sv.world k.place v.stream l.stream,
        l.sock,
        eq_ℤ_refl k.sock,
      )
      refl

module _ (os : Malloc) ⦃gives : Gives os⦄ (now : ℕ) (writes : List WriteResult)
    (reads : List ReadResult) (k : Link) where
  pub data_transfer-Settled :
      (read_event write_event : Bool) (sv : Server) (xs : List ℕ)
      → Served k xs sv.world
      → (read_event ≡ true → xs ≡ [])
      → Returns
          (λ _ sv'. Settled k sv'.world)
          (data_transfer os now writes reads k.sock read_event write_event k.event sv)
  unfolding data_transfer
  data_transfer-Settled false false sv xs v empty =
      subst (Returns _) (sym (entered _ k xs sv v))
        (mono (Returns-lift_world sv (close_stream-Ended v.linked)) (λ _ sv' (end, t). over end))
  data_transfer-Settled true false sv xs v empty = subst (Returns _) (sym (entered _ k xs sv v)) (
      bind (read_step-Onward os reads k sv (subst (λ x. Served k x sv.world) (empty refl) v))
        (λ go sv1 o. rearm-Settled now k go sv1 o))
  data_transfer-Settled false true sv xs v empty = subst (Returns _) (sym (entered _ k xs sv v)) (
      bind (Returns-lift_world sv (write_step-Onward writes k sv.world xs v))
        (λ go sv1 ((e, v1), t). rw e (rearm-Settled now k true sv1 (on xs refl v1))))
  data_transfer-Settled true true sv xs v empty = subst (Returns _) (sym (entered _ k xs sv v)) (
      bind (Returns-lift_world sv (write_step-Onward writes k sv.world xs v))
        (λ go sv1 ((e, v1), t). rw e (
          bind (read_step-Onward os reads k sv1 (subst (λ x. Served k x sv1.world) (empty refl) v1))
            (λ go sv2 o. rearm-Settled now k go sv2 o))))

-- With bytes left in `out_buf`, a readable socket fails the assertion.
read_step-stops :
    (os : Malloc) ⦃gives : Gives os⦄ (reads : List ReadResult) (k : Link) (xs : List ℕ)
    (sv : Server)
    → Served k xs sv.world
    → 0 < length xs
    → read_step os reads k.event k.place sv ≡ abort
unfolding read_step buf_data_size
read_step-stops os reads k xs sv v some_bytes =
    let l = v.linked in
    let left : (v.stream.out_buf.buf.data_len == 0) ≡ false =
      ground (arith, data_len-length l.ready.out) in
    rw (stream_at_lem sv.world k.place v.stream l.stream, left) refl

pub data_transfer-stops :
    (os : Malloc) ⦃gives : Gives os⦄ (now : ℕ) (writes : List WriteResult) (reads : List ReadResult)
    (k : Link) (write_event : Bool) (xs : List ℕ) (sv : Server)
    → Served k xs sv.world
    → 0 < length xs
    → data_transfer os now writes reads k.sock true write_event k.event sv ≡ abort
unfolding data_transfer
data_transfer-stops os now writes reads k false xs sv v some_bytes =
    entered _ k xs sv v ∙ (rw (read_step-stops os reads k xs sv v some_bytes) refl)
data_transfer-stops os now writes reads k true xs sv v some_bytes =
    entered _ k xs sv v
    ∙ and_then_const (Returns-lift_world sv (write_step-Onward writes k sv.world xs v))
        (λ go sv1 ((e, v1), t). rw (e, read_step-stops os reads k xs sv1 v1 some_bytes) refl)

length-nil : (xs : List ℕ) → (length xs == 0) ≡ true → xs ≡ []
length-nil [] e = refl
length-nil (x ∷ xs) e = absurd (ground arith)

-- On a connection that is served, with `xs` in its `out_buf`, at any point of a message, whatever
-- events are reported and whatever the reads and writes come to: data_transfer returns with a
-- connection that is served on, or that has ended with all its blocks freed and its descriptor
-- closed once, and no other event, connection or stream has changed; but a readable event with
-- bytes in `out_buf` fails the assertion. malloc(3) is taken not to fail (`Gives`).
pub data_transfer-Ends :
    (os : Malloc) ⦃gives : Gives os⦄ (now : ℕ) (writes : List WriteResult) (reads : List ReadResult)
    (k : Link) (read_event write_event : Bool) (sv : Server) (xs : List ℕ)
    → Served k xs sv.world
    → Ends
        (not read_event || length xs == 0)
        (λ _ sv'. Settled k sv'.world)
        (data_transfer os now writes reads k.sock read_event write_event k.event sv)
data_transfer-Ends os now writes reads k false write_event sv xs v = goes refl (
    data_transfer-Settled os now writes reads k false write_event sv xs v
      (λ e. absurd (ground (arith, e))))
data_transfer-Ends os now writes reads k true write_event sv xs v =
    elim (Bool-cases (length xs == 0)) [
      | inl none_left ↦ goes (ground arith) (
          data_transfer-Settled os now writes reads k true write_event sv xs v
            (λ e. length-nil xs none_left))
      | inr some_left ↦ stops (ground arith) (
          data_transfer-stops os now writes reads k write_event xs sv v (ground (arith, some_left)))
    ]
