-- ===== src/Server/Safe/Sockets.antt =====
-- The steps of data_transfer for a readable and for a writable socket, whatever it does.
use jujube.Base.{ℕ, ◌≡◌, ◌⊎◌, ◌∙◌, sym, ap, subst, refl, true, false, List, [], inl, inr}
use jujube.Base.Int.{pos, is_neg, minus_one}
use jujube.Base.Run.{Returns, returns, bind}
use jujube.Mem.{Malloc, Gives}
use jujube.Buf.{buf_data_size}
use jujube.Buf.Holds.{data_len-length}
use jujube.Stream.{WriteResult, ReadResult}
use jujube.Stream.Flush.{stream_flush_out-nothing}
use jujube.Stream.Feed.{Outcome, closed, failed, bytes, later, feed_outcome, feed_code, got_bytes}
use jujube.World.{World}
use jujube.Event.Close.{stream_at_lem}
use jujube.Server.{Server, feed, flush, end_data, after_read, read_step, write_step}
use jujube.Server.Ready.{Ready, Work, feed_lem, end_data-Kept}
use jujube.Server.Link.{Link, Linked, update_stream-Linked, Returns-lift_world}
use jujube.Server.Lost.{IsLost, lost-nothing, lost-negative, failed_read-Refused}
use jujube.Server.Safe.{Served, Onward, off, Phase-Same, still_quiet}
use jujube.Server.Safe.Steps.{left_step-Onward}

-- What was read gets a zero behind it, and is collected.
after_read-Onward :
    (os : Malloc) ⦃gives : Gives os⦄ (k : Link) (sv : Server) (xs : List ℕ)
    → Served k xs sv.world
    → Returns (λ go sv'. Onward k go sv'.world) (after_read os k.event k.place sv)
unfolding after_read
after_read-Onward os k sv xs v =
    bind
      (Returns-lift_world sv (
        update_stream-Linked v.linked end_data xs
          (end_data-Kept k.base sv.world.memory v.stream v.part xs v.linked.ready v.work)
          (λ r m kept. (kept.ready, kept.same.sock))))
      (λ _ sv1 ((s1, kept, l1), t). rw (stream_at_lem sv1.world k.place s1 l1.stream) (
        left_step-Onward os k sv1 s1 xs l1 (still_quiet kept.same.in_buf v.quiet) v.part kept.work
          (Phase-Same kept.same v.phase)))

-- A read either fails, without a byte, or goes on.
feed_cases : (o : Outcome) → IsLost o ⊎ (is_neg (feed_code o) ≡ false)
feed_cases (bytes xs) = inr refl
feed_cases later = inr refl
feed_cases closed = inl (inl refl)
feed_cases failed = inl (inr refl)

pub read_step-Onward :
    (os : Malloc) ⦃gives : Gives os⦄ (reads : List ReadResult) (k : Link) (sv : Server)
    → Served k [] sv.world
    → Returns (λ go sv'. Onward k go sv'.world) (read_step os reads k.event k.place sv)
unfolding read_step buf_data_size
read_step-Onward os reads k sv v =
    let l = v.linked in
    let s = v.stream in
    let o = feed_outcome reads s in
    let size : s.out_buf.buf.data_len ≡ 0 = data_len-length l.ready.out in
    rw (stream_at_lem sv.world k.place s l.stream, size)
      (bind
        (Returns-lift_world sv (
          update_stream-Linked l (feed reads) (got_bytes o)
            (feed_lem reads k.base sv.world.memory s v.part l.ready v.work)
            (λ r m (kept, code). (kept.ready, kept.same.sock))))
        (λ ret sv1 ((s1, (kept, code), l1), t). elim (feed_cases o) [
          | inl lost ↦
              let negative : is_neg ret ≡ true = ap is_neg code ∙ lost-negative o lost in
              rw negative (
                bind
                  (failed_read-Refused os k sv1 s1
                    (subst (λ x. Linked k s1 x sv1.world) (lost-nothing o lost) l1))
                  (λ go sv2 (stop, r). rw stop (returns (off refl r.ended))))
          | inr fine ↦
              let fine' : is_neg ret ≡ false = ap is_neg code ∙ fine in
              rw fine' (
                after_read-Onward os k sv1 (got_bytes o) (record {
                  stream = s1;
                  part = v.part;
                  linked = l1;
                  work = kept.work;
                  phase = Phase-Same kept.same v.phase;
                  quiet = still_quiet kept.same.in_buf v.quiet;
                }))
        ]))

-- Nothing waits to be sent.
pub write_step-Onward :
    (writes : List WriteResult) (k : Link) (w : World) (xs : List ℕ)
    → Served k xs w
    → Returns (λ go w'. (go ≡ true) × Served k xs w') (write_step writes k.event k.place w)
unfolding write_step flush
write_step-Onward writes k w xs v =
    let l = v.linked in
    let s = v.stream in
    let sent = stream_flush_out-nothing writes s minus_one w.memory v.quiet l.ready.open_sock in
    let run : Returns (λ r m. (r ≡ (s, pos 0)) × (m ≡ w.memory)) (flush writes s w.memory) =
      rw (flush, sent) (returns (refl, refl)) in
    bind
      (update_stream-Linked l (flush writes) xs run (λ r m (e, em).
        let es : r.0 ≡ s = ap (λ x. x.0) e in
        (
          subst (λ x. Ready k.base m x xs) (sym es)
              (subst (λ x. Ready k.base x s xs) (sym em) l.ready),
          ap (λ x. x.server_sock) es,
        )))
      (λ ret w1 (s1, (e, em), l1).
        let fine : is_neg ret ≡ false = ap (λ x. is_neg x.1) e in
        rw fine (
          returns (
            refl,
            record {
              stream = s;
              part = v.part;
              linked = subst (λ x. Linked k x xs w1) (ap (λ x. x.0) e) l1;
              work = subst (λ m. Work m s v.part) (sym em) v.work;
              phase = v.phase;
              quiet = v.quiet;
            },
          )))
