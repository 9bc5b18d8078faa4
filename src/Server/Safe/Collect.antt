-- ===== src/Server/Safe/Collect.antt =====
-- The steps of data_transfer that collect, whatever has come.
use jujube.Base.{
  ℕ, ◌+◌, ◌%◌, ◌^◌, ◌≤◌, ◌<◌, ◌≡◌, refl, true, false, some, List, [], ◌∷◌, ◌++◌, length,
  length-append, arith, ltb, ◌==◌, Bool-cases, inl, inr,
}
use jujube.Base.Int.{ℤ, pos, is_neg, eq_ℤ}
use jujube.Base.Run.{Returns, returns, bind}
use jujube.Mem.{Memory, Malloc, Gives}
use jujube.Buf.Holds.{data_len-length}
use jujube.Buf.Put.{CanTake}
use jujube.Stream.{TcpStream, mid_http_buf_size}
use jujube.World.{World}
use jujube.Event.Close.{stream_at_lem}
use jujube.Server.{
  Server, log_max_len, move_data, collect_data, collect_step, collect_test, after_collect,
}
use jujube.Server.Ready.{busy}
use jujube.Server.Collect.{Collected, move_data-Collected}
use jujube.Server.Link.{Link, Linked, close_stream-Ended, update_stream-Linked, Returns-lift_world}
use jujube.Server.Step.{Progress, Progress-Collected, collect_test_lem, give_work_lem}
use jujube.Server.Safe.{collecting, overrun, Served, Onward, on, off, still_quiet}

-- The work buffer takes one buffer more, in a larger block if need be.
can_take :
    (m : Memory) (s : TcpStream) (n : ℕ) (got ys : List ℕ) (p : Progress n got m s)
    → length got < n
    → n ≤ log_max_len
    → length ys ≤ mid_http_buf_size
    → CanTake p.work.box.buf (length ys)
can_take m s n got ys p lt small le =
    ground (arith, data_len-length p.work.holds, p.work.long, p.work.holds.within)

module _ (os : Malloc) ⦃gives : Gives os⦄ (k : Link) (n : ℕ) (got ys : List ℕ)
    (small : n ≤ log_max_len) (lt : length got < n) (le : length ys ≤ mid_http_buf_size) where
  -- What collect_data comes to.
  data Collects (ret : ℤ) (w : World) : Type 0 where
    all :
        (s : TcpStream)
        → ret ≡ pos 1
        → Linked k s [] w
        → Progress n (got ++ ys) w.memory s
        → Collects ret w
    less : ret ≡ pos 0 → Served k [] w → Collects ret w

  -- More has come than the message has.
  over-Collects :
      (w : World) (s s1 : TcpStream) (m : Memory)
      → Progress n got m s
      → s.in_buf.buf.data_len ≡ 0
      → Collected k.base s (got ++ ys) (length ys) s1 w.memory
      → Linked k s1 [] w
      → n < length got + length ys
      → Returns Collects (collect_test k.event k.place s1 w)
  unfolding collect_test
  over-Collects w s s1 m p quiet c l over =
      let negative : is_neg s1.reply_body_size_left ≡ true = ground (arith, c.left, p.left) in
      let not_zero : eq_ℤ s1.reply_body_size_left (pos 0) ≡ false = ground (arith, negative) in
      rw not_zero (
        returns (
          less refl (record {
            stream = s1;
            part = some (got ++ ys);
            linked = l;
            work = busy c.work;
            phase = overrun negative;
            quiet = still_quiet c.in_buf quiet;
          })))

  -- A part of the message, or all of it.
  within-Collects :
      (w : World) (s s1 : TcpStream) (m : Memory)
      → Progress n got m s
      → s.in_buf.buf.data_len ≡ 0
      → Collected k.base s (got ++ ys) (length ys) s1 w.memory
      → Linked k s1 [] w
      → length got + length ys ≤ n
      → Returns Collects (collect_test k.event k.place s1 w)
  within-Collects w s s1 m p quiet c l within =
      let p' = Progress-Collected n got ys p within c in
      let size = length-append got ys in
      let have : length (got ++ ys) ≤ n = omega (arith, size) in
      rw (collect_test_lem k.event k.place w s1 n (got ++ ys) p' have)
        (elim (Bool-cases (length (got ++ ys) == n)) [
          | inl whole ↦ rw whole (returns (all s1 refl l p'))
          | inr part ↦ rw part (
              returns (
                less refl (record {
                  stream = s1;
                  part = some (got ++ ys);
                  linked = l;
                  work = busy c.work;
                  phase = collecting n small (ground arith) p'.left p'.recved p'.content;
                  quiet = still_quiet c.in_buf quiet;
                })))
        ])

  collect_data-Collects :
      (w : World) (s : TcpStream)
      → Linked k s ys w
      → Progress n got w.memory s
      → s.in_buf.buf.data_len ≡ 0
      → Returns Collects (collect_data os k.event (some k.place) w)
  unfolding collect_data
  collect_data-Collects w s l p quiet =
      bind
        (update_stream-Linked l (move_data os) []
          (move_data-Collected os k.base w.memory s got ys l.ready p.work
            (can_take w.memory s n got ys p lt small le))
          (λ r m c. (c.ready, c.sock)))
        (λ _ w' (s1, c, l1).
          rw (stream_at_lem w' k.place s1 l1.stream)
            (elim (Bool-cases (ltb n (length got + length ys))) [
              | inl over ↦ over-Collects w' s s1 w.memory p quiet c l1 (ground arith)
              | inr within ↦ within-Collects w' s s1 w.memory p quiet c l1 (ground arith)
            ]))

  pub collect_step-Onward :
      (sv : Server) (s : TcpStream)
      → Linked k s ys sv.world
      → Progress n got sv.world.memory s
      → s.in_buf.buf.data_len ≡ 0
      → Returns (λ go sv'. Onward k go sv'.world) (collect_step os k.event k.place sv)
  unfolding collect_step after_collect
  collect_step-Onward sv s l p quiet =
      bind (Returns-lift_world sv (collect_data-Collects sv.world s l p quiet)) (λ ret sv1 (c, t).
        elim c [
          | all s1 e l1 p1 ↦
              rw (e, give_work_lem k.place sv1 s1 n (got ++ ys) l1.stream p1)
                (bind
                  (Returns-lift_world
                    (record sv1 { qps = (sv1.qps + 1) % 2 ^ 64; work = (got ++ ys) ∷ sv1.work })
                    (close_stream-Ended l1))
                  (λ _ sv2 (end, _). returns (off refl end)))
          | less e served ↦ rw e (returns (on [] refl served))
        ])
