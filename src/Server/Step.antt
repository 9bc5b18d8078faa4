-- ===== src/Server/Step.antt =====
-- A step of the collection of a message: more is needed, or the message is complete.
use jujube.Base.{
  ℕ, ◌+◌, ◌%◌, ◌^◌, ◌≤◌, ◌<◌, ◌≡◌, ◌∙◌, sym, ap, refl, Bool, true, false, some, List, [], ◌∷◌, ◌++◌,
  length, length-append, take, arith, ◌==◌, eq_of_==, if◌then◌else◌, Bool-cases, inl, inr,
}
use jujube.Base.Int.{pos, eq_ℤ, minus}
use jujube.Base.Run.{ok, Returns, returns, bind}
use jujube.Mem.{Addr, Memory, Malloc, Gives}
use jujube.Mem.Access.{load-ok}
use jujube.Base.Store.{lookup}
use jujube.Buf.Holds.{data_len-length}
use jujube.Buf.Put.{CanTake}
use jujube.Stream.{TcpStream}
use jujube.World.{World}
use jujube.Event.Close.{stream_at_lem}
use jujube.Server.{
  Server, log_max_len, move_data, collect_test, collect_data, work_of, give_work, after_collect,
  collect_step,
}
use jujube.Server.Ready.{HasWork}
use jujube.Server.Collect.{Collected, move_data-Collected}
use jujube.Server.Link.{
  Link, Linked, Ended, SameTally, close_stream-Ended, update_stream-Linked, Returns-lift_world,
}

-- `got` of the `n` bytes of a message have come.
pub record Progress (n : ℕ) (got : List ℕ) (m : Memory) (s : TcpStream) : Type 0 where
  pub work : HasWork m s got
  pub left : s.reply_body_size_left ≡ minus (pos n) (length got)
  pub recved : s.data_recved ≡ length got
  pub content : s.content_len ≡ n

-- The connection goes on with `got`, and nothing has been handed over.
pub record Continues (k : Link) (n : ℕ) (got xs : List ℕ) (sv sv' : Server) : Type 0 where
  pub stream : TcpStream
  pub linked : Linked k stream xs sv'.world
  pub progress : Progress n got sv'.world.memory stream
  pub tally : SameTally sv sv'

-- do_work has been given the message, the request is counted, and the connection has ended.
pub record Completes (k : Link) (msg : List ℕ) (sv sv' : Server) : Type 0 where
  pub ended : Ended k sv'.world
  pub work : sv'.work ≡ msg ∷ sv.work
  pub qps : sv'.qps ≡ (sv.qps + 1) % 2 ^ 64

-- What a step comes to, by whether `got` is all of the `n` bytes.
pub data Result (k : Link) (n : ℕ) (got : List ℕ) (sv : Server) (go : Bool) (sv' : Server)
    : Type 0 where
  more : length got < n → go ≡ true → Continues k n got [] sv sv' → Result k n got sv go sv'
  done : length got ≡ n → go ≡ false → Completes k got sv sv' → Result k n got sv go sv'

-- A message that is not longer than it says fits the work buffer.
fits :
    (m : Memory) (s : TcpStream) (n : ℕ) (got ys : List ℕ) (p : Progress n got m s)
    → length got + length ys ≤ n
    → n ≤ log_max_len
    → CanTake p.work.box.buf (length ys)
fits m s n got ys p le small = inl (omega (arith, data_len-length p.work.holds, p.work.long))

-- The numbers after the bytes `ys` have been moved.
pub Progress-Collected :
    {m0 m m' : Memory} {s s' : TcpStream} (n : ℕ) (got ys : List ℕ)
    → Progress n got m s
    → length got + length ys ≤ n
    → Collected m0 s (got ++ ys) (length ys) s' m'
    → Progress n (got ++ ys) m' s'
Progress-Collected {s = s} n got ys p le c = record {
  work = c.work;
  left = c.left ∙ (ap (λ z. minus z (length ys)) p.left ∙ numbers);
  recved = c.recved ∙ omega (arith, p.recved, length-append got ys);
  content = c.content ∙ p.content;
}
  where
    numbers : minus (minus (pos n) (length got)) (length ys) ≡ minus (pos n) (length (got ++ ys))
    numbers = ground (arith, length-append got ys)

pub collect_test_lem :
    (i : ℕ) (a : Addr) (w : World) (s : TcpStream) (n : ℕ) (got : List ℕ)
    → Progress n got w.memory s
    → length got ≤ n
    → collect_test i a s w ≡ ok (if length got == n then pos 1 else pos 0) w
unfolding collect_test
collect_test_lem i a w s n got p le = elim (Bool-cases (length got == n)) [
  | inl same ↦
      let none_left : eq_ℤ s.reply_body_size_left (pos 0) ≡ true = ground (arith, p.left) in
      let all : (s.data_recved == s.content_len) ≡ true = ground (arith, p.recved, p.content) in
      rw (none_left, all, same) refl
  | inr short ↦
      let some_left : eq_ℤ s.reply_body_size_left (pos 0) ≡ false = ground (arith, p.left) in
      rw (some_left, short) refl
]

-- do_work is given all that has been collected.
pub give_work_lem :
    (a : Addr) (sv : Server) (s : TcpStream) (n : ℕ) (got : List ℕ)
    → lookup a sv.world.streams ≡ some s
    → Progress n got sv.world.memory s
    → give_work a sv ≡ ok tt (record sv { qps = (sv.qps + 1) % 2 ^ 64; work = got ∷ sv.work })
unfolding give_work work_of
give_work_lem a sv s n got found p =
    let h = p.work.holds in
    let size = data_len-length h in
    let bytes : take s.data_recved h.bytes ≡ got =
      ap (λ j. take j h.bytes) (p.recved ∙ sym size) ∙ h.contents in
    rw
      (
        stream_at_lem sv.world a s found,
        p.work.there,
        load-ok sv.world.memory p.work.box.buf.buffer 0 s.data_recved h.block
            (omega (arith, p.recved, size, h.within, h.sized)),
        bytes,
      )
      refl

module _ (os : Malloc) ⦃gives : Gives os⦄ (k : Link) (n : ℕ) (got ys : List ℕ)
    (small : n ≤ log_max_len) (le : length got + length ys ≤ n) where
  collect_data-Linked :
      (w : World) (s : TcpStream)
      → Linked k s ys w
      → Progress n got w.memory s
      → Returns
          (λ ret w'.
            (s' : TcpStream) × Linked k s' [] w'
            × Progress n (got ++ ys) w'.memory s'
            × (ret ≡ (if length (got ++ ys) == n then pos 1 else pos 0)))
          (collect_data os k.event (some k.place) w)
  unfolding collect_data
  collect_data-Linked w s l p =
      bind
        (update_stream-Linked l (move_data os) []
          (move_data-Collected os k.base w.memory s got ys l.ready p.work
            (fits w.memory s n got ys p le small))
          (λ r m c. (c.ready, c.sock)))
        (λ _ w' (s', c, l').
          let p' = Progress-Collected n got ys p le c in
          rw
            (
              stream_at_lem w' k.place s' l'.stream,
              collect_test_lem k.event k.place w' s' n (got ++ ys) p'
                  (omega (arith, length-append got ys)),
            )
            (returns (s', l', p', refl)))

  pub collect_step-Result :
      (sv : Server) (s : TcpStream)
      → Linked k s ys sv.world
      → Progress n got sv.world.memory s
      → Returns (λ go sv'. Result k n (got ++ ys) sv go sv') (collect_step os k.event k.place sv)
  unfolding collect_step after_collect
  collect_step-Result sv s l p =
      bind (Returns-lift_world sv (collect_data-Linked sv.world s l p))
        (λ ret sv' ((s', l', p', e), tally). elim (Bool-cases (length (got ++ ys) == n)) [
          | inl all ↦
              let ret_one : ret ≡ pos 1 = rw e (rw all refl) in
              rw (ret_one, give_work_lem k.place sv' s' n (got ++ ys) l'.stream p')
                (bind
                  (Returns-lift_world
                    (record sv' { qps = (sv'.qps + 1) % 2 ^ 64; work = (got ++ ys) ∷ sv'.work })
                    (close_stream-Ended l'))
                  (λ _ sv2 (end, same). returns (
                    done (eq_of_== _ _ all) refl (record {
                      ended = end;
                      work = same.1 ∙ ap (◌∷◌ (got ++ ys)) tally.1;
                      qps = same.0 ∙ ap (λ q. (q + 1) % 2 ^ 64) tally.0;
                    }))))
          | inr short ↦
              let ret_zero : ret ≡ pos 0 = rw e (rw short refl) in
              rw ret_zero (
                returns (
                  more (ground (arith, length-append got ys)) refl
                    (record { stream = s'; linked = l'; progress = p'; tally = tally })))
        ])
