-- ===== src/Server/Transfer.antt =====
-- data_transfer on a socket that has bytes to read.
use jujube.Base.{
  ℕ, ◌+◌, ◌%◌, ◌^◌, ◌≤◌, ◌<◌, ◌≡◌, ◌∙◌, sym, ap, subst, refl, Bool, true, false, Option, some, List,
  [], ◌∷◌, ◌++◌, length, arith, if◌then◌else◌,
}
use jujube.Base.Int.{eq_ℤ_refl}
use jujube.Base.Run.{ok, pure, Returns, returns, bind, mono}
use jujube.Mem.{Memory, Malloc, Gives}
use jujube.Buf.{buf_data_size}
use jujube.Buf.Holds.{data_len-length}
use jujube.Stream.{TcpStream, WriteResult, ReadResult}
use jujube.Stream.Feed.{bytes, feed_outcome}
use jujube.World.{World}
use jujube.Event.{set_stream_event_in_out}
use jujube.Event.Close.{conn_at_lem, stream_at_lem}
use jujube.Client.{not_null, stream_in, check_sock}
use jujube.Server.{
  Server, lift_world, log_max_len, feed, end_data, after_read, read_step, left_step, is_positive,
  data_transfer,
}
use jujube.Server.Ready.{Work, busy, SameMessage, feed-Kept, end_data-Kept}
use jujube.Server.Link.{
  Link, Linked, SameTally, update_stream-Linked, Returns-lift_world, set_stream_event_in_out-Linked,
}
use jujube.Server.Step.{Progress, Continues, Completes, Result, more, done, collect_step-Result}

Same-trans : {s s' s'' : TcpStream} → SameMessage s s' → SameMessage s' s'' → SameMessage s s''
Same-trans p q = record {
  sock = q.sock ∙ p.sock;
  left = q.left ∙ p.left;
  recved = q.recved ∙ p.recved;
  content = q.content ∙ p.content;
  in_buf = q.in_buf ∙ p.in_buf;
}

module _ (os : Malloc) ⦃gives : Gives os⦄ (k : Link) (sv : Server) (s : TcpStream)
    (reads : List ReadResult) (ys : List ℕ) (o : Option (List ℕ)) (l : Linked k s [] sv.world)
    (work : Work sv.world.memory s o) (e : feed_outcome reads s ≡ bytes ys)
    {P : Bool → Server → Type 0}
    (next : (s' : TcpStream) (sv' : Server)
      → Linked k s' ys sv'.world
      → Work sv'.world.memory s' o
      → SameMessage s s'
      → SameTally sv sv'
      → Returns P (left_step os k.event k.place s' sv')) where
  -- What was read has a zero behind it.
  after_read-Fed :
      (s1 : TcpStream) (sv1 : Server)
      → Linked k s1 ys sv1.world
      → Work sv1.world.memory s1 o
      → SameMessage s s1
      → SameTally sv sv1
      → Returns P (after_read os k.event k.place sv1)
  unfolding after_read
  after_read-Fed s1 sv1 l1 w1 m1 t1 =
      bind
        (Returns-lift_world sv1 (
          update_stream-Linked l1 end_data ys
            (end_data-Kept k.base sv1.world.memory s1 o ys l1.ready w1)
            (λ r m kept. (kept.ready, kept.same.sock))))
        (λ _ sv2 ((s2, kept, l2), t2).
          rw (stream_at_lem sv2.world k.place s2 l2.stream)
            (next s2 sv2 l2 kept.work (Same-trans m1 kept.same) (t2.0 ∙ t1.0, t2.1 ∙ t1.1)))

  -- A read that gets the bytes `ys`.
  pub read_step-Fed : Returns P (read_step os reads k.event k.place sv)
  unfolding read_step buf_data_size
  read_step-Fed =
      let size : s.out_buf.buf.data_len ≡ 0 = data_len-length l.ready.out in
      rw (stream_at_lem sv.world k.place s l.stream, size)
        (bind
          (Returns-lift_world sv (
            update_stream-Linked l (feed reads) ys
              (feed-Kept reads k.base sv.world.memory s o ys l.ready work e)
              (λ r m (kept, fine). (kept.ready, kept.same.sock))))
          (λ ret sv1 ((s1, (kept, fine), l1), t1).
            rw fine (after_read-Fed s1 sv1 l1 kept.work kept.same t1)))

-- What a call of data_transfer comes to, by whether `got` is all of the `n` bytes.
pub data After (k : Link) (n : ℕ) (got : List ℕ) (sv sv' : Server) : Type 0 where
  unfinished : length got < n → Continues k n got [] sv sv' → After k n got sv sv'
  finished : length got ≡ n → Completes k got sv sv' → After k n got sv sv'

pub stream_in_lem :
    (k : Link) (s : TcpStream) (xs : List ℕ) (w : World)
    → Linked k s xs w
    → stream_in k.event w ≡ ok k.place w
unfolding stream_in not_null
stream_in_lem k s xs w l = rw (l.event, not_null, conn_at_lem w k.jc k.conn l.conn, l.points) refl

-- data_transfer, from its part for a readable socket.
pub when_readable :
    {P : Bool → Server → Type 0} {Q : Unit {0} → Server → Type 0} (os : Malloc) ⦃gives : Gives os⦄
    (now : ℕ) (writes : List WriteResult) (reads : List ReadResult) (k : Link) (sv : Server)
    (s : TcpStream) (xs : List ℕ)
    → Linked k s xs sv.world
    → Returns P (read_step os reads k.event k.place sv)
    → ((go : Bool) (sv' : Server)
        → P go sv'
        → Returns Q (
            (if go
                then (λ v. lift_world (set_stream_event_in_out now k.event v.world) v)
                else pure tt)
              sv'))
    → Returns Q (data_transfer os now writes reads k.sock true false k.event sv)
unfolding data_transfer check_sock
when_readable os now writes reads k sv s xs l run next =
    rw
      (
        stream_in_lem k s xs sv.world l,
        stream_at_lem sv.world k.place s l.stream,
        l.sock,
        eq_ℤ_refl k.sock,
      )
      (bind run next)

-- The end of data_transfer.
rearm :
    (k : Link) (n now : ℕ) (got : List ℕ) (sv : Server) (go : Bool) (sv' : Server)
    → Result k n got sv go sv'
    → Returns
        (λ _ sv'. After k n got sv sv')
        ((if go then (λ v. lift_world (set_stream_event_in_out now k.event v.world) v) else pure tt)
          sv')
rearm k n now got sv go sv' (more lt e c) = rw e (
    mono (Returns-lift_world sv' (set_stream_event_in_out-Linked c.linked now))
      (λ _ sv2 ((l, m), t). unfinished lt (record {
        stream = c.stream;
        linked = l;
        progress = subst (λ x. Progress n got x c.stream) (sym m) c.progress;
        tally = (t.0 ∙ c.tally.0, t.1 ∙ c.tally.1);
      })))
rearm k n now got sv go sv' (done all e c) = rw e (returns (finished all c))

Progress-Same :
    {m m' : Memory} {n : ℕ} {got : List ℕ} {s s' : TcpStream}
    → Progress n got m s
    → SameMessage s s'
    → Work m' s' (some got)
    → Progress n got m' s'
Progress-Same p q (busy w) = record {
  work = w;
  left = q.left ∙ p.left;
  recved = q.recved ∙ p.recved;
  content = q.content ∙ p.content;
}

-- The tally of a step after other steps.
pub Result-after :
    {k : Link} {n : ℕ} {got : List ℕ} {sv sv1 : Server} (go : Bool) (sv2 : Server)
    → SameTally sv sv1
    → Result k n got sv1 go sv2
    → Result k n got sv go sv2
Result-after go sv2 t (more lt e c) = more lt e (record {
  stream = c.stream;
  linked = c.linked;
  progress = c.progress;
  tally = (c.tally.0 ∙ t.0, c.tally.1 ∙ t.1);
})
Result-after {got = got} go sv2 t (done all e c) = done all e (record {
  ended = c.ended;
  work = c.work ∙ ap (◌∷◌ got) t.1;
  qps = c.qps ∙ ap (λ q. (q + 1) % 2 ^ 64) t.0;
})

module _ (os : Malloc) ⦃gives : Gives os⦄ (now : ℕ) (writes : List WriteResult)
    (reads : List ReadResult) (k : Link) (n : ℕ) (sv : Server) (ys : List ℕ)
    (small : n ≤ log_max_len) where
  pub readable :
      (s : TcpStream) (got : List ℕ)
      → Linked k s [] sv.world
      → Returns (λ go sv'. Result k n got sv go sv') (read_step os reads k.event k.place sv)
      → Returns
          (λ _ sv'. After k n got sv sv')
          (data_transfer os now writes reads k.sock true false k.event sv)
  readable s got l run =
      when_readable os now writes reads k sv s [] l run (λ go sv' r. rearm k n now got sv go sv' r)

  -- More of a message that is being collected.
  pub data_transfer-body :
      (got : List ℕ)
      (c : (s : TcpStream) × Linked k s [] sv.world × Progress n got sv.world.memory s)
      → length got < n
      → length got + length ys ≤ n
      → feed_outcome reads c.0 ≡ bytes ys
      → Returns
          (λ _ sv'. After k n (got ++ ys) sv sv')
          (data_transfer os now writes reads k.sock true false k.event sv)
  unfolding left_step is_positive
  data_transfer-body got (s, l, p) lt le e = readable s (got ++ ys) l (
      read_step-Fed os k sv s reads ys (some got) l (busy p.work) e (λ s' sv' l' w' q t.
        let p' = Progress-Same p q w' in
        let some_left : is_positive s'.reply_body_size_left ≡ true = ground (arith, p'.left) in
        rw some_left (
          mono (collect_step-Result os k n got ys small le sv' s' l' p')
            (λ go sv2 r. Result-after go sv2 t r))))
