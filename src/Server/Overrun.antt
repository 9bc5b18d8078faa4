-- ===== src/Server/Overrun.antt =====
-- More bytes than the message has: the steps of data_transfer.
pub mod Deliver
use jujube.Base.{
  ℕ, ◌+◌, ◌≤◌, ◌<◌, ◌≡◌, ◌∙◌, sym, ap, subst, refl, Bool, true, false, ◌||◌, none, some, List, [],
  ◌∷◌, ◌++◌, length, length-drop, take, drop, arith, ltb, ◌==◌, Option, if◌then◌else◌, inl,
}
use jujube.Server.Safe.{Served, overrun, still_quiet, short}
use jujube.Server.Safe.Transfer.{data_transfer-stops}
use jujube.Base.Int.{ℤ, pos, is_neg, eq_ℤ, minus}
use jujube.Base.Words.{le_value}
use jujube.Base.Run.{abort, pure, Returns, returns, bind, mono, and_then_const, value, ◌>>◌}
use jujube.Mem.{Memory, Malloc, Gives}
use jujube.Buf.{buf_data_size}
use jujube.Buf.Holds.{data_len-length}
use jujube.Buf.Put.{CanTake}
use jujube.Stream.{TcpStream, ReadResult, got, mid_http_buf_size}
use jujube.Stream.Feed.{bytes, feed_outcome}
use jujube.World.{World}
use jujube.Event.Close.{stream_at_lem}
use jujube.Event.{set_stream_event_in_out}
use jujube.Server.{
  lift_world, Server, log_max_len, move_data, open_message, collect_data, collect_step,
  collect_test, after_collect, header_step, left_step, is_positive, data_transfer,
}
use jujube.Server.Ready.{Work, idle, busy, HasWork, SameMessage}
use jujube.Server.Collect.{Collected, move_data-Collected}
use jujube.Server.Open.{Opened, open_message-Opened}
use jujube.Server.Header.{no_work}
use jujube.Server.Link.{
  Link, Linked, SameTally, update_stream-Linked, Returns-lift_world, set_stream_event_in_out-Linked,
}
use jujube.Server.Transfer.{read_step-Fed, when_readable}
use jujube.Server.Header.{Fresh, header_bytes}
use jujube.Server.Message.{Piece, deliver, Readable, feed_outcome-piece}

-- The stream waits with more than its message, `data_got` in its work buffer and `xs` in `out_buf`;
-- nothing has been handed over.
pub record Over (k : Link) (data_got xs : List ℕ) (sv sv' : Server) : Type 0 where
  pub stream : TcpStream
  pub linked : Linked k stream xs sv'.world
  pub work : HasWork sv'.world.memory stream data_got
  pub negative : is_neg stream.reply_body_size_left ≡ true
  pub quiet : stream.in_buf.buf.data_len ≡ 0
  pub tally : SameTally sv sv'

pub Over-after :
    {k : Link} {ys xs : List ℕ} {sv sv1 sv2 : Server}
    → SameTally sv sv1
    → Over k ys xs sv1 sv2
    → Over k ys xs sv sv2
Over-after t o = record {
  stream = o.stream;
  linked = o.linked;
  work = o.work;
  negative = o.negative;
  quiet = o.quiet;
  tally = (o.tally.0 ∙ t.0, o.tally.1 ∙ t.1);
}

pub Over-Served :
    {k : Link} {ys xs : List ℕ} {sv sv' : Server} → Over k ys xs sv sv' → Served k xs sv'.world
Over-Served o = record {
  stream = o.stream;
  part = some _;
  linked = o.linked;
  work = busy o.work;
  phase = overrun o.negative;
  quiet = o.quiet;
}

module _ (os : Malloc) ⦃gives : Gives os⦄ (k : Link) (n : ℕ) (ys : List ℕ) (small : n ≤ log_max_len)
    (over : n < length ys) (le : length ys ≤ mid_http_buf_size) where
  record Overran (ret : ℤ) (w : World) : Type 0 where
    zero : ret ≡ pos 0
    stream : TcpStream
    linked : Linked k stream [] w
    work : HasWork w.memory stream ys
    negative : is_neg stream.reply_body_size_left ≡ true
    quiet : stream.in_buf.buf.data_len ≡ 0

  -- All of it goes to the work buffer.
  collect_data-over :
      (w : World) (s : TcpStream)
      → Linked k s ys w
      → HasWork w.memory s []
      → s.reply_body_size_left ≡ pos n
      → s.in_buf.buf.data_len ≡ 0
      → Returns Overran (collect_data os k.event (some k.place) w)
  unfolding collect_data collect_test
  collect_data-over w s l work left quiet =
      let can : CanTake work.box.buf (length ys) =
        ground (arith, data_len-length work.holds, work.long, work.holds.within) in
      bind
        (update_stream-Linked l (move_data os) []
          (move_data-Collected os k.base w.memory s [] ys l.ready work can)
          (λ r m c. (c.ready, c.sock)))
        (λ _ w' (s1, c, l1).
          let negative : is_neg s1.reply_body_size_left ≡ true = ground (arith, c.left, left) in
          let not_zero : eq_ℤ s1.reply_body_size_left (pos 0) ≡ false = ground (arith, negative) in
          rw (stream_at_lem w' k.place s1 l1.stream, not_zero)
            (returns (record {
              zero = refl;
              stream = s1;
              linked = l1;
              work = c.work;
              negative = negative;
              quiet = still_quiet c.in_buf quiet;
            })))

  collect_step-Over :
      (sv : Server) (s : TcpStream)
      → Linked k s ys sv.world
      → HasWork sv.world.memory s []
      → s.reply_body_size_left ≡ pos n
      → s.in_buf.buf.data_len ≡ 0
      → Returns (λ go sv'. (go ≡ true) × Over k ys [] sv sv') (collect_step os k.event k.place sv)
  unfolding collect_step after_collect
  collect_step-Over sv s l work left quiet =
      bind (Returns-lift_world sv (collect_data-over sv.world s l work left quiet))
        (λ ret sv1 (c, t). rw c.zero (
          returns (
            refl,
            record {
              stream = c.stream;
              linked = c.linked;
              work = c.work;
              negative = c.negative;
              quiet = c.quiet;
              tally = t;
            },
          )))

-- The header opens the message, and all that is behind it is collected.
pub header_step-Over :
    (os : Malloc) ⦃gives : Gives os⦄ (k : Link) (sv : Server) (s : TcpStream) (ys : List ℕ)
    → Linked k s ys sv.world
    → s.work_buf ≡ none
    → s.in_buf.buf.data_len ≡ 0
    → 0 < le_value (take 8 ys)
    → le_value (take 8 ys) ≤ log_max_len
    → 8 + le_value (take 8 ys) < length ys
    → Returns
        (λ go sv'. (go ≡ true) × Over k (drop 8 ys) [] sv sv')
        (header_step os k.event k.place s sv)
unfolding header_step buf_data_size is_positive
header_step-Over os k sv s ys l none_yet quiet pos_n small more =
    let n = le_value (take 8 ys) in
    let enough : ltb s.out_buf.buf.data_len 8 ≡ false =
      ground (arith, data_len-length l.ready.out) in
    let in_range : (ltb log_max_len n || n == 0) ≡ false = ground (arith, pos_n, small) in
    let positive : is_positive (pos n) ≡ true = ground (arith, pos_n) in
    let rest = short k s ys sv.world l in
    let len = length-drop 8 ys in
    let le : 8 ≤ length ys = omega (arith, more) in
    rw (enough, header_bytes k s ys sv.world l le, in_range)
      (bind
        (Returns-lift_world sv (
          update_stream-Linked l (open_message os n) (drop 8 ys)
            (open_message-Opened os k.base sv.world.memory s ys n l.ready none_yet le)
            (λ r m opened. (opened.ready, opened.sock))))
        (λ _ sv1 ((s1, opened, l1), t1).
          rw (stream_at_lem sv1.world k.place s1 l1.stream, opened.left, positive)
            (mono
              (collect_step-Over os k n (drop 8 ys) small (omega (arith, len, more))
                (omega (arith, len, rest)) sv1 s1 l1 opened.work opened.left
                (still_quiet opened.in_buf quiet))
              (λ go sv2 (e, o). (e, Over-after t1 o)))))

pub still_has : {m : Memory} {s : TcpStream} {ys : List ℕ} → Work m s (some ys) → HasWork m s ys
still_has (busy w) = w

pub rearm-Over :
    (now : ℕ) (k : Link) (ys xs : List ℕ) (sv : Server) (go : Bool) (sv' : Server)
    → (go ≡ true) × Over k ys xs sv sv'
    → Returns
        (λ _ sv2. Over k ys xs sv sv2)
        ((if go then (λ v. lift_world (set_stream_event_in_out now k.event v.world) v) else pure tt)
          sv')
rearm-Over now k ys xs sv go sv' (e, o) = rw e (
    mono (Returns-lift_world sv' (set_stream_event_in_out-Linked o.linked now))
      (λ _ sv2 ((l, m), t). record {
        stream = o.stream;
        linked = l;
        work = subst (λ x. HasWork x o.stream ys) (sym m) o.work;
        negative = o.negative;
        quiet = o.quiet;
        tally = (t.0 ∙ o.tally.0, t.1 ∙ o.tally.1);
      }))
