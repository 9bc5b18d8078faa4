-- ===== src/Server/Overrun/Deliver.antt =====
-- More bytes than the message has: what the event loop's calls come to.
use jujube.Base.{
  ℕ, ◌+◌, ◌≤◌, ◌<◌, ◌≡◌, ◌∙◌, ap, refl, true, false, none, some, List, [], ◌∷◌, length, take, drop,
  arith,
}
use jujube.Server.Safe.{still_quiet}
use jujube.Server.Safe.Transfer.{data_transfer-stops}
use jujube.Base.Int.{pos, is_neg, eq_ℤ}
use jujube.Base.Words.{le_value}
use jujube.Base.Run.{abort, Returns, returns, bind, mono, and_then_const}
use jujube.Mem.{Malloc, Gives}
use jujube.Stream.{TcpStream, got, mid_http_buf_size}
use jujube.Server.{Server, log_max_len, left_step, is_positive, data_transfer}
use jujube.Server.Ready.{idle, busy}
use jujube.Server.Header.{no_work}
use jujube.Server.Link.{Link, Linked, SameTally}
use jujube.Server.Transfer.{read_step-Fed, when_readable}
use jujube.Server.Header.{Fresh}
use jujube.Server.Message.{Piece, deliver, Readable, feed_outcome-piece}
use jujube.Server.Overrun.{Over, Over-after, Over-Served, header_step-Over, rearm-Over, still_has}

module _ (os : Malloc) ⦃gives : Gives os⦄ (k : Link) (sv : Server) where
  -- The piece that has more than the message.
  data_transfer-Over :
      (s : TcpStream) (p : Piece)
      → Linked k s [] sv.world
      → Fresh s
      → s.in_buf.buf.data_len ≡ 0
      → 0 < le_value (take 8 p.bytes)
      → le_value (take 8 p.bytes) ≤ log_max_len
      → 8 + le_value (take 8 p.bytes) < length p.bytes
      → length p.bytes ≤ mid_http_buf_size
      → Returns
          (λ _ sv'. Over k (drop 8 p.bytes) [] sv sv')
          (data_transfer os p.now [] (got p.bytes ∷ []) k.sock true false k.event sv)
  unfolding left_step is_positive
  data_transfer-Over s p l f quiet pos_n small more le =
      when_readable os p.now [] (got p.bytes ∷ []) k sv s [] l
        (read_step-Fed os k sv s (got p.bytes ∷ []) p.bytes none l (idle f.work)
          (feed_outcome-piece k s sv.world p.bytes l (omega (arith, more)) le)
          (λ s' sv' l' w' q t.
            let zero_left : s'.reply_body_size_left ≡ pos 0 = q.left ∙ f.left in
            let not_positive : is_positive s'.reply_body_size_left ≡ false =
              ap is_positive zero_left in
            let is_zero : eq_ℤ s'.reply_body_size_left (pos 0) ≡ true = ground (arith, zero_left) in
            rw (not_positive, is_zero)
              (mono
                (header_step-Over os k sv' s' p.bytes l' (no_work w') (still_quiet q.in_buf quiet)
                  pos_n small more)
                (λ go sv2 (e, o). (e, Over-after t o)))))
        (rearm-Over p.now k (drop 8 p.bytes) [] sv)

  -- The piece after it stays in `out_buf`.
  data_transfer-Stays :
      (sv0 : Server) (ys : List ℕ) (q : Piece)
      → Over k ys [] sv0 sv
      → 0 < length q.bytes
      → length q.bytes ≤ mid_http_buf_size
      → Returns
          (λ _ sv'. Over k ys q.bytes sv0 sv')
          (data_transfer os q.now [] (got q.bytes ∷ []) k.sock true false k.event sv)
  unfolding left_step is_positive
  data_transfer-Stays sv0 ys q o pos_q le =
      when_readable os q.now [] (got q.bytes ∷ []) k sv o.stream [] o.linked
        (read_step-Fed os k sv o.stream (got q.bytes ∷ []) q.bytes (some ys) o.linked (busy o.work)
          (feed_outcome-piece k o.stream sv.world q.bytes o.linked pos_q le)
          (λ s' sv' l' w' same t.
            let negative : is_neg s'.reply_body_size_left ≡ true =
              ap is_neg same.left ∙ o.negative in
            let not_positive : is_positive s'.reply_body_size_left ≡ false =
              ground (arith, negative) in
            let not_zero : eq_ℤ s'.reply_body_size_left (pos 0) ≡ false =
              ground (arith, negative) in
            rw (not_positive, not_zero)
              (returns (
                refl,
                record {
                  stream = s';
                  linked = l';
                  work = still_has w';
                  negative = negative;
                  quiet = still_quiet same.in_buf o.quiet;
                  tally = (t.0 ∙ o.tally.0, t.1 ∙ o.tally.1);
                },
              ))))
        (rearm-Over q.now k ys q.bytes sv0)

-- On a connection whose event leads to a stream that is ready and on which no message has begun,
-- with nothing to send: where two pieces come, each of them not empty and within one read, and
-- the first has the length of a message of 1 to LOG_MAX_LEN bytes, all of the message and at
-- least one byte more, the two calls of data_transfer return, but do_work has been given nothing
-- and no request is counted, although a whole message has come; and where any third piece comes,
-- its call of data_transfer ends in a failed assertion. malloc(3) is taken not to fail (`Gives`).
pub deliver-overrun :
    (os : Malloc) ⦃gives : Gives os⦄ (k : Link) (sv : Server) (s : TcpStream) (p q r : Piece)
    (rs : List Piece)
    → Linked k s [] sv.world
    → Fresh s
    → s.in_buf.buf.data_len ≡ 0
    → 0 < le_value (take 8 p.bytes)
    → le_value (take 8 p.bytes) ≤ log_max_len
    → 8 + le_value (take 8 p.bytes) < length p.bytes
    → Readable (p ∷ q ∷ [])
    → Returns (λ _ sv'. SameTally sv sv') (deliver os k.sock k.event (p ∷ q ∷ []) sv)
      × (deliver os k.sock k.event (p ∷ q ∷ r ∷ rs) sv ≡ abort)
unfolding deliver
deliver-overrun os k sv s p q r rs l f quiet pos_n small more read =
    let first = data_transfer-Over os k sv s p l f quiet pos_n small more read.1 in
    (
      bind first (λ _ sv1 o.
          bind (data_transfer-Stays os k sv1 sv (drop 8 p.bytes) q o read.2.0 read.2.1)
            (λ _ sv2 o2. returns o2.tally)),
      and_then_const first (λ _ sv1 o.
          and_then_const (data_transfer-Stays os k sv1 sv (drop 8 p.bytes) q o read.2.0 read.2.1)
            (λ _ sv2 o2.
              rw
                (data_transfer-stops os r.now [] (got r.bytes ∷ []) k false q.bytes sv2
                  (Over-Served o2) (omega (arith, read.2.0)))
                refl)),
    )
