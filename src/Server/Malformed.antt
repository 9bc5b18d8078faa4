-- ===== src/Server/Malformed.antt =====
-- Bytes that are no message of the protocol, and a header that comes in two pieces.
use jujube.Base.{
  ℕ, ◌≤◌, ◌<◌, ◌≡◌, ◌⊎◌, ◌∙◌, sym, ap, refl, true, false, ◌||◌, none, List, [], ◌∷◌, length, take,
  arith, ltb, ◌==◌,
}
use jujube.Base.Int.{pos, eq_ℤ, eq_ℤ_refl}
use jujube.Base.Words.{le_value}
use jujube.Base.Run.{abort, Returns, returns, bind, and_then_const, mono}
use jujube.Mem.{Memory, Malloc, Gives}
use jujube.Buf.{buf_data_size}
use jujube.Buf.Holds.{data_len-length}
use jujube.Buf.Pick.{clear_space-nil}
use jujube.Stream.{TcpStream, WriteResult, ReadResult, got, mid_http_buf_size, set_out}
use jujube.World.{World}
use jujube.Event.Close.{stream_at_lem}
use jujube.Client.{check_sock}
use jujube.Server.{
  Server, log_max_len, is_positive, clear_out, header_step, left_step, read_step, data_transfer,
}
use jujube.Stream.Free.{blocks-out}
use jujube.Server.Ready.{Ready, idle, Ready-write}
use jujube.Server.Link.{
  Link, Linked, Ended, SameTally, close_stream-Ended, update_stream-Linked, Returns-lift_world,
  set_stream_event_in_out-Linked,
}
use jujube.Server.Transfer.{stream_in_lem, when_readable, read_step-Fed}
use jujube.Server.Header.{Fresh, header_bytes}
use jujube.Server.Message.{Piece, deliver, feed_outcome-piece}

-- The data of `out_buf` is dropped.
clear_out-Ready :
    (m0 m : Memory) (s : TcpStream) (ys : List ℕ)
    → Ready m0 m s ys
    → Returns (λ r m'. Ready m0 m' r.0 [] × (r.0.server_sock ≡ s.server_sock)) (clear_out s m)
unfolding clear_out
clear_out-Ready m0 m s ys r =
    bind (clear_space-nil m s.out_buf.buf ys r.owned.inv r.out (omega (arith, r.room)))
      (λ o m' (bec, e, l). returns (
        Ready-write (set_out s o) [] r bec.inv bec.holds e
            (λ c ne. bec.others c ne (λ q. ne (sym e ∙ q)))
            (blocks-out s (record { self = s.out_buf.self; buf = o }) e refl) l refl,
        refl,
      ))

-- A length that no message has.
abbrev pub IsBadLength : ℕ → Type 0
IsBadLength n = (n ≡ 0) ⊎ (log_max_len < n)

-- The connection has ended, and do_work has been given nothing.
pub record Refused (k : Link) (sv sv' : Server) : Type 0 where
  pub ended : Ended k sv'.world
  pub tally : SameTally sv sv'

pub header_step-Refused :
    (os : Malloc) ⦃gives : Gives os⦄ (k : Link) (n : ℕ) (ys : List ℕ) (sv : Server) (s : TcpStream)
    → Linked k s ys sv.world
    → 8 ≤ length ys
    → le_value (take 8 ys) ≡ n
    → IsBadLength n
    → Returns (λ go sv'. (go ≡ false) × Refused k sv sv') (header_step os k.event k.place s sv)
unfolding header_step buf_data_size
header_step-Refused os k n ys sv s l le header bad =
    let enough : ltb s.out_buf.buf.data_len 8 ≡ false =
      ground (arith, data_len-length l.ready.out) in
    let out_of_range : (ltb log_max_len n || n == 0) ≡ true = ground arith in
    rw (enough, header_bytes k s ys sv.world l le, header, out_of_range)
      (bind
        (Returns-lift_world sv (
          update_stream-Linked l clear_out [] (clear_out-Ready k.base sv.world.memory s ys l.ready)
            (λ r m p. p)))
        (λ _ sv1 ((s1, _, l1), t1).
          bind (Returns-lift_world sv1 (close_stream-Ended l1)) (λ _ sv2 (end, t2).
            returns (refl, record { ended = end; tally = (t2.0 ∙ t1.0, t2.1 ∙ t1.1) }))))

-- On a connection whose event leads to a stream that is ready and on which no message has begun:
-- when one read gets eight bytes or more, and the length that the first eight stand for is 0 or
-- more than LOG_MAX_LEN, data_transfer returns with the stream and all its blocks gone, every
-- other block as before, and the descriptor closed once; do_work is given nothing and no request
-- is counted. malloc(3) is taken not to fail (`Gives`).
pub data_transfer-Refused :
    (os : Malloc) ⦃gives : Gives os⦄ (now : ℕ) (writes : List WriteResult) (k : Link) (sv : Server)
    (s : TcpStream) (ys : List ℕ)
    → Linked k s [] sv.world
    → Fresh s
    → 8 ≤ length ys
    → length ys ≤ mid_http_buf_size
    → IsBadLength (le_value (take 8 ys))
    → Returns
        (λ _ sv'. Refused k sv sv')
        (data_transfer os now writes (got ys ∷ []) k.sock true false k.event sv)
unfolding left_step is_positive
data_transfer-Refused os now writes k sv s ys l f le fits bad =
    when_readable {P = λ go sv'. (go ≡ false) × Refused k sv sv'} os now writes (got ys ∷ []) k sv s
      [] l
      (read_step-Fed os k sv s (got ys ∷ []) ys none l (idle f.work)
        (feed_outcome-piece k s sv.world ys l (omega (arith, le)) fits)
        (λ s' sv' l' w' q t.
          let zero_left : s'.reply_body_size_left ≡ pos 0 = q.left ∙ f.left in
          let not_positive : is_positive s'.reply_body_size_left ≡ false =
            ap is_positive zero_left in
          let is_zero : eq_ℤ s'.reply_body_size_left (pos 0) ≡ true = ground (arith, zero_left) in
          rw (not_positive, is_zero)
            (mono (header_step-Refused os k (le_value (take 8 ys)) ys sv' s' l' le refl bad)
              (λ go sv2 (stop, r).
                (stop, record { ended = r.ended; tally = (r.tally.0 ∙ t.0, r.tally.1 ∙ t.1) })))))
      (λ go sv' (stop, r). rw stop (returns r))

-- A part of a header stays in `out_buf`, and no message has begun.
record Halfway (k : Link) (ys : List ℕ) (w : World) : Type 0 where
  stream : TcpStream
  linked : Linked k stream ys w

-- A header that has not wholly come is left in `out_buf`.
data_transfer-Halfway :
    (os : Malloc) ⦃gives : Gives os⦄ (now : ℕ) (writes : List WriteResult) (k : Link) (sv : Server)
    (s : TcpStream) (ys : List ℕ)
    → Linked k s [] sv.world
    → Fresh s
    → 0 < length ys
    → length ys < 8
    → Returns
        (λ _ sv'. Halfway k ys sv'.world)
        (data_transfer os now writes (got ys ∷ []) k.sock true false k.event sv)
unfolding left_step is_positive header_step buf_data_size
data_transfer-Halfway os now writes k sv s ys l f some_bytes short =
    when_readable {P = λ go sv'. (go ≡ true) × Halfway k ys sv'.world} os now writes (got ys ∷ []) k
      sv s [] l
      (read_step-Fed os k sv s (got ys ∷ []) ys none l (idle f.work)
        (feed_outcome-piece k s sv.world ys l some_bytes (omega (arith, short)))
        (λ s' sv' l' w' q t.
          let zero_left : s'.reply_body_size_left ≡ pos 0 = q.left ∙ f.left in
          let not_positive : is_positive s'.reply_body_size_left ≡ false =
            ap is_positive zero_left in
          let is_zero : eq_ℤ s'.reply_body_size_left (pos 0) ≡ true = ground (arith, zero_left) in
          let not_enough : ltb s'.out_buf.buf.data_len 8 ≡ true =
            ground (arith, data_len-length l'.ready.out) in
          rw (not_positive, is_zero, not_enough)
            (returns (refl, record { stream = s'; linked = l' }))))
      (λ go sv' (on, h). rw on (
        mono (Returns-lift_world sv' (set_stream_event_in_out-Linked h.linked now))
          (λ _ sv2 ((l2, m), t). record { stream = h.stream; linked = l2 })))

-- With bytes left in `out_buf` the next readable event fails the assertion.
read_step-abort :
    (os : Malloc) ⦃gives : Gives os⦄ (reads : List ReadResult) (k : Link) (sv : Server)
    (ys : List ℕ)
    → Halfway k ys sv.world
    → 0 < length ys
    → read_step os reads k.event k.place sv ≡ abort
unfolding read_step buf_data_size
read_step-abort os reads k sv ys h some_bytes =
    let l = h.linked in
    let left : (h.stream.out_buf.buf.data_len == 0) ≡ false =
      ground (arith, data_len-length l.ready.out) in
    rw (stream_at_lem sv.world k.place h.stream l.stream, left) refl

data_transfer-abort :
    (os : Malloc) ⦃gives : Gives os⦄ (now : ℕ) (writes : List WriteResult) (reads : List ReadResult)
    (k : Link) (sv : Server) (ys : List ℕ)
    → Halfway k ys sv.world
    → 0 < length ys
    → data_transfer os now writes reads k.sock true false k.event sv ≡ abort
unfolding data_transfer check_sock
data_transfer-abort os now writes reads k sv ys h some_bytes =
    let l = h.linked in
    rw
      (
        stream_in_lem k h.stream ys sv.world l,
        stream_at_lem sv.world k.place h.stream l.stream,
        l.sock,
        eq_ℤ_refl k.sock,
        read_step-abort os reads k sv ys h some_bytes,
      )
      refl

-- On a connection whose event leads to a stream that is ready and on which no message has begun:
-- where the first piece that comes has fewer than eight bytes and is not empty, whatever the next
-- pieces are, and at least one comes, the calls of data_transfer end in a failed assertion.
-- malloc(3) is taken not to fail (`Gives`).
pub deliver-abort :
    (os : Malloc) ⦃gives : Gives os⦄ (k : Link) (sv : Server) (s : TcpStream) (p q : Piece)
    (ps : List Piece)
    → Linked k s [] sv.world
    → Fresh s
    → 0 < length p.bytes
    → length p.bytes < 8
    → deliver os k.sock k.event (p ∷ q ∷ ps) sv ≡ abort
unfolding deliver
deliver-abort os k sv s p q ps l f some_bytes short =
    and_then_const (data_transfer-Halfway os p.now [] k sv s p.bytes l f some_bytes short)
      (λ _ sv' h.
        rw (data_transfer-abort os q.now [] (got q.bytes ∷ []) k sv' p.bytes h some_bytes) refl)
