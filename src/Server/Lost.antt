-- ===== src/Server/Lost.antt =====
-- A connection that ends before its message is whole.
use jujube.Base.{
  ℕ, ◌+◌, ◌≤◌, ◌<◌, ◌≡◌, ◌⊎◌, ◌∙◌, ap, subst, refl, true, false, some, Option, List, [], ◌∷◌,
  length, length-drop, take, drop, arith, ◌==◌, inl, inr,
}
use jujube.Base.Int.{is_neg}
use jujube.Base.Words.{le_value}
use jujube.Base.Run.{◌>>◌, Returns, returns, bind, mono}
use jujube.Mem.{Malloc, Gives}
use jujube.Buf.{buf_data_size}
use jujube.Buf.Holds.{data_len-length}
use jujube.Stream.{TcpStream, WriteResult, ReadResult, got}
use jujube.Stream.Feed.{Outcome, closed, failed, outcome, got_bytes, feed_code, feed_outcome}
use jujube.Event.Close.{stream_at_lem}
use jujube.World.{World}
use jujube.Server.{Server, log_max_len, failed_read, read_step, data_transfer}
use jujube.Server.Ready.{Work, busy, feed_lem}
use jujube.Server.Link.{Link, Linked, close_stream-Ended, update_stream-Linked, Returns-lift_world}
use jujube.Server.Transfer.{After, unfinished, finished, when_readable}
use jujube.Server.Header.{Fresh}
use jujube.Server.Message.{Piece, deliver, join, Readable, free_all, deliver-After}
use jujube.Server.Malformed.{Refused}

-- The peer has closed the connection, or the read has failed.
abbrev pub IsLost : Outcome → Type 0
IsLost o = (o ≡ closed) ⊎ (o ≡ failed)

pub lost-nothing : (o : Outcome) → IsLost o → got_bytes o ≡ []
lost-nothing o (inl e) = ap got_bytes e
lost-nothing o (inr e) = ap got_bytes e

-- A read of no bytes.
closed_by_peer :
    (k : Link) (s : TcpStream) (w : World) → Linked k s [] w → feed_outcome (got [] ∷ []) s ≡ closed
unfolding outcome
closed_by_peer k s w l = rw (free_all k s w l) refl

pub lost-negative : (o : Outcome) → IsLost o → is_neg (feed_code o) ≡ true
lost-negative o (inl e) = ap (λ x. is_neg (feed_code x)) e
lost-negative o (inr e) = ap (λ x. is_neg (feed_code x)) e

-- With nothing in `out_buf` a failed read ends the connection.
pub failed_read-Refused :
    (os : Malloc) ⦃gives : Gives os⦄ (k : Link) (sv : Server) (s : TcpStream)
    → Linked k s [] sv.world
    → Returns (λ go sv'. (go ≡ false) × Refused k sv sv') (failed_read os k.event k.place sv)
unfolding failed_read buf_data_size
failed_read-Refused os k sv s l =
    let empty : (s.out_buf.buf.data_len == 0) ≡ true =
      ground (arith, data_len-length l.ready.out) in
    rw (stream_at_lem sv.world k.place s l.stream, empty)
      (bind (Returns-lift_world sv (close_stream-Ended l))
        (λ _ sv2 (end, t). returns (refl, record { ended = end; tally = t })))

module _ (os : Malloc) ⦃gives : Gives os⦄ (k : Link) (sv : Server) (s : TcpStream)
    (o : Option (List ℕ)) (reads : List ReadResult) (l : Linked k s [] sv.world)
    (work : Work sv.world.memory s o) (lost : IsLost (feed_outcome reads s)) where
  read_step-Refused :
      Returns (λ go sv'. (go ≡ false) × Refused k sv sv') (read_step os reads k.event k.place sv)
  unfolding read_step buf_data_size
  read_step-Refused =
      let size : s.out_buf.buf.data_len ≡ 0 = data_len-length l.ready.out in
      let ys = got_bytes (feed_outcome reads s) in
      rw (stream_at_lem sv.world k.place s l.stream, size)
        (bind
          (Returns-lift_world sv (
            update_stream-Linked l _ ys (feed_lem reads k.base sv.world.memory s o l.ready work)
              (λ r m (kept, code). (kept.ready, kept.same.sock))))
          (λ ret sv1 ((s1, (kept, code), l1), t1).
            let negative : is_neg ret ≡ true =
              ap is_neg code ∙ lost-negative (feed_outcome reads s) lost in
            let empty = lost-nothing (feed_outcome reads s) lost in
            rw negative (
              bind (failed_read-Refused os k sv1 s1 (subst (λ x. Linked k s1 x sv1.world) empty l1))
                (λ go sv2 (stop, r). rw stop (
                  returns (
                    refl,
                    record { ended = r.ended; tally = (r.tally.0 ∙ t1.0, r.tally.1 ∙ t1.1) },
                  ))))))

  -- On a connection whose event leads to a stream that is ready, whether or not a message has
  -- begun on it: where the read finds the connection closed by the peer or fails, data_transfer
  -- returns with the stream and all its blocks gone, with those of a message that is not whole,
  -- every other block as before, and the descriptor closed once; do_work is given nothing and no
  -- request is counted.
  pub data_transfer-Lost :
      (now : ℕ) (writes : List WriteResult)
      → Returns
          (λ _ sv'. Refused k sv sv')
          (data_transfer os now writes reads k.sock true false k.event sv)
  data_transfer-Lost now writes =
      when_readable {P = λ go sv'. (go ≡ false) × Refused k sv sv'} os now writes reads k sv s [] l
        read_step-Refused (λ go sv' (stop, r). rw stop (returns r))

module _ (os : Malloc) ⦃gives : Gives os⦄ (k : Link) (n : ℕ) (small : n ≤ log_max_len)
    (pos_n : 0 < n) where
  -- A read that fails after a part of a message.
  After-Lost :
      (now : ℕ) (reads : List ReadResult) (part : List ℕ) (sv0 sv : Server)
      → length part < n
      → ((s' : TcpStream) → Linked k s' [] sv.world → IsLost (feed_outcome reads s'))
      → After k n part sv0 sv
      → Returns
          (λ _ sv'. Refused k sv0 sv')
          (data_transfer os now [] reads k.sock true false k.event sv)
  After-Lost now reads part sv0 sv lt lost (unfinished _ c) =
      mono
        (data_transfer-Lost os k sv c.stream (some part) reads c.linked (busy c.progress.work)
          (lost c.stream c.linked) now [])
        (λ _ sv' r. record {
          ended = r.ended;
          tally = (r.tally.0 ∙ c.tally.0, r.tally.1 ∙ c.tally.1);
        })
  After-Lost now reads part sv0 sv lt lost (finished all c) = absurd (omega (arith, lt, all))

  -- On a connection whose event leads to a stream that is ready and on which no message has
  -- begun: where the first piece begins with the length of a message of 1 to LOG_MAX_LEN bytes,
  -- each piece is not empty and within one read, the pieces together have less than that many
  -- bytes behind the length, and the read after them finds the connection closed by the peer, the
  -- calls of data_transfer return, do_work is given nothing, no request is counted, the stream
  -- and all its blocks are gone, the work buffer with them, every other block is as before, and
  -- the descriptor is closed once. malloc(3) is taken not to fail (`Gives`).
  pub deliver-Refused :
      (sv : Server) (s : TcpStream) (p : Piece) (ps : List Piece) (now : ℕ)
      → Linked k s [] sv.world
      → Fresh s
      → Readable (p ∷ ps)
      → 8 ≤ length p.bytes
      → le_value (take 8 p.bytes) ≡ n
      → length (join (p ∷ ps)) < 8 + n
      → Returns
          (λ _ sv'. Refused k sv sv')
          ((deliver os k.sock k.event (p ∷ ps)
              >> data_transfer os now [] (got [] ∷ []) k.sock true false k.event)
            sv)
  deliver-Refused sv s p ps now l f r le header part =
      bind (deliver-After os k n small sv s p ps l f pos_n r le header (omega (arith, part)))
        (λ _ sv' a.
          After-Lost now (got [] ∷ []) (drop 8 (join (p ∷ ps))) sv sv'
            (omega (arith, part, length-drop 8 (join (p ∷ ps)), pos_n))
            (λ s' l'. inl (closed_by_peer k s' sv'.world l')) a)
