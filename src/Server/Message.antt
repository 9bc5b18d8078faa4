-- ===== src/Server/Message.antt =====
-- A message that comes in pieces.
use jujube.Base.{
  ℕ, ◌+◌, ◌%◌, ◌^◌, ◌≤◌, ◌<◌, ◌≡◌, ◌∙◌, sym, ap, subst, refl, true, false, drop_all, take-append_le,
  drop-append_le, List, [], ◌∷◌, ◌++◌, length, length-append, length-drop, take, drop, take_all,
  arith, ◌==◌,
}
use mathlib.Core.List.{append_assoc, append-nil}
use jujube.Base.Int.{ℤ}
use jujube.Base.Words.{le_value, le_bytes, length-le_bytes, le_value-le_bytes}
use jujube.Base.Run.{Cmd, pure, ◌>>◌, Returns, returns, bind, mono}
use jujube.Mem.{Malloc, Gives}
use jujube.Buf.{buf_free_space}
use jujube.Buf.Holds.{data_len-length}
use jujube.Buf.Put.{free_space-sub}
use jujube.Stream.{TcpStream, got, mid_http_buf_size}
use jujube.Stream.Feed.{bytes, feed_outcome, outcome}
use jujube.World.{World}
use jujube.Server.{Server, log_max_len, data_transfer}
use jujube.Server.Link.{Link, Linked, SameTally}
use jujube.Server.Step.{Completes}
use jujube.Server.Transfer.{After, unfinished, finished, data_transfer-body}
use jujube.Server.Header.{Fresh, data_transfer-header}

-- What a socket has to read at one event, with the time of the event.
pub record Piece : Type 0 where
  pub now : ℕ
  pub bytes : List ℕ

-- The event loop calls data_transfer once for each piece that has come.
unfoldable pub deliver : Malloc → ℤ → ℕ → List Piece → Cmd Server (Unit {0})
deliver os sock i [] = pure tt
deliver os sock i (p ∷ ps) =
    data_transfer os p.now [] (got p.bytes ∷ []) sock true false i >> deliver os sock i ps

unfoldable pub join : List Piece → List ℕ
join [] = []
join (p ∷ ps) = p.bytes ++ join ps

-- Each piece has something, and no more than one read takes.
abbrev pub Readable : List Piece → Type 0
Readable [] = Unit {0}
Readable (p ∷ ps) = (0 < length p.bytes) × (length p.bytes ≤ mid_http_buf_size) × Readable ps

-- All of `out_buf` is free between reads.
pub free_all :
    (k : Link) (s : TcpStream) (w : World)
    → Linked k s [] w
    → buf_free_space s.out_buf.buf ≡ mid_http_buf_size
free_all k s w l =
    let h = l.ready.out in
    omega (arith, free_space-sub s.out_buf.buf h.within h.small, data_len-length h, l.ready.room)

-- One read takes a whole piece.
pub feed_outcome-piece :
    (k : Link) (s : TcpStream) (w : World) (ys : List ℕ)
    → Linked k s [] w
    → 0 < length ys
    → length ys ≤ mid_http_buf_size
    → feed_outcome (got ys ∷ []) s ≡ bytes ys
unfolding outcome
feed_outcome-piece k s w ys l pos_ys le =
    let whole = take_all mid_http_buf_size ys le in
    let some_bytes : (length ys == 0) ≡ false = ground arith in
    rw (free_all k s w l, whole, some_bytes) refl

After-tally :
    {k : Link} {n : ℕ} {part : List ℕ} {sv0 sv : Server} (sv' : Server)
    → SameTally sv0 sv
    → After k n part sv sv'
    → After k n part sv0 sv'
After-tally sv' t (unfinished lt c) = unfinished lt (record {
  stream = c.stream;
  linked = c.linked;
  progress = c.progress;
  tally = (c.tally.0 ∙ t.0, c.tally.1 ∙ t.1);
})
After-tally {part = part} sv' t (finished all c) = finished all (record {
  ended = c.ended;
  work = c.work ∙ ap (◌∷◌ part) t.1;
  qps = c.qps ∙ ap (λ q. (q + 1) % 2 ^ 64) t.0;
})

module _ (os : Malloc) ⦃gives : Gives os⦄ (k : Link) (n : ℕ) (small : n ≤ log_max_len) where
  -- The pieces after the first.
  deliver-rest :
      (ps : List Piece) (part : List ℕ) (sv0 sv : Server)
      → Readable ps
      → length part + length (join ps) ≤ n
      → After k n part sv0 sv
      → Returns (λ _ sv'. After k n (part ++ join ps) sv0 sv') (deliver os k.sock k.event ps sv)
  unfolding deliver join
  deliver-rest [] part sv0 sv r le a =
      returns (subst (λ x. After k n x sv0 sv) (sym (append-nil part)) a)
  deliver-rest (p ∷ ps) part sv0 sv r le (unfinished lt c) =
      let total = length-append p.bytes (join ps) in
      bind
        (data_transfer-body os p.now [] (got p.bytes ∷ []) k n sv p.bytes small part
          (c.stream, c.linked, c.progress) lt (omega (arith, total, le))
          (feed_outcome-piece k c.stream sv.world p.bytes c.linked r.0 r.1))
        (λ _ sv' a.
          mono
            (deliver-rest ps (part ++ p.bytes) sv0 sv' r.2
              (omega (arith, total, le, length-append part p.bytes)) (After-tally sv' c.tally a))
            (λ _ sv2 a2. subst (λ x. After k n x sv0 sv2) (append_assoc part p.bytes (join ps)) a2))
  deliver-rest (p ∷ ps) part sv0 sv r le (finished all c) =
      absurd (omega (arith, length-append p.bytes (join ps), r.0, all, le))

  -- What all the pieces come to, from the first on.
  pub deliver-After :
      (sv : Server) (s : TcpStream) (p : Piece) (ps : List Piece)
      → Linked k s [] sv.world
      → Fresh s
      → 0 < n
      → Readable (p ∷ ps)
      → 8 ≤ length p.bytes
      → le_value (take 8 p.bytes) ≡ n
      → length (join (p ∷ ps)) ≤ 8 + n
      → Returns
          (λ _ sv'. After k n (drop 8 (join (p ∷ ps))) sv sv')
          (deliver os k.sock k.event (p ∷ ps) sv)
  unfolding deliver join
  deliver-After sv s p ps l f pos_n r le header within =
      let total = length-append p.bytes (join ps) in
      let size = length-drop 8 p.bytes in
      bind
        (data_transfer-header os k n p.bytes small pos_n le (omega (arith, total, within, size))
          header p.now [] (got p.bytes ∷ []) sv s l f
          (feed_outcome-piece k s sv.world p.bytes l r.0 r.1))
        (λ _ sv' a.
          mono (deliver-rest ps (drop 8 p.bytes) sv sv' r.2 (omega (arith, total, within, size)) a)
            (λ _ sv2 a2.
              subst (λ x. After k n x sv sv2) (sym (drop-append_le 8 p.bytes (join ps) le)) a2))

-- All bytes are there.
After-Completes :
    {k : Link} {msg : List ℕ} {sv sv' : Server}
    → After k (length msg) msg sv sv'
    → Completes k msg sv sv'
After-Completes (unfinished lt c) = absurd (omega (arith, lt))
After-Completes (finished all c) = c

-- The length that a message begins with.
header_value :
    (n : ℕ) (p : Piece) (rest msg : List ℕ)
    → n ≤ log_max_len
    → 8 ≤ length p.bytes
    → p.bytes ++ rest ≡ le_bytes 8 n ++ msg
    → le_value (take 8 p.bytes) ≡ n
header_value n p rest msg small le e =
    let size = length-le_bytes 8 n in
    let header : take 8 p.bytes ≡ le_bytes 8 n =
      sym (take-append_le 8 p.bytes rest le)
      ∙ (ap (take 8) e
          ∙ (take-append_le 8 (le_bytes 8 n) msg (omega (arith, size))
              ∙ take_all 8 (le_bytes 8 n) (omega (arith, size)))) in
    ap le_value header ∙ le_value-le_bytes n (omega (arith, small))

-- On a connection whose event leads to a stream that is ready and on which no message has begun:
-- where the pieces that come, each of them not empty and within one read and the first of eight
-- bytes or more, make up the length of a message of 1 to LOG_MAX_LEN bytes and the message
-- itself, the calls of data_transfer, one for each piece, return, do_work is given the message
-- and nothing else, one request is counted, the stream and all its blocks are gone, every other
-- block is as before, and the descriptor is closed once. malloc(3) is taken not to fail
-- (`Gives`).
pub deliver-Completes :
    (os : Malloc) ⦃gives : Gives os⦄ (k : Link) (sv : Server) (s : TcpStream) (msg : List ℕ)
    (p : Piece) (ps : List Piece)
    → Linked k s [] sv.world
    → Fresh s
    → 0 < length msg
    → length msg ≤ log_max_len
    → Readable (p ∷ ps)
    → 8 ≤ length p.bytes
    → join (p ∷ ps) ≡ le_bytes 8 (length msg) ++ msg
    → Returns (λ _ sv'. Completes k msg sv sv') (deliver os k.sock k.event (p ∷ ps) sv)
unfolding join
deliver-Completes os k sv s msg p ps l f pos_n small r le e =
    let n = length msg in
    let size = length-le_bytes 8 n in
    let rest : drop 8 (join (p ∷ ps)) ≡ msg =
      ap (drop 8) e
      ∙ (drop-append_le 8 (le_bytes 8 n) msg (omega (arith, size))
          ∙ ap (λ x. x ++ msg) (drop_all 8 (le_bytes 8 n) (omega (arith, size)))) in
    mono
      (deliver-After os k n small sv s p ps l f pos_n r le
        (header_value n p (join ps) msg small le e)
        (omega (arith, size, ap length e, length-append (le_bytes 8 n) msg)))
      (λ _ sv' a. After-Completes (subst (λ x. After k n x sv sv') rest a))
