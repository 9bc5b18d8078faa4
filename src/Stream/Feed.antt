-- ===== src/Stream/Feed.antt =====
-- stream_feed_out: what it reads, and where it puts it.
use jujube.Base.{
  ℕ, ◌+◌, ◌%◌, ◌≤◌, ◌≡◌, ◌≢◌, ◌∙◌, sym, ap, subst, refl, true, false, List, [], ◌∷◌, ◌++◌, length,
  take, length-take, arith, ◌==◌, Bool-cases, inl, inr, if◌then◌else◌, Bool,
}
use mathlib.Core.List.{append-nil}
use jujube.Base.Int.{ℤ, pos, is_neg, minus_one}
use jujube.Base.Run.{Returns, returns, bind}
use jujube.Mem.{Addr, Memory, view}
use jujube.Mem.Inv.{Inv}
use jujube.Buf.{buf_free_space, buf_end_position, size_mod}
use jujube.Buf.Holds.{Holds}
use jujube.Buf.Put.{store_at_end, free_space-sub}
use jujube.Stream.{
  TcpStream, ReadResult, got, read_eintr, read_again, read_error, Fed, close_flag, receive,
  feed_some, feed_loop, stream_feed_out,
}

-- What the reads report, given room for `free` bytes: the bytes, nothing yet, the end, an error.
pub data Outcome : Type 0 where
  bytes : List ℕ → Outcome
  later closed failed : Outcome

unfoldable pub outcome : List ReadResult → ℕ → Outcome
outcome [] free = later
outcome (read_eintr ∷ rs) free = outcome rs free
outcome (read_again ∷ rs) free = later
outcome (read_error ∷ rs) free = failed
outcome (got xs ∷ rs) free = if length (take free xs) == 0 then closed else bytes (take free xs)

abbrev pub got_bytes : Outcome → List ℕ
got_bytes (bytes xs) = xs
got_bytes later = []
got_bytes closed = []
got_bytes failed = []

abbrev pub feed_code : Outcome → ℤ
feed_code (bytes xs) = pos (length xs)
feed_code later = pos 0
feed_code closed = minus_one
feed_code failed = minus_one

abbrev pub closes : Outcome → Bool → Bool
closes (bytes xs) was = was
closes later was = was
closes closed was = true
closes failed was = was

-- The stream's `out_buf` and flags, and the value that is returned.
pub record Received (m : Memory) (s : TcpStream) (ys : List ℕ) (o : Outcome) (out : Fed)
    (m' : Memory) : Type 0 where
  pub inv : Inv m'
  pub holds : Holds m' out.stream.out_buf.buf (ys ++ got_bytes o)
  pub code : out.code ≡ feed_code o
  pub closed_flag : out.stream.flags.server_closed ≡ closes o s.flags.server_closed
  pub in_kept : out.stream.in_buf ≡ s.in_buf
  pub same : out.stream ≡ record s { out_buf = out.stream.out_buf; flags = out.stream.flags }
  pub own : out.stream.out_buf.self ≡ s.out_buf.self
  pub room : out.stream.out_buf.buf.buf_len ≡ s.out_buf.buf.buf_len
  pub block : out.stream.out_buf.buf.buffer ≡ s.out_buf.buf.buffer
  pub others : (c : Addr) → s.out_buf.buf.buffer ≢ c → view m' c ≡ view m c

-- Nothing is read: the stream is the same, but for the flag.
Received-nothing :
    (m : Memory) (s s' : TcpStream) (ys : List ℕ) (o : Outcome) (code : ℤ)
    → Inv m
    → Holds m s.out_buf.buf ys
    → got_bytes o ≡ []
    → code ≡ feed_code o
    → s'.flags.server_closed ≡ closes o s.flags.server_closed
    → s'.in_buf ≡ s.in_buf
    → s'.out_buf ≡ s.out_buf
    → s' ≡ record s { out_buf = s'.out_buf; flags = s'.flags }
    → Received m s ys o (record { stream = s'; code = code }) m
Received-nothing m s s' ys o code v h none_got is_code flag ins outs same = record {
  inv = v;
  holds =
      subst (λ b. Holds m b (ys ++ got_bytes o)) (sym (ap (λ b. b.buf) outs))
        (subst (Holds m s.out_buf.buf) (sym (append-nil ys) ∙ sym (ap (◌++◌ ys) none_got)) h);
  code = is_code;
  closed_flag = flag;
  in_kept = ins;
  same = same;
  own = ap (λ b. b.self) outs;
  room = ap (λ b. b.buf.buf_len) outs;
  block = ap (λ b. b.buf.buffer) outs;
  others = λ c ne. refl;
}

receive-Received :
    (m : Memory) (s : TcpStream) (ys xs : List ℕ)
    → Inv m
    → Holds m s.out_buf.buf ys
    → length xs ≤ buf_free_space s.out_buf.buf
    → Returns (Received m s ys (bytes xs)) (receive s xs m)
unfolding receive buf_end_position
receive-Received m s ys xs v h le =
    let b = s.out_buf.buf in
    let free = free_space-sub b h.within h.small in
    let fits : b.data_len + length xs ≤ b.buf_len = omega (arith, free, h.within) in
    let e : (b.data_len + length xs) % size_mod ≡ b.data_len + length xs = omega (arith, h.small) in
    bind (store_at_end m b ys xs v h fits) (λ _ m' r. rw e (
      returns (record {
        inv = r.inv;
        holds = r.holds;
        code = refl;
        closed_flag = refl;
        in_kept = refl;
        same = refl;
        own = refl;
        room = refl;
        block = refl;
        others = λ c ne. r.others c ne ne;
      })))

feed_loop-Received :
    (rs : List ReadResult) (m : Memory) (s : TcpStream) (ys : List ℕ)
    → Inv m
    → Holds m s.out_buf.buf ys
    → Returns (Received m s ys (outcome rs (buf_free_space s.out_buf.buf))) (feed_loop rs s m)
unfolding feed_loop outcome feed_some
feed_loop-Received [] m s ys v h =
    returns (Received-nothing m s s ys later _ v h refl refl refl refl refl refl)
feed_loop-Received (read_eintr ∷ rs) m s ys v h = feed_loop-Received rs m s ys v h
feed_loop-Received (read_again ∷ rs) m s ys v h =
    returns (Received-nothing m s s ys later _ v h refl refl refl refl refl refl)
feed_loop-Received (read_error ∷ rs) m s ys v h =
    returns (Received-nothing m s s ys failed _ v h refl refl refl refl refl refl)
feed_loop-Received (got xs ∷ rs) m s ys v h =
    let part = take (buf_free_space s.out_buf.buf) xs in
    elim (Bool-cases (length part == 0)) [
      | inl e ↦ rw e (
          returns
            (Received-nothing m s (close_flag s) ys closed _ v h refl refl refl refl refl refl))
      | inr e ↦ rw e (
          receive-Received m s ys part v h
            (omega (arith, length-take (buf_free_space s.out_buf.buf) xs)))
    ]

data_in_same :
    (s : TcpStream)
    → (record s { data_in = s.data_in + 0 }) ≡ record s { out_buf = s.out_buf; flags = s.flags }
data_in_same s = ground arith

-- What stream_feed_out reports on an open socket: with no room nothing is read.
abbrev pub feed_outcome : List ReadResult → TcpStream → Outcome
feed_outcome rs s =
    if buf_free_space s.out_buf.buf == 0 then later else outcome rs (buf_free_space s.out_buf.buf)

-- In an allocator with its invariant, on an open socket and an `out_buf` that holds `ys`,
-- stream_feed_out returns, whatever the results of its reads: `out_buf` holds `ys` and then what
-- was read, which never exceeds its room. The number of bytes read is returned, 0 where a read
-- would block, and -1 on an error or at the end of the stream, which alone sets `server_closed`.
-- The `in_buf` and every other block are as before.
pub stream_feed_out-Received :
    (rs : List ReadResult) (m : Memory) (s : TcpStream) (ys : List ℕ)
    → Inv m
    → Holds m s.out_buf.buf ys
    → is_neg s.server_sock ≡ false
    → Returns (Received m s ys (feed_outcome rs s)) (stream_feed_out rs s m)
unfolding stream_feed_out
stream_feed_out-Received rs m s ys v h open_sock =
    rw open_sock (elim (Bool-cases (buf_free_space s.out_buf.buf == 0)) [
      | inl full ↦ rw full (
          returns (
            Received-nothing m s (record s { data_in = s.data_in + 0 }) ys later _ v h refl refl
              refl refl refl (data_in_same s)))
      | inr room ↦ rw room (feed_loop-Received rs m s ys v h)
    ])
