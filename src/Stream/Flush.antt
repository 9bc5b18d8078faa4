-- ===== src/Stream/Flush.antt =====
-- stream_flush_out: what it sends, and what it keeps.
use jujube.Base.{
  ℕ, ◌+◌, ◌-◌, ◌≤◌, ◌<◌, ◌≡◌, ◌≢◌, ◌∙◌, sym, ap, subst, refl, true, false, List, [], ◌∷◌, ◌++◌,
  length, take, drop, take-append-drop, length-take_le, length-append, length-drop, not, Bool,
  arith, ◌==◌, min, Bool-cases, inl, inr, if◌then◌else◌,
}
use mathlib.Core.List.{append_assoc}
use jujube.Base.Int.{ℤ, pos, negsuc, is_neg, minus_one}
use jujube.Base.Run.{ok, Returns, returns, bind, mono}
use jujube.Mem.{Addr, Memory, view}
use jujube.Mem.Inv.{Inv}
use jujube.Mem.Access.{load-ok}
use jujube.Buf.{Buf, buf_data_size}
use jujube.Buf.Holds.{Holds, data_len-length, take-contents}
use jujube.Buf.Put.{Became}
use jujube.Buf.Pick.{buf_pick-drop}
use jujube.Stream.{
  TcpStream, WriteResult, wrote, write_eintr, write_again, write_error, Flushed, set_in, flush_loop,
  flush_size, stream_flush_out,
}

-- How many of `cur` bytes the writes take before one would block, takes nothing or fails.
unfoldable pub taken : List WriteResult → ℕ → ℕ
taken [] cur = 0
taken (write_eintr ∷ rs) cur = taken rs cur
taken (write_again ∷ rs) cur = 0
taken (write_error ∷ rs) cur = 0
taken (wrote n ∷ rs) cur =
    let rest = taken rs (cur - min n cur) in if min n cur == 0 then 0 else min n cur + rest

-- Whether a write fails while there is something left to send.
pub fails : List WriteResult → ℕ → Bool
fails [] cur = false
fails (write_eintr ∷ rs) cur = fails rs cur
fails (write_again ∷ rs) cur = false
fails (write_error ∷ rs) cur = not (cur == 0)
fails (wrote n ∷ rs) cur =
    let rest = fails rs (cur - min n cur) in if min n cur == 0 then false else rest

abbrev pub flush_code : List WriteResult → ℕ → ℕ → ℤ
flush_code rs cur t = if fails rs cur then minus_one else pos (t + taken rs cur)

-- `out` comes of sending `cur` bytes of `xs` after `t` bytes: the socket has taken `out.wire`,
-- `in_buf` holds the rest, and nothing else has changed.
pub record Sent (m : Memory) (s : TcpStream) (xs : List ℕ) (rs : List WriteResult) (cur t : ℕ)
    (out : Flushed) (m' : Memory) : Type 0 where
  pub inv : Inv m'
  pub rest : List ℕ
  pub holds : Holds m' out.stream.in_buf.buf rest
  pub split : out.wire ++ rest ≡ xs
  pub count : length out.wire ≡ taken rs cur
  pub code : out.code ≡ flush_code rs cur t
  pub same : out.stream ≡ set_in s out.stream.in_buf.buf
  pub block : out.stream.in_buf.buf.buffer ≡ s.in_buf.buf.buffer
  pub size : out.stream.in_buf.buf.buf_len ≡ s.in_buf.buf.buf_len
  pub others : (c : Addr) → s.in_buf.buf.buffer ≢ c → view m' c ≡ view m c

module _ (m : Memory) (s : TcpStream) (xs : List ℕ) (v : Inv m) (h : Holds m s.in_buf.buf xs) where
  -- The loop stops with nothing more sent.
  Sent-stop :
      (rs : List WriteResult) (cur t : ℕ)
      → taken rs cur ≡ 0
      → Sent m s xs rs cur t (record { stream = s; code = flush_code rs cur t; wire = [] }) m
  Sent-stop rs cur t none_taken = record {
    inv = v;
    rest = xs;
    holds = h;
    split = refl;
    count = sym none_taken;
    code = refl;
    same = refl;
    block = refl;
    size = refl;
    others = λ c ne. refl;
  }

  -- One round, and what the rounds behind it do.
  Sent-more :
      (n : ℕ) (rs : List WriteResult) (cur t r : ℕ) (b : Buf) (m1 m2 : Memory) (out : Flushed)
      → r ≤ length xs
      → r ≡ min n cur
      → (r == 0) ≡ false
      → Became m s.in_buf.buf (drop r xs) b m1
      → b.buffer ≡ s.in_buf.buf.buffer
      → b.buf_len ≡ s.in_buf.buf.buf_len
      → Sent m1 (set_in s b) (drop r xs) rs (cur - r) (t + r) out m2
      → Sent m s xs (wrote n ∷ rs) cur t (record out { wire = take r xs ++ out.wire }) m2
  unfolding taken fails
  Sent-more n rs cur t r b m1 m2 out le is_r some_taken became same same' k = record {
    inv = k.inv;
    rest = k.rest;
    holds = k.holds;
    split =
        append_assoc (take r xs) out.wire k.rest
        ∙ ap (◌++◌ (take r xs)) k.split
        ∙ take-append-drop r xs;
    count = ground (arith, length-append (take r xs) out.wire, length-take_le r xs le, k.count);
    code = ground (arith, k.code);
    same = k.same;
    block = k.block ∙ same;
    size = k.size ∙ same';
    others =
        λ c ne. k.others c (λ q. ne (sym same ∙ q)) ∙ became.others c ne (λ q. ne (sym same ∙ q));
  }

Sent-stop_at :
    (m : Memory) (s : TcpStream) (xs : List ℕ)
    → Inv m
    → Holds m s.in_buf.buf xs
    → (rs : List WriteResult) (cur t : ℕ) (code : ℤ) → taken rs cur ≡ 0
    → code ≡ flush_code rs cur t
    → Sent m s xs rs cur t (record { stream = s; code = code; wire = [] }) m
Sent-stop_at m s xs v h rs cur t code none_taken e = rw e (Sent-stop m s xs v h rs cur t none_taken)

Sent-eintr :
    (m : Memory) (s : TcpStream) (xs : List ℕ) (rs : List WriteResult) (cur t : ℕ) (out : Flushed)
    (m' : Memory)
    → Sent m s xs rs cur t out m'
    → Sent m s xs (write_eintr ∷ rs) cur t out m'
unfolding taken fails
Sent-eintr m s xs rs cur t out m' k = record {
  inv = k.inv;
  rest = k.rest;
  holds = k.holds;
  split = k.split;
  count = k.count;
  code = k.code;
  same = k.same;
  block = k.block;
  size = k.size;
  others = k.others;
}

flush_loop-Sent :
    (rs : List WriteResult) (m : Memory) (s : TcpStream) (xs : List ℕ) (cur t : ℕ)
    → Inv m
    → Holds m s.in_buf.buf xs
    → cur ≤ length xs
    → Returns (Sent m s xs rs cur t) (flush_loop rs cur t s m)
unfolding flush_loop taken fails
flush_loop-Sent [] m s xs cur t v h le =
    returns (Sent-stop_at m s xs v h [] cur t _ refl (ground arith))
flush_loop-Sent (write_eintr ∷ rs) m s xs cur t v h le =
    mono (flush_loop-Sent rs m s xs cur t v h le) (λ out m' k. Sent-eintr m s xs rs cur t out m' k)
flush_loop-Sent (write_again ∷ rs) m s xs cur t v h le =
    returns (Sent-stop_at m s xs v h (write_again ∷ rs) cur t _ refl (ground arith))
flush_loop-Sent (write_error ∷ rs) m s xs cur t v h le = elim (Bool-cases (cur == 0)) [
  | inl e ↦ rw e (returns (Sent-stop_at m s xs v h (write_error ∷ rs) cur t _ refl (ground arith)))
  | inr e ↦ rw e (returns (Sent-stop_at m s xs v h (write_error ∷ rs) cur t _ refl (ground arith)))
]
flush_loop-Sent (wrote n ∷ rs) m s xs cur t v h le = elim (Bool-cases (min n cur == 0)) [
  | inl e ↦
      rw e (returns (Sent-stop_at m s xs v h (wrote n ∷ rs) cur t _ (ground arith) (ground arith)))
  | inr e ↦
      let r = min n cur in
      let fits : r ≤ length xs = omega arith in
      rw e (
        rw
          (load-ok m s.in_buf.buf.buffer 0 r h.block
            (omega (arith, data_len-length h, h.within, h.sized)))
          (bind (buf_pick-drop m s.in_buf.buf xs r v h fits) (λ b m1 (became, same, same').
            bind
              (flush_loop-Sent rs m1 (set_in s b) (drop r xs) (cur - r) (t + r) became.inv
                became.holds (omega (arith, length-drop r xs)))
              (λ out m2 k. returns (
                subst
                  (λ ys. Sent m s xs (wrote n ∷ rs) cur t (record out { wire = ys ++ out.wire }) m2)
                  (sym (take-contents h r fits))
                  (Sent-more m s xs v h n rs cur t r b m1 m2 out fits refl e became same same'
                    k))))))
]

flush_size-le : (size : ℤ) (have : ℕ) → flush_size size have ≤ have
unfolding flush_size
flush_size-le (pos n) have = ground arith
flush_size-le (negsuc n) have = omega arith

-- How many of `have` bytes a call with `size` is for: `size` of them if it is positive and there are
-- so many, else all.
pub data Asked : (size : ℤ) (have cur : ℕ) → Type 0 where
  for_some : {n have : ℕ} → 0 < n → n ≤ have → Asked (pos n) have n
  for_more : {n have : ℕ} → have < n → Asked (pos n) have have
  for_zero : {have : ℕ} → Asked (pos 0) have have
  for_all : {n have : ℕ} → Asked (negsuc n) have have

flush_size-Asked : (size : ℤ) (have cur : ℕ) → Asked size have cur → flush_size size have ≡ cur
unfolding flush_size
flush_size-Asked _ have _ (for_some {n} pos_n le) = ground (arith, pos_n, le)
flush_size-Asked _ have _ (for_more {n} lt) = ground (arith, lt)
flush_size-Asked _ have _ for_zero = ground arith
flush_size-Asked _ have _ for_all = refl

-- The bytes of the code's own size are sent.
pub stream_flush_out-Flushed :
    (rs : List WriteResult) (m : Memory) (s : TcpStream) (size : ℤ) (xs : List ℕ)
    → Inv m
    → Holds m s.in_buf.buf xs
    → is_neg s.server_sock ≡ false
    → Returns (Sent m s xs rs (flush_size size (length xs)) 0) (stream_flush_out rs s size m)
unfolding stream_flush_out buf_data_size
stream_flush_out-Flushed rs m s size xs v h open_sock = rw open_sock (
    subst
      (λ n.
        Returns (Sent m s xs rs (flush_size size (length xs)) 0)
          (flush_loop rs (flush_size size n) 0 s m))
      (sym (data_len-length h))
      (flush_loop-Sent rs m s xs (flush_size size (length xs)) 0 v h
        (flush_size-le size (length xs))))

-- In an allocator with its invariant, on an open socket and an `in_buf` that holds `xs`,
-- stream_flush_out returns, whatever the results of its writes: what the socket has taken and what
-- `in_buf` still holds make up, in order, `xs`. As many bytes are taken as the writes allow, of
-- the size asked for if that is positive and at hand, else of all. Their number is returned, or -1
-- where a write fails. No other block and no other field of the stream changes.
pub stream_flush_out-Sent :
    (rs : List WriteResult) (m : Memory) (s : TcpStream) (size : ℤ) (xs : List ℕ) (cur : ℕ)
    → Inv m
    → Holds m s.in_buf.buf xs
    → is_neg s.server_sock ≡ false
    → Asked size (length xs) cur
    → Returns (Sent m s xs rs cur 0) (stream_flush_out rs s size m)
stream_flush_out-Sent rs m s size xs cur v h open_sock asked =
    subst (λ n. Returns (Sent m s xs rs n 0) (stream_flush_out rs s size m))
      (flush_size-Asked size (length xs) cur asked)
      (stream_flush_out-Flushed rs m s size xs v h open_sock)

flush_loop-nothing :
    (rs : List WriteResult) (t : ℕ) (s : TcpStream) (m : Memory)
    → flush_loop rs 0 t s m ≡ ok (record { stream = s; code = pos t; wire = [] }) m
unfolding flush_loop
flush_loop-nothing [] t s m = refl
flush_loop-nothing (write_eintr ∷ rs) t s m = flush_loop-nothing rs t s m
flush_loop-nothing (write_again ∷ rs) t s m = refl
flush_loop-nothing (write_error ∷ rs) t s m = refl
flush_loop-nothing (wrote n ∷ rs) t s m =
    let none_taken : (min n 0 == 0) ≡ true = ground arith in rw none_taken refl

-- With nothing in `in_buf` there is nothing to send.
pub stream_flush_out-nothing :
    (rs : List WriteResult) (s : TcpStream) (size : ℤ) (m : Memory)
    → s.in_buf.buf.data_len ≡ 0
    → is_neg s.server_sock ≡ false
    → stream_flush_out rs s size m ≡ ok (record { stream = s; code = pos 0; wire = [] }) m
unfolding stream_flush_out buf_data_size
stream_flush_out-nothing rs s size m empty open_sock =
    let nothing : flush_size size s.in_buf.buf.data_len ≡ 0 =
      omega (arith, flush_size-le size s.in_buf.buf.data_len) in
    rw (open_sock, nothing) (flush_loop-nothing rs 0 s m)
