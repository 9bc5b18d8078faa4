-- ===== src/Server/Ready.antt =====
-- A stream of the server and its buffers, and what the pieces of data_transfer do to them.
use jujube.Base.{
  ℕ, ◌+◌, ◌≤◌, ◌≡◌, ◌≢◌, ◌∙◌, sym, ap, subst, refl, false, Option, none, some, List, [], ◌∷◌, ◌++◌,
  length, take, splice, length-splice, take-take, take-append_le, length-take_le, arith, ltb,
  Distinct, Bool-cases, inl, inr,
}
use jujube.Base.Int.{is_neg}
use jujube.Base.Run.{Returns, returns, bind, mono}
use jujube.Mem.{Addr, Memory, view}
use jujube.Mem.Inv.{Inv}
use jujube.Mem.Spec.{Stored}
use jujube.Mem.Access.{store-Stored}
use jujube.Mem.Owned.{Owned, Owned-store}
use jujube.Buf.{Buf, buf_end_position}
use jujube.Buf.Holds.{Holds, Holds-keep}
use jujube.Stream.{BufBox, TcpStream, ReadResult, mid_http_buf_size}
use jujube.Stream.Free.{blocks, work_blocks, blocks-out}
use jujube.Stream.Feed.{bytes, got_bytes, feed_code, feed_outcome, stream_feed_out-Received}
use jujube.Server.{log_max_len, feed, end_data}

-- The stream has its blocks to itself, its `out_buf` holds `xs`, and its socket is open. `m0` is the
-- allocator without the stream.
pub record Ready (m0 m : Memory) (s : TcpStream) (xs : List ℕ) : Type 0 where
  pub owned : Owned m0 (blocks s) m
  pub out : Holds m s.out_buf.buf xs
  pub room : s.out_buf.buf.buf_len ≡ mid_http_buf_size
  pub open_sock : is_neg s.server_sock ≡ false

-- A message is being collected: the work buffer holds what has come of it.
pub record HasWork (m : Memory) (s : TcpStream) (got : List ℕ) : Type 0 where
  pub box : BufBox
  pub there : s.work_buf ≡ some box
  pub holds : Holds m box.buf got
  pub long : log_max_len ≤ box.buf.buf_len

-- The work buffer, or none between messages.
pub data Work (m : Memory) (s : TcpStream) : Option (List ℕ) → Type 0 where
  idle : s.work_buf ≡ none → Work m s none
  busy : {got : List ℕ} → HasWork m s got → Work m s (some got)

-- The stream as far as its message is concerned.
pub record SameMessage (s s' : TcpStream) : Type 0 where
  pub sock : s'.server_sock ≡ s.server_sock
  pub left : s'.reply_body_size_left ≡ s.reply_body_size_left
  pub recved : s'.data_recved ≡ s.data_recved
  pub content : s'.content_len ≡ s.content_len
  pub in_buf : s'.in_buf ≡ s.in_buf

abbrev pub blocks_with : TcpStream → Option BufBox → List Addr
blocks_with s o =
    s.in_buf.buf.buffer
    ∷ s.in_buf.self
    ∷ s.out_buf.buf.buffer
    ∷ s.out_buf.self
    ∷ (work_blocks o ++ s.self ∷ [])

pub out-ne-work :
    (s : TcpStream) (w : BufBox)
    → Distinct (blocks s)
    → s.work_buf ≡ some w
    → s.out_buf.buf.buffer ≢ w.buf.buffer
out-ne-work s w d e q =
    let d' : Distinct (blocks_with s (some w)) = subst (λ o. Distinct (blocks_with s o)) e d in
    ground (arith, d')

-- A change of the bytes of `out_buf` alone.
module _ {m0 m m' : Memory} {s : TcpStream} {xs : List ℕ} (s' : TcpStream) (ys : List ℕ)
    (r : Ready m0 m s xs) (v : Inv m') (h : Holds m' s'.out_buf.buf ys)
    (same_block : s'.out_buf.buf.buffer ≡ s.out_buf.buf.buffer)
    (others : (c : Addr) → s.out_buf.buf.buffer ≢ c → view m' c ≡ view m c) where
  pub Ready-write :
      blocks s' ≡ blocks s
      → s'.out_buf.buf.buf_len ≡ s.out_buf.buf.buf_len
      → s'.server_sock ≡ s.server_sock
      → Ready m0 m' s' ys
  Ready-write eb el es = record {
    owned =
        subst (λ l. Owned m0 l m') (sym eb)
          (Owned-store {a = s.out_buf.buf.buffer} {xs = h.bytes} (ground arith) r.owned
            (record { inv = v; here = ap (view m') (sym same_block) ∙ h.block; others = others }));
    out = h;
    room = el ∙ r.room;
    open_sock = ap is_neg es ∙ r.open_sock;
  }

  pub HasWork-write :
      {got : List ℕ} → s'.work_buf ≡ s.work_buf → HasWork m s got → HasWork m' s' got
  HasWork-write e w = record {
    box = w.box;
    there = e ∙ w.there;
    holds =
        Holds-keep w.holds (others w.box.buf.buffer (out-ne-work s w.box r.owned.distinct w.there));
    long = w.long;
  }

  pub Work-write : {o : Option (List ℕ)} → s'.work_buf ≡ s.work_buf → Work m s o → Work m' s' o
  Work-write e (idle none_yet) = idle (e ∙ none_yet)
  Work-write e (busy w) = busy (HasWork-write e w)

-- Bytes written behind the data of a buffer leave the data.
Holds-behind :
    {m m' : Memory} {b : Buf} {xs : List ℕ} (ys : List ℕ) (h : Holds m b xs)
    → Stored m b.buffer (splice h.bytes b.data_len ys) m'
    → b.data_len + length ys ≤ length h.bytes
    → Holds m' b xs
Holds-behind {b} ys h st le = record {
  bytes = splice h.bytes b.data_len ys;
  block = st.here;
  sized = omega (arith, h.sized, length-splice h.bytes b.data_len ys le);
  small = h.small;
  within = h.within;
  contents =
      take-append_le b.data_len (take b.data_len h.bytes) _
        (omega (arith, length-take_le b.data_len h.bytes))
      ∙ (take-take b.data_len b.data_len h.bytes (omega arith) ∙ h.contents);
}

pub Same-refl : (s : TcpStream) → SameMessage s s
Same-refl s = record { sock = refl; left = refl; recved = refl; content = refl; in_buf = refl }

-- What a piece of code that keeps the message leaves: `out_buf` holds `ys`.
pub record Kept (m0 : Memory) (s : TcpStream) (o : Option (List ℕ)) (ys : List ℕ) (s' : TcpStream)
    (m' : Memory) : Type 0 where
  pub ready : Ready m0 m' s' ys
  pub work : Work m' s' o
  pub same : SameMessage s s'

-- A read, whatever it comes to.
pub feed_lem :
    (reads : List ReadResult) (m0 m : Memory) (s : TcpStream) (o : Option (List ℕ))
    → Ready m0 m s []
    → Work m s o
    → Returns
        (λ r m'.
          Kept m0 s o (got_bytes (feed_outcome reads s)) r.0 m'
          × (r.1 ≡ feed_code (feed_outcome reads s)))
        (feed reads s m)
unfolding feed
feed_lem reads m0 m s o r w =
    bind (stream_feed_out-Received reads m s [] r.owned.inv r.out r.open_sock) (λ out m' t.
      returns (
        record {
          ready =
              Ready-write out.stream _ r t.inv t.holds t.block t.others
                (ap blocks t.same ∙ blocks-out s out.stream.out_buf t.block t.own) t.room
                (ap (λ x. x.server_sock) t.same);
          work =
              Work-write out.stream _ r t.inv t.holds t.block t.others (ap (λ x. x.work_buf) t.same)
                w;
          same = record {
            sock = ap (λ x. x.server_sock) t.same;
            left = ap (λ x. x.reply_body_size_left) t.same;
            recved = ap (λ x. x.data_recved) t.same;
            content = ap (λ x. x.content_len) t.same;
            in_buf = t.in_kept;
          };
        },
        t.code,
      ))

-- A read that gets the bytes `ys`.
pub feed-Kept :
    (reads : List ReadResult) (m0 m : Memory) (s : TcpStream) (o : Option (List ℕ)) (ys : List ℕ)
    → Ready m0 m s []
    → Work m s o
    → feed_outcome reads s ≡ bytes ys
    → Returns (λ r m'. Kept m0 s o ys r.0 m' × (is_neg r.1 ≡ false)) (feed reads s m)
feed-Kept reads m0 m s o ys r w e = mono (feed_lem reads m0 m s o r w) (λ out m' (kept, code).
    (subst (λ x. Kept m0 s o (got_bytes x) out.0 m') e kept, ap is_neg (code ∙ ap feed_code e)))

-- The zero behind the data.
pub end_data-Kept :
    (m0 m : Memory) (s : TcpStream) (o : Option (List ℕ)) (ys : List ℕ)
    → Ready m0 m s ys
    → Work m s o
    → Returns (λ r m'. Kept m0 s o ys r.0 m') (end_data s m)
unfolding end_data buf_end_position
end_data-Kept m0 m s o ys r w = elim (Bool-cases (ltb b.data_len b.buf_len)) [
  | inl room ↦ rw room (
      bind
        (store-Stored m b.buffer b.data_len (0 ∷ []) r.owned.inv r.out.block
          (ground (arith, r.out.sized)))
        (λ _ m' st.
          let h = Holds-behind (0 ∷ []) r.out st (ground (arith, r.out.sized)) in
          returns (record {
            ready = Ready-write s ys r st.inv h refl st.others refl refl refl;
            work = Work-write s ys r st.inv h refl st.others refl w;
            same = Same-refl s;
          })))
  | inr full ↦ rw full (returns (record { ready = r; work = w; same = Same-refl s }))
]
  where
    b : Buf
    b = s.out_buf.buf
