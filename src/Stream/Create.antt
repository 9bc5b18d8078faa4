-- ===== src/Stream/Create.antt =====
-- stream_create and new_transaction_stream.
use Prim.Native.String.{String}
use jujube.Base.{
  ℕ, ◌+◌, ◌≤◌, ◌≡◌, ◌∙◌, sym, ap, subst, refl, none, some, List, [], ◌∷◌, ◌++◌, length, take,
  replicate, length-replicate, length-take, length-splice, arith, has, Distinct, inl, inr,
  Bool-cases,
}
use jujube.Base.Int.{ℤ, pos}
use jujube.Base.Run.{◌>>=◌, Returns, returns, bind, mono}
use jujube.Mem.{Addr, Memory, Malloc, Gives, view}
use jujube.Mem.Class.{max_ext_block, block_size, size_class}
use jujube.Mem.Inv.{Inv}
use jujube.Mem.Spec.{Stored}
use jujube.Mem.Alloc.{mem_alloc-Allocated}
use jujube.Mem.Access.{view-apart, store-Stored}
use jujube.Mem.Owned.{Owned, Owned-nil, Owned-alloc, Owned-store, Owned-reorder, held-InUse}
use jujube.Mem.Batch.{AllFreed}
use jujube.Buf.{Buf}
use jujube.Buf.Holds.{Holds, Holds-keep}
use jujube.Buf.Put.{Became, buf_put-append}
use jujube.Buf.Owned.{Owned-Became}
use jujube.Stream.{
  BufBox, TcpStream, Clock, set_in, create_buf, stream_create, new_transaction_stream,
  free_transaction_stream, cfg_http_buf_size, mid_http_buf_size, buf_size, stream_size,
}
use jujube.Stream.Free.{blocks, free_transaction_stream-AllFreed}

-- A new empty buffer, in two more blocks, beside what was there.
pub record NewBuf (m0 : Memory) (l : List Addr) (m : Memory) (len : ℕ) (box : BufBox) (m' : Memory)
    : Type 0 where
  pub owned : Owned m0 (box.buf.buffer ∷ box.self ∷ l) m'
  pub holds : Holds m' box.buf []
  pub long : box.buf.buf_len ≡ len
  pub empty : box.buf.data_len ≡ 0
  pub kept : (c : Addr) (ys : List ℕ) → view m c ≡ some ys → view m' c ≡ some ys

pub create_buf-NewBuf :
    (os : Malloc) ⦃gives : Gives os⦄ (name block_name : String) (len : ℕ) (m0 : Memory)
    (l : List Addr) (m : Memory)
    → len ≤ max_ext_block
    → Owned m0 l m
    → Returns (NewBuf m0 l m len) (create_buf os name block_name len m)
unfolding create_buf replicate
create_buf-NewBuf os name block_name len m0 l m le o =
    bind (mem_alloc-Allocated os (some name) m buf_size o.inv (omega arith)) (λ self m1 (got, _).
      bind (mem_alloc-Allocated os (some block_name) m1 len got.inv le) (λ block m2 (got2, room).
        returns (record {
          owned = Owned-alloc (Owned-alloc o got) got2;
          holds = record {
            bytes = replicate (block_size (size_class len)) 0;
            block = got2.zeroed;
            sized = omega (arith, length-replicate {A = ℕ} (block_size (size_class len)) 0);
            small = le;
            within = omega arith;
            contents = refl;
          };
          long = refl;
          empty = refl;
          kept = λ c ys seen.
              let seen1 = got.others c (view-apart m got.fresh seen) ∙ seen in
              got2.others c (view-apart m1 got2.fresh seen1) ∙ seen1;
        })))

-- A stream in five blocks of its own: `in_buf` holds `xs`, and `out_buf` holds nothing.
pub record Sending (m : Memory) (sock : ℤ) (xs : List ℕ) (s : TcpStream) (m' : Memory)
    : Type 0 where
  pub owned : Owned m (blocks s) m'
  pub in_holds : Holds m' s.in_buf.buf xs
  pub out_holds : Holds m' s.out_buf.buf []
  pub socket : s.server_sock ≡ sock
  pub no_work : s.work_buf ≡ none
  pub no_message : (s.reply_body_size_left ≡ pos 0) × (s.data_recved ≡ 0)
  pub out_len : s.out_buf.buf.buf_len ≡ mid_http_buf_size

swap_pairs :
    (a b c d e : Addr) → Distinct (c ∷ d ∷ a ∷ b ∷ e ∷ []) → Distinct (a ∷ b ∷ c ∷ d ∷ e ∷ [])
swap_pairs a b c d e h = ground arith

-- An empty buffer stays empty when its block is written and other blocks come.
pub Holds-written :
    {m m' m'' : Memory} {b : Buf} {ys : List ℕ}
    → (h : Holds m b []) → Stored m b.buffer ys m'
    → length ys ≡ length h.bytes
    → b.data_len ≡ 0
    → ((c : Addr) (zs : List ℕ) → view m' c ≡ some zs → view m'' c ≡ some zs)
    → Holds m'' b []
Holds-written {b} {ys} h st e none_yet kept = record {
  bytes = ys;
  block = kept b.buffer ys st.here;
  sized = omega (arith, h.sized);
  small = h.small;
  within = h.within;
  contents = ap (λ n. take n ys) none_yet;
}

pub stream_create-Created :
    (os : Malloc) ⦃gives : Gives os⦄ (clock : Clock) (sock : ℤ) (m : Memory)
    → Inv m
    → Returns
        (λ s m'.
          Sending m sock [] s m'
          × (s.in_buf.buf.buf_len ≡ cfg_http_buf_size)
          × (s.in_buf.buf.data_len ≡ 0))
        (stream_create os clock sock m)
unfolding stream_create
stream_create-Created os clock sock m v =
    bind (mem_alloc-Allocated os (some "stream") m stream_size v (omega arith)) (λ self m1 (got, _).
      bind
        (create_buf-NewBuf os _ _ cfg_http_buf_size m (self ∷ []) m1 (omega arith)
          (Owned-alloc (Owned-nil v) got))
        (λ ib m2 i.
          bind
            (store-Stored m2 ib.buf.buffer 0 (0 ∷ []) i.owned.inv i.holds.block
              (omega (arith, i.long, i.holds.sized)))
            (λ _ m3 st.
              bind
                (create_buf-NewBuf os _ _ mid_http_buf_size m _ m3 (omega arith)
                  (Owned-store (ground arith) i.owned st))
                (λ ob m4 o. returns (
                  record {
                    owned =
                        Owned-reorder (swap_pairs _ _ _ _ _ o.owned.distinct) (λ a. ground arith)
                          o.owned;
                    in_holds =
                        Holds-written i.holds st
                          (length-splice i.holds.bytes 0 (0 ∷ [])
                            (omega (arith, i.long, i.holds.sized)))
                          i.empty o.kept;
                    out_holds = o.holds;
                    socket = refl;
                    no_work = refl;
                    no_message = (refl, refl);
                    out_len = o.long;
                  },
                  i.long,
                  i.empty,
                )))))

-- A stream without a work buffer owns five blocks.
abbrev five : TcpStream → Addr → List Addr
five s buffer = buffer ∷ s.in_buf.self ∷ s.out_buf.buf.buffer ∷ s.out_buf.self ∷ s.self ∷ []

-- The in-buffer of a new stream changed by its owner.
Created-put :
    {m m1 m2 : Memory} (s : TcpStream) {b b' : Buf} {xs ys : List ℕ}
    → Owned m (five s b.buffer) m1
    → Holds m1 s.out_buf.buf xs
    → Became m1 b ys b' m2
    → Owned m (five s b'.buffer) m2 × Holds m2 s.out_buf.buf xs
Created-put {m} {m2} s {b'} o h r = (
  o',
  Holds-keep h (
      r.others s.out_buf.buf.buffer (λ q. ground (arith, o.distinct))
        (λ q. ground (arith, o'.distinct))),
)
  where
    o' : Owned m (five s b'.buffer) m2
    o' = Owned-Became o r

blocks-five : (s : TcpStream) → s.work_buf ≡ none → blocks s ≡ five s s.in_buf.buf.buffer
blocks-five s e = rw e

-- In an allocator with its invariant, and for a message that leaves `in_buf` within
-- MAX_EXT_MEM_BLOCK when it grows, new_transaction_stream makes a stream in five blocks that were
-- in no use. Its `in_buf` holds the eight bytes of the prefix and then the message; its `out_buf`
-- is empty, and every other block is as it was.
pub new_transaction_stream-Created :
    (os : Malloc) ⦃gives : Gives os⦄ (clock : Clock) (sock : ℤ) (prefix_len buff : List ℕ) (len : ℕ)
    (m : Memory)
    → Inv m
    → len + cfg_http_buf_size ≤ max_ext_block
    → Returns
        (Sending m sock (take 8 prefix_len ++ take len buff))
        (new_transaction_stream os clock sock prefix_len buff len m)
unfolding new_transaction_stream
new_transaction_stream-Created os clock sock prefix_len buff len m v le =
    bind (stream_create-Created os clock sock m v) (λ s m1 (c, in_len, empty).
      let o1 = subst (λ l. Owned m l m1) (blocks-five s c.no_work) c.owned in
      bind
        (buf_put-append os m1 s.in_buf.buf [] (take 8 prefix_len) c.owned.inv c.in_holds
          (inr (omega (arith, in_len, length-take 8 prefix_len))))
        (λ b m2 (r, grown).
          let (o2, h2) = Created-put s o1 c.out_holds r in
          bind
            (buf_put-append os m2 b (take 8 prefix_len) (take len buff) r.inv r.holds (
              inr (
                ground
                  (arith, grown, in_len, empty, length-take 8 prefix_len, length-take len buff))))
            (λ b' m3 (r', _).
              let (o3, h3) = Created-put s o2 h2 r' in
              returns (record {
                owned = subst (λ l. Owned m l m3) (sym (blocks-five (set_in s b') c.no_work)) o3;
                in_holds = r'.holds;
                out_holds = h3;
                socket = c.socket;
                no_work = c.no_work;
                no_message = c.no_message;
                out_len = c.out_len;
              }))))

-- Freeing the blocks that have come gives back the blocks as they were.
pub AllFreed-Owned :
    {m m1 m2 : Memory} {l : List Addr}
    → Owned m l m1
    → AllFreed m1 l m2
    → (a : Addr) → view m2 a ≡ view m a
AllFreed-Owned {m} {m1} {m2} {l} o f a = elim (Bool-cases (has a l)) [
  | inl mine ↦ ground (arith, f.rule a, o.fresh a mine)
  | inr other ↦ ground (arith, f.rule a, o.others a other)
]

-- In an allocator with its invariant, and for a message that leaves `in_buf` within
-- MAX_EXT_MEM_BLOCK when it grows, a stream made by new_transaction_stream and freed by
-- free_transaction_stream leaves no block behind: both calls succeed, and afterwards the blocks
-- in use, with their bytes, are as before. malloc(3) is taken not to fail (`Gives`).
pub free-new_transaction_stream :
    (os : Malloc) ⦃gives : Gives os⦄ (clock : Clock) (sock : ℤ) (prefix_len buff : List ℕ) (len : ℕ)
    (m : Memory)
    → Inv m
    → len + cfg_http_buf_size ≤ max_ext_block
    → Returns
        (λ _ m'. Inv m' × ((a : Addr) → view m' a ≡ view m a))
        ((new_transaction_stream os clock sock prefix_len buff len >>= λ s.
            free_transaction_stream (some s))
          m)
free-new_transaction_stream os clock sock prefix_len buff len m v le =
    bind (new_transaction_stream-Created os clock sock prefix_len buff len m v le) (λ s m1 c.
      mono
        (free_transaction_stream-AllFreed m1 s c.owned.inv c.owned.distinct
          (held-InUse (blocks s) c.owned))
        (λ _ m2 f. (f.inv, AllFreed-Owned c.owned f)))
