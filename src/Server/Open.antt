-- ===== src/Server/Open.antt =====
-- The opening of a message: its header leaves `out_buf`, and a work buffer is made.
use jujube.Base.{
  ℕ, ◌≤◌, ◌≡◌, ◌≢◌, ◌∙◌, sym, ap, subst, refl, none, some, List, [], ◌∷◌, length, drop,
  length-splice, arith,
}
use jujube.Base.Int.{pos}
use jujube.Base.Run.{Returns, returns, bind}
use jujube.Mem.{Addr, Memory, Malloc, Gives}
use jujube.Mem.Access.{store-Stored}
use jujube.Mem.Owned.{Owned, Owned-store, Owned-reorder}
use jujube.Buf.Holds.{Holds-keep}
use jujube.Buf.Pick.{buf_pick-drop}
use jujube.Stream.{BufBox, TcpStream, set_out}
use jujube.Stream.Create.{create_buf-NewBuf, Holds-written}
use jujube.Server.{log_max_len, alloc_work_buff, open_message}
use jujube.Stream.Free.{blocks-out}
use jujube.Server.Ready.{Ready, HasWork, blocks_with, Ready-write}
use jujube.Server.Collect.{to_back, has_front}

-- A message of `n` bytes begins, of which `out_buf` holds `xs`.
pub record Opened (m0 : Memory) (s : TcpStream) (n : ℕ) (xs : List ℕ) (s' : TcpStream) (m' : Memory)
    : Type 0 where
  pub ready : Ready m0 m' s' xs
  pub work : HasWork m' s' []
  pub sock : s'.server_sock ≡ s.server_sock
  pub left : s'.reply_body_size_left ≡ pos n
  pub recved : s'.data_recved ≡ s.data_recved
  pub content : s'.content_len ≡ n
  pub in_buf : s'.in_buf ≡ s.in_buf

abbrev in_message : TcpStream → ℕ → TcpStream
in_message s n = record s { reply_body_size_left = pos n; content_len = n }

abbrev with_work : TcpStream → BufBox → TcpStream
with_work s w = record s { work_buf = some w }

-- What alloc_work_buff adds to the blocks of a stream.
alloc_work_buff-HasWork :
    (os : Malloc) ⦃gives : Gives os⦄ (m0 m : Memory) (s : TcpStream) (xs : List ℕ)
    → Ready m0 m s xs
    → s.work_buf ≡ none
    → Returns
        (λ s' m'. (w : BufBox) × (s' ≡ with_work s w) × Ready m0 m' s' xs × HasWork m' s' [])
        (alloc_work_buff os s m)
unfolding alloc_work_buff
alloc_work_buff-HasWork os m0 m s xs r none_yet =
    let o : Owned m0 (blocks_with s none) m =
      subst (λ x. Owned m0 (blocks_with s x) m) none_yet r.owned in
    bind (create_buf-NewBuf os _ _ log_max_len m0 (blocks_with s none) m (omega arith) o) (λ w m1 i.
      bind
        (store-Stored m1 w.buf.buffer 0 (0 ∷ []) i.owned.inv i.holds.block
          (omega (arith, i.long, i.holds.sized)))
        (λ _ m2 st.
          let o2 = Owned-store {a = w.buf.buffer} (ground arith) i.owned st in
          returns (
            w,
            refl,
            record {
              owned = Owned-reorder (to_back s w o2.distinct) (λ a. sym (has_front s w a)) o2;
              out = Holds-keep r.out (
                  st.others s.out_buf.buf.buffer (λ q. ground (arith, o2.distinct))
                  ∙ (i.kept s.out_buf.buf.buffer r.out.bytes r.out.block ∙ sym r.out.block));
              room = r.room;
              open_sock = r.open_sock;
            },
            record {
              box = w;
              there = refl;
              holds =
                  Holds-written i.holds st
                    (length-splice i.holds.bytes 0 (0 ∷ []) (omega (arith, i.long, i.holds.sized)))
                    i.empty (λ c zs e. e);
              long = omega (arith, i.long);
            },
          )))

pub open_message-Opened :
    (os : Malloc) ⦃gives : Gives os⦄ (m0 m : Memory) (s : TcpStream) (xs : List ℕ) (n : ℕ)
    → Ready m0 m s xs
    → s.work_buf ≡ none
    → 8 ≤ length xs
    → Returns (λ r m'. Opened m0 s n (drop 8 xs) r.0 m') (open_message os n s m)
unfolding open_message
open_message-Opened os m0 m s xs n r none_yet le =
    bind (buf_pick-drop m s.out_buf.buf xs 8 r.owned.inv r.out le) (λ o m1 (bec, e, l).
      let s1 = set_out (in_message s n) o in
      let others =
        λ (c : Addr) (ne : s.out_buf.buf.buffer ≢ c). bec.others c ne (λ q. ne (sym e ∙ q)) in
      let r1 =
        Ready-write s1 (drop 8 xs) r bec.inv bec.holds e others
          (blocks-out s (record { self = s.out_buf.self; buf = o }) e refl) l refl in
      bind (alloc_work_buff-HasWork os m0 m1 s1 (drop 8 xs) r1 none_yet)
        (λ s2 m2 (w, same, ready, work). returns (record {
          ready = ready;
          work = work;
          sock = ap (λ x. x.server_sock) same;
          left = ap (λ x. x.reply_body_size_left) same;
          recved = ap (λ x. x.data_recved) same;
          content = ap (λ x. x.content_len) same;
          in_buf = ap (λ x. x.in_buf) same;
        })))
