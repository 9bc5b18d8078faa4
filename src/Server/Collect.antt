-- ===== src/Server/Collect.antt =====
-- The pieces of collect_data and of the opening of a message, on a stream and its buffers.
use jujube.Base.{
  ℕ, ◌+◌, ◌≡◌, ◌≢◌, ◌∙◌, sym, ap, subst, refl, some, List, [], ◌∷◌, ◌++◌, length, arith, has,
  Distinct,
}
use jujube.Base.Int.{minus}
use jujube.Base.Run.{Returns, returns, bind}
use jujube.Mem.{Addr, Memory, Malloc, Gives}
use jujube.Mem.Access.{load-ok}
use jujube.Mem.Owned.{Owned, Owned-reorder}
use jujube.Buf.{Buf, buf_data_size}
use jujube.Buf.Holds.{Holds-keep, data_len-length}
use jujube.Buf.Put.{Became, CanTake, buf_put-append}
use jujube.Buf.Owned.{Owned-Became}
use jujube.Buf.Pick.{clear_space-nil}
use jujube.Stream.{BufBox, TcpStream}
use jujube.Server.{move_data, work_of}
use jujube.Stream.Free.{blocks-out}
use jujube.Server.Ready.{Ready, HasWork, blocks_with, Ready-write, HasWork-write}

-- The blocks of a stream with a work buffer, its data first.
abbrev pub work_first : TcpStream → BufBox → Addr → List Addr
work_first s w buffer =
    buffer ∷ w.self ∷ s.in_buf.buf.buffer ∷ s.in_buf.self ∷ s.out_buf.buf.buffer ∷ s.out_buf.self
    ∷ s.self ∷ []

to_front :
    (s : TcpStream) (w : BufBox)
    → Distinct (blocks_with s (some w))
    → Distinct (work_first s w w.buf.buffer)
to_front s w d = ground (arith, d)

pub to_back :
    (s : TcpStream) (w : BufBox)
    → Distinct (work_first s w w.buf.buffer)
    → Distinct (blocks_with s (some w))
to_back s w d = ground (arith, d)

pub has_front :
    (s : TcpStream) (w : BufBox) (a : Addr)
    → has a (work_first s w w.buf.buffer) ≡ has a (blocks_with s (some w))
has_front s w a = ground arith

-- The data of `out_buf` has gone behind what was collected.
pub record Collected (m0 : Memory) (s : TcpStream) (got : List ℕ) (n : ℕ) (s' : TcpStream)
    (m' : Memory) : Type 0 where
  pub ready : Ready m0 m' s' []
  pub work : HasWork m' s' got
  pub sock : s'.server_sock ≡ s.server_sock
  pub left : s'.reply_body_size_left ≡ minus s.reply_body_size_left n
  pub recved : s'.data_recved ≡ s.data_recved + n
  pub content : s'.content_len ≡ s.content_len
  pub in_buf : s'.in_buf ≡ s.in_buf

-- With the work buffer changed by buf_put, which may move its block.
Ready-put :
    {m0 m m1 : Memory} {s : TcpStream} {ys got : List ℕ} {b : Buf} (w : BufBox)
    → Ready m0 m s ys
    → s.work_buf ≡ some w
    → Became m w.buf got b m1
    → Ready m0 m1 (record s { work_buf = some (record { self = w.self; buf = b }) }) ys
Ready-put {m0} {m} {m1} {s} {ys} {b = b} w r there bec =
    let w' : BufBox = record { self = w.self; buf = b } in
    let o : Owned m0 (blocks_with s (some w)) m =
      subst (λ x. Owned m0 (blocks_with s x) m) there r.owned in
    let o1 : Owned m0 (work_first s w' b.buffer) m1 =
      Owned-Became (Owned-reorder (to_front s w o.distinct) (has_front s w) o) bec in
    record {
      owned = Owned-reorder (to_back s w' o1.distinct) (λ a. sym (has_front s w' a)) o1;
      out = Holds-keep r.out (
          bec.others s.out_buf.buf.buffer (λ q. ground (arith, o.distinct))
            (λ q. ground (arith, o1.distinct)));
      room = r.room;
      open_sock = r.open_sock;
    }

pub move_data-Collected :
    (os : Malloc) ⦃gives : Gives os⦄ (m0 m : Memory) (s : TcpStream) (got ys : List ℕ)
    → Ready m0 m s ys
    → (w : HasWork m s got) → CanTake w.box.buf (length ys)
    → Returns (λ r m'. Collected m0 s (got ++ ys) (length ys) r.0 m') (move_data os s m)
unfolding move_data work_of buf_data_size
move_data-Collected os m0 m s got ys r w can =
    let size = data_len-length r.out in
    rw
      (
        w.there,
        load-ok m s.out_buf.buf.buffer 0 s.out_buf.buf.data_len r.out.block
            (omega (arith, r.out.within, r.out.sized)),
        r.out.contents,
      )
      (bind (buf_put-append os m w.box.buf got ys r.owned.inv w.holds can) (λ b m1 (bec, len).
        let r1 = Ready-put w.box r w.there bec in
        let w1 : HasWork m1 (record s { work_buf = some (record { self = w.box.self; buf = b }) })
            (got ++ ys) =
          record {
            box = record { self = w.box.self; buf = b };
            there = refl;
            holds = bec.holds;
            long = ground (arith, len, w.long);
          } in
        bind (clear_space-nil m1 s.out_buf.buf ys bec.inv r1.out (omega (arith, r.room)))
          (λ o m2 (bec2, e, l).
            let s' = record s {
              out_buf = record { self = s.out_buf.self; buf = o };
              reply_body_size_left = minus s.reply_body_size_left s.out_buf.buf.data_len;
              work_buf = some w1.box;
              data_recved = s.data_recved + s.out_buf.buf.data_len;
            } in
            let others = λ (c : Addr) (ne : s.out_buf.buf.buffer ≢ c).
              bec2.others c ne (λ q. ne (sym e ∙ q)) in
            returns (record {
              ready =
                  Ready-write s' [] r1 bec2.inv bec2.holds e others
                    (blocks-out (record s { work_buf = some w1.box })
                      (record { self = s.out_buf.self; buf = o }) e refl)
                    l refl;
              work = HasWork-write s' [] r1 bec2.inv bec2.holds e others refl w1;
              sock = refl;
              left = ap (minus s.reply_body_size_left) size;
              recved = ap (λ n. s.data_recved + n) size;
              content = refl;
              in_buf = refl;
            }))))
