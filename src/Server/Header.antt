-- ===== src/Server/Header.antt =====
-- The header of a message, and the opening of the message.
use jujube.Base.{
  ℕ, ◌≤◌, ◌<◌, ◌≡◌, ◌∙◌, sym, ap, true, false, ◌||◌, none, List, [], length, take, take-take, drop,
  arith, ltb, ◌==◌,
}
use jujube.Base.Int.{pos, eq_ℤ}
use jujube.Base.Words.{le_value}
use jujube.Base.Run.{ok, Returns, bind, mono}
use jujube.Mem.{Memory, Malloc, Gives, load}
use jujube.Mem.Access.{load-ok}
use jujube.Buf.{buf_data_size}
use jujube.Buf.Holds.{data_len-length}
use jujube.Stream.{TcpStream, WriteResult, ReadResult}
use jujube.Stream.Feed.{bytes, feed_outcome}
use jujube.World.{World}
use jujube.Event.Close.{stream_at_lem}
use jujube.Server.{
  Server, log_max_len, left_step, header_step, open_message, is_positive, data_transfer,
}
use jujube.Server.Ready.{Work, idle}
use jujube.Server.Open.{open_message-Opened}
use jujube.Server.Link.{Link, Linked, update_stream-Linked, Returns-lift_world}
use jujube.Server.Step.{Result, collect_step-Result}
use jujube.Server.Transfer.{After, readable, read_step-Fed, Result-after}

-- No message has begun on the stream.
pub record Fresh (s : TcpStream) : Type 0 where
  pub work : s.work_buf ≡ none
  pub left : s.reply_body_size_left ≡ pos 0
  pub recved : s.data_recved ≡ 0

pub no_work : {m : Memory} {s : TcpStream} → Work m s none → s.work_buf ≡ none
no_work (idle e) = e

-- The first eight bytes of what `out_buf` holds.
pub header_bytes :
    (k : Link) (s : TcpStream) (ys : List ℕ) (w : World)
    → Linked k s ys w
    → 8 ≤ length ys
    → load s.out_buf.buf.buffer 0 8 w.memory ≡ ok (take 8 ys) w.memory
header_bytes k s ys w l le =
    let h = l.ready.out in
    let size = data_len-length h in
    load-ok w.memory s.out_buf.buf.buffer 0 8 h.block (omega (arith, size, h.within, h.sized))
    ∙ ap (λ x. ok x w.memory)
        (sym (take-take 8 s.out_buf.buf.data_len h.bytes (omega (arith, size)))
          ∙ ap (take 8) h.contents)

module _ (os : Malloc) ⦃gives : Gives os⦄ (k : Link) (n : ℕ) (ys : List ℕ) (small : n ≤ log_max_len)
    (pos_n : 0 < n) (le : 8 ≤ length ys) (rest : length (drop 8 ys) ≤ n)
    (header : le_value (take 8 ys) ≡ n) where
  -- A header in range opens a message, of which the rest is collected.
  header_step-Result :
      (sv : Server) (s : TcpStream)
      → Linked k s ys sv.world
      → s.work_buf ≡ none
      → s.data_recved ≡ 0
      → Returns (λ go sv'. Result k n (drop 8 ys) sv go sv') (header_step os k.event k.place s sv)
  unfolding header_step buf_data_size is_positive
  header_step-Result sv s l none_yet zero_yet =
      let enough : ltb s.out_buf.buf.data_len 8 ≡ false =
        ground (arith, data_len-length l.ready.out) in
      let in_range : (ltb log_max_len n || n == 0) ≡ false = ground arith in
      let positive : is_positive (pos n) ≡ true = ground arith in
      rw (enough, header_bytes k s ys sv.world l le, header, in_range)
        (bind
          (Returns-lift_world sv (
            update_stream-Linked l (open_message os n) (drop 8 ys)
              (open_message-Opened os k.base sv.world.memory s ys n l.ready none_yet le)
              (λ r m opened. (opened.ready, opened.sock))))
          (λ _ sv1 ((s1, opened, l1), t1).
            rw (stream_at_lem sv1.world k.place s1 l1.stream, opened.left, positive)
              (mono
                (collect_step-Result os k n [] (drop 8 ys) small (omega arith) sv1 s1 l1 (record {
                  work = opened.work;
                  left = opened.left ∙ ground arith;
                  recved = opened.recved ∙ zero_yet;
                  content = opened.content;
                }))
                (λ go sv2 r. Result-after go sv2 t1 r))))

  -- The first bytes of a message.
  pub data_transfer-header :
      (now : ℕ) (writes : List WriteResult) (reads : List ReadResult) (sv : Server) (s : TcpStream)
      → Linked k s [] sv.world
      → Fresh s
      → feed_outcome reads s ≡ bytes ys
      → Returns
          (λ _ sv'. After k n (drop 8 ys) sv sv')
          (data_transfer os now writes reads k.sock true false k.event sv)
  unfolding left_step is_positive
  data_transfer-header now writes reads sv s l f e =
      readable os now writes reads k n sv ys small s (drop 8 ys) l (
        read_step-Fed os k sv s reads ys none l (idle f.work) e (λ s' sv' l' w' q t.
          let zero_left : s'.reply_body_size_left ≡ pos 0 = q.left ∙ f.left in
          let not_positive : is_positive s'.reply_body_size_left ≡ false =
            ap is_positive zero_left in
          let is_zero : eq_ℤ s'.reply_body_size_left (pos 0) ≡ true = ground (arith, zero_left) in
          rw (not_positive, is_zero)
            (mono (header_step-Result sv' s' l' (no_work w') (q.recved ∙ f.recved))
              (λ go sv2 r. Result-after go sv2 t r))))
