-- ===== src/Server/Safe/Steps.antt =====
-- What data_transfer does with what is in `out_buf`, whatever it is.
use jujube.Base.{
  ℕ, ◌≤◌, ◌<◌, ◌≡◌, ◌∙◌, ap, refl, true, false, ◌||◌, Option, none, some, List, [], length,
  length-drop, take, drop, arith, ltb, ◌==◌, Bool-cases, inl, inr,
}
use jujube.Base.Int.{pos, eq_ℤ}
use jujube.Base.Words.{le_value}
use jujube.Base.Run.{Returns, returns, bind, mono}
use jujube.Mem.{Malloc, Gives}
use jujube.Buf.{buf_data_size}
use jujube.Buf.Holds.{data_len-length}
use jujube.Stream.{TcpStream}
use jujube.Event.Close.{stream_at_lem}
use jujube.Server.{Server, log_max_len, open_message, header_step, left_step, is_positive}
use jujube.Server.Ready.{Work, idle, busy}
use jujube.Server.Open.{open_message-Opened}
use jujube.Server.Link.{Link, Linked, update_stream-Linked, Returns-lift_world}
use jujube.Server.Step.{Progress}
use jujube.Server.Header.{header_bytes, no_work}
use jujube.Server.Malformed.{header_step-Refused}
use jujube.Server.Safe.{Phase, between, collecting, overrun, Onward, on, off, still_quiet, short}
use jujube.Server.Safe.Collect.{collect_step-Onward}

module _ (os : Malloc) ⦃gives : Gives os⦄ (k : Link) (sv : Server) (s : TcpStream) (ys : List ℕ)
    (l : Linked k s ys sv.world) (quiet : s.in_buf.buf.data_len ≡ 0) where
  -- A header in range opens a message, and what is behind it is collected.
  open-Onward :
      s.work_buf ≡ none
      → s.data_recved ≡ 0
      → 8 ≤ length ys
      → 0 < le_value (take 8 ys)
      → le_value (take 8 ys) ≤ log_max_len
      → Returns (λ go sv'. Onward k go sv'.world) (header_step os k.event k.place s sv)
  unfolding header_step buf_data_size is_positive
  open-Onward none_yet zero_yet le pos_n small =
      let n = le_value (take 8 ys) in
      let enough : ltb s.out_buf.buf.data_len 8 ≡ false =
        ground (arith, data_len-length l.ready.out) in
      let in_range : (ltb log_max_len n || n == 0) ≡ false = ground (arith, pos_n, small) in
      let positive : is_positive (pos n) ≡ true = ground (arith, pos_n) in
      let rest = short k s ys sv.world l in
      rw (enough, header_bytes k s ys sv.world l le, in_range)
        (bind
          (Returns-lift_world sv (
            update_stream-Linked l (open_message os n) (drop 8 ys)
              (open_message-Opened os k.base sv.world.memory s ys n l.ready none_yet le)
              (λ r m opened. (opened.ready, opened.sock))))
          (λ _ sv1 ((s1, opened, l1), t1).
            rw (stream_at_lem sv1.world k.place s1 l1.stream, opened.left, positive)
              (collect_step-Onward os k n [] (drop 8 ys) small (omega (arith, pos_n))
                (omega (arith, length-drop 8 ys, rest)) sv1 s1 l1
                (record {
                  work = opened.work;
                  left = opened.left ∙ ground arith;
                  recved = opened.recved ∙ zero_yet;
                  content = opened.content;
                })
                (still_quiet opened.in_buf quiet))))

  header_step-Onward :
      s.work_buf ≡ none
      → s.reply_body_size_left ≡ pos 0
      → s.data_recved ≡ 0
      → Returns (λ go sv'. Onward k go sv'.world) (header_step os k.event k.place s sv)
  unfolding header_step buf_data_size
  header_step-Onward none_yet zero_left zero_yet = elim (Bool-cases (ltb (length ys) 8)) [
    | inl few ↦
        let not_enough : ltb s.out_buf.buf.data_len 8 ≡ true =
          ground (arith, data_len-length l.ready.out) in
        rw not_enough (
          returns (
            on ys refl (record {
              stream = s;
              part = none;
              linked = l;
              work = idle none_yet;
              phase = between zero_left zero_yet;
              quiet = quiet;
            })))
    | inr enough ↦
        let n = le_value (take 8 ys) in
        elim (Bool-cases (ltb log_max_len n || n == 0)) [
          | inl bad ↦
              mono (header_step-Refused os k n ys sv s l (ground arith) refl (ground arith))
                (λ go sv' (stop, r). off stop r.ended)
          | inr fine ↦ open-Onward none_yet zero_yet (ground arith) (ground arith) (ground arith)
        ]
  ]

  -- By how much of a message is left.
  pub left_step-Onward :
      (o : Option (List ℕ))
      → Work sv.world.memory s o
      → Phase s o
      → Returns (λ go sv'. Onward k go sv'.world) (left_step os k.event k.place s sv)
  unfolding left_step is_positive
  left_step-Onward none work (between left zero_yet) =
      let not_positive : is_positive s.reply_body_size_left ≡ false = ap is_positive left in
      let is_zero : eq_ℤ s.reply_body_size_left (pos 0) ≡ true = ground (arith, left) in
      rw (not_positive, is_zero) (header_step-Onward (no_work work) left zero_yet)
  left_step-Onward (some got) (busy work) (collecting n small lt left recved content) =
      let positive : is_positive s.reply_body_size_left ≡ true = ground (arith, left) in
      let p : Progress n got sv.world.memory s = record {
        work = work;
        left = left;
        recved = recved;
        content = content;
      } in
      rw positive
        (collect_step-Onward os k n got ys small lt (short k s ys sv.world l) sv s l p quiet)
  left_step-Onward (some got) work (overrun negative) =
      let not_positive : is_positive s.reply_body_size_left ≡ false = ground (arith, negative) in
      let not_zero : eq_ℤ s.reply_body_size_left (pos 0) ≡ false = ground (arith, negative) in
      rw (not_positive, not_zero)
        (returns (
          on ys refl (record {
            stream = s;
            part = some got;
            linked = l;
            work = work;
            phase = overrun negative;
            quiet = quiet;
          })))
