-- ===== src/Server/Safe.antt =====
-- A connection of the server, whatever its socket does: how far it has come.
pub mod Collect
pub mod Sockets
pub mod Steps
pub mod Transfer
use jujube.Base.{
  ℕ, ◌+◌, ◌%◌, ◌^◌, ◌≤◌, ◌<◌, ◌≡◌, ◌⊎◌, ◌∙◌, sym, ap, subst, refl, Bool, true, false, ◌||◌, Option,
  none, some, List, [], ◌∷◌, ◌++◌, length, length-append, length-drop, take, drop, arith, ltb, ◌==◌,
  eq_of_==, if◌then◌else◌, Bool-cases, inl, inr,
}
use jujube.Base.Int.{ℤ, pos, is_neg, eq_ℤ, minus, minus_one}
use jujube.Base.Words.{le_value}
use jujube.Base.Run.{Returns, returns, bind, mono}
use jujube.Mem.{Memory, Malloc}
use jujube.Buf.{buf_data_size}
use jujube.Buf.Holds.{data_len-length}
use jujube.Buf.Put.{CanTake}
use jujube.Stream.{BufBox, TcpStream, mid_http_buf_size}
use jujube.World.{World}
use jujube.Event.Close.{stream_at_lem}
use jujube.Server.{
  Server, log_max_len, move_data, open_message, collect_data, collect_step, collect_test,
  after_collect, header_step, left_step, is_positive,
}
use jujube.Server.Ready.{Work, idle, busy, HasWork, SameMessage}
use jujube.Server.Collect.{Collected, move_data-Collected}
use jujube.Server.Open.{Opened, open_message-Opened}
use jujube.Server.Link.{
  Link, Linked, Ended, close_stream-Ended, update_stream-Linked, Returns-lift_world,
}
use jujube.Server.Step.{Progress, Progress-Collected, collect_test_lem, give_work_lem}
use jujube.Server.Header.{header_bytes}
use jujube.Server.Malformed.{header_step-Refused}

-- The numbers of a stream between messages, while a message is collected, and after more than a
-- message has come; with what the work buffer holds.
pub data Phase (s : TcpStream) : Option (List ℕ) → Type 0 where
  between : s.reply_body_size_left ≡ pos 0 → s.data_recved ≡ 0 → Phase s none
  collecting :
      {got : List ℕ} (n : ℕ)
      → n ≤ log_max_len
      → length got < n
      → s.reply_body_size_left ≡ minus (pos n) (length got)
      → s.data_recved ≡ length got
      → s.content_len ≡ n
      → Phase s (some got)
  overrun : {got : List ℕ} → is_neg s.reply_body_size_left ≡ true → Phase s (some got)

-- The event leads to a stream which has all that the server needs; nothing waits to be sent.
pub record Served (k : Link) (xs : List ℕ) (w : World) : Type 0 where
  pub stream : TcpStream
  pub part : Option (List ℕ)
  pub linked : Linked k stream xs w
  pub work : Work w.memory stream part
  pub phase : Phase stream part
  pub quiet : stream.in_buf.buf.data_len ≡ 0

-- A step goes on with a connection that is served, or the connection has ended.
pub data Onward (k : Link) (go : Bool) (w : World) : Type 0 where
  on : (xs : List ℕ) → go ≡ true → Served k xs w → Onward k go w
  off : go ≡ false → Ended k w → Onward k go w

pub Phase-Same :
    {s s' : TcpStream} {o : Option (List ℕ)} → SameMessage s s' → Phase s o → Phase s' o
Phase-Same q (between l r) = between (q.left ∙ l) (q.recved ∙ r)
Phase-Same q (collecting n small lt l r c) =
    collecting n small lt (q.left ∙ l) (q.recved ∙ r) (q.content ∙ c)
Phase-Same q (overrun neg) = overrun (ap is_neg q.left ∙ neg)

pub still_quiet : {b b1 : BufBox} → b1 ≡ b → b.buf.data_len ≡ 0 → b1.buf.data_len ≡ 0
still_quiet e quiet = ap (λ x. x.buf.data_len) e ∙ quiet

-- No more than one buffer is full.
pub short :
    (k : Link) (s : TcpStream) (xs : List ℕ) (w : World)
    → Linked k s xs w
    → length xs ≤ mid_http_buf_size
short k s xs w l = omega (arith, data_len-length l.ready.out, l.ready.out.within, l.ready.room)
