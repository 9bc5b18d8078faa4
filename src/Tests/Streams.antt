-- ===== src/Tests/Streams.antt =====
-- stream.c: a stream made on a started allocator.
use jujube.Base.{ℕ, ◌≡◌, ap, some, List, [], ◌∷◌, ◌++◌, arith}
use jujube.Base.Int.{pos, is_neg}
use jujube.Base.Run.{ok, Returns, value, ◌>>=◌}
use jujube.Mem.{Addr, Memory, view}
use jujube.Mem.Inv.{Inv}
use jujube.Mem.Init.{init-Inv}
use jujube.Stream.{
  TcpStream, Clock, new_transaction_stream, free_transaction_stream, stream_flush_out,
  stream_feed_out, WriteResult, wrote, write_eintr, write_again, ReadResult, got, read_eintr,
}
use jujube.Stream.Create.{Sending, new_transaction_stream-Created, free-new_transaction_stream}
use jujube.Stream.Flush.{Sent, for_some, stream_flush_out-Sent}
use jujube.Stream.Feed.{Received, feed_outcome, stream_feed_out-Received}
use jujube.Tests.Allocator.{os, os-Gives, started}

abbrev pub clock : Clock
clock = record { time = 100; tv_sec = 100; tv_usec = 5000 }

abbrev pub prefix : List ℕ
prefix = 5 ∷ 0 ∷ 0 ∷ 0 ∷ 0 ∷ 0 ∷ 0 ∷ 0 ∷ []

abbrev pub message : List ℕ
message = 10 ∷ 20 ∷ 30 ∷ 40 ∷ 50 ∷ []

free-new_transaction_stream_example :
    Returns
      (λ _ m'. Inv m' × ((a : Addr) → view m' a ≡ view started a))
      ((new_transaction_stream os clock (pos 4) prefix message 5 >>= λ s.
          free_transaction_stream (some s))
        started)
free-new_transaction_stream_example =
    free-new_transaction_stream os clock (pos 4) prefix message 5 started init-Inv (omega arith)

-- The stream that the call makes.
abbrev pub made :
    (s : TcpStream) × (m : Memory) × (new_transaction_stream os clock
        (pos 4)
        prefix
        message
        5
        started
      ≡ ok s m)
    × Sending started (pos 4) (prefix ++ message) s m
made = value (
    new_transaction_stream-Created os clock (pos 4) prefix message 5 started init-Inv (omega arith))

-- Four bytes, an interrupted call, three bytes more if they are wanted, and then the socket is full.
abbrev writes : List WriteResult
writes = wrote 4 ∷ write_eintr ∷ wrote 3 ∷ write_again ∷ []

stream_flush_out-Sent_example :
    Returns
      (Sent made.1 made.0 (prefix ++ message) writes 5 0)
      (stream_flush_out writes made.0 (pos 5) made.1)
stream_flush_out-Sent_example =
    stream_flush_out-Sent writes made.1 made.0 (pos 5) (prefix ++ message) 5 made.3.owned.inv
      made.3.in_holds (ap is_neg made.3.socket) (for_some (omega arith) (omega arith))

abbrev reads : List ReadResult
reads = read_eintr ∷ got (7 ∷ 8 ∷ []) ∷ []

stream_feed_out-Received_example :
    Returns
      (Received made.1 made.0 [] (feed_outcome reads made.0))
      (stream_feed_out reads made.0 made.1)
stream_feed_out-Received_example =
    stream_feed_out-Received reads made.1 made.0 [] made.3.owned.inv made.3.out_holds
      (ap is_neg made.3.socket)
