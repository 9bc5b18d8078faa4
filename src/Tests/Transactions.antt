-- ===== src/Tests/Transactions.antt =====
-- client.c: a transaction on a new connection, and the server that its message comes to.
use jujube.Event.{max_events}
use jujube.Base.{
  List, ◌==◌, Bool-cases, inl, inr, ◌≤◌, take, subst, refl, false, none, some, [], ◌∷◌, ◌≡◌, ◌++◌,
  if◌then◌else◌, arith, replicate, true, ltb, ℕ,
}
use jujube.Base.Int.{pos, negsuc}
use jujube.Base.Words.{le_bytes}
use jujube.Base.Store.{lookup}
use jujube.Base.Run.{ok, fault, Returns, value}
use jujube.Mem.Init.{init-Inv}
use jujube.World.{World, Jconnect, begin_conn, no_cb}
use jujube.Ip.Host.{use_ipv4, use_ipv6}
use jujube.Event.Free.{first_free}
use jujube.Connection.Get.{IsPool, first_alive}
use jujube.Sockets.{
  create_connect_socket, copy_address, connect_to, sockaddr_size, comm_set_nonblock, connect_nonb,
  peer_family,
}
use jujube.Client.Transaction.{LogEntry, Outside, compress_ret, create_transaction}
use jujube.Client.Transaction.Begun.{Begun, wire}
use jujube.Client.Transaction.Create.{
  Connects, connecting, create_transaction-Begun, create_transaction-fault, create_transaction-ipv6,
}
use jujube.Stream.{wrote}
use jujube.Client.Loop.{begin, perform, Report, Turn, main_loop_round}
use jujube.Client.Loop.Round.{Next, Reported, main_loop_round-Runs}
use jujube.Client.Loop.Frame.{Runs}
use jujube.Client.Loop.Begin.{CanBegin}
use jujube.Client.Loop.Reach.{Reachable, boot, booted, booted-Runs, reachable-Returns}
use jujube.Server.Step.{Completes}
use jujube.Server.Message.{Piece, deliver, join}
use jujube.Protocol.{flushed_all, transaction-Completes}
use jujube.Mem.{Memory}
use jujube.Buf.{buf_data_size}
use jujube.Buf.Holds.{data_len-length}
use jujube.Stream.{Flushed, WriteResult, stream_flush_out}
use jujube.Stream.Flush.{Sent, Asked, for_all, taken, stream_flush_out-Sent}
use jujube.Base.Int.{is_neg, minus_one}
use jujube.Base.{ap, sym, length, length-append, ◌∙◌}
use jujube.Tests.Allocator.{os, os-Gives, started}
use jujube.Tests.Streams.{clock}
use jujube.Tests.Messages.{link, server, server-Linked, made-Fresh}
use jujube.Tests.Streams.{made}

abbrev entry : LogEntry
entry = record {
  ip = record { inx_addr = 10 ∷ 0 ∷ 7 ∷ 9 ∷ replicate 12 0; flag = use_ipv4 };
  port = 9527;
  gather_logmsg = replicate 600 65;
}

-- What malloc(3) finds in the memory of a jconnect.
abbrev raw : Jconnect
raw = record { fd = pos 0; is_alive = false; requests = 0; status = begin_conn; stream = none }

-- The connection is in progress.
abbrev out : Outside
out = record {
  now = 60;
  clock = clock;
  sockets = record {
    socket = λ f. pos 9;
    getfl = pos 2;
    setfl = pos 0;
    connect = λ sk a. (negsuc 0, true);
  };
  conn = some (30, raw);
}

-- No connections; the events below `n` are in use.
abbrev quiet : ℕ → World
quiet n = record {
  memory = started;
  conns = [];
  streams = [];
  pool = record { max_connects = 10; max_alive_times = 60; max_txn = 100; current_total = 0 };
  idle = [];
  events = λ i. record {
    fd = pos 4;
    events = 1;
    call_back = no_cb;
    status = if ltb i n then 1 else 0;
    last_active = 50;
    jc = none;
  };
  epoll = [];
  closed = [];
}

quiet-IsPool : (n : ℕ) → IsPool (quiet n)
quiet-IsPool n = record { distinct = tt; exist = tt }

out-Connects : Connects out entry 30 raw (pos 9)
unfolding create_connect_socket copy_address connect_to sockaddr_size comm_set_nonblock connect_nonb
    peer_family
out-Connects = record { object = refl; socket = λ w. refl; open_sock = refl }

create_transaction-Begun_example :
    Returns
      (λ _ w. Begun started [] entry 1 30 (connecting raw (pos 9)) w)
      (create_transaction os out entry (quiet 1))
unfolding first_free first_alive
create_transaction-Begun_example =
    create_transaction-Begun os out entry (quiet 1) 30 raw (pos 9) (quiet-IsPool 1) refl
      out-Connects 1 init-Inv refl

create_transaction-fault_example : create_transaction os out entry (quiet 1024) ≡ fault
unfolding first_free first_alive
create_transaction-fault_example =
    create_transaction-fault os out entry (quiet 1024) 30 raw (pos 9) (quiet-IsPool 1024) refl
      out-Connects init-Inv refl

-- ::1
abbrev entry6 : LogEntry
entry6 = record entry { ip = record { inx_addr = replicate 15 0 ++ (1 ∷ []); flag = use_ipv6 } }

create_transaction-ipv6_example : create_transaction os out entry6 (quiet 1) ≡ fault
unfolding first_alive
create_transaction-ipv6_example =
    create_transaction-ipv6 os out entry6 (quiet 1) 30 raw (quiet-IsPool 1) refl refl refl

-- The world after the first transaction.
abbrev begun :
    (u : Unit {0}) × (w : World) × (create_transaction os out entry (quiet 1) ≡ ok u w)
    × Begun started [] entry 1 30 (connecting raw (pos 9)) w
unfolding first_free first_alive
begun = value (
    create_transaction-Begun os out entry (quiet 1) 30 raw (pos 9) (quiet-IsPool 1) refl
      out-Connects 1 init-Inv refl)

-- The length and a hundred bytes, and the other bytes.
abbrev half : Piece
half = record { now = 60; bytes = le_bytes 8 compress_ret ++ replicate 100 65 }

abbrev other_half : Piece
other_half = record { now = 61; bytes = replicate 412 65 }

wire_comes : wire entry ≡ join (half ∷ other_half ∷ [])
unfolding join le_bytes replicate
wire_comes = refl

-- The socket takes all of it.
abbrev all_taken : List WriteResult
all_taken = wrote 600 ∷ []

wire_length : length (wire entry) ≡ 520
unfolding replicate le_bytes
wire_length = refl

abbrev gone :
    (f : Flushed) × (m : Memory) × (stream_flush_out all_taken begun.3.stream minus_one
        begun.1.memory
      ≡ ok f m)
    × Sent begun.1.memory begun.3.stream (wire entry) all_taken 520 0 f m
gone = value (
    stream_flush_out-Sent all_taken begun.1.memory begun.3.stream minus_one (wire entry) 520
      begun.3.sending.owned.inv begun.3.sending.in_holds (ap is_neg begun.3.sending.socket)
      (subst (λ n. Asked minus_one n 520) (sym wire_length) for_all))

taken_all : taken all_taken 520 ≡ 520
unfolding taken
taken_all = omega arith

nothing_left : buf_data_size gone.0.stream.in_buf.buf ≡ 0
unfolding buf_data_size
nothing_left = omega (
  arith,
  data_len-length gone.3.holds,
  gone.3.count,
  taken_all,
  wire_length,
  length-append gone.0.wire gone.3.rest,
  ap length gone.3.split,
)

transaction-Completes_example :
    Returns
      (λ _ sv. Completes link (take compress_ret entry.gather_logmsg) server sv)
      (deliver os (pos 4) 0 (half ∷ other_half ∷ []) server)
unfolding replicate le_bytes first_free first_alive
transaction-Completes_example =
    transaction-Completes os out entry (quiet 1) begun.1 1 30 raw (pos 9) (quiet-IsPool 1) refl
      out-Connects init-Inv refl (omega arith) begun.2 30 _ begun.3.stream.self begun.3.stream
      begun.3.attached all_taken gone.0 gone.1 gone.2 nothing_left link server made.0 half
      (other_half ∷ []) (sym (flushed_all gone.3 nothing_left ∙ wire_comes)) server-Linked
      made-Fresh (omega arith, omega arith, (omega arith, omega arith, tt)) (omega arith)

-- The first request of the client is a transaction.
booted-CanBegin : CanBegin (booted (pos 3)) out entry
unfolding first_free lookup
booted-CanBegin = record { ipv4 = refl; fresh = λ jc c e. refl; event = 0; free = refl }

reachable-Returns_example :
    Returns (λ _ w. Reachable os w × Runs w) (perform os (begin out entry) (booted (pos 3)))
reachable-Returns_example =
    reachable-Returns os (booted (pos 3)) (begin out entry) (boot (pos 3)) booted-CanBegin

-- epoll_wait(2) reports the first event, where it is active, with a writable socket.
abbrev waits : World → List Report
waits w =
    if (w.events 0).status == 1
    then record {
      event = 0;
      readable = false;
      writable = true;
      now = 61;
      writes = wrote 100 ∷ [];
      reads = [];
    }
      ∷ []
    else []

waits-Reported : (w : World) → Reported w (waits w)
waits-Reported w = elim (Bool-cases ((w.events 0).status == 1)) [
  | inl active ↦ rw active (omega arith, active, tt, tt)
  | inr inactive ↦ rw inactive tt
]

abbrev turn : Turn
turn = record { now = 60; tickle = pos 3; out = out; entry = entry; epoll_wait = waits }

main_loop_round-Runs_example :
    Returns
      (λ l w. Runs w × (l.checkpos ≤ max_events) × Next 60 0 l.next_time)
      (main_loop_round os turn (record { checkpos = 0; next_time = 0 }) (booted (pos 3)))
main_loop_round-Runs_example =
    main_loop_round-Runs os turn (record { checkpos = 0; next_time = 0 }) (booted (pos 3))
      (booted-Runs (pos 3)) booted-CanBegin (omega arith) waits-Reported
