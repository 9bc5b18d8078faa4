-- ===== src/Tests/Servers.antt =====
-- server.c: a server with one connection, on a stream of its own.
use jujube.Base.{
  replicate, false, sym, subst, ℕ, ◌≡◌, ◌∙◌, ap, refl, true, none, some, [], ◌∷◌, arith, ◌==◌,
  if◌then◌else◌,
}
use jujube.Base.Int.{pos, is_neg}
use jujube.Base.Run.{Returns, Ends, ok, value, pure}
use jujube.Base.Store.{lookup}
use jujube.Mem.{Memory}
use jujube.Mem.Init.{init-Inv}
use jujube.Mem.Owned.{held-InUse}
use jujube.Ip.Host.{InAddr, use_ipv4}
use jujube.Stream.{cfg_http_buf_size, TcpStream, stream_create, got, read_error, wrote}
use jujube.Stream.Create.{Sending, stream_create-Created}
use jujube.Stream.Free.{blocks}
use jujube.World.{World}
use jujube.Event.Epoll.{Registered, Accepted, registered}
use jujube.Event.Listen.{ListenCalls, Listened, init_listensocket, init_listensocket-Listened}
use jujube.Event.Sound.{IsActive}
use jujube.Client.Loop.{Report}
use jujube.Client.Loop.Round.{Reported}
use jujube.Server
use jujube.Server.{Server}
use jujube.Server.Ready.{idle}
use jujube.Server.Link.{Link}
use jujube.Server.Link.{SameTally, Linked}
use jujube.Server.Header.{Fresh}
use jujube.Server.Message.{Piece, deliver}
use jujube.Server.Overrun.Deliver.{deliver-overrun}
use jujube.Base.Words.{le_value}
use jujube.Base.Run.{abort}
use jujube.Server.Safe.{between}
use jujube.Server.Safe.Transfer.{Settled, data_transfer-Ends}
use jujube.Server.Loop.{run_reports}
use jujube.Server.Loop.Frame.{Spot, Serving, Runs}
use jujube.Server.Loop.Serve.{link_of, base_of, Serving-Linked, Serving-Served}
use jujube.Server.Loop.Drain.{all_drained, run_reports-Ends}
use jujube.Tests.Allocator.{os, os-Gives, started}
use jujube.Tests.Streams.{clock}
use jujube.Tests.Clients.{talking, busy}

-- A stream as accept_conn makes it.
abbrev opened :
    (s : TcpStream) × (m : Memory) × (stream_create os clock (pos 4) started ≡ ok s m)
    × (Sending started (pos 4) [] s m
        × (s.in_buf.buf.buf_len ≡ cfg_http_buf_size)
        × (s.in_buf.buf.data_len ≡ 0))
opened = value (stream_create-Created os clock (pos 4) started init-Inv)

-- One event is active.
abbrev world : World
world = record busy {
  memory = opened.1;
  streams = (70, opened.0) ∷ [];
  events = λ i. if i == 0 then busy.events 0 else record (busy.events 0) { status = 0 };
}

abbrev server : Server
server = record { world = world; qps = 3; work = [] }

abbrev spot : Spot
spot = record { jc = 1; conn = talking; place = 70; stream = opened.0 }

world-Serving : Serving world 0 spot
unfolding lookup
world-Serving = record {
  event = refl;
  call_back = refl;
  sock = opened.3.0.socket;
  conn = refl;
  points = refl;
  stream = refl;
  owns = record {
    inv = opened.3.0.owned.inv;
    distinct = opened.3.0.owned.distinct;
    in_use = held-InUse (blocks opened.0) opened.3.0.owned;
  };
  xs = [];
  out = opened.3.0.out_holds;
  room = opened.3.0.out_len;
  open_sock = ap is_neg opened.3.0.socket;
  part = none;
  work = idle opened.3.0.no_work;
  phase = between opened.3.0.no_message.0 opened.3.0.no_message.1;
  quiet = opened.3.2;
}

only_first : (k : ℕ) → IsActive world k → k ≡ 0
only_first k act = ground (arith, act)

world-Registered : Registered world
unfolding registered Accepted
world-Registered = record {
  accepted = (refl, refl, tt);
  open_fd = λ k act. subst (λ x. is_neg (world.events x).fd ≡ false) (sym (only_first k act)) refl;
  known = λ k act.
      subst (λ x. registered world.epoll (world.events x).fd ≡ true) (sym (only_first k act)) refl;
  apart = λ j k ne actj actk. absurd (ne (only_first j actj ∙ sym (only_first k actk)));
}

runs : Runs world
runs = record {
  registry = world-Registered;
  inv = opened.3.0.owned.inv;
  spot = λ k. spot;
  serves = λ k lt act. subst (λ x. Serving world x spot) (sym (only_first k act)) world-Serving;
  clear = λ j k lj lk ne actj actk. absurd (ne (only_first j actj ∙ sym (only_first k actk)));
}

-- Both events of the connection, and a read of three bytes.
abbrev report : Report
report = record {
  event = 0;
  readable = true;
  writable = true;
  now = 60;
  writes = wrote 4 ∷ [];
  reads = got (1 ∷ 2 ∷ 3 ∷ []) ∷ [];
}

abbrev link : Link
link = link_of world 0 spot (base_of world-Serving).0

data_transfer-Ends_example :
    Ends true
      (λ _ sv. Settled link sv.world)
      (Server.data_transfer os 60 [] (read_error ∷ []) link.sock true true link.event server)
unfolding world-Serving
data_transfer-Ends_example =
    data_transfer-Ends os 60 [] (read_error ∷ []) link true true server []
      (Serving-Served world-Serving (base_of world-Serving).0 (base_of world-Serving).1)

opened-Linked : Linked link opened.0 [] world
unfolding world-Serving
opened-Linked = Serving-Linked world-Serving (base_of world-Serving).0 (base_of world-Serving).1

opened-Fresh : Fresh opened.0
opened-Fresh = record {
  work = opened.3.0.no_work;
  left = opened.3.0.no_message.0;
  recved = opened.3.0.no_message.1;
}

-- A message of five bytes with one byte more, and two bytes in two more pieces.
abbrev too_long : Piece
too_long = record {
  now = 70;
  bytes = 5 ∷ 0 ∷ 0 ∷ 0 ∷ 0 ∷ 0 ∷ 0 ∷ 0 ∷ 10 ∷ 20 ∷ 30 ∷ 40 ∷ 50 ∷ 60 ∷ [];
}

abbrev single_byte : ℕ → Piece
single_byte n = record { now = 71; bytes = n ∷ [] }

deliver-overrun_example :
    Returns
      (λ _ sv. SameTally server sv)
      (deliver os link.sock 0 (too_long ∷ single_byte 60 ∷ []) server)
    × (deliver os link.sock 0 (too_long ∷ single_byte 60 ∷ single_byte 70 ∷ []) server ≡ abort)
unfolding le_value
deliver-overrun_example =
    deliver-overrun os link server opened.0 too_long (single_byte 60) (single_byte 70) []
      opened-Linked opened-Fresh opened.3.2 (omega arith) (omega arith) (omega arith)
      (omega arith, omega arith, (omega arith, omega arith, tt))

reported : Reported world (report ∷ [])
reported = (omega arith, refl, tt, tt)

run_reports-Ends_example :
    Ends
      (all_drained world (report ∷ []))
      (λ _ sv. Runs sv.world)
      (run_reports os (pure tt) (report ∷ []) server)
run_reports-Ends_example = run_reports-Ends os (pure tt) (report ∷ []) server runs reported

-- INADDR_ANY
abbrev any_address : InAddr
any_address = record { inx_addr = replicate 16 0; flag = use_ipv4 }

-- socket(2) gives the descriptor 6, and malloc(3) the jconnect 2.
abbrev calls : ListenCalls
calls = record { socket = λ family. pos 6; conn = some (2, record talking { stream = none }) }

init_listensocket-Listened_example :
    Returns
      (Listened calls 8080 any_address world)
      (init_listensocket calls 50 8080 any_address world)
init_listensocket-Listened_example = init_listensocket-Listened calls 50 8080 any_address world refl
