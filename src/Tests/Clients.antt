-- ===== src/Tests/Clients.antt =====
-- client.c and event.c: a connection with the stream of Tests/Streams.
use jujube.Base.{◌++◌, inr, ap, refl, true, some, [], ◌∷◌}
use jujube.Base.Int.{pos, is_neg}
use jujube.Base.Run.{Returns}
use jujube.Base.Store.{lookup}
use jujube.World.{World, Jconnect, conn_estab, data_transfer, ctl_add}
use jujube.Event.{close_stream}
use jujube.Event.Close.{Attached, Closed, close_stream-Closed}
use jujube.Mem.Owned.{held-InUse}
use jujube.Stream.Free.{blocks}
use jujube.Client.Release.{Dropped}
use jujube.Tests.Streams.{made, prefix, message}
use jujube.Stream.{wrote}
use jujube.Stream.Flush.{taken}
use jujube.Client.{on_data}
use jujube.Client.Data.{on_data-Dropped}

abbrev pub talking : Jconnect
talking = record {
  fd = pos 4;
  is_alive = true;
  requests = 2;
  status = conn_estab;
  stream = some 70;
}

abbrev pub busy : World
busy = record {
  memory = made.1;
  conns = (1, talking) ∷ [];
  streams = (70, made.0) ∷ [];
  pool = record { max_connects = 10; max_alive_times = 60; max_txn = 100; current_total = 0 };
  idle = [];
  events = λ i. record {
    fd = pos 4;
    events = 4;
    call_back = data_transfer;
    status = 1;
    last_active = 50;
    jc = some 1;
  };
  epoll = record { op = ctl_add; fd = pos 4; events = 4 } ∷ [];
  closed = [];
}

busy-Attached : Attached busy 0 1 talking 70 made.0
unfolding lookup
busy-Attached = record {
  event = refl;
  conn = refl;
  points = refl;
  stream = refl;
  owns = record {
    inv = made.3.owned.inv;
    distinct = made.3.owned.distinct;
    in_use = held-InUse (blocks made.0) made.3.owned;
  };
}

close_stream-Closed_example :
    Returns (λ _ w. Closed busy 0 1 talking 70 made.0 w) (close_stream 0 busy)
close_stream-Closed_example =
    close_stream-Closed busy 0 1 talking 70 made.0 busy-Attached (ap is_neg made.3.socket)

-- The socket takes nine bytes and then the other four.
on_data-Dropped_example :
    Returns
      (λ _ w. Dropped busy 0 1 talking 70 made.0 w)
      (on_data 60 (wrote 9 ∷ wrote 9 ∷ []) [] made.0.server_sock true true 0 busy)
unfolding taken
on_data-Dropped_example =
    on_data-Dropped 60 busy 0 1 talking 70 made.0 (prefix ++ message) (wrote 9 ∷ wrote 9 ∷ []) []
      made.0.server_sock true busy-Attached made.3.in_holds (ap is_neg made.3.socket)
      (rw made.3.socket refl) (inr refl)

-- The connection waits on the list.
abbrev waiting : World
waiting = record busy { idle = 1 ∷ [] }
