-- ===== src/Tests/Pools.antt =====
-- connection.c and event.c: a pool of three connections, the first of them dead.
use jujube.Base.{◌-◌, ◌^◌, ◌≡◌, refl, true, false, none, [], ◌∷◌, ◌==◌, if◌then◌else◌}
use jujube.Base.Int.{pos}
use jujube.Base.Run.{Returns}
use jujube.Base.Store.{lookup}
use jujube.World.{World, Jconnect, Myevent, begin_conn, conn_estab, no_cb, ctl_add}
use jujube.Connection.{init_connect_pool, get_connection, release_connection}
use jujube.Connection.Get.{IsPool, Got, get_connection-Got}
use jujube.Connection.Release.{release_connection-IsPool, release_connection-underflow}
use jujube.Tests.Allocator.{started}

abbrev dead : Jconnect
dead = record { fd = pos 5; is_alive = false; requests = 0; status = begin_conn; stream = none }

abbrev live : Jconnect
live = record { fd = pos 6; is_alive = true; requests = 3; status = conn_estab; stream = none }

abbrev idle_event : Myevent
idle_event = record {
  fd = pos 9;
  events = 0;
  call_back = no_cb;
  status = 0;
  last_active = 0;
  jc = none;
}

-- Connection 4 is in use; the first event is active.
abbrev world : World
world = record {
  memory = started;
  conns = (1, dead) ∷ (2, live) ∷ (3, live) ∷ (4, dead) ∷ [];
  streams = [];
  pool = record { max_connects = 10; max_alive_times = 60; max_txn = 100; current_total = 3 };
  idle = 1 ∷ 2 ∷ 3 ∷ [];
  events = λ i. if i == 0 then record idle_event { fd = pos 5; status = 1 } else idle_event;
  epoll = record { op = ctl_add; fd = pos 5; events = 1 } ∷ [];
  closed = [];
}

world-IsPool : IsPool world
unfolding lookup
world-IsPool = record {
  distinct = (refl, (refl, (refl, tt)));
  exist = ((dead, refl), ((live, refl), ((live, refl), tt)));
}

get_connection-Got_example : Returns (Got world) (get_connection world)
get_connection-Got_example = get_connection-Got world world-IsPool

release_connection-IsPool_example : Returns (λ _ w. IsPool w) (release_connection 4 world)
unfolding lookup
release_connection-IsPool_example = release_connection-IsPool world 4 dead refl refl world-IsPool

release_connection-underflow_example :
    Returns
      (λ _ w. (w.pool.current_total ≡ 2 ^ 32 - 1) × (w.idle ≡ []))
      (release_connection 4 (init_connect_pool world))
unfolding lookup
release_connection-underflow_example = release_connection-underflow world 4 dead refl refl
