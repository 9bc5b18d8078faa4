-- ===== src/Connection.antt =====
-- connection.c: the pool of idle connections.
pub mod Get
pub mod Release
use jujube.Base.{
  ℕ, ◌+◌, ◌-◌, ◌%◌, ◌^◌, Bool, true, false, Option, none, some, List, [], ◌∷◌, ◌++◌, if◌then◌else◌,
  length, has, remove,
}
use jujube.Base.Run.{Run, ok, fault, Cmd, pure, and_then, ◌>>=◌, ◌>>◌}
use jujube.Base.Store.{lookup}
use jujube.Mem.{Addr, inc32, dec32}
use jujube.World.{World, Jconnect, ConnectPool, conn_at, set_conn, close_fd, free_conn}

-- The list and the mutex of the pool are in every state; the mutex guards single steps here.
pub init_connect_pool : World → World
init_connect_pool w = record w {
  pool = record { max_connects = 10; max_alive_times = 60; max_txn = 100; current_total = 0 };
  idle = [];
}

-- get_connection_statiscs prints this number.
pub pool_total : World → ℕ
pool_total w = length w.idle

set_total : (ℕ → ℕ) → Cmd World (Unit {0})
set_total f w = ok tt (record w {
  pool = record {
    max_connects = w.pool.max_connects;
    max_alive_times = w.pool.max_alive_times;
    max_txn = w.pool.max_txn;
    current_total = f w.pool.current_total;
  };
})

-- The first loop of get_connection: the dead connections up to the first that is alive, and that
-- one; all of them leave the list.
take_alive : List Addr → Cmd World (List Addr × Option Addr)
take_alive [] w = ok ([], none) (record w { idle = [] })
take_alive (a ∷ l) w = elim (lookup a w.conns) [
  | none ↦ fault
  | some c ↦
      if c.is_alive
      then ok ([], some a) (record w { idle = l })
      else and_then (take_alive l w) (λ (dead, found). pure (a ∷ dead, found))
]

-- Its second loop.
drop_dead : List Addr → Cmd World (Unit {0})
drop_dead [] = pure tt
drop_dead (a ∷ l) = do c ← conn_at a; close_fd c.fd; free_conn a; set_total dec32; drop_dead l

pub get_connection : Cmd World (Option Addr)
get_connection w = and_then (take_alive w.idle w) (λ (dead, found). drop_dead dead >> pure found)

-- An idle connection goes behind the others.
add_idle : Addr → Cmd World (Unit {0})
add_idle a w = ok tt (record w { idle = w.idle ++ a ∷ [] })

pub release_connection : Addr → Cmd World (Unit {0})
release_connection a = do
  c ← conn_at a
  set_conn a (record c { requests = inc32 c.requests })
  if c.is_alive
      then (do set_total inc32; add_idle a)
      else (do close_fd c.fd; free_conn a; set_total dec32)

-- list_del of an entry that is on no list follows bad pointers.
del_idle : Addr → Cmd World (Unit {0})
del_idle a w = if has a w.idle then ok tt (record w { idle = remove a w.idle }) else fault

pub release_keepalive_connection : Addr → Cmd World (Unit {0})
release_keepalive_connection a = do
  c ← conn_at a
  close_fd c.fd
  del_idle a
  free_conn a
  set_total dec32
