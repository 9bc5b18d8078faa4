-- ===== src/Connection/Get.antt =====
-- get_connection.
use jujube.Base.{
  ◌+◌, ◌%◌, ◌^◌, ◌≡◌, refl, sym, subst, Bool, true, false, Option, none, some, List, [], ◌∷◌, arith,
  if◌then◌else◌, length, has, Distinct,
}
use jujube.Base.Int.{ℤ}
use jujube.Base.Run.{Run, ok, Returns, returns, bind, mono}
use jujube.Base.Store.{Store, lookup, erase, lookup-erase}
use jujube.Mem.{Addr}
use jujube.World.{World, Jconnect, conn_at}
use jujube.Connection.{take_alive, drop_dead, set_total, get_connection}

-- Whether the connection behind a pointer is alive.
abbrev pub alive : Store Jconnect → Addr → Bool
alive conns a = elim (lookup a conns) [ none ↦ false | some c ↦ c.is_alive ]

-- A list of connections up to the first that is alive, that one, and those behind it.
pub dead_before : Store Jconnect → List Addr → List Addr
dead_before conns [] = []
dead_before conns (a ∷ l) = if alive conns a then [] else a ∷ dead_before conns l

unfoldable pub first_alive : Store Jconnect → List Addr → Option Addr
first_alive conns [] = none
first_alive conns (a ∷ l) = if alive conns a then some a else first_alive conns l

pub behind_alive : Store Jconnect → List Addr → List Addr
behind_alive conns [] = []
behind_alive conns (a ∷ l) = if alive conns a then l else behind_alive conns l

-- Each entry of the list is an allocated connection.
abbrev pub Exist : Store Jconnect → List Addr → Type 0
Exist conns [] = Unit {0}
Exist conns (a ∷ l) = ((c : Jconnect) × (lookup a conns ≡ some c)) × Exist conns l

abbrev take_result : World → List Addr → Run World (List Addr × Option Addr)
take_result w l =
    ok (dead_before w.conns l, first_alive w.conns l) (record w { idle = behind_alive w.conns l })

take_alive_lem : (l : List Addr) (w : World) → Exist w.conns l → take_alive l w ≡ take_result w l
unfolding take_alive dead_before first_alive behind_alive
take_alive_lem [] w e = refl
take_alive_lem (a ∷ l) w ((c, found), e) = ground (arith, take_alive_lem l w e)

-- The connections of a list on their own descriptors, closed one after the other, and before them
-- `closed`; the latest comes first.
pub data Closes (conns : Store Jconnect) : List Addr → (closed now : List ℤ) → Type 0 where
  closes_none : {closed : List ℤ} → Closes conns [] closed closed
  closes_one :
      {a : Addr} {l : List Addr} {closed now : List ℤ} (c : Jconnect)
      → lookup a conns ≡ some c
      → Closes conns l (c.fd ∷ closed) now
      → Closes conns (a ∷ l) closed now

-- What drop_dead leaves of the connections of `l`.
record Dropped (w : World) (l : List Addr) (w' : World) : Type 0 where
  gone : (b : Addr) → lookup b w'.conns ≡ (if has b l then none else lookup b w.conns)
  total : (w'.pool.current_total + length l) % 2 ^ 32 ≡ w.pool.current_total % 2 ^ 32
  closed : Closes w.conns l w.closed w'.closed
  idle : w'.idle ≡ w.idle
  memory : w'.memory ≡ w.memory
  streams : w'.streams ≡ w.streams
  events : w'.events ≡ w.events
  epoll : w'.epoll ≡ w.epoll

Closes-erase :
    (conns : Store Jconnect) (a : Addr) (l : List Addr) {closed now : List ℤ}
    → has a l ≡ false
    → Closes (erase a conns) l closed now
    → Closes conns l closed now
Closes-erase conns a [] h closes_none = closes_none
Closes-erase conns a (b ∷ l) h (closes_one c found k) =
    closes_one c (ground (arith, lookup-erase a b conns, found))
      (Closes-erase conns a l (ground arith) k)

Exist-erase :
    (conns : Store Jconnect) (a : Addr) (l : List Addr)
    → has a l ≡ false
    → Exist conns l
    → Exist (erase a conns) l
Exist-erase conns a [] h e = tt
Exist-erase conns a (b ∷ l) h e = (
  (e.0.0, ground (arith, lookup-erase a b conns, e.0.1)),
  Exist-erase conns a l (ground arith) e.1,
)

drop_dead-Dropped :
    (l : List Addr) (w : World)
    → Distinct l
    → Exist w.conns l
    → Returns (λ _ w'. Dropped w l w') (drop_dead l w)
unfolding drop_dead conn_at set_total
drop_dead-Dropped [] w d e = returns (record {
  gone = λ b. refl;
  total = omega arith;
  closed = closes_none;
  idle = refl;
  memory = refl;
  streams = refl;
  events = refl;
  epoll = refl;
})
drop_dead-Dropped (a ∷ l) w d ((c, found), e) =
    rw (found, conn_at)
      (mono (drop_dead-Dropped l _ d.1 (Exist-erase w.conns a l d.0 e)) (λ _ w' k. record {
        gone = λ b. ground (arith, k.gone b, lookup-erase a b w.conns);
        total = omega (arith, k.total);
        closed = closes_one c found (Closes-erase w.conns a l d.0 k.closed);
        idle = k.idle;
        memory = k.memory;
        streams = k.streams;
        events = k.events;
        epoll = k.epoll;
      }))

-- The pool's list: distinct entries, each an allocated connection.
pub record IsPool (w : World) : Type 0 where
  pub distinct : Distinct w.idle
  pub exist : Exist w.conns w.idle

-- What get_connection leaves. The dead connections before the first that is alive are closed and
-- freed, and `current_total` falls by their number; the list keeps what is behind that one.
pub record Got (w : World) (found : Option Addr) (w' : World) : Type 0 where
  pub answer : found ≡ first_alive w.conns w.idle
  pub idle : w'.idle ≡ behind_alive w.conns w.idle
  pub conns :
      (b : Addr)
      → lookup b w'.conns ≡ (if has b (dead_before w.conns w.idle) then none else lookup b w.conns)
  pub total :
      (w'.pool.current_total + length (dead_before w.conns w.idle)) % 2 ^ 32
      ≡ w.pool.current_total % 2 ^ 32
  pub closed : Closes w.conns (dead_before w.conns w.idle) w.closed w'.closed
  pub memory : w'.memory ≡ w.memory
  pub streams : w'.streams ≡ w.streams
  pub events : w'.events ≡ w.events
  pub epoll : w'.epoll ≡ w.epoll

has-dead_before :
    (conns : Store Jconnect) (a : Addr) (l : List Addr)
    → has a l ≡ false
    → has a (dead_before conns l) ≡ false
unfolding dead_before
has-dead_before conns a [] h = refl
has-dead_before conns a (b ∷ l) h = ground (arith, has-dead_before conns a l)

dead_before-Distinct :
    (conns : Store Jconnect) (l : List Addr) → Distinct l → Distinct (dead_before conns l)
unfolding dead_before
dead_before-Distinct conns [] d = tt
dead_before-Distinct conns (a ∷ l) d =
    ground (arith, has-dead_before conns a l, dead_before-Distinct conns l d.1)

Exist-unless :
    (conns : Store Jconnect) (l : List Addr) (b : Bool)
    → Exist conns l
    → Exist conns (if b then [] else l)
Exist-unless conns l true e = tt
Exist-unless conns l false e = e

dead_before-Exist :
    (conns : Store Jconnect) (l : List Addr) → Exist conns l → Exist conns (dead_before conns l)
unfolding dead_before
dead_before-Exist conns [] e = tt
dead_before-Exist conns (a ∷ l) e =
    Exist-unless conns (a ∷ dead_before conns l) (alive conns a)
      (e.0, dead_before-Exist conns l e.1)

-- On a pool of distinct, allocated connections get_connection returns: it hands out the first
-- connection of the list that is alive, if there is one, after closing the descriptors of the dead
-- ones before it, each once and in their order, and freeing them, and changes no other connection.
pub get_connection-Got : (w : World) → IsPool w → Returns (Got w) (get_connection w)
unfolding get_connection
get_connection-Got w p = rw (take_alive_lem w.idle w p.exist) (
    bind
      (drop_dead-Dropped (dead_before w.conns w.idle) _
        (dead_before-Distinct w.conns w.idle p.distinct) (dead_before-Exist w.conns w.idle p.exist))
      (λ _ w' k. returns (record {
        answer = refl;
        idle = k.idle;
        conns = k.gone;
        total = k.total;
        closed = k.closed;
        memory = k.memory;
        streams = k.streams;
        events = k.events;
        epoll = k.epoll;
      })))

-- With an empty list there is nothing to hand out.
pub get_connection-nil : (w : World) → w.idle ≡ [] → get_connection w ≡ ok none w
unfolding get_connection take_alive drop_dead
get_connection-nil w e =
    subst (λ l. get_connection (record w { idle = l }) ≡ ok none (record w { idle = l })) (sym e)
      refl
