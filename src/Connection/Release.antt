-- ===== src/Connection/Release.antt =====
-- release_connection and release_keepalive_connection.
use jujube.Base.{
  ℕ, ◌-◌, ◌^◌, ◌≡◌, refl, Bool, true, false, some, List, [], ◌∷◌, ◌++◌, arith, ◌==◌, if◌then◌else◌,
  has, remove, Bool-cases, inl, inr, append-Distinct,
}
use jujube.Base.Run.{ok, Returns, returns}
use jujube.Base.Store.{Store, lookup, put, erase, lookup-erase, lookup-put, lookup-put_self}
use jujube.Mem.{Addr, dec32, inc32}
use jujube.World.{World, Jconnect, ConnectPool, conn_at}
use jujube.Connection.{
  init_connect_pool, set_total, add_idle, del_idle, release_connection,
  release_keepalive_connection,
}
use jujube.Connection.Get.{IsPool, Exist}

abbrev pub with_total : ConnectPool → ℕ → ConnectPool
with_total p n = record p { current_total = n }

-- A connection that is alive goes behind the others; one that is dead is closed and freed.
abbrev pub released : World → Addr → Jconnect → World
released w a c =
    let conns = put a (record c { requests = inc32 c.requests }) w.conns in
    if c.is_alive
    then record w {
      conns = conns;
      pool = with_total w.pool (inc32 w.pool.current_total);
      idle = w.idle ++ a ∷ [];
    }
    else record w {
      conns = erase a conns;
      pool = with_total w.pool (dec32 w.pool.current_total);
      closed = c.fd ∷ w.closed;
    }

-- release_connection counts the request; then it puts a connection that is alive at the end of the
-- list and adds one to `current_total`, and closes and frees one that is dead, taking one off.
pub release_connection_lem :
    (w : World) (a : Addr) (c : Jconnect)
    → lookup a w.conns ≡ some c
    → release_connection a w ≡ ok tt (released w a c)
unfolding release_connection conn_at set_total add_idle
release_connection_lem w a c found = ground arith

Exist-put :
    (conns : Store Jconnect) (a : Addr) (c : Jconnect) (l : List Addr)
    → Exist conns l
    → Exist (put a c conns) l
Exist-put conns a c [] e = tt
Exist-put conns a c (b ∷ l) ((d, found), e) = (
  elim (Bool-cases (a == b)) [
    | inl same ↦ (c, ground (arith, lookup-put a b c conns))
    | inr other ↦ (d, ground (arith, lookup-put a b c conns))
  ],
  Exist-put conns a c l e,
)

Exist-append :
    (conns : Store Jconnect) (l : List Addr) (a : Addr) (c : Jconnect)
    → lookup a conns ≡ some c
    → Exist conns l
    → Exist conns (l ++ a ∷ [])
Exist-append conns [] a c found e = ((c, found), tt)
Exist-append conns (b ∷ l) a c found e = (e.0, Exist-append conns l a c found e.1)

Exist-erase :
    (conns : Store Jconnect) (a : Addr) (l : List Addr)
    → has a l ≡ false
    → Exist conns l
    → Exist (erase a conns) l
Exist-erase conns a [] h e = tt
Exist-erase conns a (b ∷ l) h ((d, found), e) =
    ((d, ground (arith, lookup-erase a b conns)), Exist-erase conns a l (ground arith) e)

released-IsPool :
    (w : World) (a : Addr) (c : Jconnect) (b : Bool)
    → c.is_alive ≡ b
    → has a w.idle ≡ false
    → IsPool w
    → IsPool (released w a c)
released-IsPool w a c true e h p = rw e (record {
  distinct = append-Distinct a w.idle p.distinct h;
  exist =
      Exist-append _ w.idle a _ (lookup-put_self a _ w.conns)
        (Exist-put w.conns a _ w.idle p.exist);
})
released-IsPool w a c false e h p = rw e (record {
  distinct = p.distinct;
  exist = Exist-erase _ a w.idle h (Exist-put w.conns a _ w.idle p.exist);
})

-- An allocated connection that is not on the list of a pool with distinct, allocated entries is
-- released without a fault, and the list keeps distinct entries that are allocated.
pub release_connection-IsPool :
    (w : World) (a : Addr) (c : Jconnect)
    → lookup a w.conns ≡ some c
    → has a w.idle ≡ false
    → IsPool w
    → Returns (λ _ w'. IsPool w') (release_connection a w)
release_connection-IsPool w a c found h p =
    rw (release_connection_lem w a c found) (returns (released-IsPool w a c c.is_alive refl h p))

-- Straight after init_connect_pool the release of a dead connection, which get_connection never
-- counted, leaves 2 ^ 32 - 1 in `current_total`, while the list is empty.
pub release_connection-underflow :
    (w : World) (a : Addr) (c : Jconnect)
    → lookup a w.conns ≡ some c
    → c.is_alive ≡ false
    → Returns
        (λ _ w'. (w'.pool.current_total ≡ 2 ^ 32 - 1) × (w'.idle ≡ []))
        (release_connection a (init_connect_pool w))
unfolding init_connect_pool
release_connection-underflow w a c found dead =
    rw (release_connection_lem (init_connect_pool w) a c found) (rw dead (returns (refl, refl)))

-- A connection on the list leaves it, and is closed and freed.
pub release_keepalive_connection_lem :
    (w : World) (a : Addr) (c : Jconnect)
    → lookup a w.conns ≡ some c
    → has a w.idle ≡ true
    → release_keepalive_connection a w
      ≡ ok tt (record w {
        conns = erase a w.conns;
        pool = with_total w.pool (dec32 w.pool.current_total);
        idle = remove a w.idle;
        closed = c.fd ∷ w.closed;
      })
unfolding release_keepalive_connection conn_at set_total del_idle
release_keepalive_connection_lem w a c found h = ground arith
