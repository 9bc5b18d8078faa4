-- ===== src/Client/Transaction/Create.antt =====
-- create_transaction as a whole, where the pool has no connection that is alive.
use jujube.Base.{ℕ, ◌≡◌, ◌==◌, ◌∙◌, sym, ap, subst, refl, false, none, some, true, []}
use jujube.Base.Int.{ℤ, is_neg}
use jujube.Base.Run.{ok, fault, Returns, bind, and_then_const, mono}
use jujube.Base.Store.{put, lookup-put_self}
use jujube.Mem.{Malloc, Gives}
use jujube.Mem.Inv.{Inv}
use jujube.Sockets.{create_connect_socket, create_connect_socket-fault}
use jujube.Ip.Host.{use_ipv4}
use jujube.World.{World, Jconnect, begin_conn}
use jujube.Connection.Get.{IsPool, Got, first_alive, get_connection-Got, get_connection-nil}
use jujube.Event.{max_events}
use jujube.Event.Free.{first_free}
use jujube.Client.Transaction.{
  LogEntry, Outside, new_connection, connection_for, start_stream, create_transaction,
}
use jujube.Client.Transaction.Begun.{Begun, start_stream-Begun, start_stream-fault}

-- A connection that is new, on the descriptor `fd`.
abbrev pub connecting : Jconnect → ℤ → Jconnect
connecting c fd = record c { fd = fd; is_alive = false; status = begin_conn }

-- malloc(3) gives the object `jc`, which holds `c`, and a socket is set up.
pub record Connects (out : Outside) (entry : LogEntry) (jc : ℕ) (c : Jconnect) (fd : ℤ)
    : Type 0 where
  pub object : out.conn ≡ some (jc, c)
  pub socket :
      (w : World) → create_connect_socket out.sockets entry.ip entry.ip.flag entry.port w ≡ ok fd w
  pub open_sock : is_neg fd ≡ false

module _ (os : Malloc) ⦃gives : Gives os⦄ (out : Outside) (entry : LogEntry) (w : World) (jc : ℕ)
    (c : Jconnect) (fd : ℤ) (pool : IsPool w) (no_alive : first_alive w.conns w.idle ≡ none)
    (new : Connects out entry jc c fd) where
  -- The world in which the stream starts.
  abbrev connected : World → World
  connected w1 = record w1 { conns = put jc (connecting c fd) (put jc c w1.conns) }

  connection_for_lem : (w1 : World) → connection_for out entry none w1 ≡ ok (some jc) (connected w1)
  unfolding connection_for new_connection
  connection_for_lem w1 =
      rw
        (
          new.object,
          new_connection,
          new.socket (record w1 { conns = put jc c w1.conns }),
          new.open_sock,
        )
        refl

  -- create_transaction, from the start of the stream.
  create_from :
      {P : Unit {0} → World → Type 0}
      → ((w1 : World)
          → Got w none w1
          → Returns P (start_stream os out entry (some jc) (connected w1)))
      → Returns P (create_transaction os out entry w)
  unfolding create_transaction
  create_from next = bind (get_connection-Got w pool) (λ found w1 g.
      let nothing = g.answer ∙ no_alive in
      rw (nothing, connection_for_lem w1) (next w1 (subst (λ f. Got w f w1) nothing g)))

  -- Where the list of idle connections has no live one, malloc(3) gives an object and the socket
  -- is set up, and the event `i` is the first that is free, in an allocator with its invariant:
  -- create_transaction returns with a stream of its own blocks on the new connection, whose
  -- `in_buf` holds the length 512 in eight bytes and the first 512 bytes of the message, the
  -- event `i` leads to it and waits with connect_cb for the socket to be writable, and the
  -- descriptor is added to the epoll instance. malloc(3) is taken not to fail (`Gives`).
  pub create_transaction-Begun :
      (i : ℕ)
      → Inv w.memory
      → first_free w.events max_events 0 ≡ some i
      → Returns
          (λ _ w'. Begun w.memory w.epoll entry i jc (connecting c fd) w')
          (create_transaction os out entry w)
  create_transaction-Begun i v free = create_from (λ w1 g.
      let begun =
        start_stream-Begun os out entry (connected w1) i jc (connecting c fd)
          (subst Inv (sym g.memory) v) (lookup-put_self jc (connecting c fd) (put jc c w1.conns))
          refl (ap (λ e. first_free e max_events 0) g.events ∙ free) in
      mono begun (λ _ w' (b, alone).
        subst (λ m. Begun m w.epoll entry i jc (connecting c fd) w') g.memory
          (subst (λ l. Begun w1.memory l entry i jc (connecting c fd) w') g.epoll b)))

  -- Where the list of idle connections has no live one, malloc(3) gives an object and the socket
  -- is set up, in an allocator with its invariant, but no event is free, create_transaction makes
  -- a bad access: it follows the NULL that evget returns. malloc(3) is taken not to fail
  -- (`Gives`).
  pub create_transaction-fault :
      Inv w.memory
      → first_free w.events max_events 0 ≡ none
      → create_transaction os out entry w ≡ fault
  unfolding create_transaction
  create_transaction-fault v full = and_then_const (get_connection-Got w pool) (λ found w1 g.
      let nothing = g.answer ∙ no_alive in
      rw (nothing, connection_for_lem w1)
        (start_stream-fault os out entry (connected w1) jc (connecting c fd)
          (subst Inv (sym g.memory) v) (lookup-put_self jc (connecting c fd) (put jc c w1.conns))
          refl (ap (λ e. first_free e max_events 0) g.events ∙ full)))

-- Where the list of idle connections has no live one, malloc(3) gives an object, and the flag of the
-- address is not USE_IPV4, create_transaction makes a bad access: create_connect_socket reads behind
-- the address.
pub create_transaction-ipv6 :
    (os : Malloc) (out : Outside) (entry : LogEntry) (w : World) (jc : ℕ) (c : Jconnect)
    → IsPool w
    → first_alive w.conns w.idle ≡ none
    → out.conn ≡ some (jc, c)
    → (entry.ip.flag == use_ipv4) ≡ false
    → create_transaction os out entry w ≡ fault
unfolding create_transaction connection_for new_connection
create_transaction-ipv6 os out entry w jc c pool no_alive object other =
    and_then_const (get_connection-Got w pool) (λ found w1 g.
      let nothing = g.answer ∙ no_alive in
      rw
        (
          nothing,
          connection_for,
          object,
          new_connection,
          create_connect_socket-fault out.sockets entry.ip entry.ip.flag entry.port
              (record w1 { conns = put jc c w1.conns }) other,
        )
        refl)

-- The same with no idle connection at all, by what malloc(3) and the socket give.
module _ (os : Malloc) ⦃gives : Gives os⦄ (out : Outside) (entry : LogEntry) (w : World)
    (idle : w.idle ≡ []) where
  pub create_transaction-no_object : out.conn ≡ none → create_transaction os out entry w ≡ ok tt w
  unfolding create_transaction connection_for new_connection start_stream
  create_transaction-no_object e = rw (get_connection-nil w idle, e, new_connection) refl

  pub create_transaction-no_socket :
      (jc : ℕ) (c : Jconnect) (fd : ℤ)
      → out.conn ≡ some (jc, c)
      → ((w1 : World)
          → create_connect_socket out.sockets entry.ip entry.ip.flag entry.port w1 ≡ ok fd w1)
      → is_neg fd ≡ true
      → create_transaction os out entry w ≡ ok tt (record w { conns = put jc c w.conns })
  unfolding create_transaction connection_for new_connection start_stream
  create_transaction-no_socket jc c fd e socket bad =
      rw
        (
          get_connection-nil w idle,
          e,
          new_connection,
          socket (record w { conns = put jc c w.conns }),
          bad,
        )
        refl

  pub create_transaction-new :
      (jc : ℕ) (c : Jconnect) (fd : ℤ)
      → Connects out entry jc c fd
      → create_transaction os out entry w
        ≡ start_stream os out entry
            (some jc)
            (record w { conns = put jc (connecting c fd) (put jc c w.conns) })
  unfolding create_transaction connection_for new_connection
  create_transaction-new jc c fd new =
      rw
        (
          get_connection-nil w idle,
          new.object,
          new_connection,
          new.socket (record w { conns = put jc c w.conns }),
          new.open_sock,
        )
        refl
