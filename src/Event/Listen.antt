-- ===== src/Event/Listen.antt =====
-- init_listensocket: the event of the listening socket, behind those of the table. The results of
-- bind(2), listen(2) and fcntl(2) are not used.
use jujube.Base.{
  false, ℕ, ◌^◌, ◌+◌, ◌*◌, ◌/◌, ◌%◌, ◌<◌, ◌≡◌, ◌≢◌, refl, true, Option, none, some, ◌∷◌, arith,
  ◌==◌, if◌then◌else◌,
}
use jujube.Base.Int.{ℤ, is_neg}
use jujube.Base.Run.{Cmd, pure, fault, and_then_const, ◌>>=◌, ◌>>◌, Returns, returns, bind}
use jujube.Base.Store.{lookup, lookup-put_self, lookup-put_ne}
use jujube.Mem.{Addr}
use jujube.Ip.Host.{InAddr, Family, af_inet, af_inet6, use_ipv6}
use jujube.World.{World, Jconnect, accept_cb, set_conn, ctl_add}
use jujube.Sockets.{PeerAddr, copy_address, sockaddr_size}
use jujube.Event.{max_events, epollin, eventset, eventadd}
use jujube.Event.Epoll.{registered, Registered, Registry-add}
use jujube.Event.Close.{conn_at_lem}

-- What socket(2) and the malloc(3) of a jconnect return.
pub record ListenCalls : Type 0 where
  pub socket : Family → ℤ
  pub conn : Option (Addr × Jconnect)

-- The arguments of bind(2) and listen(2).
pub record Listening : Type 0 where
  pub fd : ℤ
  pub peer : PeerAddr
  pub backlog : ℕ

-- htons(3) of a `short`, by its 16-bit pattern.
pub htons : ℕ → ℕ
htons port = port % 256 * 256 + port / 256 % 256

listen_family : ℕ → Family
listen_family flag = if flag == use_ipv6 then af_inet6 else af_inet

-- The event at MAX_EVENTS waits for connections.
listen_at : ℕ → ℤ → Addr → Jconnect → Cmd World (Unit {0})
listen_at now lfd jc c = do
  set_conn jc (record c { fd = lfd })
  eventset now max_events jc accept_cb
  eventadd now epollin max_events

-- What follows malloc(3), which has failed for `none`, before bind(2) is called.
listen_with : (now port : ℕ) → InAddr → ℤ → Option (Addr × Jconnect) → Cmd World (Option Listening)
listen_with now port jaddr lfd none = pure none
listen_with now port jaddr lfd (some (jc, c)) = do
  listen_at now lfd jc c
  address ← copy_address (listen_family jaddr.flag) jaddr
  pure (
      some (record {
        fd = lfd;
        peer = record { family = listen_family jaddr.flag; port = htons port; address = address };
        backlog = 128;
      }))

pub init_listensocket : ListenCalls → (now port : ℕ) → InAddr → Cmd World (Option Listening)
init_listensocket calls now port jaddr =
    listen_with now port jaddr (calls.socket (listen_family jaddr.flag)) calls.conn

-- The listening socket waits at MAX_EVENTS, by accept_cb, for EPOLLIN; the events of the table, the
-- other connections, the streams and the allocator are as before.
pub record Listens (w : World) (lfd : ℤ) (jc : Addr) (w' : World) : Type 0 where
  pub active : ((w'.events max_events).status == 1) ≡ true
  pub fd : (w'.events max_events).fd ≡ lfd
  pub call_back : (w'.events max_events).call_back ≡ accept_cb
  pub waits : (w'.events max_events).events ≡ epollin
  pub epoll : w'.epoll ≡ record { op = ctl_add; fd = lfd; events = epollin } ∷ w.epoll
  pub others : (k : ℕ) → k < max_events → w'.events k ≡ w.events k
  pub conns : (b : Addr) → jc ≢ b → lookup b w'.conns ≡ lookup b w.conns
  pub streams : w'.streams ≡ w.streams
  pub memory : w'.memory ≡ w.memory
  pub idle : w'.idle ≡ w.idle
  pub registry : is_neg lfd ≡ false → registered w.epoll lfd ≡ false → Registered w → Registered w'

listen_at-Listens :
    (now : ℕ) (lfd : ℤ) (jc : Addr) (c : Jconnect) (w : World)
    → Returns (λ _ w'. Listens w lfd jc w') (listen_at now lfd jc c w)
unfolding listen_at eventset eventadd
listen_at-Listens now lfd jc c w =
    let found = lookup-put_self jc (record c { fd = lfd }) w.conns in
    rw (conn_at_lem (record w { conns = _ }) jc (record c { fd = lfd }) found) (
      returns (record {
        active = ground arith;
        fd = ground arith;
        call_back = ground arith;
        waits = ground arith;
        epoll = refl;
        others = λ k lt. ground arith;
        conns = λ b ne. lookup-put_ne jc b (record c { fd = lfd }) w.conns ne;
        streams = refl;
        memory = refl;
        idle = refl;
        registry = λ open_fd fresh r.
            Registry-add max_events (λ k ne. ground arith) epollin lfd r open_fd fresh
              (ground arith);
      }))

-- A port of two bytes, and the number that has them in the other order.
pub record Swapped (port net : ℕ) : Type 0 where
  pub low : ℕ
  pub high : ℕ
  pub low_byte : low < 256
  pub high_byte : high < 256
  pub host : port % 2 ^ 16 ≡ low + 256 * high
  pub network : net ≡ high + 256 * low

htons-Swapped : (port : ℕ) → Swapped port (htons port)
unfolding htons
htons-Swapped port = record {
  low = port % 256;
  high = port / 256 % 256;
  low_byte = omega arith;
  high_byte = omega arith;
  host = omega arith;
  network = omega arith;
}

-- What init_listensocket comes to, by what malloc(3) gives.
pub data Listened (calls : ListenCalls) (port : ℕ) (jaddr : InAddr) (w : World)
    : Option Listening → World → Type 0 where
  no_object : calls.conn ≡ none → Listened calls port jaddr w none w
  listens :
      (jc : Addr) (c : Jconnect) (net : ℕ) {w' : World}
      → calls.conn ≡ some (jc, c)
      → Swapped port net
      → Listens w (calls.socket af_inet) jc w'
      → Listened calls port jaddr w
          (some (record {
            fd = calls.socket af_inet;
            peer = record { family = af_inet; port = net; address = jaddr.inx_addr };
            backlog = 128;
          }))
          w'

listen_with-Listened :
    (calls : ListenCalls) (now port : ℕ) (jaddr : InAddr) (w : World) (o : Option (Addr × Jconnect))
    → calls.conn ≡ o
    → (jaddr.flag == use_ipv6) ≡ false
    → Returns
        (Listened calls port jaddr w)
        (listen_with now port jaddr (calls.socket (listen_family jaddr.flag)) o w)
unfolding listen_with listen_family copy_address sockaddr_size
listen_with-Listened calls now port jaddr w none e other = returns (no_object e)
listen_with-Listened calls now port jaddr w (some (jc, c)) e other = rw other (
    bind (listen_at-Listens now (calls.socket af_inet) jc c w)
      (λ _ w' l. returns (listens jc c (htons port) e (htons-Swapped port) l)))

-- For an address without USE_IPV6 init_listensocket returns: where malloc(3) gives no jconnect, with
-- nothing changed and no call of bind(2); else the event at MAX_EVENTS waits for EPOLLIN on the
-- socket, by the callback for new connections, the socket is asked to be bound to the address as
-- AF_INET, with the two bytes of the port swapped, and to listen, and no event of the table, no other
-- connection, no stream and no block has changed. If the socket is a descriptor that was not
-- registered, epoll_ctl(2) accepts its registration as the requests before it.
pub init_listensocket-Listened :
    (calls : ListenCalls) (now port : ℕ) (jaddr : InAddr) (w : World)
    → (jaddr.flag == use_ipv6) ≡ false
    → Returns (Listened calls port jaddr w) (init_listensocket calls now port jaddr w)
unfolding init_listensocket
init_listensocket-Listened calls now port jaddr w other =
    listen_with-Listened calls now port jaddr w calls.conn refl other

-- For an address with USE_IPV6 init_listensocket makes a bad access, unless malloc(3) gives no
-- jconnect: the copy of a whole sockaddr_in6 reads behind the address.
pub init_listensocket-fault :
    (calls : ListenCalls) (now port : ℕ) (jaddr : InAddr) (w : World) (jc : Addr) (c : Jconnect)
    → calls.conn ≡ some (jc, c)
    → jaddr.flag ≡ use_ipv6
    → init_listensocket calls now port jaddr w ≡ fault
unfolding init_listensocket listen_with listen_family copy_address sockaddr_size
init_listensocket-fault calls now port jaddr w jc c object six =
    rw (object, listen_with, six)
      (and_then_const (listen_at-Listens now (calls.socket af_inet6) jc c w) (λ _ w' l. refl))
