-- ===== src/Sockets.antt =====
-- comm.c: the set-up of a client's socket, on the results of the system's calls.
pub mod Errors
mod Tests
use jujube.Base.{ltb, ◌≡◌, refl, true, ℕ, false, Bool, not, ◌&&◌, List, ◌==◌, if◌then◌else◌}
use jujube.Base.Int.{ℤ, pos, negsuc, is_neg, minus_one, eq_ℤ}
use jujube.Base.Run.{ok, fault, ◌>>=◌, Cmd, pure, ◌>>◌}
use jujube.Ip.Host.{InAddr, Family, af_inet, af_inet6, af_other, use_ipv4}
use jujube.World.{World, ctl_add, epoll_ctl}
use jujube.Event.{epollin}

-- What is written into `peeraddr`: the bytes of the address are those of `inx_addr`.
pub record PeerAddr : Type 0 where
  pub family : Family
  pub port : ℕ
  pub address : List ℕ

-- What the calls of one connection return: socket(2), the two calls of fcntl(2), and connect(2) with
-- whether `errno` is EINPROGRESS behind it.
pub record SocketCalls : Type 0 where
  pub socket : Family → ℤ
  pub getfl : ℤ
  pub setfl : ℤ
  pub connect : ℤ → PeerAddr → ℤ × Bool

unfoldable pub connect_nonb : SocketCalls → ℤ → PeerAddr → ℤ
connect_nonb calls sk psa =
    let (r, in_progress) = calls.connect sk psa in if is_neg r && in_progress then negsuc 1 else r

unfoldable pub comm_set_nonblock : SocketCalls → ℤ
comm_set_nonblock calls =
    if is_neg calls.getfl then minus_one else if is_neg calls.setfl then minus_one else pos 0

-- USE_IPV4 or any other flag.
unfoldable pub peer_family : ℕ → Family
peer_family ip_flag = if ip_flag == use_ipv4 then af_inet else af_inet6

-- sizeof(struct sockaddr_in) and sizeof(struct sockaddr_in6)
unfoldable pub sockaddr_size : Family → ℕ
sockaddr_size af_inet = 16
sockaddr_size af_inet6 = 28
sockaddr_size af_other = 0

-- sizeof(struct jujube_in_addr): the union and the flag.
abbrev pub in_addr_size : ℕ
in_addr_size = 20

-- memcpy(3) of as many bytes as a whole sockaddr has, from the front of a jujube_in_addr; for
-- AF_INET6 it reads behind the object.
unfoldable pub copy_address : Family → InAddr → Cmd World (List ℕ)
copy_address family jaddr =
    if ltb in_addr_size (sockaddr_size family) then (λ w. fault) else pure jaddr.inx_addr

-- socket(2), fcntl(2) and connect(2), once the address is there.
unfoldable pub connect_to : SocketCalls → (address : List ℕ) → (ip_flag port : ℕ) → ℤ
connect_to calls address ip_flag port =
    let sock = calls.socket (peer_family ip_flag) in
    let r =
      connect_nonb calls sock
        (record { family = peer_family ip_flag; port = port; address = address }) in
    if is_neg sock
    then minus_one
    else if is_neg (comm_set_nonblock calls)
    then negsuc 1
    else if eq_ℤ r minus_one
    then negsuc 2
    else sock

unfoldable pub create_connect_socket : SocketCalls → InAddr → (ip_flag port : ℕ) → Cmd World ℤ
create_connect_socket calls jaddr ip_flag port = do
  address ← copy_address (peer_family ip_flag) jaddr
  pure (connect_to calls address ip_flag port)

-- For an address with USE_IPV4 nothing is read that is not there.
pub create_connect_socket-ipv4 :
    (calls : SocketCalls) (jaddr : InAddr) (ip_flag port : ℕ) (w : World)
    → ip_flag ≡ use_ipv4
    → create_connect_socket calls jaddr ip_flag port w
      ≡ ok (connect_to calls jaddr.inx_addr ip_flag port) w
unfolding create_connect_socket copy_address peer_family sockaddr_size
create_connect_socket-ipv4 calls jaddr ip_flag port w e = rw e refl

-- For any other flag the copy reads behind the address.
pub create_connect_socket-fault :
    (calls : SocketCalls) (jaddr : InAddr) (ip_flag port : ℕ) (w : World)
    → (ip_flag == use_ipv4) ≡ false
    → create_connect_socket calls jaddr ip_flag port w ≡ fault
unfolding create_connect_socket copy_address peer_family sockaddr_size
create_connect_socket-fault calls jaddr ip_flag port w e = rw e refl

-- What the calls of set_wake_up_polling return, with the two ends of the pipe.
pub record WakeCalls : Type 0 where
  pub pipe : ℤ
  pub read_end : ℤ
  pub write_end : ℤ
  pub read_nonblock : ℤ
  pub read_cloexec : ℤ
  pub write_nonblock : ℤ
  pub write_cloexec : ℤ
  pub add : ℤ

-- A result that C takes for true.
unfoldable pub fails : ℤ → Bool
fails r = not (eq_ℤ r (pos 0))

unfoldable pub set_wake_up_polling : WakeCalls → Cmd World ℤ
set_wake_up_polling calls =
    if fails calls.pipe
    then pure minus_one
    else if fails calls.read_nonblock
    then pure minus_one
    else if fails calls.read_cloexec
    then pure minus_one
    else if fails calls.write_nonblock
    then pure minus_one
    else if fails calls.write_cloexec
    then pure minus_one
    else (do
      epoll_ctl ctl_add calls.read_end epollin
      pure (if fails calls.add then minus_one else pos 0))
