-- ===== src/Protocol.antt =====
-- client.c and server.c together: what create_transaction writes is what do_work is given.
use mathlib.Core.Option.{some-injective}
use mathlib.Core.List.{append-nil}
use jujube.Base.{
  ℕ, ◌≤◌, ◌≡◌, ◌∙◌, sym, ap, subst, refl, false, none, some, List, [], ◌∷◌, ◌++◌, length, take,
  length-take, arith,
}
use jujube.Base.Int.{ℤ, is_neg, minus_one}
use jujube.Base.Words.{le_bytes}
use jujube.Base.Run.{ok, Returns, result_of}
use jujube.Base.Store.{lookup}
use jujube.Mem.{Addr, Memory, Malloc, Gives}
use jujube.Mem.Inv.{Inv}
use jujube.Buf.{buf_data_size}
use jujube.Buf.Holds.{Holds, data_len-length}
use jujube.Stream.{TcpStream, WriteResult, Flushed, stream_flush_out}
use jujube.Stream.Flush.{Sent, for_all, stream_flush_out-Sent}
use jujube.World.{World, Jconnect}
use jujube.Connection.Get.{IsPool, first_alive}
use jujube.Event.{max_events}
use jujube.Event.Close.{Attached}
use jujube.Event.Free.{first_free}
use jujube.Client.Transaction.{LogEntry, Outside, compress_ret, create_transaction}
use jujube.Client.Transaction.Begun.{Begun, wire}
use jujube.Client.Transaction.Create.{Connects, connecting, create_transaction-Begun}
use jujube.Server.{Server}
use jujube.Server.Link.{Link, Linked}
use jujube.Server.Step.{Completes}
use jujube.Server.Header.{Fresh}
use jujube.Server.Message.{Piece, deliver, join, Readable, deliver-Completes}

length-nil : (xs : List ℕ) → length xs ≡ 0 → xs ≡ []
length-nil [] e = refl
length-nil (x ∷ xs) e = absurd (ground arith)

-- An event leads to one stream.
Attached-unique :
    {w : World} {i jc1 jc2 : ℕ} {c1 c2 : Jconnect} {a1 a2 : Addr} {s1 s2 : TcpStream}
    → Attached w i jc1 c1 a1 s1
    → Attached w i jc2 c2 a2 s2
    → s1 ≡ s2
Attached-unique {w} {jc1 = jc1} {jc2} {c1} {c2} {a1} {a2} {s1} {s2} x y =
    let jcs : jc1 ≡ jc2 = some-injective jc1 jc2 (sym x.event ∙ y.event) in
    let cs : c1 ≡ c2 =
      some-injective c1 c2 (sym x.conn ∙ (ap (λ j. lookup j w.conns) jcs ∙ y.conn)) in
    let places : a1 ≡ a2 =
      some-injective a1 a2 (sym x.points ∙ (ap (λ c. c.stream) cs ∙ y.points)) in
    some-injective s1 s2 (sym x.stream ∙ (ap (λ a. lookup a w.streams) places ∙ y.stream))

-- All that `in_buf` holds has gone over the socket.
pub flushed_all :
    {m m' : Memory} {s : TcpStream} {xs : List ℕ} {writes : List WriteResult} {cur : ℕ}
    {f : Flushed}
    → Sent m s xs writes cur 0 f m'
    → buf_data_size f.stream.in_buf.buf ≡ 0
    → f.wire ≡ xs
unfolding buf_data_size
flushed_all {f = f} sent empty =
    let none_left : sent.rest ≡ [] =
      length-nil sent.rest (sym (data_len-length sent.holds) ∙ empty) in
    sym (append-nil f.wire) ∙ (ap (◌++◌ f.wire) (sym none_left) ∙ sent.split)

-- From the client to the server. Where the client's list of idle connections has no live one,
-- malloc(3) gives an object, the socket is set up, and the event `i` is the first that is free,
-- in an allocator with its invariant: create_transaction, for a message of 512 bytes or more,
-- leaves the event `i` with a stream, and stream_flush_out empties the `in_buf` of this stream
-- into the socket. What has gone over the socket comes to the server in pieces, each of them not
-- empty and within one read and the first of eight bytes or more, on a connection whose event
-- leads to a stream that is ready and on which no message has begun. Then the calls of the
-- server's data_transfer return, do_work is given the first 512 bytes of the message and nothing
-- else, one request is counted, the server's stream and all its blocks are gone, and its
-- descriptor is closed once. malloc(3) is taken not to fail (`Gives`).
pub transaction-Completes :
    (os : Malloc) ⦃gives : Gives os⦄ (out : Outside) (entry : LogEntry) (w w' : World) (i jc : ℕ)
    (c : Jconnect) (fd : ℤ)
    → IsPool w
    → first_alive w.conns w.idle ≡ none
    → Connects out entry jc c fd
    → Inv w.memory
    → first_free w.events max_events 0 ≡ some i
    → compress_ret ≤ length entry.gather_logmsg
    → create_transaction os out entry w ≡ ok tt w'
    → (jc' : ℕ) (c' : Jconnect) (a : Addr) (sent : TcpStream) → Attached w' i jc' c' a sent
    → (writes : List WriteResult) (f : Flushed) (m' : Memory)
    → stream_flush_out writes sent minus_one w'.memory ≡ ok f m'
    → buf_data_size f.stream.in_buf.buf ≡ 0
    → (k : Link) (sv : Server) (s : TcpStream) (p : Piece) (ps : List Piece)
    → join (p ∷ ps) ≡ f.wire
    → Linked k s [] sv.world
    → Fresh s
    → Readable (p ∷ ps)
    → 8 ≤ length p.bytes
    → Returns
        (λ _ sv'. Completes k (take compress_ret entry.gather_logmsg) sv sv')
        (deliver os k.sock k.event (p ∷ ps) sv)
transaction-Completes os out entry w w' i jc c fd pool no_alive new v free long run jc' c' a sent at
      writes f m' flush empty k sv s p ps comes l fresh r le =
    let b : Begun w.memory w.epoll entry i jc (connecting c fd) w' =
      result_of (create_transaction-Begun os out entry w jc c fd pool no_alive new i v free) run in
    let same : b.stream ≡ sent = Attached-unique b.attached at in
    let h : Holds w'.memory sent.in_buf.buf (wire entry) =
      subst (λ x. Holds w'.memory x.in_buf.buf (wire entry)) same b.sending.in_holds in
    let open_sock : is_neg sent.server_sock ≡ false =
      ap (λ x. is_neg x.server_sock) (sym same) ∙ (ap is_neg b.sending.socket ∙ new.open_sock) in
    let gone =
      result_of
        (stream_flush_out-Sent writes w'.memory sent minus_one (wire entry) (length (wire entry))
          b.sending.owned.inv h open_sock for_all)
        flush in
    let msg = take compress_ret entry.gather_logmsg in
    let size : length msg ≡ compress_ret =
      ground (arith, length-take compress_ret entry.gather_logmsg) in
    let all : join (p ∷ ps) ≡ le_bytes 8 (length msg) ++ msg =
      comes ∙ (flushed_all gone empty ∙ ap (λ n. le_bytes 8 n ++ msg) (sym size)) in
    deliver-Completes os k sv s msg p ps l fresh (omega (arith, size)) (omega (arith, size)) r le
      all
