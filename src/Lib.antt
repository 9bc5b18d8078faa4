-- ===== src/Lib.antt =====
-- jujube: a library of parts for programs that move messages over TCP, with a client and a server.
-- This development models its core and proves what its parts promise to each other.
--
-- The program. mem.c hands out blocks of 17 sizes and recycles them; buf.c keeps growing byte
-- buffers in such blocks; stream.c joins two buffers and a socket, sends what the first holds and
-- receives into the second; connection.c pools idle connections; event.c keeps the table of epoll
-- events, closes streams and expires events; client.c drives them with its callbacks, and sends
-- messages with their length before them; server.c puts such messages together again and hands
-- them to do_work; ip.c reads addresses. A stream owns its blocks, a connection points to its
-- stream, and an event points to its connection.
--
-- The files.
-- - Base: lists, integers, stores, and `Run`, what a piece of code does on a state: it returns
--   with a value and a state, stops at a failed assert(3) (`abort`), or makes a bad access
--   (`fault`). `Returns P r` says that it returns and that `P` holds then.
-- - Print: what snprintf(3) writes, for mem.c and comm.c.
-- - Mem: mem.c and mem.h. mem_alloc, mem_free, mem_realloc, mem_check_mod_count and
--   mem_module_init keep their names; the list MEM_USED_LIST is `used_list` (the build with
--   DEBUG_MEM_CHECK), MemPools is `pools`, mem_stat is `stats`. `view` is what the owners of
--   blocks see. `Malloc` is malloc(3), which may give NULL; `Gives` says that it does not.
--   Mem/Statistics.antt: statistics_mem_info, with what its text says in Mem/Statistics/Spec.antt.
-- - Buf: buf.c and buf.h. `Holds m b xs` says that the buffer holds the bytes `xs`.
-- - Stream: stream.c and stream.h.
-- - World: the objects of connection.c, event.c and client.c behind their pointers (connection.h,
--   event.h), and the system calls on them.
-- - Connection: connection.c. Event: event.c. Ip: ip.c, with ip_2_str in Ip/Text.antt;
--   Ip/Reads.antt says when a text is an address in dotted decimal.
-- - Server: server.c. data_transfer with collect_data and alloc_work_buff; the globals are
--   `Server`, where `work` lists what do_work has been given. Its bytes of a word are in the order
--   of a little-endian machine. Server/Message.antt: `deliver` calls data_transfer once for each
--   piece of bytes that comes; Server/Overrun.antt follows a piece that has too many.
--   Server/Safe.antt: a connection at any point of a message. Server/Loop.antt: main_rcv_loop, with
--   accept_conn as a parameter; `Runs` there is the invariant of its table and of its requests to
--   epoll_ctl(2), which Event/Epoll.antt follows.
-- - Client: client.c. The callbacks connect_cb, keepalive_cb and data_transfer are on_connect,
--   on_keepalive and on_data. Client/Transaction.antt: create_transaction, with the clocks, the
--   socket and malloc(3) of a connection as parameters. Client/Loop.antt: a round of main_loop,
--   and its parts as requests, of which `Reachable` allows any order. `Runs` is the invariant: the
--   active events lead to connections, streams and blocks of their own.
-- - Sockets: comm.c, on the results of the system's calls; xstrerror in Sockets/Errors.antt.
-- - Protocol: what the client writes is what the server's do_work is given.
-- - Tests: the theorems at concrete inputs.
--
-- Conventions. Machine integers are natural numbers with their wrap-around written out: `int`
-- counters of mem.c and the `uint32_t` of the pool modulo 2 ^ 32, `size_t` modulo 2 ^ 64. The
-- locals of type `int` in stream.c hold sizes of blocks, which are at most 1 MB, and are not
-- wrapped. The results of malloc(3), write(2), read(2), time(2), gettimeofday(2), socket(2),
-- inet_pton(3), inet_ntop(3) and strerror(3) are arguments: malloc(3) gives an address that is
-- not in use or NULL, and the results of writes and reads are a list, one for each call, where
-- the call behind the last of the list would block. The loops over the 17 classes, the 1024
-- events and the 1025 rounds of expires_house_keeping take their number of rounds as fuel, as in
-- the source, and a number has 20 digits at most (Print.antt); all other loops recurse on the
-- list they walk. A pointer to a freed object is not in its store, so its use is a fault. The
-- memcpy of a whole sockaddr out of an address is a fault where it is longer than the address,
-- as for IPv6 (Sockets.antt). server.c:230 calls set_event_in_out, which no file defines: it is
-- read as set_stream_event_in_out.
--
-- Not modelled. The mutexes, since a critical section is one step here; printing to the terminal;
-- the tickle pipe, whose reading changes nothing here, with wake_up_poll, which writes one byte to
-- it, and the test message in main_loop; accept_conn of server.c, which calls evget and
-- eventset with arguments that the current headers do not have; list.h, whose lists are sequences
-- here; fastlz.c, a copy of a library whose only call is switched off.
pub mod Base
pub mod Print
pub mod Mem
pub mod Buf
pub mod Stream
pub mod World
pub mod Connection
pub mod Event
pub mod Client
pub mod Server
pub mod Protocol
pub mod Ip
pub mod Sockets
pub mod Tests
