-- ===== src/Client/Transaction/Begun.antt =====
-- create_transaction on a new connection.
use jujube.Base.{
  ℕ, ◌≡◌, ◌≢◌, ◌∙◌, sym, ap, subst, refl, none, some, List, ◌∷◌, ◌++◌, take, take_all, arith, ◌==◌,
  if◌then◌else◌,
}
use jujube.Base.Words.{le_bytes, length-le_bytes}
use jujube.Base.Run.{ok, fault, Returns, returns, mono, value}
use jujube.Base.Store.{lookup, put, lookup-put_self, lookup-put_ne}
use jujube.Mem.{Addr, Memory, Malloc, Gives}
use jujube.Mem.Inv.{Inv}
use jujube.Mem.Owned.{held-InUse}
use jujube.Stream.{TcpStream}
use jujube.Stream.Create.{Sending, new_transaction_stream-Created}
use jujube.World.{World, Jconnect, Myevent, EpollCall, begin_conn, connect_cb, ctl_add}
use jujube.Event.{max_events, epollout, eventset, eventadd}
use jujube.Event.Free.{first_free, evget_free}
use jujube.Event.Close.{Attached, conn_at_lem}
use jujube.Client.{attach_event, attach_stream_to_connect, not_null}
use jujube.Client.Transaction.{LogEntry, Outside, compress_ret, start_stream}

-- An event waits for the connection `jc` to take bytes, and leads to its stream.
pub record Armed (w : World) (i jc : ℕ) (c : Jconnect) (a : Addr) (w' : World) : Type 0 where
  pub conn : lookup jc w'.conns ≡ some (record c { stream = some a })
  pub others : (b : Addr) → jc ≢ b → lookup b w'.conns ≡ lookup b w.conns
  pub jc_set : (w'.events i).jc ≡ some jc
  pub call_back : (w'.events i).call_back ≡ connect_cb
  pub waits :
      ((w'.events i).events ≡ epollout) × ((w'.events i).status ≡ 1) × ((w'.events i).fd ≡ c.fd)
  pub epoll : w'.epoll ≡ record { op = ctl_add; fd = c.fd; events = epollout } ∷ w.epoll
  pub memory : w'.memory ≡ w.memory
  pub streams : w'.streams ≡ w.streams
  pub idle : w'.idle ≡ w.idle
  pub closed : w'.closed ≡ w.closed
  pub events : (k : ℕ) → i ≢ k → w'.events k ≡ w.events k

-- What eventset writes.
abbrev fresh_event : ℕ → Addr → Jconnect → Myevent
fresh_event now jc c = record {
  fd = c.fd;
  events = 0;
  call_back = connect_cb;
  status = 0;
  last_active = now;
  jc = some jc;
}

-- A new connection gets the first free event.
attach_event_lem :
    (now : ℕ) (w : World) (i jc : ℕ) (c d : Jconnect)
    → c.status ≡ begin_conn
    → lookup jc w.conns ≡ some d
    → first_free w.events max_events 0 ≡ some i
    → attach_event now jc c w
      ≡ ok i (record w { events = λ j. if i == j then fresh_event now jc d else w.events j })
unfolding attach_event eventset not_null
attach_event_lem now w i jc c d begin e free =
    let got = evget_free w ∙ ap (λ f. ok f w) free in
    rw (begin, attach_event, got, conn_at_lem w jc d e) refl

attach_stream_to_connect-Armed :
    (now : ℕ) (w : World) (i jc : ℕ) (c : Jconnect) (a : Addr)
    → lookup jc w.conns ≡ some c
    → c.status ≡ begin_conn
    → first_free w.events max_events 0 ≡ some i
    → Returns (λ _ w'. Armed w i jc c a w') (attach_stream_to_connect now jc a w)
unfolding attach_stream_to_connect eventadd
attach_stream_to_connect-Armed now w i jc c a e begin free =
    let c' = record c { stream = some a } in
    let w2 = record w { conns = put jc c' w.conns } in
    let got = attach_event_lem now w2 i jc c c' begin (lookup-put_self jc c' w.conns) free in
    rw (conn_at_lem w jc c e, got)
      (returns (record {
        conn = lookup-put_self jc c' w.conns;
        others = λ b ne. lookup-put_ne jc b c' w.conns ne;
        jc_set = ground arith;
        call_back = ground arith;
        waits = (ground arith, ground arith, ground arith);
        epoll = ground arith;
        memory = refl;
        streams = refl;
        idle = refl;
        closed = refl;
        events = λ k ne. ground arith;
      }))

-- What goes over the connection: the length, and that many bytes of the message.
abbrev pub wire : LogEntry → List ℕ
wire entry = le_bytes 8 compress_ret ++ take compress_ret entry.gather_logmsg

-- The stream of a transaction that has begun on the connection `jc`, whose event is `i`; `m` and
-- `calls` are the allocator and the calls of epoll_ctl(2) before it.
pub record Begun (m : Memory) (calls : List EpollCall) (entry : LogEntry) (i jc : ℕ) (c : Jconnect)
    (w' : World) : Type 0 where
  pub stream : TcpStream
  pub sending : Sending m c.fd (wire entry) stream w'.memory
  pub attached : Attached w' i jc (record c { stream = some stream.self }) stream.self stream
  pub call_back : (w'.events i).call_back ≡ connect_cb
  pub waits :
      ((w'.events i).events ≡ epollout) × ((w'.events i).status ≡ 1) × ((w'.events i).fd ≡ c.fd)
  pub epoll : w'.epoll ≡ record { op = ctl_add; fd = c.fd; events = epollout } ∷ calls

-- Nothing else has changed.
pub record Alone (i jc : ℕ) (s : TcpStream) (w w' : World) : Type 0 where
  pub events : (k : ℕ) → i ≢ k → w'.events k ≡ w.events k
  pub conns : (b : Addr) → jc ≢ b → lookup b w'.conns ≡ lookup b w.conns
  pub streams : (b : Addr) → s.self ≢ b → lookup b w'.streams ≡ lookup b w.streams
  pub idle : w'.idle ≡ w.idle

Armed-Begun :
    (w w' : World) (m : Memory) (entry : LogEntry) (i jc : ℕ) (c : Jconnect) (s : TcpStream)
    → Sending w.memory c.fd (wire entry) s m
    → Armed (record w { memory = m; streams = put s.self s w.streams }) i jc c s.self w'
    → (begun : Begun w.memory w.epoll entry i jc c w') × Alone i jc begun.stream w w'
Armed-Begun w w' m entry i jc c s sending a =
    let kept = subst (λ x. Sending w.memory c.fd (wire entry) s x) (sym a.memory) sending in
    (
      record {
        stream = s;
        sending = kept;
        attached = record {
          event = a.jc_set;
          conn = a.conn;
          points = refl;
          stream = ap (lookup s.self) a.streams ∙ lookup-put_self s.self s w.streams;
          owns = record {
            inv = kept.owned.inv;
            distinct = kept.owned.distinct;
            in_use = held-InUse _ kept.owned;
          };
        };
        call_back = a.call_back;
        waits = a.waits;
        epoll = a.epoll;
      },
      record {
        events = a.events;
        conns = a.others;
        streams = λ b ne. ap (lookup b) a.streams ∙ lookup-put_ne s.self b s w.streams ne;
        idle = a.idle;
      },
    )

-- A stream on a connection that is new.
pub start_stream-Begun :
    (os : Malloc) ⦃gives : Gives os⦄ (out : Outside) (entry : LogEntry) (w : World) (i jc : ℕ)
    (c : Jconnect)
    → Inv w.memory
    → lookup jc w.conns ≡ some c
    → c.status ≡ begin_conn
    → first_free w.events max_events 0 ≡ some i
    → Returns
        (λ _ w'. (begun : Begun w.memory w.epoll entry i jc c w') × Alone i jc begun.stream w w')
        (start_stream os out entry (some jc) w)
unfolding start_stream
start_stream-Begun os out entry w i jc c v e begin free =
    let (s, m, run, sending) = value (
      new_transaction_stream-Created os out.clock c.fd (le_bytes 8 compress_ret) entry.gather_logmsg
        compress_ret w.memory v (omega arith)) in
    let eight : take 8 (le_bytes 8 compress_ret) ≡ le_bytes 8 compress_ret =
      take_all 8 (le_bytes 8 compress_ret) (omega (arith, length-le_bytes 8 compress_ret)) in
    let sending =
      subst (λ x. Sending w.memory c.fd (x ++ take compress_ret entry.gather_logmsg) s m) eight
        sending in
    let w1 = record w { memory = m; streams = put s.self s w.streams } in
    rw (conn_at_lem w jc c e, run)
      (mono (attach_stream_to_connect-Armed out.now w1 i jc c s.self e begin free)
        (λ _ w' a. Armed-Begun w w' m entry i jc c s sending a))

-- With no free event the connection gets the event NULL.
attach_event-fault :
    (now : ℕ) (w : World) (jc : ℕ) (c : Jconnect)
    → c.status ≡ begin_conn
    → first_free w.events max_events 0 ≡ none
    → attach_event now jc c w ≡ fault
unfolding attach_event not_null
attach_event-fault now w jc c begin full =
    let got = evget_free w ∙ ap (λ f. ok f w) full in rw (begin, attach_event, got) refl

attach_stream_to_connect-fault :
    (now : ℕ) (w : World) (jc : ℕ) (c : Jconnect) (a : Addr)
    → lookup jc w.conns ≡ some c
    → c.status ≡ begin_conn
    → first_free w.events max_events 0 ≡ none
    → attach_stream_to_connect now jc a w ≡ fault
unfolding attach_stream_to_connect
attach_stream_to_connect-fault now w jc c a e begin full =
    let w2 = record w { conns = put jc (record c { stream = some a }) w.conns } in
    rw (conn_at_lem w jc c e, attach_event-fault now w2 jc c begin full) refl

pub start_stream-fault :
    (os : Malloc) ⦃gives : Gives os⦄ (out : Outside) (entry : LogEntry) (w : World) (jc : ℕ)
    (c : Jconnect)
    → Inv w.memory
    → lookup jc w.conns ≡ some c
    → c.status ≡ begin_conn
    → first_free w.events max_events 0 ≡ none
    → start_stream os out entry (some jc) w ≡ fault
unfolding start_stream
start_stream-fault os out entry w jc c v e begin full =
    let (s, m, run, sending) = value (
      new_transaction_stream-Created os out.clock c.fd (le_bytes 8 compress_ret) entry.gather_logmsg
        compress_ret w.memory v (omega arith)) in
    rw (conn_at_lem w jc c e, run)
      (attach_stream_to_connect-fault out.now
        (record w { memory = m; streams = put s.self s w.streams }) jc c s.self e begin full)
