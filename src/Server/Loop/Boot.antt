-- ===== src/Server/Loop/Boot.antt =====
-- The start of main_rcv_loop, and its rounds.
use jujube.Base.{
  false, ℕ, ◌<◌, ◌≡◌, ◌∙◌, sym, ap, subst, refl, ◌||◌, Option, none, some, ◌==◌, arith, Bool-cases,
  inl, inr,
}
use jujube.Base.Int.{ℤ, pos, is_neg, eq_ℤ}
use jujube.Base.Run.{Cmd, Returns, returns, bind}
use jujube.Base.Store.{lookup}
use jujube.Mem.{Addr, Malloc, Gives}
use jujube.Ip.Host.{InAddr, af_inet, use_ipv6}
use jujube.Event.Epoll.{registered, Registered}
use jujube.World.{World, Jconnect}
use jujube.Event.{max_events}
use jujube.Event.Listen.{
  ListenCalls, Listening, Listened, no_object, listens, init_listensocket-Listened,
}
use jujube.Event.Sound.{IsActive}
use jujube.Server.{Server}
use jujube.Server.Link.{Returns-lift_world}
use jujube.Server.Ready.{Work}
use jujube.Server.Loop.{Start, Locals, leave, main_rcv_loop}
use jujube.Server.Loop.Frame.{Runs, Serving, Spot}
use jujube.Server.Loop.Round.{AllWait, main_rcv_loop_rounds-Runs}
use jujube.Event.Close.{Owns}
use jujube.Buf.Holds.{Holds}
use jujube.Mem.Inv.{Inv}

-- The event, its connection and all streams are as before.
Serving-same :
    {w w' : World} {p : Spot} (k : ℕ)
    → w'.events k ≡ w.events k
    → lookup p.jc w'.conns ≡ lookup p.jc w.conns
    → w'.streams ≡ w.streams
    → w'.memory ≡ w.memory
    → Serving w k p
    → Serving w' k p
Serving-same {p = p} k event conn streams memory v = record {
  event = ap (λ e. e.jc) event ∙ v.event;
  call_back = ap (λ e. e.call_back) event ∙ v.call_back;
  sock = v.sock ∙ ap (λ e. e.fd) (sym event);
  conn = conn ∙ v.conn;
  points = v.points;
  stream = ap (lookup p.place) streams ∙ v.stream;
  owns = subst (λ m. Owns m p.stream) (sym memory) v.owns;
  xs = v.xs;
  out = subst (λ m. Holds m p.stream.out_buf.buf v.xs) (sym memory) v.out;
  room = v.room;
  open_sock = v.open_sock;
  part = v.part;
  work = subst (λ m. Work m p.stream v.part) (sym memory) v.work;
  phase = v.phase;
  quiet = v.quiet;
}

-- The table serves on where it, its connections and all streams are as before.
Runs-same :
    {w w' : World} (v : Runs w)
    → ((k : ℕ) → k < max_events → w'.events k ≡ w.events k)
    → ((k : ℕ)
        → k < max_events
        → IsActive w k
        → lookup (v.spot k).jc w'.conns ≡ lookup (v.spot k).jc w.conns)
    → w'.streams ≡ w.streams
    → w'.memory ≡ w.memory
    → (Registered w → Registered w')
    → Runs w'
Runs-same {w} {w'} v events conns streams memory registry =
    let was : (k : ℕ) → k < max_events → IsActive w' k → IsActive w k =
      λ k lt act. ap (λ e. e.status == 1) (sym (events k lt)) ∙ act in
    record {
      inv = subst Inv (sym memory) v.inv;
      registry = registry v.registry;
      spot = v.spot;
      serves = λ k lt act.
          let act' = was k lt act in
          Serving-same k (events k lt) (conns k lt act') streams memory (v.serves k lt act');
      clear = λ j k lj lk ne actj actk. v.clear j k lj lk ne (was j lj actj) (was k lk actk);
    }

Listened-Runs :
    {w w' : World} {calls : ListenCalls} {port : ℕ} {ip : InAddr} (o : Option Listening)
    → Listened calls port ip w o w'
    → ((jc : Addr) (c : Jconnect) → calls.conn ≡ some (jc, c) → lookup jc w.conns ≡ none)
    → is_neg (calls.socket af_inet) ≡ false
    → registered w.epoll (calls.socket af_inet) ≡ false
    → Runs w
    → Runs w'
Listened-Runs _ (no_object e) fresh open_fd unknown v = v
Listened-Runs {w} _ (listens jc c net e q l) fresh open_fd unknown v =
    Runs-same v l.others
      (λ k lt act. l.conns (v.spot k).jc (λ same.
        ground (arith, fresh jc c e, (v.serves k lt act).conn, ap (λ x. lookup x w.conns) same)))
      l.streams l.memory (l.registry open_fd unknown)

leave-Runs :
    (efd : ℤ) (l : Option Locals) (sv : Server)
    → Runs sv.world
    → Returns (λ _ sv'. Runs sv'.world) (leave efd l sv)
unfolding leave
leave-Runs efd none sv v =
    returns (Runs-same v (λ k lt. refl) (λ k lt act. refl) refl refl (λ r. r))
leave-Runs efd (some l) sv v = returns v

-- main_rcv_loop on an IPv4 address, in a server that runs, where malloc(3) gives no jconnect that is
-- in use and socket(2) a descriptor that is not registered: the rounds return with a server that
-- runs, as long as no connection comes, epoll_wait(2) reports only active events of the table, each
-- once, and no readable event has bytes of an earlier read left.
pub main_rcv_loop-Runs :
    (os : Malloc) ⦃gives : Gives os⦄ (accept_conn : Cmd Server (Unit {0})) (start : Start)
    (sv : Server)
    → Runs sv.world
    → ((jc : Addr) (c : Jconnect)
        → start.calls.conn ≡ some (jc, c)
        → lookup jc sv.world.conns ≡ none)
    → (start.ip.flag == use_ipv6) ≡ false
    → is_neg (start.calls.socket af_inet) ≡ false
    → registered sv.world.epoll (start.calls.socket af_inet) ≡ false
    → AllWait start.turns
    → Returns (λ _ sv'. Runs sv'.world) (main_rcv_loop os accept_conn start sv)
unfolding main_rcv_loop
main_rcv_loop-Runs os accept_conn start sv v fresh other open_fd unknown waits =
    elim (Bool-cases (is_neg start.efd || eq_ℤ start.efd (pos 0))) [
      | inl bad ↦ rw bad (returns v)
      | inr good ↦ rw good (
          bind
            (Returns-lift_world sv
              (init_listensocket-Listened start.calls start.now start.port start.ip sv.world other))
            (λ listening sv1 (l, t).
              bind
                (main_rcv_loop_rounds-Runs os accept_conn start.turns _ sv1
                  (Listened-Runs listening l fresh open_fd unknown v) (omega arith) waits)
                (λ next sv2 (v2, on).
                  bind (leave-Runs start.efd next sv2 v2) (λ _ sv3 v3. returns v3))))
    ]
