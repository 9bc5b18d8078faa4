-- ===== src/Event/Expire.antt =====
-- expires_house_keeping: the expired events are closed.
use jujube.Base.{ℕ, ◌≤◌, ◌≡◌, ◌∙◌, refl, none, some, arith}
use jujube.Base.Int.{ℤ}
use jujube.Base.Run.{ok, Returns, returns, mono}
use jujube.Base.Store.{lookup}
use jujube.World.{World, Jconnect, EpollCall}
use jujube.Event.{max_events, close_stream, close_conn, expires_house_keeping}
use jujube.Event.Close.{conn_at_lem, close_stream-Closed}
use jujube.Event.Sweep.{Closes, HouseKept, deleted, expires_house_keeping_lem}
use jujube.Event.Sound.{
  Serves, no_conn, no_stream, leads, Sound, Dropped, Spares, all_streams, one_stream, Sound-after,
}

close_stream-no_conn : (i : ℕ) (w : World) → (w.events i).jc ≡ none → close_stream i w ≡ ok tt w
unfolding close_stream
close_stream-no_conn i w e = rw (e, close_stream) refl

close_stream-no_stream :
    (i jc : ℕ) (c : Jconnect) (w : World)
    → (w.events i).jc ≡ some jc
    → lookup jc w.conns ≡ some c
    → c.stream ≡ none
    → close_stream i w ≡ ok tt w
unfolding close_stream close_conn
close_stream-no_stream i jc c w e f n =
    rw (e, close_stream, conn_at_lem w jc c f) (rw (n, close_conn) refl)

deleted-Dropped : (w : World) (i : ℕ) (call : EpollCall) → Dropped w i (deleted w i call)
deleted-Dropped w i call = record {
  conns = refl;
  inactive = ground arith;
  events = λ k ne. ground arith;
}

-- What close_stream does to it.
close-deleted :
    (w : World) (i : ℕ) (call : EpollCall)
    → Serves w i
    → Returns (λ _ w'. Dropped w i w' × Spares w i w') (close_stream i (deleted w i call))
close-deleted w i call (no_conn e) =
    rw (close_stream-no_conn i (deleted w i call) (ground arith))
      (returns (deleted-Dropped w i call, all_streams refl refl))
close-deleted w i call (no_stream jc c e f n) =
    rw (close_stream-no_stream i jc c (deleted w i call) (ground arith) f n)
      (returns (deleted-Dropped w i call, all_streams refl refl))
close-deleted w i call (leads a s p o open_sock) =
    mono
      (close_stream-Closed (deleted w i call) i p.jc p.conn a s
        (record {
          event = ground (arith, p.event);
          conn = p.found;
          points = p.points;
          stream = p.stream;
          owns = o;
        })
        open_sock)
      (λ _ w' c. (
        record {
          conns = c.conns;
          inactive = c.inactive;
          events = λ k ne. c.events k ne ∙ ground arith;
        },
        one_stream a s p c.memory c.gone c.others,
      ))

close_stream-Shut : Closes Sound
close_stream-Shut w i call e v lt active =
    mono (close-deleted w i call (v.serves i lt active)) (λ _ w' (d, sp).
      (Sound-after v active d sp, record { inactive = d.inactive; events = d.events }))

-- Where the active events lead to streams of their own, if to any, each on an open socket and with
-- its own blocks in use, expires_house_keeping returns from any position up to MAX_EVENTS: no
-- event of the table that was active and at least ten seconds old, on another descriptor than the
-- one to be left alone, is active any more, every other event is as it was, and the active events
-- still lead to streams of their own, which own their blocks.
pub expires_house_keeping-HouseKept :
    (now : ℕ) (except_fd : ℤ) (start : ℕ) (w : World)
    → Sound w
    → start ≤ max_events
    → Returns
        (λ end w'. HouseKept now except_fd Sound w end w')
        (expires_house_keeping start now except_fd w)
expires_house_keeping-HouseKept now except_fd =
    expires_house_keeping_lem now except_fd Sound close_stream-Shut
