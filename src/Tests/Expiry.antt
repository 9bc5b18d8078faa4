-- ===== src/Tests/Expiry.antt =====
-- event.c: house keeping on a table with one connection, which is ten seconds old.
use jujube.Base.{◌≡◌, ◌∙◌, sym, subst, ℕ, refl, ◌==◌, if◌then◌else◌, ap, arith}
use jujube.Base.Int.{pos, is_neg}
use jujube.Base.Run.{Returns}
use jujube.Base.Store.{lookup}
use jujube.Mem.Owned.{held-InUse}
use jujube.Stream.Free.{blocks}
use jujube.World.{World}
use jujube.Event.{expires_house_keeping}
use jujube.Event.Sound.{IsActive, Serves, leads, Sound}
use jujube.Event.Sweep.{HouseKept}
use jujube.Event.Expire.{expires_house_keeping-HouseKept}
use jujube.Tests.Streams.{made}
use jujube.Tests.Clients.{talking, busy}

abbrev one_busy : World
one_busy = record busy {
  events = λ i. if i == 7 then busy.events 0 else record (busy.events 0) { status = 0 };
}

only_seven : (i : ℕ) → IsActive one_busy i → i ≡ 7
only_seven i active = ground (arith, active)

seven-Serves : Serves one_busy 7
unfolding lookup
seven-Serves =
    leads 70 made.0
      (record { jc = 1; conn = talking; event = refl; found = refl; points = refl; stream = refl })
      (record {
        inv = made.3.owned.inv;
        distinct = made.3.owned.distinct;
        in_use = held-InUse (blocks made.0) made.3.owned;
      })
      (ap is_neg made.3.socket)

one_busy-Sound : Sound one_busy
one_busy-Sound = record {
  inv = made.3.owned.inv;
  serves = λ i lt active. subst (Serves one_busy) (sym (only_seven i active)) seven-Serves;
  apart = λ i j a b s t ne act act' p q. absurd (ne (only_seven i act ∙ sym (only_seven j act')));
}

expires_house_keeping-HouseKept_example :
    Returns
      (λ end w. HouseKept 60 (pos 3) Sound one_busy end w)
      (expires_house_keeping 900 60 (pos 3) one_busy)
expires_house_keeping-HouseKept_example =
    expires_house_keeping-HouseKept 60 (pos 3) 900 one_busy one_busy-Sound (omega arith)
