-- ===== src/Client/Keepalive.antt =====
-- keepalive_cb: an idle connection that its peer has closed.
use jujube.Base.{
  ℕ, ◌≡◌, ◌≢◌, refl, true, false, some, none, ◌∷◌, arith, ◌==◌, has, remove, Bool-cases, inl, inr,
}
use jujube.Base.Run.{Returns, returns}
use jujube.Base.Store.{lookup, put, lookup-put_self, lookup-put, lookup-erase}
use jujube.Mem.{Addr}
use jujube.World.{World, Jconnect}
use jujube.Connection.{release_keepalive_connection}
use jujube.Connection.Release.{release_keepalive_connection_lem}
use jujube.Event.{eventdel}
use jujube.Event.Close.{conn_at_lem}
use jujube.Client.{not_null, on_keepalive}

-- The connection is closed and freed, and off the list.
pub record Removed (w : World) (i jc : ℕ) (c : Jconnect) (w' : World) : Type 0 where
  pub gone : lookup jc w'.conns ≡ none
  pub others : (b : Addr) → jc ≢ b → lookup b w'.conns ≡ lookup b w.conns
  pub closed : w'.closed ≡ c.fd ∷ w.closed
  pub idle : w'.idle ≡ remove jc w.idle
  pub inactive : ((w'.events i).status == 1) ≡ false

abbrev dead : Jconnect → Jconnect
dead c = record c { is_alive = false }

Removed-at :
    (w w1 : World) (i jc : ℕ) (c : Jconnect)
    → has jc w.idle ≡ true
    → w1.conns ≡ put jc (dead c) w.conns
    → w1.closed ≡ w.closed
    → w1.idle ≡ w.idle
    → ((w1.events i).status == 1) ≡ false
    → Returns (λ _ w'. Removed w i jc c w') (release_keepalive_connection jc w1)
Removed-at w w1 i jc c h ec ecl eid est =
    rw
      (release_keepalive_connection_lem w1 jc (dead c) (rw ec (lookup-put_self jc (dead c) w.conns))
        (rw eid h))
      (returns (record {
        gone = ground (arith, lookup-erase jc jc w1.conns);
        others =
            λ b ne. ground (arith, lookup-erase jc b w1.conns, lookup-put jc b (dead c) w.conns);
        closed = rw ecl refl;
        idle = rw eid refl;
        inactive = est;
      }))

-- Where an event leads to a connection on the list of idle ones, keepalive_cb returns: the
-- connection leaves the list and is closed once and freed, every other connection is as before, and
-- the event is inactive.
pub on_keepalive-Removed :
    (w : World) (i jc : ℕ) (c : Jconnect)
    → (w.events i).jc ≡ some jc
    → lookup jc w.conns ≡ some c
    → has jc w.idle ≡ true
    → Returns (λ _ w'. Removed w i jc c w') (on_keepalive i w)
unfolding on_keepalive not_null eventdel
on_keepalive-Removed w i jc c e found h =
    rw (e, not_null, conn_at_lem w jc c found)
      (elim (Bool-cases ((w.events i).status == 1)) [
        | inl active ↦ rw active (Removed-at w _ i jc c h refl refl refl (ground arith))
        | inr inactive ↦ rw inactive (Removed-at w _ i jc c h refl refl refl inactive)
      ])
