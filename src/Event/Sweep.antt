-- ===== src/Event/Sweep.antt =====
-- The loop of expires_house_keeping, for any invariant that the closing of an expired event keeps.
use jujube.Base.{
  ℕ, zero, suc, ◌+◌, ◌-◌, ◌≤◌, ◌<◌, ◌≡◌, ◌≢◌, ◌∙◌, sym, ap, subst, refl, Bool, true, false, ◌&&◌,
  not, ◌∷◌, arith, leb, ◌==◌, if◌then◌else◌, Bool-cases, inl, inr,
}
use jujube.Base.Int.{ℤ, eq_ℤ}
use jujube.Base.Run.{Returns, returns, bind, mono}
use jujube.World.{World, Myevent, EpollCall, ctl_del}
use jujube.Event.{
  max_events, eventdel, close_stream, expire_one, expire_from, expires_house_keeping,
}
use jujube.Event.Sound.{IsActive}

-- Whether an event is ten seconds old, and not the one to be left alone.
abbrev pub is_expired : ℕ → ℤ → Myevent → Bool
is_expired now except_fd ev =
    ev.status == 1 && (leb (ev.last_active + 10) now && not (eq_ℤ except_fd ev.fd))

-- The world in which an active event has been taken off the epoll instance.
abbrev pub deleted : World → ℕ → EpollCall → World
deleted w i call = record w {
  events = λ j. if i == j then record (w.events i) { status = 0 } else w.events j;
  epoll = call ∷ w.epoll;
}

-- The request of eventdel.
abbrev pub deletion : World → ℕ → EpollCall
deletion w i = record { op = ctl_del; fd = (w.events i).fd; events = 0 }

-- The event is over, and no other has changed.
pub record Shut (w : World) (i : ℕ) (w' : World) : Type 0 where
  pub inactive : ((w'.events i).status == 1) ≡ false
  pub events : (k : ℕ) → i ≢ k → w'.events k ≡ w.events k

-- What close_stream does for the loop.
abbrev pub Closes : (World → Type 0) → Type 0
Closes Good =
    (w : World) (i : ℕ) (call : EpollCall)
    → call ≡ deletion w i
    → Good w
    → i < max_events
    → IsActive w i
    → Returns (λ _ w'. Good w' × Shut w i w') (close_stream i (deleted w i call))

-- What one round does to an event.
data Fate (now : ℕ) (except_fd : ℤ) (e e' : Myevent) : Type 0 where
  stays : e' ≡ e → Fate now except_fd e e'
  expires : is_expired now except_fd e ≡ true → (e'.status == 1) ≡ false → Fate now except_fd e e'

module _ (now : ℕ) (except_fd : ℤ) where
  Fate-trans :
      {e e1 e' : Myevent}
      → Fate now except_fd e e1
      → Fate now except_fd e1 e'
      → Fate now except_fd e e'
  Fate-trans (stays p) (stays q) = stays (q ∙ p)
  Fate-trans (stays p) (expires h q) = expires (ap (is_expired now except_fd) (sym p) ∙ h) q
  Fate-trans (expires h p) (stays q) = expires h (ap (λ e. e.status == 1) q ∙ p)
  Fate-trans (expires h p) (expires h' q) = expires h q

  -- Inactive events stay so.
  Fate-inactive :
      {e e' : Myevent}
      → Fate now except_fd e e'
      → (e.status == 1) ≡ false
      → (e'.status == 1) ≡ false
  Fate-inactive (stays p) q = ap (λ e. e.status == 1) p ∙ q
  Fate-inactive (expires h p) q = p

  -- The event of a round.
  abbrev pub slot : ℕ → ℕ
  slot checkpos = if checkpos == max_events then 0 else checkpos

  -- How many rounds come before that of the event `k`.
  abbrev pub before : (i k : ℕ) → ℕ
  before i k = if leb i k then k - i else max_events - i + k

  before-slot :
      (i k : ℕ)
      → i < max_events
      → k < max_events
      → (i == k) ≡ false
      → before i k ≡ before (slot (i + 1)) k + 1
  before-slot i k li lk ne = ground arith

  module _ (Good : World → Type 0) where
    record Round (w : World) (i : ℕ) (w' : World) : Type 0 where
      sound : Good w'
      fate : (k : ℕ) → Fate now except_fd (w.events k) (w'.events k)
      done : is_expired now except_fd (w.events i) ≡ true → ((w'.events i).status == 1) ≡ false

    record Swept (rounds checkpos : ℕ) (w : World) (end : ℕ) (w' : World) : Type 0 where
      sound : Good w'
      position : end ≤ max_events
      fate : (k : ℕ) → Fate now except_fd (w.events k) (w'.events k)
      done :
          (k : ℕ)
          → k < max_events
          → before (slot checkpos) k < rounds
          → is_expired now except_fd (w.events k) ≡ true
          → ((w'.events k).status == 1) ≡ false

    -- What house keeping leaves: the events that had not expired are as they were, the others are
    -- inactive.
    pub record HouseKept (w : World) (end : ℕ) (w' : World) : Type 0 where
      pub sound : Good w'
      pub position : end ≤ max_events
      pub expired :
          (k : ℕ)
          → k < max_events
          → is_expired now except_fd (w.events k) ≡ true
          → ((w'.events k).status == 1) ≡ false
      pub others :
          (k : ℕ) → is_expired now except_fd (w.events k) ≡ false → w'.events k ≡ w.events k

    module _ (closes : Closes Good) where
      unchanged :
          (w : World) (i : ℕ) → Good w → is_expired now except_fd (w.events i) ≡ false → Round w i w
      unchanged w i v e = record { sound = v; fate = λ k. stays refl; done = λ h. ground arith }

      expire_one-Round :
          (w : World) (i : ℕ)
          → Good w
          → i < max_events
          → Returns (λ _ w'. Round w i w') (expire_one now except_fd i w)
      unfolding expire_one eventdel
      expire_one-Round w i v lt = elim (Bool-cases ((w.events i).status == 1)) [
        | inr inactive ↦ rw inactive (returns (unchanged w i v (ground arith)))
        | inl active ↦
            elim (Bool-cases
              (leb ((w.events i).last_active + 10) now && not (eq_ℤ except_fd (w.events i).fd))) [
                | inr fresh ↦ rw (active, fresh) (returns (unchanged w i v (ground arith)))
                | inl old ↦
                    rw (active, old)
                      (mono (closes w i _ refl v lt active) (λ _ w' (v', d). record {
                        sound = v';
                        fate = λ k. elim (Bool-cases (i == k)) [
                          | inl same ↦ expires (ground arith) (ground (arith, d.inactive))
                          | inr other ↦ stays (d.events k (λ q. ground arith))
                        ];
                        done = λ h. d.inactive;
                      }))
              ]
      ]

      -- A round, and the rounds after it.
      Swept-step :
          (n p : ℕ) (w w1 w' : World) (end : ℕ)
          → slot p < max_events
          → Round w (slot p) w1
          → Swept n (slot p + 1) w1 end w'
          → Swept (suc n) p w end w'
      Swept-step n p w w1 w' end lt r t = record {
        sound = t.sound;
        position = t.position;
        fate = λ k. Fate-trans (r.fate k) (t.fate k);
        done = λ k lk soon old. elim (Bool-cases (slot p == k)) [
          | inl same ↦ Fate-inactive (t.fate k) (
              subst (λ x. ((w1.events x).status == 1) ≡ false) (ground arith)
                (r.done (ground arith)))
          | inr other ↦ elim (r.fate k) [
            | expires h q ↦ Fate-inactive (t.fate k) q
            | stays q ↦
                t.done k lk (omega (arith, before-slot (slot p) k lt lk other, soon))
                  (ap (is_expired now except_fd) q ∙ old)
          ]
        ];
      }

      expire_from-Swept :
          (n p : ℕ) (w : World)
          → Good w
          → p ≤ max_events
          → Returns (λ end w'. Swept n p w end w') (expire_from n p now except_fd w)
      unfolding expire_from
      expire_from-Swept zero p w v le = returns (record {
        sound = v;
        position = le;
        fate = λ k. stays refl;
        done = λ k lk h. absurd (omega (arith, h));
      })
      expire_from-Swept (suc n) p w v le =
          let lt : slot p < max_events = ground (arith, le) in
          bind (expire_one-Round w (slot p) v lt) (λ _ w1 r.
            mono (expire_from-Swept n (slot p + 1) w1 r.sound (omega (arith, lt)))
              (λ end w' t. Swept-step n p w w1 w' end lt r t))

      pub expires_house_keeping_lem :
          (start : ℕ) (w : World)
          → Good w
          → start ≤ max_events
          → Returns (λ end w'. HouseKept w end w') (expires_house_keeping start now except_fd w)
      unfolding expires_house_keeping
      expires_house_keeping_lem start w v le =
          mono (expire_from-Swept (max_events + 1) start w v le) (λ end w' t. record {
            sound = t.sound;
            position = t.position;
            expired = λ k lk old. t.done k lk (ground (arith, le)) old;
            others = λ k fresh. elim (t.fate k) [
              | stays e ↦ e
              | expires h q ↦ absurd (ground (arith, h, fresh))
            ];
          })
