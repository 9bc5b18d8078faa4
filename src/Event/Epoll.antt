-- ===== src/Event/Epoll.antt =====
-- The requests to epoll_ctl(2).
use jujube.Base.{
  subst, eq_of_==, ◌≢◌, refl, ℕ, ◌≡◌, ◌≢◌, ◌∙◌, sym, ap, Bool, true, false, List, [], ◌∷◌, arith,
  ◌==◌, if◌then◌else◌, Bool-cases, inl, inr,
}
use jujube.Base.Int.{ℤ, is_neg, eq_ℤ, eq_ℤ_refl, eq_of_eq_ℤ}
use jujube.Base.Run.{Returns, returns}
use jujube.World.{World, Myevent, EpollCall, EpollOp, ctl_add, ctl_mod, ctl_del}
use jujube.Event.{eventadd, eventdel}

-- Whether a descriptor is registered after the calls, the latest first.
unfoldable pub registered : List EpollCall → ℤ → Bool
registered [] fd = false
registered (c ∷ cs) fd =
    if eq_ℤ c.fd fd then (elim c.op [ ctl_del ↦ false | _ ↦ true ]) else registered cs fd

-- No call is one that epoll_ctl(2) refuses: it has a descriptor, and EPOLL_CTL_ADD is for one that
-- is not registered, the others for one that is.
abbrev pub wants : EpollOp → Bool
wants ctl_add = false
wants ctl_mod = true
wants ctl_del = true

unfoldable pub Accepted : List EpollCall → Type 0
Accepted [] = Unit {0}
Accepted (c ∷ cs) = (is_neg c.fd ≡ false) × (registered cs c.fd ≡ wants c.op) × Accepted cs

abbrev is_active : Myevent → Bool
is_active e = e.status == 1

-- The requests so far are accepted; the active events have descriptors of their own, and these are
-- registered.
pub record Registry (calls : List EpollCall) (events : ℕ → Myevent) : Type 0 where
  pub accepted : Accepted calls
  pub open_fd : (k : ℕ) → is_active (events k) ≡ true → is_neg (events k).fd ≡ false
  pub known : (k : ℕ) → is_active (events k) ≡ true → registered calls (events k).fd ≡ true
  pub apart :
      (j k : ℕ)
      → j ≢ k
      → is_active (events j) ≡ true
      → is_active (events k) ≡ true
      → eq_ℤ (events j).fd (events k).fd ≡ false

differ : (a b : ℤ) → a ≢ b → eq_ℤ a b ≡ false
differ a b ne = elim (Bool-cases (eq_ℤ a b)) [
  | inl same ↦ absurd (ne (eq_of_eq_ℤ a b same))
  | inr far ↦ far
]

abbrev pub Registered : World → Type 0
Registered w = Registry w.epoll w.events

module _ {calls : List EpollCall} {old new : ℕ → Myevent} (i : ℕ)
    (others : (k : ℕ) → i ≢ k → new k ≡ old k) where
  -- An active event is deleted.
  pub Registry-del :
      (n : ℕ)
      → Registry calls old
      → is_active (old i) ≡ true
      → is_active (new i) ≡ false
      → Registry (record { op = ctl_del; fd = (old i).fd; events = n } ∷ calls) new
  unfolding Accepted registered
  Registry-del n r active over =
      let other : (k : ℕ) → is_active (new k) ≡ true → i ≢ k =
        λ k act same. ground (arith, over, act, same) in
      let was : (k : ℕ) → is_active (new k) ≡ true → is_active (old k) ≡ true =
        λ k act. ap is_active (sym (others k (other k act))) ∙ act in
      record {
        accepted = (r.open_fd i active, r.known i active, r.accepted);
        open_fd = λ k act. ap (λ e. is_neg e.fd) (others k (other k act)) ∙ r.open_fd k (was k act);
        known = λ k act.
            let ne = other k act in
            let far : eq_ℤ (old i).fd (new k).fd ≡ false =
              ap (λ e. eq_ℤ (old i).fd e.fd) (others k ne) ∙ r.apart i k ne active (was k act) in
            rw far (ap (λ e. registered calls e.fd) (others k ne) ∙ r.known k (was k act));
        apart = λ j k ne actj actk.
            rw (others j (other j actj), others k (other k actk))
              (r.apart j k ne (was j actj) (was k actk));
      }

  -- An active event is modified.
  pub Registry-mod :
      (n : ℕ)
      → Registry calls old
      → is_active (old i) ≡ true
      → (new i).fd ≡ (old i).fd
      → Registry (record { op = ctl_mod; fd = (old i).fd; events = n } ∷ calls) new
  unfolding Accepted registered
  Registry-mod n r active same =
      let fds : (k : ℕ) → (new k).fd ≡ (old k).fd = λ k. elim (Bool-cases (i == k)) [
        | inl here ↦ subst (λ x. (new x).fd ≡ (old x).fd) (ground arith) same
        | inr other ↦ ap (λ e. e.fd) (others k (ground arith))
      ] in
      let was : (k : ℕ) → is_active (new k) ≡ true → is_active (old k) ≡ true = λ k act.
        elim (Bool-cases (i == k)) [
          | inl here ↦ subst (λ x. is_active (old x) ≡ true) (ground arith) active
          | inr other ↦ ap is_active (sym (others k (ground arith))) ∙ act
        ] in
      record {
        accepted = (r.open_fd i active, r.known i active, r.accepted);
        open_fd = λ k act. ap is_neg (fds k) ∙ r.open_fd k (was k act);
        known = λ k act. rw (fds k) (elim (Bool-cases (eq_ℤ (old i).fd (old k).fd)) [
          | inl here ↦ rw here refl
          | inr other ↦ rw other (r.known k (was k act))
        ]);
        apart = λ j k ne actj actk. rw (fds j, fds k) (r.apart j k ne (was j actj) (was k actk));
      }

  -- An event is added with a descriptor that is not registered.
  pub Registry-add :
      (n : ℕ) (fd : ℤ)
      → Registry calls old
      → is_neg fd ≡ false
      → registered calls fd ≡ false
      → (new i).fd ≡ fd
      → Registry (record { op = ctl_add; fd = fd; events = n } ∷ calls) new
  unfolding Accepted registered
  Registry-add n fd r open_fd fresh at =
      let was : (k : ℕ) → i ≢ k → is_active (new k) ≡ true → is_active (old k) ≡ true =
        λ k ne act. ap is_active (sym (others k ne)) ∙ act in
      let known : (k : ℕ) → i ≢ k → is_active (new k) ≡ true → registered calls (new k).fd ≡ true =
        λ k ne act. ap (λ e. registered calls e.fd) (others k ne) ∙ r.known k (was k ne act) in
      let far : (k : ℕ) → i ≢ k → is_active (new k) ≡ true → fd ≢ (new k).fd =
        λ k ne act same. ground (arith, fresh, known k ne act, ap (registered calls) same) in
      record {
        accepted = (open_fd, fresh, r.accepted);
        open_fd = λ k act. elim (Bool-cases (i == k)) [
          | inl here ↦ rw (ap (λ x. (new x).fd) (sym (eq_of_== i k here)) ∙ at) open_fd
          | inr nk ↦
              let ne : i ≢ k = ground arith in
              ap (λ e. is_neg e.fd) (others k ne) ∙ r.open_fd k (was k ne act)
        ];
        known = λ k act. elim (Bool-cases (eq_ℤ fd (new k).fd)) [
          | inl here ↦ rw here refl
          | inr other ↦
              rw other (known k (λ same. ground (arith, other, at, ap (λ x. (new x).fd) same)) act)
        ];
        apart = λ j k ne actj actk. elim (Bool-cases (i == j)) [
          | inl here ↦
              let nk : i ≢ k = ground arith in
              rw (ap (λ x. (new x).fd) (sym (eq_of_== i j here)) ∙ at)
                (differ fd (new k).fd (far k nk actk))
          | inr nj ↦ elim (Bool-cases (i == k)) [
            | inl here ↦
                let nj' : i ≢ j = ground arith in
                rw (ap (λ x. (new x).fd) (sym (eq_of_== i k here)) ∙ at)
                  (differ (new j).fd fd (λ e. far j nj' actj (sym e)))
            | inr nk ↦
                let nj' : i ≢ j = ground arith in
                let nk' : i ≢ k = ground arith in
                rw (others j nj', others k nk') (r.apart j k ne (was j nj' actj) (was k nk' actk))
          ]
        ];
      }

-- An event's status says whether its descriptor is registered.
abbrev pub Tracks : World → ℕ → Type 0
Tracks w i = registered w.epoll (w.events i).fd ≡ ((w.events i).status == 1)

-- The requests so far are accepted, the event's status tracks its registration, and so does that of
-- every event with another descriptor that did before.
pub record Tracked (w : World) (i new : ℕ) (w' : World) : Type 0 where
  pub accepted : Accepted w'.epoll
  pub tracks : Tracks w' i
  pub status : ((w'.events i).status == 1) ≡ (new == 1)
  pub others : (j : ℕ) → eq_ℤ (w.events i).fd (w.events j).fd ≡ false → Tracks w j → Tracks w' j

-- Where epoll_ctl(2) has accepted every request so far and the status of an event tracks its
-- registration, with a descriptor, eventadd issues a request that epoll_ctl(2) accepts: it registers a new descriptor
-- and modifies a registered one. Afterwards the event is active and tracked, and the events with
-- other descriptors are tracked as before.
pub eventadd-Tracked :
    (now events i : ℕ) (w : World)
    → is_neg (w.events i).fd ≡ false
    → Accepted w.epoll
    → Tracks w i
    → Returns (λ _ w'. Tracked w i 1 w') (eventadd now events i w)
unfolding eventadd Accepted registered
eventadd-Tracked now events i w open_fd acc t = returns (record {
  accepted = (open_fd, ground arith, acc);
  tracks = ground (arith, eq_ℤ_refl (w.events i).fd);
  status = ground arith;
  others = λ j other tj. ground (arith, eq_ℤ_refl (w.events i).fd);
})

-- Where epoll_ctl(2) has accepted every request so far and the status of an event tracks its
-- registration, with a descriptor, eventdel issues only requests that epoll_ctl(2) accepts, and only for an active
-- event, which it leaves inactive and tracked; the events with other descriptors are tracked as
-- before.
pub eventdel-Tracked :
    (i : ℕ) (w : World)
    → is_neg (w.events i).fd ≡ false
    → Accepted w.epoll
    → Tracks w i
    → Returns (λ _ w'. Tracked w i 0 w') (eventdel i w)
unfolding eventdel Accepted registered
eventdel-Tracked i w open_fd acc t = elim (Bool-cases ((w.events i).status == 1)) [
  | inl active ↦ rw active (
      returns (record {
        accepted = (open_fd, t ∙ active, acc);
        tracks = ground (arith, eq_ℤ_refl (w.events i).fd);
        status = ground arith;
        others = λ j other tj. ground (arith, eq_ℤ_refl (w.events i).fd);
      }))
  | inr idle ↦
      rw idle
        (returns (record { accepted = acc; tracks = t; status = idle; others = λ j other tj. tj }))
]
