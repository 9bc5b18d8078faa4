-- ===== src/Event/Sound.antt =====
-- What the active events of the table lead to, and that the closing of one spares the others.
use jujube.Base.{
  ℕ, ◌<◌, ◌≡◌, ◌≢◌, ◌∙◌, sym, ap, subst, true, false, none, some, List, [], ◌∷◌, arith, ◌==◌, has,
  Bool-cases, inl, inr,
}
use jujube.Base.Int.{is_neg}
use jujube.Base.Store.{lookup}
use jujube.Mem.{Addr, Memory}
use jujube.Mem.Inv.{Inv}
use jujube.Mem.Batch.{InUse, AllFreed}
use jujube.Stream.{TcpStream}
use jujube.Stream.Free.{blocks}
use jujube.World.{World, Jconnect}
use jujube.Event.{max_events}
use jujube.Event.Close.{Owns}

abbrev pub IsActive : World → ℕ → Type 0
IsActive w i = ((w.events i).status == 1) ≡ true

-- The event leads to the stream at `a`.
pub record Points (w : World) (i : ℕ) (a : Addr) (s : TcpStream) : Type 0 where
  pub jc : Addr
  pub conn : Jconnect
  pub event : (w.events i).jc ≡ some jc
  pub found : lookup jc w.conns ≡ some conn
  pub points : conn.stream ≡ some a
  pub stream : lookup a w.streams ≡ some s

-- What an active event leads to: nothing, a connection without a stream, or one with a stream on an
-- open socket that owns its blocks.
pub data Serves (w : World) (i : ℕ) : Type 0 where
  no_conn : (w.events i).jc ≡ none → Serves w i
  no_stream :
      (jc : Addr) (c : Jconnect)
      → (w.events i).jc ≡ some jc
      → lookup jc w.conns ≡ some c
      → c.stream ≡ none
      → Serves w i
  leads :
      (a : Addr) (s : TcpStream)
      → Points w i a s
      → Owns w.memory s
      → is_neg s.server_sock ≡ false
      → Serves w i

-- Two streams with nothing in common.
pub record Apart (a b : Addr) (s t : TcpStream) : Type 0 where
  pub places : a ≢ b
  pub disjoint : (c : Addr) → has c (blocks t) ≡ true → has c (blocks s) ≡ false

-- The active events lead to streams of their own.
pub record Sound (w : World) : Type 0 where
  pub inv : Inv w.memory
  pub serves : (i : ℕ) → i < max_events → IsActive w i → Serves w i
  pub apart :
      (i j : ℕ) (a b : Addr) (s t : TcpStream)
      → i ≢ j
      → IsActive w i
      → IsActive w j
      → Points w i a s
      → Points w j b t
      → Apart a b s t

InUse-freed :
    {m m' : Memory} {l : List Addr} (l' : List Addr)
    → AllFreed m l m'
    → ((c : Addr) → has c l' ≡ true → has c l ≡ false)
    → InUse m l'
    → InUse m' l'
InUse-freed [] f d u = tt
InUse-freed (c ∷ l') f d u = (
  (u.0.0, ground (arith, f.rule c, d c, u.0.1)),
  InUse-freed l' f (λ b h. d b (ground arith)) u.1,
)

-- An event that leads nowhere changes, and no other.
pub record Dropped (w : World) (i : ℕ) (w' : World) : Type 0 where
  pub conns : w'.conns ≡ w.conns
  pub inactive : ((w'.events i).status == 1) ≡ false
  pub events : (k : ℕ) → i ≢ k → w'.events k ≡ w.events k

-- Its stream goes with it, if it leads to one.
pub data Spares (w : World) (i : ℕ) (w' : World) : Type 0 where
  all_streams : w'.memory ≡ w.memory → w'.streams ≡ w.streams → Spares w i w'
  one_stream :
      (a : Addr) (s : TcpStream)
      → Points w i a s
      → AllFreed w.memory (blocks s) w'.memory
      → lookup a w'.streams ≡ none
      → ((b : Addr) → a ≢ b → lookup b w'.streams ≡ lookup b w.streams)
      → Spares w i w'

module _ {w w' : World} {i : ℕ} (d : Dropped w i w') where
  -- An event that is active afterwards is another one.
  other : (k : ℕ) → IsActive w' k → i ≢ k
  other k active same = ground (arith, d.inactive, active, same)

  was-IsActive : (k : ℕ) → IsActive w' k → IsActive w k
  was-IsActive k active = ap (λ e. e.status == 1) (sym (d.events k (other k active))) ∙ active

  -- Where another event led before.
  led :
      (k : ℕ) (b : Addr) (t : TcpStream)
      → i ≢ k
      → (lookup b w'.streams ≡ some t → lookup b w.streams ≡ some t)
      → Points w' k b t
      → Points w k b t
  led k b t ne back p = record {
    jc = p.jc;
    conn = p.conn;
    event = ap (λ e. e.jc) (sym (d.events k ne)) ∙ p.event;
    found = ap (lookup p.jc) (sym d.conns) ∙ p.found;
    points = p.points;
    stream = back p.stream;
  }

stream-back :
    {w w' : World} {i : ℕ} (b : Addr) (t : TcpStream)
    → Spares w i w'
    → lookup b w'.streams ≡ some t
    → lookup b w.streams ≡ some t
stream-back b t (all_streams m e) f = ap (lookup b) (sym e) ∙ f
stream-back b t (one_stream a s p freed gone others) f = elim (Bool-cases (a == b)) [
  | inl same ↦ ground (arith, gone, f)
  | inr differs ↦ sym (others b (λ q. ground arith)) ∙ f
]

Spares-Inv : {w w' : World} {i : ℕ} → Sound w → Spares w i w' → Inv w'.memory
Spares-Inv v (all_streams m e) = subst Inv (sym m) v.inv
Spares-Inv v (one_stream a s p freed gone others) = freed.inv

module _ {w w' : World} {i : ℕ} (v : Sound w) (active : IsActive w i) (d : Dropped w i w')
    (sp : Spares w i w') where
  -- What another active event leads to stays.
  Serves-keep : (k : ℕ) → i ≢ k → IsActive w k → Serves w k → Serves w' k
  Serves-keep k ne act (no_conn e) = no_conn (ap (λ x. x.jc) (d.events k ne) ∙ e)
  Serves-keep k ne act (no_stream jc c e f n) =
      no_stream jc c (ap (λ x. x.jc) (d.events k ne) ∙ e) (ap (lookup jc) d.conns ∙ f) n
  Serves-keep k ne act (leads b t p o open_sock) =
      leads b t
        (record {
          jc = p.jc;
          conn = p.conn;
          event = ap (λ e. e.jc) (d.events k ne) ∙ p.event;
          found = ap (lookup p.jc) d.conns ∙ p.found;
          points = p.points;
          stream = stays sp;
        })
        (record { inv = Spares-Inv v sp; distinct = o.distinct; in_use = owned sp }) open_sock
    where
      stays : Spares w i w' → lookup b w'.streams ≡ some t
      stays (all_streams m e) = ap (lookup b) e ∙ p.stream
      stays (one_stream a s q freed gone others) =
          others b (v.apart i k a b s t ne active act q p).places ∙ p.stream

      owned : Spares w i w' → InUse w'.memory (blocks t)
      owned (all_streams m e) = subst (λ x. InUse x (blocks t)) (sym m) o.in_use
      owned (one_stream a s q freed gone others) =
          InUse-freed (blocks t) freed (v.apart i k a b s t ne active act q p).disjoint o.in_use

  pub Sound-after : Sound w'
  Sound-after = record {
    inv = Spares-Inv v sp;
    serves = λ k lt act.
        let act' = was-IsActive d k act in Serves-keep k (other d k act) act' (v.serves k lt act');
    apart = λ j k a b s t ne actj actk p q.
        v.apart j k a b s t ne (was-IsActive d j actj) (was-IsActive d k actk)
          (led d j a s (other d j actj) (stream-back a s sp) p)
          (led d k b t (other d k actk) (stream-back b t sp) q);
  }
