-- ===== src/Mem/Batch.antt =====
-- Several blocks freed in a row.
use jujube.Base.{
  ℕ, ◌≡◌, ◌≢◌, ◌∙◌, refl, false, none, some, List, [], ◌∷◌, arith, has, Distinct, if◌then◌else◌,
}
use jujube.Base.Run.{Cmd, pure, ◌>>◌, Returns, returns, bind, mono}
use jujube.Mem.{Addr, Memory, mem_free, view}
use jujube.Mem.Inv.{Inv}
use jujube.Mem.Free.{mem_free-Freed}

-- Each block of the list is in use.
abbrev pub InUse : Memory → List Addr → Type 0
InUse m [] = Unit {0}
InUse m (a ∷ l) = ((xs : List ℕ) × (view m a ≡ some xs)) × InUse m l

unfoldable pub free_all : List Addr → Cmd Memory (Unit {0})
free_all [] = pure tt
free_all (a ∷ l) = mem_free a >> free_all l

-- The blocks of the list are gone, and the others keep their bytes.
pub record AllFreed (m : Memory) (l : List Addr) (m' : Memory) : Type 0 where
  pub inv : Inv m'
  pub rule : (a : Addr) → view m' a ≡ (if has a l then none else view m a)

InUse-keep :
    (m m' : Memory) (a : Addr) (l : List Addr)
    → has a l ≡ false
    → ((b : Addr) → a ≢ b → view m' b ≡ view m b)
    → InUse m l
    → InUse m' l
InUse-keep m m' a [] h k u = tt
InUse-keep m m' a (b ∷ l) h k u =
    ((u.0.0, k b (λ e. ground arith) ∙ u.0.1), InUse-keep m m' a l (ground arith) k u.1)

pub free_all-AllFreed :
    (m : Memory) (l : List Addr)
    → Inv m
    → Distinct l
    → InUse m l
    → Returns (λ _ m'. AllFreed m l m') (free_all l m)
unfolding free_all
free_all-AllFreed m [] v d u = returns (record { inv = v; rule = λ a. refl })
free_all-AllFreed m (a ∷ l) v d u = bind (mem_free-Freed m a v u.0.1) (λ _ m1 f.
    mono (free_all-AllFreed m1 l f.inv d.1 (InUse-keep m m1 a l d.0 f.others u.1))
      (λ _ m2 g. record { inv = g.inv; rule = λ b. ground (arith, g.rule b, f.gone, f.others b) }))
