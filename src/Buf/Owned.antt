-- ===== src/Buf/Owned.antt =====
-- A buffer operation by the owner of its block.
use jujube.Base.{List, ℕ, ◌∷◌}
use jujube.Mem.{Addr, Memory}
use jujube.Mem.Owned.{Owned, Owned-move}
use jujube.Buf.{Buf}
use jujube.Buf.Put.{Became}

pub Owned-Became :
    {m0 m m' : Memory} {l : List Addr} {b b' : Buf} {xs : List ℕ}
    → Owned m0 (b.buffer ∷ l) m
    → Became m b xs b' m'
    → Owned m0 (b'.buffer ∷ l) m'
Owned-Became o r = Owned-move r.inv o (r.holds.bytes, r.holds.block) r.others r.place
