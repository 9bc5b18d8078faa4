-- ===== src/Mem/Init.antt =====
-- mem_module_init, and what follows it.
use jujube.Base.{refl, [], arith}
use jujube.Base.Store.{lookup}
use jujube.Mem.{Memory, mem_module_init}
use jujube.Mem.Count.{count_class}
use jujube.Mem.Inv.{Inv}

-- The static storage before any call: all zeros.
abbrev pub static_memory : Memory
static_memory = record {
  entries = [];
  pools = λ _. [];
  used_list = [];
  stats = λ _. record { blocks_used = 0; blocks_free = 0 };
}

pub init-Inv : Inv (mem_module_init static_memory)
unfolding mem_module_init lookup count_class
init-Inv = record {
  entry = λ a e h. absurd (ground arith);
  unused = λ a h. refl;
  unpooled = λ a i h. ground arith;
  used_distinct = tt;
  pool_distinct = λ i. ground arith;
  free_count = λ i. ground arith;
  used_count = λ i. ground arith;
}
