-- ===== src/Memtracer.antt =====
-- riscv/memtracer.h: the kinds of access that a hart makes.
use mathlib.Core.Bool.{Bool, true, false}

pub data AccessType : Type 0 where
  load : AccessType
  store : AccessType
  fetch : AccessType

abbrev pub is_load : AccessType → Bool
is_load AccessType.load = true
is_load AccessType.store = false
is_load AccessType.fetch = false

abbrev pub is_store : AccessType → Bool
is_store AccessType.load = false
is_store AccessType.store = true
is_store AccessType.fetch = false

abbrev pub is_fetch : AccessType → Bool
is_fetch AccessType.load = false
is_fetch AccessType.store = false
is_fetch AccessType.fetch = true
