-- ===== src/Cache/Tracers.antt =====
-- riscv/cachesim.h, `icache_sim_t` and `dcache_sim_t`: which accesses of a hart reach which cache.
use nnemu.Base.{ℕ, Bool, true, false, List}
use nnemu.Memtracer.{AccessType}
use nnemu.Cache.{Cache, access}

unfoldable pub icache_interested : AccessType → Bool
icache_interested AccessType.fetch = true
icache_interested AccessType.load = false
icache_interested AccessType.store = false

unfoldable pub icache_trace : ℕ → ℕ → AccessType → List Cache → List Cache
icache_trace addr bytes AccessType.fetch caches = access addr bytes false caches
icache_trace addr bytes AccessType.load caches = caches
icache_trace addr bytes AccessType.store caches = caches

unfoldable pub dcache_interested : AccessType → Bool
dcache_interested AccessType.load = true
dcache_interested AccessType.store = true
dcache_interested AccessType.fetch = false

unfoldable pub dcache_trace : ℕ → ℕ → AccessType → List Cache → List Cache
dcache_trace addr bytes AccessType.load caches = access addr bytes false caches
dcache_trace addr bytes AccessType.store caches = access addr bytes true caches
dcache_trace addr bytes AccessType.fetch caches = caches
