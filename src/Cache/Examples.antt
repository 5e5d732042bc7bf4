-- ===== src/Cache/Examples.antt =====
-- A cache of four sets of two ways with lines of 16 bytes.
use nnemu.Base.{◌≤◌, ◌^◌, refl, ◌≡◌, arith, true, some, ◌+◌, ◌/◌, [], ◌∷◌, length, bit_or}
use nnemu.Cache.Associative.{FaCache, fa_victimize, fa_check_tag}
use nnemu.Cache.Associative.Bound.{fa_victimize-bound}
use nnemu.Cache.{tag_valid, Cache, make, count_shift, access_here}
use nnemu.Cache.Hits.{Present, access-Present}

abbrev small_cache : Cache
small_cache = record {
  lfsr = 1;
  sets = 4;
  ways = 2;
  linesz = 16;
  idx_shift = 4;
  tags = λ _. 0;
  read_accesses = 0;
  read_misses = 0;
  bytes_read = 0;
  write_accesses = 0;
  write_misses = 0;
  bytes_written = 0;
  writebacks = 0;
}

made : make 4 2 16 ≡ some small_cache
unfolding make count_shift
made = refl

access-Present_example : Present 0x1234 (access_here 0x1234 4 true small_cache)
access-Present_example = access-Present 0x1234 4 true small_cache (omega arith) (omega arith)

-- A full cache of two ways.
abbrev full_cache : FaCache
full_cache = record {
  lfsr = 1;
  ways = 2;
  idx_shift = 6;
  tags = (1, 2 ^ 63 + 1) ∷ (9, 2 ^ 63 + 9) ∷ [];
}

fa_victimize-bound_example :
    (length (fa_victimize 0x140 full_cache).0.tags ≤ full_cache.ways)
    × (fa_check_tag (fa_victimize 0x140 full_cache).0 0x140
        ≡ some (bit_or (0x140 / 2 ^ full_cache.idx_shift) tag_valid))
fa_victimize-bound_example = fa_victimize-bound 0x140 full_cache (omega arith) (omega arith)
