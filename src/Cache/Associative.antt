-- ===== src/Cache/Associative.antt =====
-- riscv/cachesim.h and riscv/cachesim.cc, `fa_cache_sim_t`: its tags are a map by line, in the order
-- of the lines; the other counts are those of the cache that it extends.
pub mod Bound
use nnemu.Base.{
  ℕ, zero, suc, ◌+◌, ◌/◌, ◌%◌, ◌^◌, Bool, true, false, ltb, ◌==◌, if◌then◌else◌, Option, none, some,
  List, [], ◌∷◌, length, bit_or,
}
use nnemu.Cache.{lfsr_next, tag_valid}

pub record FaCache : Type 0 where
  pub lfsr : ℕ
  pub ways : ℕ
  pub idx_shift : ℕ
  pub tags : List (ℕ × ℕ)

-- `tags.find`.
unfoldable pub find_line : ℕ → List (ℕ × ℕ) → Option ℕ
find_line line [] = none
find_line line ((k, tag) ∷ rest) = if k == line then some tag else find_line line rest

-- `tags[line] = tag`.
unfoldable pub put_line : ℕ → ℕ → List (ℕ × ℕ) → List (ℕ × ℕ)
put_line line tag [] = (line, tag) ∷ []
put_line line tag ((k, old) ∷ rest) =
    if ltb line k
    then (line, tag) ∷ (k, old) ∷ rest
    else if line == k
    then (line, tag) ∷ rest
    else (k, old) ∷ put_line line tag rest

-- The entry that an iterator is at after `n` steps, and what is left when it is erased.
unfoldable pub erase_at : ℕ → List (ℕ × ℕ) → List (ℕ × ℕ) × ℕ
erase_at n [] = ([], 0)
erase_at zero ((k, tag) ∷ rest) = (rest, tag)
erase_at (suc n) ((k, tag) ∷ rest) = let (left, old) = erase_at n rest in ((k, tag) ∷ left, old)

unfoldable pub fa_check_tag : FaCache → ℕ → Option ℕ
fa_check_tag c addr = find_line (addr / 2 ^ c.idx_shift) c.tags

unfoldable pub fa_victimize : ℕ → FaCache → FaCache × ℕ
fa_victimize addr c =
    let line = addr / 2 ^ c.idx_shift in
    let next = lfsr_next c.lfsr in
    let (left, old) = erase_at (next % c.ways) c.tags in
    if length c.tags == c.ways
    then (record c { lfsr = next; tags = put_line line (bit_or line tag_valid) left }, old)
    else (record c { tags = put_line line (bit_or line tag_valid) c.tags }, 0)
