-- ===== src/Cache/Associative/Bound.antt =====
-- riscv/cachesim.cc: the size of the fully associative cache.
use nnemu.Base.{
  ℕ, zero, suc, ◌+◌, ◌/◌, ◌%◌, ◌^◌, ◌≤◌, ◌<◌, ◌≡◌, refl, arith, true, false, ltb, ◌==◌, ==_refl,
  Bool-cases, inl, inr, some, List, [], ◌∷◌, length, bit_or,
}
use native.Mathlib.Nat.{mod-lt}
use nnemu.Cache.{lfsr_next, tag_valid}
use nnemu.Cache.Associative.{FaCache, find_line, put_line, erase_at, fa_check_tag, fa_victimize}

find_line-put_line :
    (line tag : ℕ) (l : List (ℕ × ℕ)) → find_line line (put_line line tag l) ≡ some tag
unfolding find_line put_line
find_line-put_line line tag [] = rw (==_refl line) refl
find_line-put_line line tag ((k, old) ∷ rest) = elim (Bool-cases (ltb line k)) [
  | inl e ↦ rw (e, ==_refl line) refl
  | inr e ↦ elim (Bool-cases (line == k)) [
    | inl g ↦ rw (e, g, ==_refl line) refl
    | inr g ↦
        let other : (k == line) ≡ false = ground (arith, g) in
        rw (e, g, other) (find_line-put_line line tag rest)
  ]
]

length-put_line : (line tag : ℕ) (l : List (ℕ × ℕ)) → length (put_line line tag l) ≤ length l + 1
unfolding put_line
length-put_line line tag [] = omega arith
length-put_line line tag ((k, old) ∷ rest) = ground (arith, length-put_line line tag rest)

length-erase_at : (n : ℕ) (l : List (ℕ × ℕ)) → n < length l → length (erase_at n l).0 + 1 ≡ length l
unfolding erase_at
length-erase_at n [] h = absurd (omega arith)
length-erase_at zero (e ∷ rest) h = omega arith
length-erase_at (suc n) (e ∷ rest) h = omega (arith, length-erase_at n rest (omega arith))

-- After a replacement in a cache with at least one way that holds at most `ways` lines, it still
-- holds at most `ways` lines, and the line of the address is found with its tag.
pub fa_victimize-bound :
    (addr : ℕ) (c : FaCache)
    → 1 ≤ c.ways
    → length c.tags ≤ c.ways
    → (length (fa_victimize addr c).0.tags ≤ c.ways)
      × (fa_check_tag (fa_victimize addr c).0 addr
          ≡ some (bit_or (addr / 2 ^ c.idx_shift) tag_valid))
unfolding fa_victimize fa_check_tag
fa_victimize-bound addr c pos fits =
    let line = addr / 2 ^ c.idx_shift in
    let tag = bit_or line tag_valid in
    let n = lfsr_next c.lfsr % c.ways in
    let small = mod-lt (lfsr_next c.lfsr) {m = c.ways} (omega arith) in
    elim (Bool-cases (length c.tags == c.ways)) [
      | inl full ↦ rw full (
        omega (
          arith,
          length-put_line line tag (erase_at n c.tags).0,
          length-erase_at n c.tags (ground (arith, full, small)),
          equal full,
        ),
        find_line-put_line line tag (erase_at n c.tags).0,
      )
      | inr room ↦ rw room (
        ground (arith, length-put_line line tag c.tags, room),
        find_line-put_line line tag c.tags,
      )
    ]
  where
    equal : (length c.tags == c.ways) ≡ true → length c.tags ≡ c.ways
    equal e = ground (arith, e)
