-- ===== src/Cache/Hits.antt =====
-- riscv/cachesim.cc: what an access leaves in the cache.
use nnemu.Base.{
  ℕ, zero, suc, ◌+◌, ◌*◌, ◌/◌, ◌%◌, ◌^◌, ◌≤◌, ◌<◌, ◌≡◌, refl, ap, ◌∙◌, arith, Bool, true, false,
  ◌==◌, ==_refl, if◌then◌else◌, Bool-cases, Option, none, some, bit_and, bit_or, inl, inr, ◌⊎◌,
  update,
}
use native.Mathlib.Nat.{mod-lt}
use nnemu.Base.Bits.{
  bit, bit_not, bit-and, bit-or, bit-not, eq_of_bits, bit_not-lt, bit_and-le_right, bit_and-lt,
  bit_or-lt, bit_above, bit-pow,
}
use nnemu.Cache.{
  Cache, lfsr_next, find_way, check_tag, victimize, mark_dirty, count_access, count_miss,
  count_writeback, refill, access_here, must_write_back, tag_of, set_of, is_tag, tag_dirty,
  tag_valid,
}

-- A way that holds the tag is found.
find_way-found :
    (c : Cache) (tag left i k : ℕ)
    → k < left
    → is_tag c tag (i + k) ≡ true
    → (j : ℕ) × (find_way c tag left i ≡ some j)
unfolding find_way
find_way-found c tag zero i k h e = absurd (omega arith)
find_way-found c tag (suc left) i k h e = elim (Bool-cases (is_tag c tag i)) [
  | inl now ↦ (i, rw now refl)
  | inr other ↦ elim (here k) [
    | inl z ↦ absurd (ground (arith, e, other, ap (λ t. is_tag c tag (i + t)) z))
    | inr (k', s) ↦
        let later =
          find_way-found c tag left (i + 1) k' (omega arith)
            (ap (is_tag c tag) {x = i + 1 + k'} {y = i + k} (omega arith) ∙ e) in
        (later.0, rw other later.1)
  ]
]
  where
    here : (k : ℕ) → (k ≡ 0) ⊎ ((k' : ℕ) × (k ≡ suc k'))
    here zero = inl refl
    here (suc k') = inr (k', refl)

find_way-same :
    (c d : Cache) (tag left i : ℕ)
    → ((k : ℕ) → is_tag c tag k ≡ is_tag d tag k)
    → find_way c tag left i ≡ find_way d tag left i
unfolding find_way
find_way-same c d tag zero i same = refl
find_way-same c d tag (suc left) i same = rw (same i, find_way-same c d tag left (i + 1) same) refl

-- A tag has its `DIRTY` bit clear, and setting that bit does not change what the tag is compared by.
tag_clean :
    (t : ℕ) → t < 2 ^ 62 → bit_and (bit_or t tag_valid) (bit_not 64 tag_dirty) ≡ bit_or t tag_valid
tag_clean t h =
    let valid : bit_or t tag_valid < 2 ^ 64 =
      bit_or-lt 64 t tag_valid (omega arith) (omega arith) in
    eq_of_bits 64 (bit_and (bit_or t tag_valid) (bit_not 64 tag_dirty)) (bit_or t tag_valid)
      (bit_and-lt 64 (bit_or t tag_valid) (bit_not 64 tag_dirty) valid) valid (λ i. bits i)
  where
    bits :
        (i : ℕ)
        → bit (bit_and (bit_or t tag_valid) (bit_not 64 tag_dirty)) i ≡ bit (bit_or t tag_valid) i
    bits i = ground (
      arith,
      bit-and (bit_or t tag_valid) (bit_not 64 tag_dirty) i,
      bit-or t tag_valid i,
      bit-not 64 tag_dirty i (omega arith),
      bit-pow 63 i,
      bit-pow 62 i,
      bit_above 62 t i h,
      bit_above 64 tag_valid i (omega arith),
    )

dirty_same :
    (t : ℕ) → bit_and (bit_or t tag_dirty) (bit_not 64 tag_dirty) ≡ bit_and t (bit_not 64 tag_dirty)
dirty_same t =
    eq_of_bits 64 (bit_and (bit_or t tag_dirty) mask) (bit_and t mask)
      (omega (arith, bit_and-le_right (bit_or t tag_dirty) mask, bit_not-lt 64 tag_dirty))
      (omega (arith, bit_and-le_right t mask, bit_not-lt 64 tag_dirty)) bits
  where
    mask : ℕ
    mask = bit_not 64 tag_dirty

    bits :
        (i : ℕ)
        → bit (bit_and (bit_or t tag_dirty) (bit_not 64 tag_dirty)) i
          ≡ bit (bit_and t (bit_not 64 tag_dirty)) i
    bits i = ground (
      arith,
      bit-and (bit_or t tag_dirty) (bit_not 64 tag_dirty) i,
      bit-and t (bit_not 64 tag_dirty) i,
      bit-or t tag_dirty i,
      bit-not 64 tag_dirty i (omega arith),
      bit-pow 62 i,
      bit_above 64 (bit_not 64 tag_dirty) i (bit_not-lt 64 tag_dirty),
    )

mark_dirty-find_way :
    (c : Cache) (o : Option ℕ) (tag left i : ℕ)
    → find_way (mark_dirty o c) tag left i ≡ find_way c tag left i
unfolding mark_dirty
mark_dirty-find_way c none tag left i = refl
mark_dirty-find_way c (some j) tag left i =
    find_way-same (record c { tags = update c.tags j (bit_or (c.tags j) tag_dirty) }) c tag left i
      same
  where
    same :
        (k : ℕ)
        → is_tag (record c { tags = update c.tags j (bit_or (c.tags j) tag_dirty) }) tag k
          ≡ is_tag c tag k
    same k = elim (Bool-cases (k == j)) [
      | inl e ↦
          rw (e, dirty_same (c.tags j))
            (ap (λ t. tag == bit_and (c.tags t) (bit_not 64 tag_dirty)) {x = j} {y = k}
              (ground (arith, e)))
      | inr e ↦ rw e refl
    ]

-- The line is in the cache.
abbrev pub Present : ℕ → Cache → Type 0
Present addr c = (i : ℕ) × (check_tag c addr ≡ some i)

mark_dirty-Present :
    (addr : ℕ) (o : Option ℕ) (c : Cache) → Present addr c → Present addr (mark_dirty o c)
unfolding mark_dirty check_tag
mark_dirty-Present addr none c (i, v) = (i, v)
mark_dirty-Present addr (some j) c (i, v) = (
  i,
  unfold mark_dirty in
      mark_dirty-find_way c (some j) (tag_of c addr) c.ways (set_of c addr * c.ways) ∙ v,
)

-- The way that `victimize` wrote is found.
victimize-Present :
    (addr : ℕ) (c : Cache)
    → 1 ≤ c.ways
    → addr / 2 ^ c.idx_shift < 2 ^ 62
    → Present addr (victimize addr c).0
unfolding victimize check_tag
victimize-Present addr c pos small =
    let way = lfsr_next c.lfsr % c.ways in
    let i = set_of c addr * c.ways in
    find_way-found (victimize addr c).0 (tag_of c addr) c.ways i way
      (mod-lt (lfsr_next c.lfsr) {m = c.ways} (omega arith))
      (rw (==_refl (i + way), tag_clean (addr / 2 ^ c.idx_shift) small, ==_refl (tag_of c addr))
        refl)

count_writeback-Present :
    (addr victim : ℕ) (c : Cache) → Present addr c → Present addr (count_writeback victim c)
unfolding count_writeback check_tag
count_writeback-Present addr victim c (i, v) = elim (Bool-cases (must_write_back victim)) [
  | inl e ↦
      (i, rw e (find_way-same _ c (tag_of c addr) c.ways (set_of c addr * c.ways) (λ k. refl) ∙ v))
  | inr e ↦ (i, rw e v)
]

refill-Present :
    (addr : ℕ) (store : Bool) (c : Cache)
    → 1 ≤ c.ways
    → addr / 2 ^ c.idx_shift < 2 ^ 62
    → Present addr (refill addr store c)
unfolding refill
refill-Present addr store c pos small = marked store
  where
    filled : Present addr (count_writeback (victimize addr c).1 (victimize addr c).0)
    filled =
        count_writeback-Present addr (victimize addr c).1 (victimize addr c).0
          (victimize-Present addr c pos small)

    marked : (store : Bool) → Present addr (refill addr store c)
    marked true =
        mark_dirty-Present addr _ (count_writeback (victimize addr c).1 (victimize addr c).0) filled
    marked false = filled

count_access-check_tag :
    (addr bytes : ℕ) (store : Bool) (c : Cache)
    → check_tag (count_access bytes store c) addr ≡ check_tag c addr
unfolding count_access check_tag
count_access-check_tag addr bytes true c =
    find_way-same _ c (tag_of c addr) c.ways (set_of c addr * c.ways) (λ k. refl)
count_access-check_tag addr bytes false c =
    find_way-same _ c (tag_of c addr) c.ways (set_of c addr * c.ways) (λ k. refl)

-- What `count_access` and `count_miss` leave alone.
counted-ways :
    (bytes : ℕ) (store : Bool) (c : Cache)
    → let c' = count_miss store (count_access bytes store c) in
      (c'.ways ≡ c.ways) × (c'.idx_shift ≡ c.idx_shift)
unfolding count_miss count_access
counted-ways bytes true c = (refl, refl)
counted-ways bytes false c = (refl, refl)

-- After `access`, `check_tag` finds the line of the address in the cache: on a hit and on a miss, for
-- loads and stores, whatever the replacement chose. The cache has a way, and the number of the line
-- leaves the two top bits of a tag free.
pub access-Present :
    (addr bytes : ℕ) (store : Bool) (c : Cache)
    → 1 ≤ c.ways
    → addr / 2 ^ c.idx_shift < 2 ^ 62
    → Present addr (access_here addr bytes store c)
unfolding access_here
access-Present addr bytes store c pos small =
    found (check_tag (count_access bytes store c) addr) refl
  where
    same :
        (c'' : Cache)
        → c'' ≡ count_miss store (count_access bytes store c)
        → Present addr (refill addr store c'')
    same c'' e =
        let kept = counted-ways bytes store c in
        refill-Present addr store c'' (omega (arith, kept.0, ap (λ x. x.ways) e))
          (rw (ap (λ x. x.idx_shift) e ∙ kept.1) small)

    hit :
        (store : Bool) (i : ℕ) (c' : Cache)
        → check_tag c' addr ≡ some i
        → Present addr (if store then mark_dirty (some i) c' else c')
    hit true i c' e = mark_dirty-Present addr (some i) c' (i, e)
    hit false i c' e = (i, e)

    found :
        (o : Option ℕ)
        → check_tag (count_access bytes store c) addr ≡ o
        → Present addr (access_here addr bytes store c)
    found none e = rw (e, access_here) (same _ refl)
    found (some i) e = rw (e, access_here) (hit store i (count_access bytes store c) e)
