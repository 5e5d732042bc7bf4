-- ===== src/Arith/Leading.antt =====
-- `clz` and `log2` in terms of the word: the scan from the high end.
use native.Mathlib.Nat.{div-eq_of_lt, le-div_iff_mul-le, pow-le-pow_right}
use nnemu.Base.{
  ℕ, ◌+◌, ◌-◌, ◌*◌, ◌/◌, ◌^◌, ◌≤◌, ◌<◌, ◌≡◌, refl, ap, ◌∙◌, sym, arith, false, Bool-cases, inl, inr,
  ltb, ◌==◌,
}
use nnemu.Base.Bits.{two_pow_add, two_pow_pos}
use nnemu.Arith.{Scan, clz_step, clz, log2, u64}

abbrev start : ℕ → Scan
start x = record { val = x; res = 0 }

-- What a scan from the high end keeps: the word is the input shifted up, with nothing lost, and it
-- is at least `2 ^ d`.
record ClzInv (x d : ℕ) (s : Scan) : Type 0 where
  shifted : s.val ≡ x * 2 ^ s.res
  fits : s.val < 2 ^ 64
  live : 2 ^ d ≤ s.val

-- The test of a line of `clz`.
clz_test : (val k d : ℕ) → 64 - k ≡ d → (val / 2 ^ (64 - k) == 0) ≡ ltb val (2 ^ d)
clz_test val k d e = ground (
  arith,
  ap (λ t. val / 2 ^ t) e,
  div-eq_of_lt {n = val} {m = 2 ^ d},
  le-div_iff_mul-le {k = 2 ^ d} {x = 1} {y = val} (two_pow_pos d),
)

-- One line of `clz`, from `2 k` high bits to `k`.
clz_step-Inv :
    (x k d d' : ℕ) (s : Scan)
    → 64 - k ≡ d
    → d + k ≡ 64
    → d' + k ≡ d
    → ClzInv x d' s
    → ClzInv x d (clz_step k s)
unfolding clz_step
clz_step-Inv x k d d' s e f g v = elim (Bool-cases (ltb s.val (2 ^ d))) [
  | inl hit ↦
      rw (clz_test s.val k d e, hit)
        (record {
          shifted = ground (arith, kept (ground arith), sum);
          fits = omega arith;
          live = ground (arith, kept (ground arith), low);
        })
  | inr miss ↦
      rw (clz_test s.val k d e, miss)
        (record { shifted = v.shifted; fits = v.fits; live = ground arith })
]
  where
    whole : 2 ^ 64 ≡ 2 ^ d * 2 ^ k
    whole = ap (λ t. 2 ^ t) (sym f) ∙ two_pow_add d k

    small : s.val < 2 ^ d → s.val * 2 ^ k < 2 ^ d * 2 ^ k
    small h = grind (arith, two_pow_pos k)

    kept : s.val < 2 ^ d → u64 (s.val * 2 ^ k) ≡ s.val * 2 ^ k
    kept h = omega (arith, small h, whole)

    sum : s.val * 2 ^ k ≡ x * 2 ^ (s.res + k)
    sum = ap (λ t. t * 2 ^ k) v.shifted ∙ omega (arith, ap (λ t. x * t) (two_pow_add s.res k))

    low : 2 ^ d ≤ s.val * 2 ^ k
    low = grind (arith, ap (λ t. 2 ^ t) g, two_pow_add d' k)

abbrev clz_scan : ℕ → Scan
clz_scan x = clz_step 1 (clz_step 2 (clz_step 4 (clz_step 8 (clz_step 16 (clz_step 32 (start x))))))

clz_scan-Inv : (x : ℕ) → 0 < x → x < 2 ^ 64 → ClzInv x 63 (clz_scan x)
clz_scan-Inv x pos lt = clz_step-Inv x 1 63 62 _ refl refl refl (
    clz_step-Inv x 2 62 60 _ refl refl refl (
      clz_step-Inv x 4 60 56 _ refl refl refl (
        clz_step-Inv x 8 56 48 _ refl refl refl (
          clz_step-Inv x 16 48 32 _ refl refl refl
            (clz_step-Inv x 32 32 0 (start x) refl refl refl first)))))
  where
    first : ClzInv x 0 (start x)
    first = record { shifted = omega arith; fits = lt; live = omega arith }

-- On nonzero 64-bit words, `clz` counts the zeros above the highest one: shifted up by the count, the word keeps its value
-- and has its top bit set.
pub clz_lem : (x : ℕ) → 0 < x → x < 2 ^ 64 → (2 ^ 63 ≤ x * 2 ^ clz x) × (x * 2 ^ clz x < 2 ^ 64)
unfolding clz
clz_lem x pos lt = rw nonzero (rw scan.shifted at scan.live, rw scan.shifted at scan.fits)
  where
    nonzero : (x == 0) ≡ false
    nonzero = ground arith

    scan : ClzInv x 63 (clz_scan x)
    scan = clz_scan-Inv x pos lt

le_of_mul : (a b p : ℕ) → 1 ≤ p → a * p ≤ b * p → a ≤ b
le_of_mul a b p h g = grind arith

lt_of_mul : (a b p : ℕ) → a * p < b * p → a < b
lt_of_mul a b p g = grind arith

clz-lt : (x : ℕ) → 0 < x → x < 2 ^ 64 → clz x < 64
clz-lt x pos lt = elim (Bool-cases (ltb (clz x) 64)) [
  | inl e ↦ ground arith
  | inr e ↦ absurd (too_far (pow-le-pow_right {n = 2} (omega arith) {i = 64} (ground arith)))
]
  where
    too_far : 2 ^ 64 ≤ 2 ^ clz x → ⊥
    too_far h = grind (arith, clz_lem x pos lt)

-- On nonzero 64-bit words, `log2` is the position of the highest one.
pub log2_lem : (x : ℕ) → 0 < x → x < 2 ^ 64 → (2 ^ log2 x ≤ x) × (x < 2 ^ (log2 x + 1))
unfolding log2
log2_lem x pos lt = rw nonzero (
  le_of_mul (2 ^ (63 - clz x)) x (2 ^ clz x) (two_pow_pos (clz x))
      (omega (arith, sum, clz_lem x pos lt)),
  lt_of_mul x (2 ^ (63 - clz x + 1)) (2 ^ clz x) (omega (arith, next, clz_lem x pos lt)),
)
  where
    nonzero : (x == 0) ≡ false
    nonzero = ground arith

    sum : 2 ^ (63 - clz x) * 2 ^ clz x ≡ 2 ^ 63
    sum =
        sym (two_pow_add (63 - clz x) (clz x))
        ∙ ap (λ t. 2 ^ t) {y = 63} (omega (arith, clz-lt x pos lt))

    next : 2 ^ (63 - clz x + 1) * 2 ^ clz x ≡ 2 ^ 64
    next =
        sym (two_pow_add (63 - clz x + 1) (clz x))
        ∙ ap (λ t. 2 ^ t) {y = 64} (omega (arith, clz-lt x pos lt))
