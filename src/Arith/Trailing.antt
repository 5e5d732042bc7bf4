-- ===== src/Arith/Trailing.antt =====
-- `ctz` in terms of the word: the scan from the low end.
use native.Mathlib.Nat.{div-add-mod'}
use nnemu.Base.{
  ℕ, zero, suc, ◌+◌, ◌-◌, ◌*◌, ◌/◌, ◌%◌, ◌^◌, ◌≤◌, ◌<◌, ◌≡◌, refl, ap, ap₂, ◌∙◌, sym, arith, false,
  Bool-cases, inl, inr, ◌==◌,
}
use nnemu.Base.Bits.{mul-mod-mul, two_pow_add, two_pow_pos}
use nnemu.Arith.{Scan, ctz_step, ctz, u64}

-- What a scan from the low end keeps: the input is the word shifted up again, and the next `k`
-- bits are not all zero.
record CtzInv (x k : ℕ) (s : Scan) : Type 0 where
  shifted : x ≡ s.val * 2 ^ s.res
  live : 0 < s.val % 2 ^ k

shift_back :
    (x val res k : ℕ) → x ≡ val * 2 ^ res → val % 2 ^ k ≡ 0 → x ≡ val / 2 ^ k * 2 ^ (res + k)
shift_back x val res k e z =
    e ∙ ap (λ t. t * 2 ^ res) whole ∙ omega (arith, ap (λ t. val / 2 ^ k * t) (two_pow_add res k))
  where
    whole : val ≡ val / 2 ^ k * 2 ^ k
    whole = omega (arith, div-add-mod' val (2 ^ k), z)

-- `val << (64 - k)` drops all but the low `k` bits.
low_bits_test : (val k d : ℕ) → k + d ≡ 64 → u64 (val * 2 ^ d) ≡ val % 2 ^ k * 2 ^ d
low_bits_test val k d e =
    ap (λ t. val * 2 ^ d % t) whole
    ∙ mul-mod-mul val (2 ^ k) (2 ^ d) (two_pow_pos k) (two_pow_pos d)
  where
    whole : 2 ^ 64 ≡ 2 ^ k * 2 ^ d
    whole = ap (λ t. 2 ^ t) (sym e) ∙ two_pow_add k d

pos_of_mul : (m p : ℕ) → 0 < m * p → 0 < m
pos_of_mul zero p h = absurd (omega arith)
pos_of_mul (suc m) p h = omega arith

zero_of_mul : (m p : ℕ) → 1 ≤ p → m * p ≡ 0 → m ≡ 0
zero_of_mul zero p h e = refl
zero_of_mul (suc m) p h e = absurd (omega arith)

-- Of `2 k` bits that are not all zero, one stands in the high half if the low half is zero.
live_high : (val k : ℕ) → 0 < val % 2 ^ (k + k) → val % 2 ^ k ≡ 0 → 0 < val / 2 ^ k % 2 ^ k
live_high val k h z = pos_of_mul _ (2 ^ k) (omega (arith, halves))
  where
    halves : val % 2 ^ (k + k) ≡ val / 2 ^ k % 2 ^ k * 2 ^ k
    halves =
        ap₂ (λ s t. s % t) (sym (div-add-mod' val (2 ^ k)) ∙ omega (arith, z)) (two_pow_add k k)
        ∙ mul-mod-mul (val / 2 ^ k) (2 ^ k) (2 ^ k) (two_pow_pos k) (two_pow_pos k)

-- The test of a line of `ctz`.
ctz_test : (val k d : ℕ) → k + d ≡ 64 → (u64 (val * 2 ^ (64 - k)) == 0) ≡ (val % 2 ^ k == 0)
ctz_test val k d e = ground (
  arith,
  ap (λ t. val * 2 ^ t % 2 ^ 64) rest,
  low_bits_test val k d e,
  two_pow_pos d,
  zero_of_mul (val % 2 ^ k) (2 ^ d),
)
  where
    rest : 64 - k ≡ d
    rest = omega arith

ctz_step-Inv : (x k d : ℕ) (s : Scan) → k + d ≡ 64 → CtzInv x (k + k) s → CtzInv x k (ctz_step k s)
unfolding ctz_step
ctz_step-Inv x k d s e v = elim (Bool-cases (s.val % 2 ^ k == 0)) [
  | inl hit ↦
      rw (ctz_test s.val k d e, hit)
        (record {
          shifted = shift_back x s.val s.res k v.shifted (ground arith);
          live = live_high s.val k v.live (ground arith);
        })
  | inr miss ↦ rw (ctz_test s.val k d e, miss) (record { shifted = v.shifted; live = ground arith })
]

abbrev start : ℕ → Scan
start x = record { val = x; res = 0 }

abbrev ctz_scan : ℕ → Scan
ctz_scan x = ctz_step 1 (ctz_step 2 (ctz_step 4 (ctz_step 8 (ctz_step 16 (ctz_step 32 (start x))))))

ctz_scan-Inv : (x : ℕ) → 0 < x → x < 2 ^ 64 → CtzInv x 1 (ctz_scan x)
ctz_scan-Inv x pos lt = ctz_step-Inv x 1 63 _ refl (
    ctz_step-Inv x 2 62 _ refl (
      ctz_step-Inv x 4 60 _ refl (
        ctz_step-Inv x 8 56 _ refl
          (ctz_step-Inv x 16 48 _ refl (ctz_step-Inv x 32 32 (start x) refl first)))))
  where
    first : CtzInv x 64 (start x)
    first = record { shifted = omega arith; live = omega arith }

-- On nonzero 64-bit words, `ctz` counts the zeros below the lowest one: the word is an odd multiple of `2 ^ ctz x`.
pub ctz_lem : (x : ℕ) → 0 < x → x < 2 ^ 64 → (q : ℕ) × (x ≡ q * 2 ^ ctz x) × (q % 2 ≡ 1)
unfolding ctz
ctz_lem x pos lt = rw nonzero ((ctz_scan x).val, scan.shifted, omega (arith, scan.live))
  where
    nonzero : (x == 0) ≡ false
    nonzero = ground arith

    scan : CtzInv x 1 (ctz_scan x)
    scan = ctz_scan-Inv x pos lt
