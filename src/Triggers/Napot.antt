-- ===== src/Triggers/Napot.antt =====
-- riscv/triggers.cc, simple_match: a match on a naturally aligned block of a power of two bytes.
use nnemu.Base.{
  Bool-cases, ap, ap₂, arith, bit_and, inl, inr, ℕ, ◌%◌, ◌*◌, ◌+◌, ◌-◌, ◌/◌, ◌<◌, ◌==◌, ◌^◌, ◌∙◌,
  ◌≡◌, ◌≤◌,
}
use nnemu.Base.Bits.{bit_not, and_not_mask, two_pow_lt}
use nnemu.Arith.{cto}
use native.Mathlib.Nat.{pow-le-pow_right, one-le-pow, div-add-mod', eq_of_mul-eq-mul_right}
use nnemu.Triggers.{Matching, Proc, int_shift}
use nnemu.Triggers.Match.{value_match}

shifted : (p : Proc) (k : ℕ) → k ≤ 30 → (int_shift p 1 k + 2 ^ 64 - 1) % 2 ^ 64 ≡ 2 ^ k - 1
shifted p k h = ground (arith, two_pow_lt k 31 (omega (arith, h)), one-le-pow k 2 (omega arith))

down : (b n : ℕ) → n - n % b ≡ n / b * b
down b n = omega (arith, div-add-mod' n b)

same_multiple : (b x y : ℕ) → 1 ≤ b → (x * b == y * b) ≡ (x == y)
same_multiple b x y h = elim (Bool-cases (x * b == y * b)) [
  | inl e ↦ ground (arith, e, eq_of_mul-eq-mul_right b h x y (ground (arith, e)))
  | inr e ↦ ground (arith, e, λ (q : x ≡ y). ap (λ t. t * b) q)
]

same_block : (b n m : ℕ) → 1 ≤ b → (n - n % b == m - m % b) ≡ (n / b == m / b)
same_block b n m h = ap₂ (λ x y. x == y) (down b n) (down b m) ∙ same_multiple b (n / b) (m / b) h

masked :
    (p : Proc) (k a : ℕ)
    → k ≤ 30
    → a < 2 ^ 64
    → bit_and a (bit_not 64 ((int_shift p 1 k + 2 ^ 64 - 1) % 2 ^ 64)) ≡ a - a % 2 ^ k
masked p k a h ha =
    ap (λ t. bit_and a (bit_not 64 t)) (shifted p k h)
    ∙ and_not_mask 64 k a ha
        (pow-le-pow_right {n = 2} (omega arith) {i = k} {j = 64} (omega (arith, h)))

-- As long as the block has at most 2^30 bytes, a NAPOT trigger matches a value exactly if the value lies
-- in the same block as tdata2: one as large as the trailing ones of tdata2 say.
pub napot-block :
    (p : Proc) (tdata2 value : ℕ)
    → tdata2 < 2 ^ 64
    → value < 2 ^ 64
    → cto tdata2 + 1 ≤ 30
    → value_match p Matching.napot tdata2 value
      ≡ (value / 2 ^ (cto tdata2 + 1) == tdata2 / 2 ^ (cto tdata2 + 1))
unfolding value_match
napot-block p tdata2 value ht hv hk =
    ap₂ (λ x y. x == y) (masked p (cto tdata2 + 1) value hk hv)
      (masked p (cto tdata2 + 1) tdata2 hk ht)
    ∙ same_block (2 ^ (cto tdata2 + 1)) value tdata2 (one-le-pow (cto tdata2 + 1) 2 (omega arith))
