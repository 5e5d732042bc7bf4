-- ===== src/Cache/Replacement.antt =====
-- riscv/cachesim.cc: the random choice of the way to replace, by a shift register.
use nnemu.Base.{
  ℕ, ◌-◌, ◌/◌, ◌%◌, ◌^◌, ◌≤◌, ◌<◌, ◌≡◌, ◌⊎◌, inl, inr, refl, arith, bit_and, bit_xor, Bool, true,
  false, xor,
}
use nnemu.Base.Bits.{
  bit, bit-xor, bit_and-le_right, bit_xor-lt, bit_ne_zero, bit_above, bit-zero, eq_of_bits,
  and_mask,
}
use nnemu.Cache.{lfsr_next}

-- The feedback of a register.
feedback : ℕ → ℕ
feedback reg = bit_and ((2 ^ 32 - bit_and reg 1) % 2 ^ 32) 0xd0000001

low_bit : (reg : ℕ) → bit_and reg 1 ≡ reg % 2
low_bit reg = and_mask 1 reg

feedback-even : (reg : ℕ) → reg % 2 ≡ 0 → feedback reg ≡ 0
unfolding feedback
feedback-even reg e = rw (low_bit reg, e) refl

feedback-odd : (reg : ℕ) → reg % 2 ≡ 1 → feedback reg ≡ 0xd0000001
unfolding feedback
feedback-odd reg e = rw (low_bit reg, e) refl

top_set : bit 0xd0000001 31 ≡ true
unfolding bit
top_set = refl

xor_top : (x : ℕ) → x < 2 ^ 31 → 1 ≤ bit_xor x 0xd0000001
unfolding xor
xor_top x h =
    bit_ne_zero (bit_xor x 0xd0000001) 31
      (rw (bit-xor x 0xd0000001 31, bit_above 31 x 31 h (omega arith), top_set) refl)

xor-false : (b : Bool) → xor b false ≡ b
unfolding xor
xor-false true = refl
xor-false false = refl

xor-zero : (x : ℕ) → x < 2 ^ 32 → bit_xor x 0 ≡ x
xor-zero x h =
    eq_of_bits 32 (bit_xor x 0) x (bit_xor-lt 32 x 0 h (omega arith)) h
      (λ i. rw (bit-xor x 0 i, bit-zero i) (xor-false (bit x i)))

-- A nonzero state of 32 bits has a nonzero successor of 32 bits, so the shift register never gets
-- stuck at 0, and `next() % ways` keeps choosing.
pub lfsr_next-range :
    (reg : ℕ) → 1 ≤ reg → reg < 2 ^ 32 → (1 ≤ lfsr_next reg) × (lfsr_next reg < 2 ^ 32)
unfolding lfsr_next feedback
lfsr_next-range reg pos small = (
  elim (parity reg) [
    | inl e ↦ rw (feedback-even reg e, xor-zero (reg / 2) (omega arith)) (omega arith)
    | inr e ↦ rw (feedback-odd reg e) (xor_top (reg / 2) (omega arith))
  ],
  bit_xor-lt 32 (reg / 2) (feedback reg) (omega arith)
      (omega (arith, bit_and-le_right ((2 ^ 32 - bit_and reg 1) % 2 ^ 32) 0xd0000001)),
)
  where
    parity : (n : ℕ) → (n % 2 ≡ 0) ⊎ (n % 2 ≡ 1)
    parity n = ground arith
