-- ===== src/Decode/Laws.antt =====
-- riscv/decode.h: what a field holds after it is set.
use nnemu.Base.{ℕ, ◌*◌, ◌/◌, ◌%◌, ◌^◌, ◌<◌, ◌≡◌, ◌∙◌, ap, arith, false, truthy, bit_and}
use nnemu.Base.Bits.{
  bit, bit_not, bit-and, bit-or, bit-not, bit-zero, bit-pow, zero-and, truthy-and-pow, two_pow_lt,
}
use nnemu.Decode.{get_field, set_field, lowest_of}

-- Nothing is set.
zero_field : (mask : ℕ) → bit_and (0 * lowest_of mask % 2 ^ 64) mask ≡ 0
zero_field mask =
    ap (λ t. bit_and t mask) {x = 0 * lowest_of mask % 2 ^ 64} {y = 0} (omega arith) ∙ zero-and mask

zero-div : (n : ℕ) → 0 / n ≡ 0
zero-div n = grind arith

cleared : (val j : ℕ) → j < 64 → bit (set_field val (2 ^ j) 0) j ≡ false
cleared val j h = ground (
  arith,
  bit-or (bit_and val (bit_not 64 (2 ^ j))) (bit_and (0 * lowest_of (2 ^ j) % 2 ^ 64) (2 ^ j)) j,
  bit-and val (bit_not 64 (2 ^ j)) j,
  bit-not 64 (2 ^ j) j (two_pow_lt j 64 h) h,
  bit-pow j j,
  ap (λ t. bit t j) (zero_field (2 ^ j)),
  bit-zero j,
)

false_zero : (n : ℕ) → truthy n ≡ false → n ≡ 0
false_zero n h = ground arith

-- A bit that is set to 0 reads as 0.
pub get_field-set_field_zero :
    (val j : ℕ) → j < 64 → get_field (set_field val (2 ^ j) 0) (2 ^ j) ≡ 0
get_field-set_field_zero val j h =
    ap (λ n. n / lowest_of (2 ^ j)) {x = bit_and (set_field val (2 ^ j) 0) (2 ^ j)} {y = 0}
      (false_zero _ (truthy-and-pow j (set_field val (2 ^ j) 0) ∙ cleared val j h))
    ∙ zero-div (lowest_of (2 ^ j))
