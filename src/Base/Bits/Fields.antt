-- ===== src/Base/Bits/Fields.antt =====
-- Bit operations as arithmetic: low masks, aligned addresses, disjoint fields.
use native.Mathlib.Nat.{pow-suc, one-le-pow}
use nnemu.Base.Names.{
  ℕ, zero, suc, ◌+◌, ◌-◌, ◌*◌, ◌/◌, ◌%◌, ◌^◌, ◌≤◌, ◌<◌, bit_and, bit_or, ◌≡◌, ap, ap₂, arith,
}
use nnemu.Base.Bits.Step.{bit_and_step, bit_or_step}
use nnemu.Base.Bits.Laws.{bit_not, bit_and-le_right, zero-and, zero-or}

-- `a | b` and `a & b` share the bits of `a + b`.
or_and_sum_fuel : (n a b : ℕ) → a ≤ n → bit_or a b + bit_and a b ≡ a + b
or_and_sum_fuel n zero b h = omega (arith, zero-and b, zero-or b)
or_and_sum_fuel zero (suc a) b h = absurd (omega arith)
or_and_sum_fuel (suc n) (suc a) b h = ground (
  arith,
  bit_and_step (suc a) b,
  bit_or_step (suc a) b,
  or_and_sum_fuel n (suc a / 2) (b / 2) (omega arith),
)

pub or_and_sum : (a b : ℕ) → bit_or a b + bit_and a b ≡ a + b
or_and_sum a b = or_and_sum_fuel a a b (omega arith)

-- A mask and its complement split a word in two.
pub and_not_sum : (w a b : ℕ) → a < 2 ^ w → b < 2 ^ w → bit_and a b + bit_and a (bit_not w b) ≡ a
and_not_sum zero a b ha hb = omega (
  arith,
  ap (λ t. bit_and t b) none_left,
  ap (λ t. bit_and t (bit_not 0 b)) none_left,
  zero-and b,
  zero-and (bit_not 0 b),
)
  where
    none_left : a ≡ 0
    none_left = omega arith
and_not_sum (suc w) a b ha hb = ground (
  arith,
  pow-suc 2 w,
  bit_and_step a b,
  bit_and_step a (bit_not (suc w) b),
  ap (λ t. bit_and (a / 2) t) half,
  and_not_sum w (a / 2) (b / 2) (omega (arith, pow-suc 2 w)) (omega (arith, pow-suc 2 w)),
)
  where
    half : bit_not (suc w) b / 2 ≡ bit_not w (b / 2)
    half = omega (arith, pow-suc 2 w)

field_double : (hi k : ℕ) → 2 * (hi * 2 ^ k) ≡ hi * 2 ^ suc k
field_double hi k =
    let step = pow-suc 2 k in let scaled = ap (λ power. hi * power) step in omega (arith, scaled)

and_mask_fields : (k hi lo : ℕ) → lo < 2 ^ k → bit_and (hi * 2 ^ k + lo) (2 ^ k - 1) ≡ lo
and_mask_fields zero hi lo narrow = omega (arith, bit_and-le_right (hi * 2 ^ 0 + lo) 0)
and_mask_fields (suc k) hi lo narrow = ground (
  arith,
  bit_and_step (hi * 2 ^ suc k + lo) (2 ^ suc k - 1),
  field_double hi k,
  pow-suc 2 k,
  ap₂ bit_and low high,
  and_mask_fields k hi (lo / 2) (omega (arith, pow-suc 2 k)),
)
  where
    low : (hi * 2 ^ suc k + lo) / 2 ≡ hi * 2 ^ k + lo / 2
    low = omega (arith, field_double hi k)

    high : (2 ^ suc k - 1) / 2 ≡ 2 ^ k - 1
    high = omega (arith, pow-suc 2 k)

-- `a & (2^k - 1)` is the remainder by `2^k`.
pub and_mask : (k a : ℕ) → bit_and a (2 ^ k - 1) ≡ a % 2 ^ k
and_mask k a = ground (arith, one-le-pow k 2, and_mask_fields k (a / 2 ^ k) (a % 2 ^ k))

-- `a & ~(2^k - 1)` is `a` less that remainder.
pub and_not_mask :
    (w k a : ℕ) → a < 2 ^ w → 2 ^ k ≤ 2 ^ w → bit_and a (bit_not w (2 ^ k - 1)) ≡ a - a % 2 ^ k
and_not_mask w k a ha hk = omega (
  arith,
  and_mask k a,
  one-le-pow k 2 (omega arith),
  and_not_sum w a (2 ^ k - 1) ha (omega (arith, one-le-pow k 2 (omega arith))),
)

and_fields_zero : (k hi lo : ℕ) → lo < 2 ^ k → bit_and (hi * 2 ^ k) lo ≡ 0
and_fields_zero zero hi lo narrow = omega (arith, bit_and-le_right (hi * 2 ^ 0) lo)
and_fields_zero (suc k) hi lo narrow = ground (
  arith,
  bit_and_step (hi * 2 ^ suc k) lo,
  field_double hi k,
  ap (λ t. bit_and t (lo / 2)) half,
  and_fields_zero k hi (lo / 2) (omega (arith, pow-suc 2 k)),
)
  where
    half : hi * 2 ^ suc k / 2 ≡ hi * 2 ^ k
    half = omega (arith, field_double hi k)

-- `(hi << k) | lo` is a sum where `lo` narrow `k` bits.
pub or_fields : (k hi lo : ℕ) → lo < 2 ^ k → bit_or (hi * 2 ^ k) lo ≡ hi * 2 ^ k + lo
or_fields k hi lo narrow = omega (arith, or_and_sum (hi * 2 ^ k) lo, and_fields_zero k hi lo narrow)

or_comm_below : (n a b : ℕ) → a ≤ n → b ≤ n → bit_or a b ≡ bit_or b a
or_comm_below zero a b ha hb =
    ap₂ bit_or {x = a} {y = b} {u = b} {v = a} (omega arith) (omega arith)
or_comm_below (suc n) a b ha hb = ground (
  arith,
  bit_or_step a b,
  bit_or_step b a,
  or_comm_below n (a / 2) (b / 2) (omega arith) (omega arith),
)

pub bit_or_comm : (a b : ℕ) → bit_or a b ≡ bit_or b a
bit_or_comm a b = or_comm_below (a + b) a b (omega arith) (omega arith)
