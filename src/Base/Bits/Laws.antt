-- ===== src/Base/Bits/Laws.antt =====
-- The bit at a position, its law for each operation, and extensionality.
use Prim.Native.Nat.{bit_and-bitwise, bit_or-bitwise, bit_xor-bitwise}
use native.Mathlib.Nat.{pow-suc, one-le-pow}
use nnemu.Base.Names.{
  ℕ, zero, suc, ◌-◌, ◌*◌, ◌/◌, ◌%◌, ◌^◌, ◌≤◌, ◌<◌, bit_and, bit_or, bit_xor, ◌≡◌, refl, ap, ◌∙◌,
  arith, Bool, true, false, not, ◌&&◌, ◌||◌, xor,
}
use nnemu.Base.Tests.{◌==◌, leb, truthy}
use nnemu.Base.Bits.Step.{bit_and_step, bit_or_step, bit_xor_step}

abbrev pub odd : ℕ → Bool
odd x = x % 2 == 1

-- Bit `i` of `x`.
unfoldable pub bit : ℕ → ℕ → Bool
bit x zero = odd x
bit x (suc i) = bit (x / 2) i

-- `~x` of a `w`-bit word.
abbrev pub bit_not : ℕ → ℕ → ℕ
bit_not w x = 2 ^ w - 1 - x

pub bit-and : (a b i : ℕ) → bit (bit_and a b) i ≡ (bit a i && bit b i)
unfolding bit
bit-and a b zero = ground (arith, bit_and_step a b)
bit-and a b (suc i) = ap (λ x. bit x i) half ∙ bit-and (a / 2) (b / 2) i
  where
    half : bit_and a b / 2 ≡ bit_and (a / 2) (b / 2)
    half = omega (arith, bit_and_step a b)

pub bit-or : (a b i : ℕ) → bit (bit_or a b) i ≡ (bit a i || bit b i)
unfolding bit
bit-or a b zero = ground (arith, bit_or_step a b)
bit-or a b (suc i) = ap (λ x. bit x i) half ∙ bit-or (a / 2) (b / 2) i
  where
    half : bit_or a b / 2 ≡ bit_or (a / 2) (b / 2)
    half = omega (arith, bit_or_step a b)

pub bit-xor : (a b i : ℕ) → bit (bit_xor a b) i ≡ xor (bit a i) (bit b i)
unfolding bit xor
bit-xor a b zero = ground (arith, bit_xor_step a b)
bit-xor a b (suc i) = ap (λ x. bit x i) half ∙ bit-xor (a / 2) (b / 2) i
  where
    half : bit_xor a b / 2 ≡ bit_xor (a / 2) (b / 2)
    half = ground (arith, bit_xor_step a b)

pub bit-zero : (i : ℕ) → bit 0 i ≡ false
unfolding bit
bit-zero zero = refl
bit-zero (suc i) = bit-zero i

double-half : (x : ℕ) → 2 * x / 2 ≡ x
double-half x = omega arith

half-pow : (j : ℕ) → 2 ^ suc j / 2 ≡ 2 ^ j
half-pow j = omega (arith, pow-suc 2 j)

-- A single bit.
pub bit-pow : (j i : ℕ) → bit (2 ^ j) i ≡ (i == j)
unfolding bit
bit-pow zero zero = refl
bit-pow zero (suc i) = ground (arith, bit-zero i)
bit-pow (suc j) zero = ground (arith, pow-suc 2 j)
bit-pow (suc j) (suc i) = ground (arith, ap (λ x. bit x i) (half-pow j), bit-pow j i)

pub bit_ne_zero : (x i : ℕ) → bit x i ≡ true → 1 ≤ x
unfolding bit
bit_ne_zero x zero h = ground arith
bit_ne_zero x (suc i) h = omega (arith, bit_ne_zero (x / 2) i h)

pub bit_above : (w x i : ℕ) → x < 2 ^ w → w ≤ i → bit x i ≡ false
unfolding bit
bit_above zero x i h g = ground (arith, bit-zero i, ap (λ t. bit t i) below)
  where
    below : x ≡ 0
    below = omega arith
bit_above (suc w) x zero h g = absurd (omega arith)
bit_above (suc w) x (suc i) h g = bit_above w (x / 2) i (omega (arith, pow-suc 2 w)) (omega arith)

pub bit-not : (w x i : ℕ) → x < 2 ^ w → i < w → bit (bit_not w x) i ≡ not (bit x i)
unfolding bit
bit-not zero x i h g = absurd (omega arith)
bit-not (suc w) x zero h g = ground (arith, pow-suc 2 w)
bit-not (suc w) x (suc i) h g =
    ap (λ t. bit t i) half ∙ bit-not w (x / 2) i (omega (arith, pow-suc 2 w)) (omega arith)
  where
    half : bit_not (suc w) x / 2 ≡ bit_not w (x / 2)
    half = omega (arith, pow-suc 2 w)

-- Two words with the same bits are the same.
pub eq_of_bits : (w a b : ℕ) → a < 2 ^ w → b < 2 ^ w → ((i : ℕ) → bit a i ≡ bit b i) → a ≡ b
unfolding bit
eq_of_bits zero a b ha hb h = omega arith
eq_of_bits (suc w) a b ha hb h = ground (
  arith,
  h 0,
  eq_of_bits w (a / 2) (b / 2) (omega (arith, pow-suc 2 w)) (omega (arith, pow-suc 2 w))
      (λ i. h (suc i)),
)

pub zero-and : (b : ℕ) → bit_and 0 b ≡ 0
zero-and b = bit_and-bitwise 0 b

pub zero-or : (b : ℕ) → bit_or 0 b ≡ b
zero-or b = bit_or-bitwise 0 b

and_le_both : (n a b : ℕ) → a ≤ n → (bit_and a b ≤ a) × (bit_and a b ≤ b)
and_le_both n zero b h = omega (arith, zero-and b)
and_le_both zero (suc a) b h = absurd (omega arith)
and_le_both (suc n) (suc a) b h =
    omega (arith, bit_and_step (suc a) b, and_le_both n (suc a / 2) (b / 2) (omega arith))

pub bit_and-le_left : (a b : ℕ) → bit_and a b ≤ a
bit_and-le_left a b = (and_le_both a a b (omega arith)).0

pub bit_and-le_right : (a b : ℕ) → bit_and a b ≤ b
bit_and-le_right a b = (and_le_both a a b (omega arith)).1

pub bit_or-lt : (w a b : ℕ) → a < 2 ^ w → b < 2 ^ w → bit_or a b < 2 ^ w
bit_or-lt zero a b h g = omega (arith, ap (λ t. bit_or t b) none_left, zero-or b)
  where
    none_left : a ≡ 0
    none_left = omega arith
bit_or-lt (suc w) a b h g = omega (
  arith,
  pow-suc 2 w,
  bit_or_step a b,
  bit_or-lt w (a / 2) (b / 2) (omega (arith, pow-suc 2 w)) (omega (arith, pow-suc 2 w)),
)

zero-xor : (b : ℕ) → bit_xor 0 b ≡ b
zero-xor b = bit_xor-bitwise 0 b

pub bit_xor-lt : (w a b : ℕ) → a < 2 ^ w → b < 2 ^ w → bit_xor a b < 2 ^ w
bit_xor-lt zero a b h g = omega (arith, ap (λ t. bit_xor t b) none_left, zero-xor b)
  where
    none_left : a ≡ 0
    none_left = omega arith
bit_xor-lt (suc w) a b h g =
    ground (arith, pow-suc 2 w, bit_xor_step a b, bit_xor-lt w (a / 2) (b / 2))

pub bit_and-lt : (w a b : ℕ) → a < 2 ^ w → bit_and a b < 2 ^ w
bit_and-lt w a b h = omega (arith, bit_and-le_left a b)

pub bit_not-lt : (w a : ℕ) → bit_not w a < 2 ^ w
bit_not-lt w a = omega (arith, one-le-pow w 2 (omega arith))

-- C's test of one bit: `if (x & (1 << j))`.
pub truthy-and-pow : (j x : ℕ) → truthy (bit_and x (2 ^ j)) ≡ bit x j
unfolding bit
truthy-and-pow zero x = ground (arith, bit_and_step x 1, bit_and-le_right (x / 2) 0)
truthy-and-pow (suc j) x = ground (
  arith,
  bit_and_step x (2 ^ suc j),
  pow-suc 2 j,
  ap (λ t. bit_and (x / 2) t) (half-pow j),
  truthy-and-pow j (x / 2),
)

-- The sign bit of a word of `n + 1` bits.
pub bit_top : (n x : ℕ) → x < 2 ^ suc n → bit x n ≡ leb (2 ^ n) x
unfolding bit
bit_top zero x h = ground arith
bit_top (suc n) x h = ground (arith, pow-suc 2 n, pow-suc 2 (suc n), bit_top n (x / 2))
