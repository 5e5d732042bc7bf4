-- ===== src/Base/Bits/Shift.antt =====
-- The bits of a word that is shifted or cut.
use native.Mathlib.Nat.{
  pow-suc, div-div-eq-div-mul, add-mul-mod_self_right, mod-eq_of_lt, mod-lt, div-add-mod',
}
use nnemu.Base.Names.{
  ℕ, zero, suc, ◌+◌, ◌-◌, ◌*◌, ◌/◌, ◌%◌, ◌^◌, ◌<◌, ◌≡◌, ap, ap₂, ◌∙◌, sym, arith, ◌&&◌,
}
use nnemu.Base.Tests.{leb, ltb}
use nnemu.Base.Bits.Laws.{bit, bit-zero}
use nnemu.Base.Bits.Powers.{two_pow_pos}

pub bit-shift_right : (k x i j : ℕ) → i + k ≡ j → bit (x / 2 ^ k) i ≡ bit x j
unfolding bit
bit-shift_right zero x i j e =
    ap₂ bit {x = x / 2 ^ 0} {y = x} {u = i} {v = j} (omega arith) (omega arith)
bit-shift_right (suc k) x i zero e = absurd (omega arith)
bit-shift_right (suc k) x i (suc j) e =
    ap (λ t. bit t i) half ∙ bit-shift_right k (x / 2) i j (omega arith)
  where
    half : x / 2 ^ suc k ≡ x / 2 / 2 ^ k
    half =
        ap (λ t. x / t) {y = 2 * 2 ^ k} (omega (arith, pow-suc 2 k))
        ∙ sym (div-div-eq-div-mul x 2 (2 ^ k))

pub bit-shift_left : (k x i : ℕ) → bit (x * 2 ^ k) i ≡ (leb k i && bit x (i - k))
unfolding bit
bit-shift_left zero x i =
    ap₂ bit {x = x * 2 ^ 0} {y = x} {u = i} {v = i - 0} (omega arith) (omega arith) ∙ ground arith
bit-shift_left (suc k) x zero = ground (arith, ap (λ t. x * t) (pow-suc 2 k))
bit-shift_left (suc k) x (suc i) =
    ap (λ t. bit t i) half
    ∙ bit-shift_left k x i
    ∙ ground (arith, ap (bit x) {x = suc i - suc k} {y = i - k})
  where
    half : x * 2 ^ suc k / 2 ≡ x * 2 ^ k
    half = omega (arith, ap (λ t. x * t) (pow-suc 2 k))

-- The remainder by an even number, by its half.
mod_double : (x m : ℕ) → 0 < m → x % (2 * m) ≡ 2 * (x / 2 % m) + x % 2
mod_double x m h =
    ap (λ t. t % (2 * m)) split
    ∙ add-mul-mod_self_right (2 * (x / 2 % m) + x % 2) (x / 2 / m) (2 * m)
    ∙ mod-eq_of_lt (omega (arith, mod-lt (x / 2) h))
  where
    split : x ≡ 2 * (x / 2 % m) + x % 2 + x / 2 / m * (2 * m)
    split = omega (arith, div-add-mod' (x / 2) m)

mod_pow_double : (x k : ℕ) → x % 2 ^ suc k ≡ 2 * (x / 2 % 2 ^ k) + x % 2
mod_pow_double x k =
    ap (λ t. x % t) {y = 2 * 2 ^ k} (omega (arith, pow-suc 2 k))
    ∙ mod_double x (2 ^ k) (two_pow_pos k)

pub bit-mod : (k x i : ℕ) → bit (x % 2 ^ k) i ≡ (ltb i k && bit x i)
unfolding bit
bit-mod zero x i =
    ap (λ t. bit t i) {x = x % 2 ^ 0} {y = 0} (omega arith) ∙ bit-zero i ∙ ground arith
bit-mod (suc k) x zero = ground (arith, mod_pow_double x k)
bit-mod (suc k) x (suc i) = ap (λ t. bit t i) half ∙ bit-mod k (x / 2) i ∙ ground arith
  where
    half : x % 2 ^ suc k / 2 ≡ x / 2 % 2 ^ k
    half = omega (arith, mod_pow_double x k)

-- A word of `k` ones.
pub bit-ones : (k i : ℕ) → bit (2 ^ k - 1) i ≡ ltb i k
unfolding bit
bit-ones zero i = bit-zero i ∙ ground arith
bit-ones (suc k) zero = ground (arith, pow-suc 2 k, two_pow_pos k)
bit-ones (suc k) (suc i) =
    ap (λ t. bit t i) {x = (2 ^ suc k - 1) / 2} {y = 2 ^ k - 1} (omega (arith, pow-suc 2 k))
    ∙ bit-ones k i
    ∙ ground arith
