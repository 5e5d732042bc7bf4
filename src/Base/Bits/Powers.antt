-- ===== src/Base/Bits/Powers.antt =====
-- Powers of two: sums of exponents, words of ones.
use native.Mathlib.Nat.{
  pow-suc, one-le-pow, pow-le-pow_right, add-mul-div_right, div-eq_of_lt, add-mul-mod_self_right,
  mod-eq_of_lt, mod-eq-sub-mod, mod-lt, div-add-mod',
}
use nnemu.Base.Names.{
  ℕ, zero, suc, ◌+◌, ◌-◌, ◌*◌, ◌/◌, ◌%◌, ◌^◌, ◌≤◌, ◌<◌, ◌≡◌, ap, ◌∙◌, arith, inl, inr,
}
use nnemu.Base.Tests.{ltb, if◌then◌else◌, Bool-cases}

pub two_pow_pos : (k : ℕ) → 1 ≤ 2 ^ k
two_pow_pos k = one-le-pow k 2 (omega arith)

pub two_pow_add : (a b : ℕ) → 2 ^ (a + b) ≡ 2 ^ a * 2 ^ b
two_pow_add a zero = ap (λ t. 2 ^ t) same ∙ omega arith
  where
    same : a + zero ≡ a
    same = omega arith
two_pow_add a (suc b) =
    ap (λ t. 2 ^ t) next
    ∙ omega
        (arith, pow-suc 2 (a + b), pow-suc 2 b, two_pow_add a b, ap (λ t. 2 ^ a * t) (pow-suc 2 b))
  where
    next : a + suc b ≡ suc (a + b)
    next = omega arith

-- A word of ones, shifted down.
pub ones_shift : (a d : ℕ) → (2 ^ (a + d) - 1) / 2 ^ d ≡ 2 ^ a - 1
ones_shift a d =
    ap (λ t. t / 2 ^ d) split
    ∙ add-mul-div_right (2 ^ d - 1) (2 ^ a - 1) (two_pow_pos d)
    ∙ ap (λ t. t + (2 ^ a - 1)) (div-eq_of_lt (omega (arith, two_pow_pos d)))
    ∙ omega arith
  where
    less : (2 ^ a - 1) * 2 ^ d + 2 ^ d ≡ 2 ^ a * 2 ^ d
    less = omega (arith, ap (λ t. t * 2 ^ d) (refill (2 ^ a) (two_pow_pos a)))
      where
        refill : (p : ℕ) → 1 ≤ p → (p - 1) + 1 ≡ p
        refill p h = omega arith

    split : 2 ^ (a + d) - 1 ≡ (2 ^ d - 1) + (2 ^ a - 1) * 2 ^ d
    split = omega (arith, two_pow_add a d, two_pow_pos d, less)

-- A common factor comes out of a remainder.
pub mul-mod-mul : (a q p : ℕ) → 0 < q → 0 < p → a * p % (q * p) ≡ a % q * p
mul-mod-mul a q p hq hp =
    ap (λ t. t % (q * p)) split
    ∙ add-mul-mod_self_right (a % q * p) (a / q) (q * p)
    ∙ mod-eq_of_lt small
  where
    split : a * p ≡ a % q * p + a / q * (q * p)
    split = omega (arith, ap (λ t. t * p) (div-add-mod' a q))

    less : a % q < q
    less = mod-lt a hq

    small : a % q * p < q * p
    small = grind arith

-- The remainder of a number below twice the modulus.
pub mod-add : (m s : ℕ) → s < m + m → s % m ≡ (if ltb s m then s else s - m)
mod-add m s h = elim (Bool-cases (ltb s m)) [
  | inl e ↦ rw e (mod-eq_of_lt (ground arith))
  | inr e ↦ rw e (mod-eq-sub-mod (ground arith) ∙ mod-eq_of_lt (ground arith))
]

pub two_pow_lt : (i j : ℕ) → i < j → 2 ^ i < 2 ^ j
two_pow_lt i j h = omega (
  arith,
  pow-le-pow_right {n = 2} (omega arith) {i = suc i} {j = j} h,
  pow-suc 2 i,
  two_pow_pos i,
)
