-- ===== src/Base/Bits/Xor.antt =====
-- Exclusive or on words as a test of equality, and a number beside its successor.
use native.Mathlib.Nat.{div-le_self, pow-suc}
use nnemu.Base.Names.{
  ℕ, suc, ◌+◌, ◌-◌, ◌*◌, ◌/◌, ◌^◌, ◌≤◌, ◌<◌, ◌≡◌, refl, ap, ap₂, sym, ◌∙◌, arith, Bool, true, false,
  inl, inr, xor, bit_and, bit_xor,
}
use nnemu.Base.Tests.{◌==◌, Bool-cases}
use nnemu.Base.Bits.Laws.{
  bit, bit-and, bit-or, bit-xor, bit-pow, bit-zero, eq_of_bits, bit_and-lt, bit_xor-lt,
}
use nnemu.Base.Bits.Fields.{or_fields}
use nnemu.Base.Bits.Powers.{two_pow_pos}
use nnemu.Base.Bits.Shift.{bit-ones, bit-shift_right}

-- A number that ends in a zero and then `n` ones, and its successor, share the bits above.
pub and_successor :
    (b n : ℕ)
    → b * 2 ^ suc n + 2 ^ n < 2 ^ 64
    → bit_and (b * 2 ^ suc n + (2 ^ n - 1)) (b * 2 ^ suc n + 2 ^ n) ≡ b * 2 ^ suc n
and_successor b n h =
    eq_of_bits 64 (bit_and low high) (b * 2 ^ suc n)
      (bit_and-lt 64 low high (omega (arith, two_pow_pos n))) (omega arith) same
  where
    low : ℕ
    low = b * 2 ^ suc n + (2 ^ n - 1)

    high : ℕ
    high = b * 2 ^ suc n + 2 ^ n

    same : (i : ℕ) → bit (bit_and low high) i ≡ bit (b * 2 ^ suc n) i
    same i = ground (
      arith,
      bit-and low high i,
      ap (λ t. bit t i)
          (or_fields (suc n) b (2 ^ n - 1) (omega (arith, two_pow_pos n, pow-suc 2 n))),
      ap (λ t. bit t i) (or_fields (suc n) b (2 ^ n) (omega (arith, two_pow_pos n, pow-suc 2 n))),
      bit-or (b * 2 ^ suc n) (2 ^ n - 1) i,
      bit-or (b * 2 ^ suc n) (2 ^ n) i,
      bit-ones n i,
      bit-pow n i,
    )

-- `^` acts on the high parts of words apart.
pub xor-shift :
    (k x y : ℕ) → x < 2 ^ 64 → y < 2 ^ 64 → bit_xor x y / 2 ^ k ≡ bit_xor (x / 2 ^ k) (y / 2 ^ k)
unfolding xor
xor-shift k x y hx hy =
    eq_of_bits 64 (bit_xor x y / 2 ^ k) (bit_xor (x / 2 ^ k) (y / 2 ^ k))
      (le_lt (div-le_self (bit_xor x y) (2 ^ k)) (bit_xor-lt 64 x y hx hy))
      (bit_xor-lt 64 (x / 2 ^ k) (y / 2 ^ k) (le_lt (div-le_self x (2 ^ k)) hx)
        (le_lt (div-le_self y (2 ^ k)) hy))
      (λ i.
        bit-shift_right k (bit_xor x y) i (i + k) refl
        ∙ bit-xor x y (i + k)
        ∙ ap₂ xor (sym (bit-shift_right k x i (i + k) refl))
            (sym (bit-shift_right k y i (i + k) refl))
        ∙ sym (bit-xor (x / 2 ^ k) (y / 2 ^ k) i))
  where
    le_lt : {a b c : ℕ} → a ≤ b → b < c → a < c
    le_lt h g = omega arith

xor_self_only : (x y : Bool) → xor x y ≡ false → x ≡ y
unfolding xor
xor_self_only true true h = refl
xor_self_only true false h = h
xor_self_only false true h = sym h
xor_self_only false false h = refl

xor_same : (x : Bool) → xor x x ≡ false
unfolding xor
xor_same true = refl
xor_same false = refl

eq_of_xor : (x y : ℕ) → x < 2 ^ 64 → y < 2 ^ 64 → bit_xor x y ≡ 0 → x ≡ y
eq_of_xor x y hx hy e = eq_of_bits 64 x y hx hy (λ i.
    xor_self_only (bit x i) (bit y i) (sym (bit-xor x y i) ∙ ap (λ t. bit t i) e ∙ bit-zero i))

xor_of_same : (x : ℕ) → x < 2 ^ 64 → bit_xor x x ≡ 0
xor_of_same x h =
    eq_of_bits 64 (bit_xor x x) 0 (bit_xor-lt 64 x x h h) (omega arith)
      (λ i. bit-xor x x i ∙ xor_same (bit x i) ∙ sym (bit-zero i))

pub xor-eq : (x y : ℕ) → x < 2 ^ 64 → y < 2 ^ 64 → (bit_xor x y == 0) ≡ (x == y)
xor-eq x y hx hy = elim (Bool-cases (x == y)) [
  | inl e ↦ ground (arith, xor_of_same x, ap (λ t. bit_xor x t) {x = x} {y = y} (ground (arith, e)))
  | inr e ↦ ground (arith, eq_of_xor x y)
]
