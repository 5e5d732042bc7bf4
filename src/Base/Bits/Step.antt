-- ===== src/Base/Bits/Step.antt =====
-- The lowest digit of `&`, `|` and `^`, as an equation with no fuel.
use Prim.Native.Nat.{digits, bitwise, bit_and-bitwise, bit_or-bitwise, bit_xor-bitwise, differ}
use nnemu.Base.Names.{
  ℕ, zero, suc, ◌+◌, ◌*◌, ◌/◌, ◌%◌, ◌≤◌, ◌<◌, bit_and, bit_or, bit_xor, min, max, ◌≡◌, refl, ap,
  ◌∙◌, arith,
}

-- `rest` is what remains of the second word, `op` acts on two digits.
module _ (rest : ℕ → ℕ) (op : ℕ → ℕ → ℕ) where
  -- A word is done after as many rounds as its value; more rounds change nothing.
  spare_rounds :
      (spare x y : ℕ) (more : ℕ)
      → x ≤ spare
      → more ≡ spare + 1
      → digits rest op more x y ≡ digits rest op spare x y
  spare_rounds spare x y zero h e = absurd (omega arith)
  spare_rounds zero zero y (suc more) h e = refl
  spare_rounds zero (suc x) y (suc more) h e = absurd (omega arith)
  spare_rounds (suc spare) zero y (suc more) h e = refl
  spare_rounds (suc spare) (suc x) y (suc more) h e =
      ap (λ t. t * 2 + op (suc x % 2) (y % 2))
        (spare_rounds spare (suc x / 2) (y / 2) more (omega arith) (omega arith))

  rounds_suffice : (n x y : ℕ) (gap : ℕ) → n ≡ x + gap → digits rest op n x y ≡ bitwise rest op x y
  rounds_suffice n x y zero e = ap (λ t. digits rest op t x y) same
    where
      same : n ≡ x
      same = omega arith
  rounds_suffice zero x y (suc gap) e = absurd (omega arith)
  rounds_suffice (suc n) x y (suc gap) e =
      spare_rounds n x y (suc n) (omega arith) (omega arith)
      ∙ rounds_suffice n x y gap (omega arith)

  bitwise_lowest :
      (x y gap : ℕ)
      → x ≡ suc x / 2 + gap
      → bitwise rest op (suc x) y ≡ bitwise rest op (suc x / 2) (y / 2) * 2 + op (suc x % 2) (y % 2)
  bitwise_lowest x y gap e =
      ap (λ t. t * 2 + op (suc x % 2) (y % 2)) (rounds_suffice x (suc x / 2) (y / 2) gap e)

gap_eq : (x : ℕ) → x ≡ suc x / 2 + x / 2
gap_eq x = omega arith

pub bit_and_step : (x y : ℕ) → bit_and x y ≡ min (x % 2) (y % 2) + 2 * bit_and (x / 2) (y / 2)
bit_and_step zero y = rw (bit_and-bitwise 0 y, bit_and-bitwise (0 / 2) (y / 2)) (omega arith)
bit_and_step (suc k) y =
    let lowest = bitwise_lowest (λ _. 0) min k y (k / 2) (gap_eq k) in
    omega (arith, lowest, bit_and-bitwise (suc k) y, bit_and-bitwise (suc k / 2) (y / 2))

differ_digits : (x y : ℕ) → x < 2 → y < 2 → differ x y ≡ (x + y) % 2
differ_digits zero y hx hy = omega arith
differ_digits (suc zero) zero hx hy = refl
differ_digits (suc zero) (suc y) hx hy = omega arith
differ_digits (suc (suc x)) y hx hy = absurd (omega arith)

pub bit_xor_step : (x y : ℕ) → bit_xor x y ≡ (x % 2 + y % 2) % 2 + 2 * bit_xor (x / 2) (y / 2)
bit_xor_step zero y = rw (bit_xor-bitwise 0 y, bit_xor-bitwise (0 / 2) (y / 2)) (omega arith)
bit_xor_step (suc k) y =
    let lowest = bitwise_lowest (λ t. t) differ k y (k / 2) (gap_eq k) in
    let digit = differ_digits (suc k % 2) (y % 2) (omega arith) (omega arith) in
    omega (arith, lowest, digit, bit_xor-bitwise (suc k) y, bit_xor-bitwise (suc k / 2) (y / 2))

pub bit_or_step : (x y : ℕ) → bit_or x y ≡ max (x % 2) (y % 2) + 2 * bit_or (x / 2) (y / 2)
bit_or_step zero y = rw (bit_or-bitwise 0 y, bit_or-bitwise (0 / 2) (y / 2)) (omega arith)
bit_or_step (suc k) y =
    let lowest = bitwise_lowest (λ t. t) max k y (k / 2) (gap_eq k) in
    omega (arith, lowest, bit_or-bitwise (suc k) y, bit_or-bitwise (suc k / 2) (y / 2))
