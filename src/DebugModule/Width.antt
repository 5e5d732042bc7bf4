-- ===== src/DebugModule/Width.antt =====
-- riscv/debug_module.cc: `field_width`, how many bits number the harts.
use native.Mathlib.Nat.{mul-le-mul_left, pow-suc}
use nnemu.Base.{
  ap, arith, refl, suc, sym, zero, ℕ, ◌%◌, ◌*◌, ◌+◌, ◌-◌, ◌/◌, ◌<◌, ◌^◌, ◌∙◌, ◌≡◌, ◌≤◌,
}
use nnemu.DebugModule.{field_width, field_width_loop}

loop_zero : (fuel i : ℕ) → field_width_loop fuel 0 i ≡ i
unfolding field_width_loop
loop_zero zero i = refl
loop_zero (suc fuel) i = refl

loop_step :
    (fuel n i : ℕ) → 0 < n → field_width_loop (suc fuel) n i ≡ field_width_loop fuel (n / 2) (i + 1)
unfolding field_width_loop
loop_step fuel n i some = ground arith

loop_end : (n i : ℕ) → field_width_loop 0 n i ≡ i
unfolding field_width_loop
loop_end n i = refl

loop_none : (fuel n i : ℕ) → n ≤ 0 → field_width_loop fuel n i ≡ i
loop_none fuel n i none =
    ap (λ t. field_width_loop fuel t i) {x = n} {y = 0} (omega (arith, none)) ∙ loop_zero fuel i

loop-enough :
    (fuel extra n i : ℕ)
    → n < 2 ^ fuel
    → field_width_loop (fuel + extra) n i ≡ field_width_loop fuel n i
loop-enough zero extra n i below =
    ap (λ k. field_width_loop k n i) {x = 0 + extra} {y = extra} (omega arith)
    ∙ loop_none extra n i (omega (arith, below))
    ∙ sym (loop_end n i)
loop-enough (suc fuel) extra zero i below =
    loop_zero (suc fuel + extra) i ∙ sym (loop_zero (suc fuel) i)
loop-enough (suc fuel) extra (suc m) i below =
    ap (λ k. field_width_loop k (suc m) i) {x = suc fuel + extra} {y = suc (fuel + extra)}
      (omega arith)
    ∙ loop_step (fuel + extra) (suc m) i (omega arith)
    ∙ loop-enough fuel extra (suc m / 2) (i + 1) (omega (arith, below, pow-suc 2 fuel))
    ∙ sym (loop_step fuel (suc m) i (omega arith))

loop_fits : (fuel n i : ℕ) → n < 2 ^ fuel → 2 ^ i * (n + 1) ≤ 2 ^ field_width_loop fuel n i
loop_fits zero n i below = omega (
  arith,
  below,
  ap (λ k. 2 ^ k) (loop_end n i),
  ap (λ k. 2 ^ i * k) {x = n + 1} {y = 1} (omega (arith, below)),
)
loop_fits (suc fuel) zero i below = omega (arith, ap (λ k. 2 ^ k) (loop_zero (suc fuel) i))
loop_fits (suc fuel) (suc m) i below = omega (
  arith,
  ap (λ k. 2 ^ k) (loop_step fuel (suc m) i (omega arith)),
  loop_fits fuel (suc m / 2) (i + 1) (omega (arith, below, pow-suc 2 fuel)),
  doubled,
)
  where
    doubled : 2 ^ i * (suc m + 1) ≤ 2 ^ (i + 1) * (suc m / 2 + 1)
    doubled = grind (
      arith,
      mul-le-mul_left {m = suc m + 1} {n = 2 * (suc m / 2 + 1)} (2 ^ i) (omega arith),
      ap (λ (k : ℕ). k * (suc m / 2 + 1)) {x = 2 ^ (i + 1)} {y = 2 * 2 ^ i}
          (ap (λ k. 2 ^ k) {x = i + 1} {y = suc i} (omega arith) ∙ pow-suc 2 i ∙ omega arith),
    )

loop_least : (fuel n i w : ℕ) → n < 2 ^ w → field_width_loop fuel n i ≤ i + w
loop_least zero n i w below = omega (arith, loop_end n i)
loop_least (suc fuel) zero i w below = omega (arith, loop_zero (suc fuel) i)
loop_least (suc fuel) (suc m) i zero below = omega (arith, below)
loop_least (suc fuel) (suc m) i (suc w) below = omega (
  arith,
  loop_step fuel (suc m) i (omega arith),
  loop_least fuel (suc m / 2) (i + 1) w (omega (arith, below, pow-suc 2 w)),
)

field_width-loop : (n : ℕ) → 1 ≤ n → n < 2 ^ 32 → field_width n ≡ field_width_loop 33 (n - 1) 0
unfolding field_width
field_width-loop n some below =
    ap (λ t. field_width_loop 33 t 0) {x = (n + 2 ^ 32 - 1) % 2 ^ 32} {y = n - 1}
      (omega (arith, some, below))

-- To number from one up to 2^32 - 1 different values, the loop ends within 33 rounds, so more fuel
-- changes nothing; the width is enough for that many values, and it is the least that is.
pub field_width_lem :
    (n : ℕ)
    → 1 ≤ n
    → n < 2 ^ 32
    → ((extra : ℕ) → field_width_loop (33 + extra) (n - 1) 0 ≡ field_width n)
      × (n ≤ 2 ^ field_width n)
      × ((w : ℕ) → n ≤ 2 ^ w → field_width n ≤ w)
field_width_lem n some below = (steps, fits, least)
  where
    shut : field_width n ≡ field_width_loop 33 (n - 1) 0
    shut = field_width-loop n some below

    steps : (extra : ℕ) → field_width_loop (33 + extra) (n - 1) 0 ≡ field_width n
    steps extra = loop-enough 33 extra (n - 1) 0 (omega (arith, below)) ∙ sym shut

    fits : n ≤ 2 ^ field_width n
    fits = omega (arith, ap (λ k. 2 ^ k) shut, loop_fits 33 (n - 1) 0 (omega (arith, below)), some)

    least : (w : ℕ) → n ≤ 2 ^ w → field_width n ≤ w
    least w enough = omega (arith, shut, loop_least 33 (n - 1) 0 w (omega (arith, some, enough)))
