-- ===== src/Arith/Ones.antt =====
-- `cto` and `extract64` in terms of the bits of the word.
use native.Mathlib.Nat.{pow-suc}
use nnemu.Base.{
  ℕ, zero, suc, ◌+◌, ◌-◌, ◌/◌, ◌%◌, ◌^◌, ◌≤◌, ◌<◌, ◌≡◌, ap, ◌∙◌, arith, true, false, Bool-cases,
  inl, inr, bit_and,
}
use nnemu.Base.Bits.{bit, odd, and_mask, ones_shift}
use nnemu.Arith.{cto_loop, cto, extract64}

-- A run of `r` ones and then a zero.
record OnesThenZero (val r : ℕ) : Type 0 where
  ones : (i : ℕ) → i < r → bit val i ≡ true
  zero_next : bit val r ≡ false

first_one :
    (val r : ℕ) → odd val ≡ true → OnesThenZero (val / 2) r → (i : ℕ) → i < suc r → bit val i ≡ true
unfolding bit
first_one val r one run zero l = one
first_one val r one run (suc i) l = run.ones i (omega arith)

-- The loop counts ones from the low end and stops at the first zero, within `w` rounds.
cto_loop_lem :
    (w fuel val res : ℕ)
    → val < 2 ^ w
    → w < fuel
    → (r : ℕ) × (cto_loop fuel val res ≡ res + r) × (r ≤ w) × OnesThenZero val r
unfolding cto_loop
cto_loop_lem w zero val res h g = absurd (omega arith)
cto_loop_lem zero (suc fuel) val res h g = (
  0,
  ground (arith, and_mask 1 val),
  omega arith,
  record { ones = λ i l. absurd (omega arith); zero_next = unfold bit in ground arith },
)
cto_loop_lem (suc w) (suc fuel) val res h g = elim (Bool-cases (odd val)) [
  | inl one ↦
      more one (cto_loop_lem w fuel (val / 2) (res + 1) (omega (arith, pow-suc 2 w)) (omega arith))
  | inr none ↦ (
    0,
    ground (arith, and_mask 1 val),
    omega arith,
    record { ones = λ i l. absurd (omega arith); zero_next = unfold bit in none },
  )
]
  where
    more :
        odd val ≡ true
        → (r : ℕ) × (cto_loop fuel (val / 2) (res + 1) ≡ res + 1 + r)
          × (r ≤ w)
          × OnesThenZero (val / 2) r
        → (r : ℕ) × (cto_loop (suc fuel) val res ≡ res + r) × (r ≤ suc w) × OnesThenZero val r
    more one (r, e, le, run) = (
      suc r,
      ground (arith, e, and_mask 1 val),
      omega arith,
      record { ones = first_one val r one run; zero_next = unfold bit in run.zero_next },
    )

-- On 64-bit words, `cto` is the number of ones below the lowest zero, at most 64.
pub cto_lem :
    (x : ℕ)
    → x < 2 ^ 64
    → ((i : ℕ) → i < cto x → bit x i ≡ true) × (bit x (cto x) ≡ false) × (cto x ≤ 64)
unfolding cto
cto_lem x h = count (cto_loop_lem 64 65 x 0 h (omega arith))
  where
    count :
        (r : ℕ) × (cto_loop 65 x 0 ≡ 0 + r) × (r ≤ 64) × OnesThenZero x r
        → ((i : ℕ) → i < cto_loop 65 x 0 → bit x i ≡ true)
          × (bit x (cto_loop 65 x 0) ≡ false)
          × (cto_loop 65 x 0 ≤ 64)
    count (r, e, le, run) =
        let same : cto_loop 65 x 0 ≡ r = omega (arith, e) in rw same (run.ones, run.zero_next, le)

-- `extract64` takes `len` bits from `pos` on, if there is at least one and they end within 64.
pub extract64_lem :
    (val pos len : ℕ) → 0 < len → len + pos ≤ 64 → extract64 val pos len ≡ val / 2 ^ pos % 2 ^ len
unfolding extract64
extract64_lem val pos len h g =
    ap (λ t. bit_and (val / 2 ^ pos) ((2 ^ t - 1) / 2 ^ (64 - len))) whole
    ∙ ap (bit_and (val / 2 ^ pos)) (ones_shift len (64 - len))
    ∙ and_mask len (val / 2 ^ pos)
  where
    whole : 64 ≡ len + (64 - len)
    whole = omega arith
