-- ===== src/Processor/Priority.antt =====
-- riscv/processor.cc: the order in which `take_interrupt` prefers interrupts.
use nnemu.Base.{
  ℕ, ◌-◌, ◌/◌, ◌%◌, ◌^◌, ◌≤◌, ◌<◌, ◌≡◌, refl, ◌∙◌, arith, false, truthy, if◌then◌else◌, Option,
  none, some, List, [], ◌∷◌, bit_and, Bool-cases, inl, inr, leb,
}
use nnemu.Base.Bits.{bit, bit_above, truthy-and-pow}
use nnemu.Processor.{prioritise}

-- The standard interrupts, the most urgent first: machine external, software and timer, then those of
-- the supervisor, then those of the guest.
abbrev pub standard_order : List ℕ
standard_order = 11 ∷ 3 ∷ 7 ∷ 9 ∷ 1 ∷ 5 ∷ 10 ∷ 2 ∷ 6 ∷ []

-- The first interrupt of a list that a word has.
unfoldable pub first_of : List ℕ → ℕ → Option ℕ
first_of [] w = none
first_of (i ∷ rest) w = if bit w i then some (2 ^ i) else first_of rest w

pub prioritise-order : (w : ℕ) → w < 2 ^ 12 → prioritise w ≡ first_of standard_order w
unfolding prioritise first_of
prioritise-order w low =
    let none_above : truthy (w / 2 ^ 12) ≡ false = ground arith in
    let no_lcofi : truthy (bit_and w (2 ^ 13)) ≡ false =
      truthy-and-pow 13 w ∙ bit_above 12 w 13 low (omega arith) in
    rw
      (
        none_above,
        no_lcofi,
        truthy-and-pow 11 w,
        truthy-and-pow 3 w,
        truthy-and-pow 7 w,
        truthy-and-pow 9 w,
        truthy-and-pow 1 w,
        truthy-and-pow 5 w,
        truthy-and-pow 10 w,
        truthy-and-pow 2 w,
        truthy-and-pow 6 w,
      )
      refl

pub prioritise-above : (w : ℕ) → 2 ^ 12 ≤ w → prioritise w ≡ some (w - w % 2 ^ 12)
unfolding prioritise
prioritise-above w high = ground arith

-- If any interrupt above the machine external one is enabled, LCOFI among them, these are kept and every
-- standard one is dropped; else the choice is the first enabled one of the standard order, and none
-- only if no standard one is enabled.
pub prioritise_lem :
    (w : ℕ)
    → prioritise w ≡ (if leb (2 ^ 12) w then some (w - w % 2 ^ 12) else first_of standard_order w)
prioritise_lem w = elim (Bool-cases (leb (2 ^ 12) w)) [
  | inl above ↦ rw above (prioritise-above w (ground (arith, above)))
  | inr below ↦ rw below (prioritise-order w (ground (arith, below)))
]
