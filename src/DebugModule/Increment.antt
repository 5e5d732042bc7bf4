-- ===== src/DebugModule/Increment.antt =====
-- riscv/debug_module.cc: the increment of the address of the system bus.
use nnemu.Base.{
  Bool-cases, List, [], ap, ap₂, arith, inl, inr, not, refl, sym, true, ℕ, ◌%◌, ◌*◌, ◌+◌, ◌/◌, ◌<◌,
  ◌==◌, ◌^◌, ◌||◌, ◌∙◌, ◌∷◌, ◌≡◌, ◌≤◌,
}
use nnemu.DebugModule.{Dm}
use nnemu.DebugModule.Commands.{advance, sb_access_bits, sb_autoincrement}

-- The number that a list of 32-bit words stands for, the low word first.
abbrev pub number_of : List ℕ → ℕ
number_of [] = 0
number_of (word ∷ words) = word + 2 ^ 32 * number_of words

abbrev pub AreWords : List ℕ → Type 0
AreWords [] = Unit
AreWords (word ∷ words) = (word < 2 ^ 32) × AreWords words

advance_zero : (words : List ℕ) → AreWords words → advance 0 words ≡ words
advance_zero [] w = refl
advance_zero (word ∷ words) w =
    ap₂ (λ (x : ℕ) xs. x ∷ xs) {x = (word + 0) % 2 ^ 32} {y = word} (omega (arith, w.0))
      (ap (λ c. advance c words) {x = (word + 0) % 2 ^ 32 / 2 ^ 32} {y = 0} (omega arith)
        ∙ advance_zero words w.1)

advance-number_of :
    (carry word : ℕ) (words : List ℕ)
    → AreWords words
    → number_of (advance carry (word ∷ words)) + (word + carry) / 2 ^ 32 * 2 ^ 32
      ≡ number_of (word ∷ words) + carry
advance-number_of carry word words w = omega (
  arith,
  ap number_of (
      ap (λ c. advance c words) {x = (word + carry) % 2 ^ 32 / 2 ^ 32} {y = 0} (omega arith)
      ∙ advance_zero words w),
)

sb_autoincrement-sbaddress :
    (d : Dm)
    → d.sbcs.autoincrement ≡ true
    → 1 ≤ d.config.max_sba_data_width
    → (sb_autoincrement d).sbaddress ≡ advance (2 ^ d.sbcs.sbaccess) d.sbaddress
unfolding sb_autoincrement sb_access_bits
sb_autoincrement-sbaddress d on wide =
    elim (Bool-cases (not d.sbcs.autoincrement || (d.config.max_sba_data_width == 0))) [
      | inl c ↦ absurd (ground (arith, c, on, wide))
      | inr c ↦ simp c (
          ap (λ n. advance n d.sbaddress) {x = 8 * 2 ^ d.sbcs.sbaccess / 8}
            {y = 2 ^ d.sbcs.sbaccess} (omega arith))
    ]

-- With autoincrement on and a width of the system bus of at least 1, the address of one or more words of 32 bits grows by the bytes of an access, less 2^32 for
-- every carry out of the low word, which is lost.
pub sb_autoincrement-number_of :
    (d : Dm) (word : ℕ) (words : List ℕ)
    → d.sbaddress ≡ word ∷ words
    → AreWords words
    → d.sbcs.autoincrement ≡ true
    → 1 ≤ d.config.max_sba_data_width
    → number_of (sb_autoincrement d).sbaddress + (word + 2 ^ d.sbcs.sbaccess) / 2 ^ 32 * 2 ^ 32
      ≡ number_of d.sbaddress + 2 ^ d.sbcs.sbaccess
sb_autoincrement-number_of d word words e w on wide =
    ap (λ xs. number_of xs + (word + size) / 2 ^ 32 * 2 ^ 32)
      (sb_autoincrement-sbaddress d on wide ∙ ap (advance size) e)
    ∙ advance-number_of size word words w
    ∙ ap (λ xs. number_of xs + size) (sym e)
  where
    size : ℕ
    size = 2 ^ d.sbcs.sbaccess
