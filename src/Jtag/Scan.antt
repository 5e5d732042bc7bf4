-- ===== src/Jtag/Scan.antt =====
-- riscv/jtag_dtm.cc: shifting through the data register of the port.
use nnemu.Base.{
  ℕ, zero, suc, ◌+◌, ◌-◌, ◌*◌, ◌/◌, ◌%◌, ◌^◌, ◌≤◌, ◌<◌, ◌≡◌, refl, ap, ap₂, ◌∙◌, arith, Bool, true,
  false, if◌then◌else◌, List, [], ◌∷◌, length, bit_or,
}
use native.Mathlib.Nat.{
  pow-suc, add-mul-div_right, div-eq_of_lt, mod-eq_of_lt, div-div-eq-div-mul, pow-le-pow_right,
}
use nnemu.Base.Bits.{odd, or_fields, bit_or_comm, zero-or, two_pow_pos, two_pow_add}
use nnemu.Jtag.{Jtag, State, next, DebugModule, rise, fall, set_pins}
use nnemu.Jtag.Tap.{clock}

abbrev pub digit : Bool → ℕ
digit b = if b then 1 else 0

-- The number that bits spell, the lowest one first, and the lowest `n` bits of a number.
abbrev pub value : List Bool → ℕ
value [] = 0
value (b ∷ bits) = digit b + 2 * value bits

abbrev pub low_bits : ℕ → ℕ → List Bool
low_bits zero x = []
low_bits (suc n) x = odd x ∷ low_bits n (x / 2)

-- A bit above the lowest `n` does not show there.
low_bits-add : (n k x b : ℕ) → n ≤ k → low_bits n (x + b * 2 ^ k) ≡ low_bits n x
low_bits-add zero k x b h = refl
low_bits-add (suc n) zero x b h = absurd (omega arith)
low_bits-add (suc n) (suc k) x b h =
    let scaled : b * 2 ^ suc k ≡ 2 * (b * 2 ^ k) =
      omega (arith, ap (λ (t : ℕ). b * t) (pow-suc 2 k)) in
    ap₂ ◌∷◌ (ground (arith, scaled)) (
      ap (low_bits n) {x = (x + b * 2 ^ suc k) / 2} {y = x / 2 + b * 2 ^ k} (omega (arith, scaled))
      ∙ low_bits-add n k (x / 2) b (omega arith))

-- The port shifts its data register of `n` bits, which holds `x`.
pub record Shifting (n x : ℕ) (j : Jtag) : Type 0 where
  pub in_shift : j.state ≡ State.shift_dr
  pub wide : j.dr_length ≡ n
  pub word : n ≤ 64
  pub nonempty : 1 ≤ n
  pub holds : j.dr ≡ x
  pub fits : x < 2 ^ n

-- What is shifted in.
abbrev shifted : ℕ → ℕ → Bool → ℕ
shifted n x b = x / 2 + digit b * 2 ^ (n - 1)

shifted-or :
    (n x : ℕ) (b : Bool)
    → 1 ≤ n
    → n ≤ 64
    → x < 2 ^ n
    → (bit_or (x / 2) (digit b * 2 ^ (n - 1) % 2 ^ 64) ≡ shifted n x b) × (shifted n x b < 2 ^ n)
shifted-or n x true pos word fits =
    let inside : 2 ^ (n - 1) < 2 ^ 64 =
      omega (arith, pow-le-pow_right {n = 2} (omega arith) {i = n - 1} {j = 63} (omega arith)) in
    let double : 2 ^ n ≡ 2 * 2 ^ (n - 1) =
      ap (λ t. 2 ^ t) {x = n} {y = suc (n - 1)} (omega arith) ∙ omega (arith, pow-suc 2 (n - 1)) in
    let bound = bit_or_comm (x / 2) (1 * 2 ^ (n - 1)) in
    let fields = or_fields (n - 1) 1 (x / 2) (omega (arith, double)) in
    rw (mod-eq_of_lt {n = 1 * 2 ^ (n - 1)} {m = 2 ^ 64} (omega (arith, inside)))
      (omega (arith, bound, fields), omega (arith, double))
shifted-or n x false pos word fits = (
  ap (bit_or (x / 2)) {x = 0 * 2 ^ (n - 1) % 2 ^ 64} {y = 0} (omega arith)
      ∙ bit_or_comm (x / 2) 0
      ∙ zero-or (x / 2)
      ∙ omega arith,
  omega arith,
)

-- The port after a clock while it shifts.
abbrev clocked : Bool → Jtag → Jtag
clocked b j = record j {
  state = State.shift_dr;
  tck = true;
  tms = false;
  tdi = b;
  tdo = odd j.dr;
  dr = bit_or (j.dr / 2) (digit b * 2 ^ (j.dr_length - 1) % 2 ^ 64);
}

clock-shift :
    {H : Type 0} (dm : DebugModule H) (b : Bool) (j : Jtag) (h : H)
    → j.state ≡ State.shift_dr
    → clock dm false b (j, h) ≡ (clocked b j, h)
unfolding set_pins rise next fall
clock-shift dm b j h s = ap (λ state. clock dm false b (record j { state = state }, h)) s

clocked-Shifting :
    (n x : ℕ) (b : Bool) (j : Jtag) → Shifting n x j → Shifting n (shifted n x b) (clocked b j)
clocked-Shifting n x b j s =
    let port = shifted-or n x b s.nonempty s.word s.fits in
    record {
      in_shift = refl;
      wide = s.wide;
      word = s.word;
      nonempty = s.nonempty;
      holds =
          ap₂ (λ dr len. bit_or (dr / 2) (digit b * 2 ^ (len - 1) % 2 ^ 64)) s.holds s.wide
          ∙ port.0;
      fits = port.1;
    }

shift_sum :
    (k m x v : ℕ) (b : Bool)
    → (x / 2 + digit b * 2 ^ (k + m)) / 2 ^ m + v * 2 ^ suc k
      ≡ x / 2 ^ suc m + (digit b + 2 * v) * 2 ^ k
shift_sum k m x v b =
    let split : digit b * 2 ^ (k + m) ≡ digit b * 2 ^ k * 2 ^ m =
      omega (arith, ap (λ t. digit b * t) (two_pow_add k m)) in
    let whole = ap (λ t. (x / 2 + t) / 2 ^ m) split in
    let out = add-mul-div_right (x / 2) (digit b * 2 ^ k) (two_pow_pos m) in
    let halves = div-div-eq-div-mul x 2 (2 ^ m) in
    let twice = ap (λ t. x / t) {x = 2 * 2 ^ m} {y = 2 ^ suc m} (omega (arith, pow-suc 2 m)) in
    let above = ap (λ t. v * t) (pow-suc 2 k) in omega (arith, whole, out, halves, twice, above)

module _ {H : Type 0} (dm : DebugModule H) where
  -- Clocks with TMS low and the given levels of TDI: where they lead, and what is read on TDO.
  unfoldable pub scan : List Bool → Jtag × H → (Jtag × H) × List Bool
  scan [] y = (y, [])
  scan (b ∷ bits) y =
      let y' = clock dm false b y in let rest = scan bits y' in (rest.0, y'.0.tdo ∷ rest.1)

  scan-general :
      (n x : ℕ) (bits : List Bool) (j : Jtag) (h : H)
      → Shifting n x j
      → length bits ≤ n
      → ((scan bits (j, h)).0.0.dr ≡ x / 2 ^ length bits + value bits * 2 ^ (n - length bits))
        × ((scan bits (j, h)).0.1 ≡ h)
        × ((scan bits (j, h)).1 ≡ low_bits (length bits) x)
  unfolding scan
  scan-general n x [] j h s le = (s.holds ∙ omega arith, refl, refl)
  scan-general n x (b ∷ bits) j h s le =
      let m = length bits in
      let rest =
        scan-general n (shifted n x b) bits (clocked b j) h (clocked-Shifting n x b j s)
          (omega arith) in
      let words =
        ap (λ t. (x / 2 + digit b * 2 ^ t) / 2 ^ m) {x = n - 1} {y = (n - suc m) + m}
          (omega arith) in
      let power = ap (λ t. value bits * 2 ^ t) {x = n - m} {y = suc (n - suc m)} (omega arith) in
      rw (clock-shift dm b j h s.in_shift) (
        omega (arith, rest.0, words, power, shift_sum (n - suc m) m x (value bits) b),
        rest.1,
        ap₂ ◌∷◌ (ap odd s.holds) (rest.2 ∙ low_bits-add m (n - 1) (x / 2) (digit b) (omega arith)),
      )

-- While TMS stays low in the state SHIFT_DR, as many clocks as the data register has bits (at most 64)
-- put the bits from TDI into it, the first one lowest, and bring its old bits out on TDO, the lowest
-- one first; the debug module is left alone.
pub scan-exchange :
    {H : Type 0} (dm : DebugModule H) (n x : ℕ) (bits : List Bool) (j : Jtag) (h : H)
    → Shifting n x j
    → length bits ≡ n
    → ((scan dm bits (j, h)).0.0.dr ≡ value bits)
      × ((scan dm bits (j, h)).0.1 ≡ h)
      × ((scan dm bits (j, h)).1 ≡ low_bits n x)
scan-exchange dm n x bits j h s e =
    let all = scan-general dm n x bits j h s (omega arith) in
    let gone = div-eq_of_lt s.fits in
    let same = ap (λ t. x / 2 ^ t) e in
    let left = ap (λ t. value bits * 2 ^ t) {x = n - length bits} {y = 0} (omega arith) in
    (omega (arith, all.0, gone, same, left), all.1, all.2 ∙ ap (λ m. low_bits m x) e)
