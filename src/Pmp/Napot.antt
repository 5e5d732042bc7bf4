-- ===== src/Pmp/Napot.antt =====
-- A naturally aligned region of the protection: which addresses an entry in this mode matches.
use nnemu.Encoding.{pmp_napot}
use nnemu.Base.{
  ℕ, suc, ◌+◌, ◌-◌, ◌*◌, ◌/◌, ◌%◌, ◌^◌, ◌≤◌, ◌<◌, ◌≡◌, refl, ap, ◌∙◌, arith, ◌==◌, Bool-cases, inl,
  inr, bit_and, bit_or, bit_xor,
}
use native.Mathlib.Nat.{pow-suc, add-mul-div_right, div-eq_of_lt, div-le_self, div-add-mod'}
use nnemu.Base.Bits.{
  bit_not, and_successor, xor-shift, xor-eq, and_not_sum, and_not_mask, and_mask, or_fields,
  or_and_sum, bit_and-le_right, two_pow_pos, bit_xor-lt,
}
use nnemu.Pmp.{Pmp, mode_of, match4, tor_paddr, napot_mask}

-- What an entry in this mode holds: the base of the region, then a zero and `k` ones.
pub record IsNapot (p : Pmp) (i b k : ℕ) : Type 0 where
  pub napot : mode_of p i ≡ pmp_napot
  pub finest : p.lg_pmp_granularity ≡ 2
  pub holds : p.addr i ≡ b * 2 ^ suc k + (2 ^ k - 1)
  pub fits : p.addr i < 2 ^ 54

or_none : (x : ℕ) → bit_or x 0 ≡ x
or_none x = omega (arith, or_and_sum x 0, bit_and-le_right x 0)

-- `2 * addr + 1`, and the ones at its end.
mask_lem :
    (a : ℕ) → a < 2 ^ 54 → bit_or (bit_or (a * 2 % 2 ^ 64) 1) (bit_not 64 (2 ^ 64 - 1)) ≡ a * 2 + 1
mask_lem a h =
    or_none (bit_or (a * 2 % 2 ^ 64) 1)
    ∙ ap (λ t. bit_or t 1) {x = a * 2 % 2 ^ 64} {y = a * 2 ^ 1} (omega arith)
    ∙ or_fields 1 a 1 (omega arith)
    ∙ omega arith

ones_lem :
    (b k : ℕ)
    → b * 2 ^ suc k + 2 ^ k < 2 ^ 64
    → let mask = b * 2 ^ suc k + (2 ^ k - 1) in bit_and mask (bit_not 64 (mask + 1)) ≡ 2 ^ k - 1
ones_lem b k h =
    let low = b * 2 ^ suc k + (2 ^ k - 1) in
    let next : low + 1 ≡ b * 2 ^ suc k + 2 ^ k = omega (arith, two_pow_pos k) in
    omega (
      arith,
      ap (λ t. bit_and low t) next,
      and_successor b k h,
      and_not_sum 64 low (low + 1) (omega arith) (omega (arith, two_pow_pos k)),
    )

-- The size of the region in the state, with the powers of two in terms of one.
sizes :
    (k : ℕ)
    → (2 ^ suc k ≡ 2 * 2 ^ k) × (2 ^ suc (suc k) ≡ 4 * 2 ^ k) × (2 ^ suc (suc (suc k)) ≡ 8 * 2 ^ k)
sizes k = omega (arith, pow-suc 2 k, pow-suc 2 (suc k), pow-suc 2 (suc (suc k)))

scaled : (b k : ℕ) → (b * 2 ^ suc k ≡ 2 * (b * 2 ^ k)) × (b * 2 ^ suc (suc k) ≡ 4 * (b * 2 ^ k))
scaled b k =
    omega (arith, ap (λ (t : ℕ). b * t) (pow-suc 2 k), ap (λ (t : ℕ). b * t) (pow-suc 2 (suc k)))

-- A region fits the address space.
small_size : (p : Pmp) (i b k : ℕ) → IsNapot p i b k → 2 ^ k ≤ 2 ^ 54
small_size p i b k v = omega (arith, v.holds, v.fits, two_pow_pos k)

napot_mask_lem :
    (p : Pmp) (i b k : ℕ)
    → IsNapot p i b k
    → napot_mask p i ≡ bit_not 64 (2 ^ suc (suc (suc k)) - 1)
unfolding napot_mask
napot_mask_lem p i b k v =
    rw (v.napot, v.finest, mask_lem (p.addr i) v.fits)
      (ap (λ t. bit_not 64 t * 2 ^ 2 % 2 ^ 64) low_ones
        ∙ omega (arith, sizes k, two_pow_pos k, small_size p i b k v))
  where
    odd_mask : p.addr i * 2 + 1 ≡ b * 2 ^ suc (suc k) + (2 ^ suc k - 1)
    odd_mask = omega (arith, v.holds, scaled b k, sizes k, two_pow_pos k)

    low_ones :
        bit_and (p.addr i * 2 + 1) (bit_not 64 ((p.addr i * 2 + 1 + 1) % 2 ^ 64)) ≡ 2 ^ suc k - 1
    low_ones =
        ap (λ t. bit_and (p.addr i * 2 + 1) (bit_not 64 t)) {x = (p.addr i * 2 + 1 + 1) % 2 ^ 64}
          {y = p.addr i * 2 + 1 + 1} (omega (arith, v.fits))
        ∙ ap (λ t. bit_and t (bit_not 64 (t + 1))) odd_mask
        ∙ ones_lem b (suc k) (omega (arith, v.fits, v.holds, scaled b k, sizes k, two_pow_pos k))

tor_paddr_lem :
    (p : Pmp) (i b k : ℕ)
    → IsNapot p i b k
    → tor_paddr p i ≡ (4 * 2 ^ k - 4) + b * 2 ^ suc (suc (suc k))
unfolding tor_paddr
tor_paddr_lem p i b k v =
    rw (v.finest, and_mask 64 (p.addr i))
      (omega (arith, v.fits, v.holds, scaled b k, scaled b (suc k), sizes k, two_pow_pos k))

base_of : (b k : ℕ) → ((4 * 2 ^ k - 4) + b * 2 ^ suc (suc (suc k))) / 2 ^ suc (suc (suc k)) ≡ b
base_of b k =
    add-mul-div_right (4 * 2 ^ k - 4) b (two_pow_pos (suc (suc (suc k))))
    ∙ ap (λ t. t + b) (div-eq_of_lt (omega (arith, sizes k, two_pow_pos k)))
    ∙ omega arith

le_times : (q m : ℕ) → 1 ≤ q → m ≤ q * m
le_times q m h = grind arith

quotient_zero : (x m : ℕ) → 1 ≤ m → (x - x % m == 0) ≡ (x / m == 0)
quotient_zero x m pos = elim (Bool-cases (x / m == 0)) [
  | inl e ↦
      ground
        (arith, e, div-add-mod' x m, ap (λ (q : ℕ). q * m) {x = x / m} {y = 0} (ground (arith, e)))
  | inr e ↦ ground (arith, e, div-add-mod' x m, le_times (x / m) m (ground (arith, e)))
]

-- With the finest granularity, of 4 bytes, an entry in the mode NAPOT whose address, of at most 54 bits, ends in a zero and `k` ones
-- matches exactly the addresses of one aligned region of `2 ^ (k + 3)` bytes, the one that the bits
-- above name.
pub match4-napot :
    (p : Pmp) (i b k a : ℕ)
    → IsNapot p i b k
    → a < 2 ^ 64
    → match4 p i a ≡ (a / 2 ^ suc (suc (suc k)) == b)
unfolding match4
match4-napot p i b k a v h =
    rw (v.napot, napot_mask_lem p i b k v, aligned)
      (rw
        (
          quotient_zero (bit_xor a t) (2 ^ n) (two_pow_pos n),
          xor-shift n a t h small,
          xor-eq (a / 2 ^ n) (t / 2 ^ n) (omega (arith, div-le_self a (2 ^ n)))
              (omega (arith, div-le_self t (2 ^ n), small)),
          base,
        )
        refl)
  where
    t : ℕ
    t = tor_paddr p i

    n : ℕ
    n = suc (suc (suc k))

    small : t < 2 ^ 64
    small = omega (
      arith,
      tor_paddr_lem p i b k v,
      v.fits,
      v.holds,
      scaled b k,
      scaled b (suc k),
      sizes k,
      two_pow_pos k,
    )

    base : t / 2 ^ n ≡ b
    base = ap (λ x. x / 2 ^ n) (tor_paddr_lem p i b k v) ∙ base_of b k

    aligned : bit_and (bit_xor a t) (bit_not 64 (2 ^ n - 1)) ≡ bit_xor a t - bit_xor a t % 2 ^ n
    aligned =
        and_not_mask 64 n (bit_xor a t) (bit_xor-lt 64 a t h small)
          (omega (arith, sizes k, small_size p i b k v))
