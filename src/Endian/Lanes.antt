-- ===== src/Endian/Lanes.antt =====
-- riscv/devices.h: registers byte by byte.
use native.Mathlib.Nat.{pow-le-pow_right, mod-lt, mod-eq_of_lt, add-mod}
use nnemu.Base.{
  ℕ, suc, ◌+◌, ◌-◌, ◌*◌, ◌/◌, ◌%◌, ◌^◌, ◌≤◌, ◌<◌, ◌≡◌, ◌≢◌, refl, ap, ap₂, ◌∙◌, arith, ◌&&◌, ltb,
  leb, ◌==◌, if◌then◌else◌, List, [], ◌∷◌, bit_and, length, Bool-cases, inl, inr,
}
use nnemu.Base.Bits.{
  bit, bit_not, bit-and, bit-or, bit-not, bit-ones, bit-mod, bit-shift_left, bit-shift_right,
  bit_above, eq_of_bits, bit_or-lt, bit_and-lt, two_pow_add, two_pow_pos, mod-add,
}
use nnemu.Endian.{put_byte, write_little_endian_reg, byte_of, read_little_endian_reg}

byte_fits : (sz k b : ℕ) → k < sz → b < 256 → b * 2 ^ (8 * k) < 2 ^ (8 * sz)
byte_fits sz k b hk hb = grind (arith, two_pow_add 8 (8 * k), two_pow_pos (8 * k), wider)
  where
    wider : 2 ^ (8 + 8 * k) ≤ 2 ^ (8 * sz)
    wider = pow-le-pow_right {n = 2} (omega arith) {i = 8 + 8 * k} {j = 8 * sz} (omega arith)

-- The bits of a word after one byte is put.
bit-put_byte :
    (sz k word b p : ℕ)
    → k < sz
    → b < 256
    → p < 8 * sz
    → bit (put_byte sz k word b) p
      ≡ (if leb (8 * k) p && ltb p (8 * k + 8) then bit b (p - 8 * k) else bit word p)
unfolding put_byte
bit-put_byte sz k word b p hk hb hp = ground (
  arith,
  bit-or (bit_and word (bit_not (8 * sz) (0xff * 2 ^ (8 * k)))) (b * 2 ^ (8 * k)) p,
  bit-and word (bit_not (8 * sz) (0xff * 2 ^ (8 * k))) p,
  bit-not (8 * sz) (0xff * 2 ^ (8 * k)) p (byte_fits sz k 0xff hk (omega arith)) hp,
  bit-shift_left (8 * k) 0xff p,
  bit-shift_left (8 * k) b p,
  bit-ones 8 (p - 8 * k),
  bit_above 8 b (p - 8 * k) hb,
)

put_byte-lt :
    (sz k word b : ℕ) → k < sz → b < 256 → word < 2 ^ (8 * sz) → put_byte sz k word b < 2 ^ (8 * sz)
unfolding put_byte
put_byte-lt sz k word b hk hb hw =
    bit_or-lt (8 * sz) _ _ (bit_and-lt (8 * sz) word _ hw) (byte_fits sz k b hk hb)

bit-byte_of : (word k i : ℕ) → bit (byte_of word k) i ≡ (ltb i 8 && bit word (8 * k + i))
unfolding byte_of
bit-byte_of word k i =
    bit-mod 8 (word / 2 ^ (8 * k)) i
    ∙ ap (λ t. ltb i 8 && t) (bit-shift_right (8 * k) word i (8 * k + i) (omega arith))

byte_of-lt : (word k : ℕ) → byte_of word k < 2 ^ 8
unfolding byte_of
byte_of-lt word k = omega arith

-- A put changes its own byte and no other.
pub byte_of-put_byte :
    (sz k j word b : ℕ)
    → k < sz
    → j < sz
    → b < 256
    → byte_of (put_byte sz k word b) j ≡ (if j == k then b else byte_of word j)
byte_of-put_byte sz k j word b hk hj hb =
    eq_of_bits 8 (byte_of (put_byte sz k word b) j) (if j == k then b else byte_of word j)
      (byte_of-lt _ j) (ground (arith, byte_of-lt word j))
      (λ i. elim (Bool-cases (j == k)) [
        | inl same ↦ rw same (
            ground (
              arith,
              bit-byte_of (put_byte sz k word b) j i,
              bit-put_byte sz k word b (8 * j + i),
              bit_above 8 b i hb,
              ap (bit b) {x = 8 * j + i - 8 * k} {y = i},
            ))
        | inr other ↦ rw other (
            ground (
              arith,
              bit-byte_of (put_byte sz k word b) j i,
              bit-byte_of word j i,
              bit-put_byte sz k word b (8 * j + i),
            ))
      ])

abbrev pub IsBytes : List ℕ → Type 0
IsBytes [] = Unit {0}
IsBytes (b ∷ bs) = (b < 256) × IsBytes bs

-- The positions that an access names are different as long as it fits the register.
apart : (sz addr d : ℕ) → 0 < d → d < sz → (addr + d) % sz ≢ addr % sz
apart sz addr d pos hd e =
    ground (arith, mod-add sz (addr % sz + d), mod-lt addr {m = sz}, mod-mod-add)
  where
    mod-mod-add : (addr + d) % sz ≡ (addr % sz + d) % sz
    mod-mod-add = add-mod addr d sz ∙ ap (λ t. (addr % sz + t) % sz) (mod-eq_of_lt hd)

-- A write leaves a byte that it does not name.
byte_of-write_other :
    (sz word addr k : ℕ) (bs : List ℕ)
    → k < sz
    → IsBytes bs
    → ((i : ℕ) → i < length bs → (addr + i) % sz ≢ k)
    → byte_of (write_little_endian_reg sz word addr bs) k ≡ byte_of word k
unfolding write_little_endian_reg
byte_of-write_other sz word addr k [] hk v away = refl
byte_of-write_other sz word addr k (b ∷ bs) hk v away =
    byte_of-write_other sz (put_byte sz (addr % sz) word b) (addr + 1) k bs hk v.1
      (λ i l e. away (suc i) (omega arith) (ap (λ t. t % sz) (omega arith) ∙ e))
    ∙ byte_of-put_byte sz (addr % sz) k word b (mod-lt addr (omega arith)) hk v.0
    ∙ ground (arith, away 0, ap (λ t. t % sz) {x = addr + 0} {y = addr})

-- Reading back the bytes that a write named gives what was written, if they are bytes and no more
-- than the register has.
pub read-write :
    (sz word addr : ℕ) (bs : List ℕ)
    → 0 < sz
    → length bs ≤ sz
    → IsBytes bs
    → read_little_endian_reg sz (write_little_endian_reg sz word addr bs) addr (length bs) ≡ bs
unfolding read_little_endian_reg write_little_endian_reg
read-write sz word addr [] pos fits v = refl
read-write sz word addr (b ∷ bs) pos fits v =
    ap₂ ◌∷◌
      (byte_of-write_other sz (put_byte sz (addr % sz) word b) (addr + 1) (addr % sz) bs
          (mod-lt addr pos) v.1
          (λ i l e.
            apart sz addr (suc i) (omega arith) (omega arith)
              (ap (λ t. t % sz) {y = addr + 1 + i} (omega arith) ∙ e))
        ∙ byte_of-put_byte sz (addr % sz) (addr % sz) word b (mod-lt addr pos) (mod-lt addr pos) v.0
        ∙ ground arith)
      (read-write sz (put_byte sz (addr % sz) word b) (addr + 1) bs pos (omega arith) v.1)
