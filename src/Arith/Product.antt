-- ===== src/Arith/Product.antt =====
-- The high words of products: `mulhu`, `mulh` and `mulhsu` against the product itself.
use native.Mathlib.Nat.{mul_comm}
use nnemu.Base.{
  ℕ, ◌+◌, ◌-◌, ◌*◌, ◌/◌, ◌%◌, ◌^◌, ◌≤◌, ◌<◌, ◌≡◌, ap, ap₂, sym, ◌∙◌, arith, xor, if◌then◌else◌,
  bit_or, leb, Bool-cases, inl, inr,
}
use nnemu.Base.Bits.{or_fields}
use nnemu.Arith.{mulhu, mulh, mulhsu, u64, negative, neg64, negate_high}

mul_word_le : (x y : ℕ) → x < 2 ^ 32 → y < 2 ^ 32 → x * y ≤ (2 ^ 32 - 1) * (2 ^ 32 - 1)
mul_word_le x y hx hy = grind arith

-- The four partial products make the whole one.
split_product :
    (a b : ℕ)
    → a * b
      ≡ a / 2 ^ 32 * (b / 2 ^ 32) * 2 ^ 64
        + (a / 2 ^ 32 * (b % 2 ^ 32) + a % 2 ^ 32 * (b / 2 ^ 32)) * 2 ^ 32
        + a % 2 ^ 32 * (b % 2 ^ 32)
split_product a b = ap₂ ◌*◌ (parts a) (parts b) ∙ omega arith
  where
    parts : (x : ℕ) → x ≡ x / 2 ^ 32 * 2 ^ 32 + x % 2 ^ 32
    parts x = omega arith

high_word :
    (p00 p01 p10 p11 : ℕ)
    → p00 ≤ (2 ^ 32 - 1) * (2 ^ 32 - 1)
    → p01 ≤ (2 ^ 32 - 1) * (2 ^ 32 - 1)
    → p10 ≤ (2 ^ 32 - 1) * (2 ^ 32 - 1)
    → p11 ≤ (2 ^ 32 - 1) * (2 ^ 32 - 1)
    → let t = (p10 + p00 / 2 ^ 32) % 2 ^ 64 in
      let t' = (p01 + t % 2 ^ 32) % 2 ^ 64 in
      let t'' = (p11 + t / 2 ^ 32 % 2 ^ 32 + t' / 2 ^ 32) % 2 ^ 64 in
      t'' / 2 ^ 32 % 2 ^ 32 * 2 ^ 32 % 2 ^ 64 + t'' % 2 ^ 32
      ≡ (p11 * 2 ^ 64 + (p10 + p01) * 2 ^ 32 + p00) / 2 ^ 64
high_word p00 p01 p10 p11 h00 h01 h10 h11 = omega arith

join_words :
    (hi lo : ℕ) → bit_or (u64 (hi * 2 ^ 32)) (lo % 2 ^ 32) ≡ u64 (hi * 2 ^ 32) + lo % 2 ^ 32
join_words hi lo =
    ap (λ t. bit_or t (lo % 2 ^ 32)) shifted
    ∙ or_fields 32 (hi % 2 ^ 32) (lo % 2 ^ 32) (omega arith)
    ∙ omega arith
  where
    shifted : u64 (hi * 2 ^ 32) ≡ hi % 2 ^ 32 * 2 ^ 32
    shifted = omega arith

-- On 64-bit words, `mulhu` is the high word of the 128-bit product.
pub mulhu_lem : (a b : ℕ) → a < 2 ^ 64 → b < 2 ^ 64 → mulhu a b ≡ a * b / 2 ^ 64
unfolding mulhu
mulhu_lem a b ha hb = rw join_words (
    high_word (a % 2 ^ 32 * (b % 2 ^ 32)) (a % 2 ^ 32 * (b / 2 ^ 32)) (a / 2 ^ 32 * (b % 2 ^ 32))
      (a / 2 ^ 32 * (b / 2 ^ 32)) (mul_word_le _ _ (omega arith) (omega arith))
      (mul_word_le _ _ (omega arith) (omega arith)) (mul_word_le _ _ (omega arith) (omega arith))
      (mul_word_le _ _ (omega arith) (omega arith))
    ∙ ap (λ t. t / 2 ^ 64) (omega (arith, split_product a b)))

negate_high_lem :
    (p q : ℕ)
    → p ≤ 2 ^ 64 * q
    → p < 2 ^ 128
    → negate_high (p / 2 ^ 64) (u64 (2 ^ 64 * q - p)) ≡ (2 ^ 128 * q - p) % 2 ^ 128 / 2 ^ 64
negate_high_lem p q le lt = ground arith

-- A word sign-extended to 128 bits.
abbrev pub sext128 : ℕ → ℕ
sext128 a = if leb (2 ^ 63) a then 2 ^ 128 - 2 ^ 64 + a else a

-- A negative word times one that is not.
neg_pos_high :
    (x a b : ℕ)
    → x + a ≡ 2 ^ 64
    → 0 < x
    → x < 2 ^ 64
    → b < 2 ^ 64
    → negate_high (mulhu x b) (u64 (a * b)) ≡ (2 ^ 128 - 2 ^ 64 + a) * b % 2 ^ 128 / 2 ^ 64
neg_pos_high x a b e pos hx hb =
    ap₂ (λ s t. negate_high s (u64 t)) (mulhu_lem x b hx hb) low
    ∙ negate_high_lem (x * b) b (omega (arith, whole)) (grind arith)
    ∙ ap (λ t. t % 2 ^ 128 / 2 ^ 64) high
  where
    whole : x * b + a * b ≡ 2 ^ 64 * b
    whole = omega (arith, ap (λ t. t * b) e)

    low : a * b ≡ 2 ^ 64 * b - x * b
    low = omega (arith, whole)

    high : 2 ^ 128 * b - x * b ≡ (2 ^ 128 - 2 ^ 64 + a) * b
    high = omega (arith, whole)

-- The product of two negative words is that of their absolute values.
neg_neg_high :
    (x a y b : ℕ)
    → x + a ≡ 2 ^ 64
    → y + b ≡ 2 ^ 64
    → x < 2 ^ 64
    → y < 2 ^ 64
    → mulhu x y ≡ (2 ^ 128 - 2 ^ 64 + a) * (2 ^ 128 - 2 ^ 64 + b) % 2 ^ 128 / 2 ^ 64
neg_neg_high x a y b e f hx hy =
    mulhu_lem x y hx hy ∙ ap (λ t. t / 2 ^ 64) (omega (arith, small, left, right))
  where
    small : x * y < 2 ^ 128
    small = grind arith

    left : x * b + a * b ≡ 2 ^ 64 * b
    left = omega (arith, ap (λ t. t * b) e)

    right : x * y + x * b ≡ 2 ^ 64 * x
    right = omega (arith, ap (λ t. x * t) f)

plain_high : (a b : ℕ) → a < 2 ^ 64 → b < 2 ^ 64 → mulhu a b ≡ a * b % 2 ^ 128 / 2 ^ 64
plain_high a b ha hb = mulhu_lem a b ha hb ∙ ap (λ t. t / 2 ^ 64) (omega (arith, small))
  where
    small : a * b < 2 ^ 128
    small = grind arith

pos_neg_high :
    (x a b : ℕ)
    → x + a ≡ 2 ^ 64
    → 0 < x
    → x < 2 ^ 64
    → b < 2 ^ 64
    → negate_high (mulhu b x) (u64 (b * a)) ≡ b * (2 ^ 128 - 2 ^ 64 + a) % 2 ^ 128 / 2 ^ 64
pos_neg_high x a b e pos hx hb =
    ap₂ (λ s t. negate_high s (u64 t))
      (mulhu_lem b x hb hx ∙ ap (λ t. t / 2 ^ 64) (mul_comm b x) ∙ sym (mulhu_lem x b hx hb))
      (mul_comm b a)
    ∙ neg_pos_high x a b e pos hx hb
    ∙ ap (λ t. t % 2 ^ 128 / 2 ^ 64) (mul_comm (2 ^ 128 - 2 ^ 64 + a) b)

-- On 64-bit words, `mulh` is the high word of the signed product: of the sign-extended words, modulo 2^128.
pub mulh_lem :
    (a b : ℕ) → a < 2 ^ 64 → b < 2 ^ 64 → mulh a b ≡ sext128 a * sext128 b % 2 ^ 128 / 2 ^ 64
unfolding mulh xor
mulh_lem a b ha hb = elim (Bool-cases (negative a)) [
  | inl neg ↦ elim (Bool-cases (negative b)) [
    | inl neg' ↦
        rw (neg, neg')
          (neg_neg_high (neg64 a) a (neg64 b) b (ground arith) (ground arith) (omega arith)
            (omega arith))
    | inr nonneg' ↦
        rw (neg, nonneg')
          (neg_pos_high (neg64 a) a b (ground arith) (ground arith) (omega arith) hb)
  ]
  | inr nonneg ↦ elim (Bool-cases (negative b)) [
    | inl neg' ↦
        rw (nonneg, neg')
          (pos_neg_high (neg64 b) b a (ground arith) (ground arith) (omega arith) ha)
    | inr nonneg' ↦ rw (nonneg, nonneg') (plain_high a b ha hb)
  ]
]

-- On 64-bit words, `mulhsu` is the high word of the product of a signed and an unsigned word.
pub mulhsu_lem : (a b : ℕ) → a < 2 ^ 64 → b < 2 ^ 64 → mulhsu a b ≡ sext128 a * b % 2 ^ 128 / 2 ^ 64
unfolding mulhsu
mulhsu_lem a b ha hb = elim (Bool-cases (negative a)) [
  | inl neg ↦ rw neg (neg_pos_high (neg64 a) a b (ground arith) (ground arith) (omega arith) hb)
  | inr nonneg ↦ rw nonneg (plain_high a b ha hb)
]
