-- ===== src/Arith/Saturate.antt =====
-- The saturating additions and subtractions against sums clamped to the range of the type.
use native.Mathlib.Nat.{pow-suc, one-le-pow, div-add-mod', mod-eq_of_lt, mod-lt}
use nnemu.Base.{
  ℕ, suc, ◌+◌, ◌-◌, ◌/◌, ◌%◌, ◌^◌, ◌≤◌, ◌<◌, min, ◌≡◌, ap, ap₂, ◌∙◌, arith, Bool, false, not, ◌⊎◌,
  bit_or, bit_and, bit_xor, leb, ltb, if◌then◌else◌, ◌&&◌, ◌||◌, xor,
}
use nnemu.Base.Bits.{
  bit, bit_not, bit-and, bit-or, bit-not, bit-xor, bit_top, bit_xor-lt, or_and_sum,
  bit_and-le_right, and_mask, mod-add,
}
use nnemu.Arith.{sat_addu, sat_subu, sat_add, sat_sub, sat_add_three, bound}

or-ones : (w r : ℕ) → r < 2 ^ w → bit_or r (2 ^ w - 1) ≡ 2 ^ w - 1
or-ones w r h = omega (arith, or_and_sum r (2 ^ w - 1), and_mask w r, mod-eq_of_lt h)

or-none : (r : ℕ) → bit_or r 0 ≡ r
or-none r = omega (arith, or_and_sum r 0, bit_and-le_right r 0)

and-ones : (w r : ℕ) → r < 2 ^ w → bit_and r (2 ^ w - 1) ≡ r
and-ones w r h = and_mask w r ∙ mod-eq_of_lt h

and-none : (r : ℕ) → bit_and r 0 ≡ 0
and-none r = omega (arith, bit_and-le_right r 0)

-- On words of `w` bits, unsigned addition ends at the largest word; the flag says that the sum did not fit.
pub sat_addu_lem :
    (w x y : ℕ)
    → x < 2 ^ w
    → y < 2 ^ w
    → ((sat_addu w x y).res ≡ min (x + y) (2 ^ w - 1))
      × ((sat_addu w x y).sat ≡ leb (2 ^ w) (x + y))
unfolding sat_addu
sat_addu_lem w x y hx hy =
    ground (arith, mod-add (2 ^ w) (x + y), or-ones w ((x + y) % 2 ^ w), or-none ((x + y) % 2 ^ w))

-- On words of `w` bits, unsigned subtraction ends at 0; the flag says that it would have gone below.
pub sat_subu_lem :
    (w x y : ℕ)
    → x < 2 ^ w
    → y < 2 ^ w
    → ((sat_subu w x y).res ≡ x - y) × ((sat_subu w x y).sat ≡ ltb x y)
unfolding sat_subu
sat_subu_lem w x y hx hy = ground (
  arith,
  mod-add (2 ^ w) (x + 2 ^ w - y),
  and-ones w ((x + 2 ^ w - y) % 2 ^ w),
  and-none ((x + 2 ^ w - y) % 2 ^ w),
)

-- The place of a signed word in the order of its type: the smallest one is 0.
abbrev pub rank : ℕ → ℕ → ℕ
rank n x = if leb (2 ^ n) x then x - 2 ^ n else x + 2 ^ n

quotient_cases : (h x : ℕ) → 0 < h → x < h + h → x / h ≡ (if leb h x then 1 else 0)
quotient_cases h x pos lt = grind (arith, div-add-mod' x h, mod-lt x pos)

bound_cases :
    (n x : ℕ) → x < 2 ^ suc n → bound (suc n) x ≡ (if leb (2 ^ n) x then 2 ^ n else 2 ^ n - 1)
bound_cases n x h = ground (
  arith,
  ap (λ t. 2 ^ t) last,
  quotient_cases (2 ^ n) x,
  one-le-pow n 2 (omega arith),
  pow-suc 2 n,
  mod-add (2 ^ suc n) (2 ^ n),
  mod-add (2 ^ suc n) (2 ^ n - 1),
)
  where
    last : suc n - 1 ≡ n
    last = omega arith

last : (n : ℕ) → suc n - 1 ≡ n
last n = omega arith

xor_sign :
    (n a b : ℕ)
    → a < 2 ^ suc n
    → b < 2 ^ suc n
    → bit (bit_xor a b) n ≡ xor (leb (2 ^ n) a) (leb (2 ^ n) b)
xor_sign n a b ha hb = bit-xor a b n ∙ ap₂ xor (bit_top n a ha) (bit_top n b hb)

-- The test of `sat_add` in terms of the signs.
add_test :
    (n u y r : ℕ)
    → u < 2 ^ suc n
    → y < 2 ^ suc n
    → r < 2 ^ suc n
    → bit (bit_or (bit_xor u y) (bit_not (suc n) (bit_xor y r))) (suc n - 1)
      ≡ (xor (leb (2 ^ n) u) (leb (2 ^ n) y) || not (xor (leb (2 ^ n) y) (leb (2 ^ n) r)))
add_test n u y r hu hy hr =
    ap (bit _) (last n)
    ∙ bit-or _ _ n
    ∙ ap₂ (λ s t. s || t) (xor_sign n u y hu hy)
        (bit-not (suc n) _ n (bit_xor-lt (suc n) y r hy hr) (omega arith)
          ∙ ap not (xor_sign n y r hy hr))

sub_test :
    (n u y r : ℕ)
    → u < 2 ^ suc n
    → y < 2 ^ suc n
    → r < 2 ^ suc n
    → bit (bit_and (bit_xor u y) (bit_xor u r)) (suc n - 1)
      ≡ (xor (leb (2 ^ n) u) (leb (2 ^ n) y) && xor (leb (2 ^ n) u) (leb (2 ^ n) r))
sub_test n u y r hu hy hr =
    ap (bit _) (last n)
    ∙ bit-and _ _ n
    ∙ ap₂ (λ s t. s && t) (xor_sign n u y hu hy) (xor_sign n u r hu hr)

-- Signed addition on words of `n + 1` bits: in ranks, the sum clamped to the range of the type, and
-- the flag says whether it was out of the range.
pub sat_add_lem :
    (n x y : ℕ)
    → x < 2 ^ suc n
    → y < 2 ^ suc n
    → (rank n (sat_add (suc n) x y).res ≡ min (rank n x + rank n y - 2 ^ n) (2 ^ suc n - 1))
      × ((sat_add (suc n) x y).sat
          ≡ (ltb (rank n x + rank n y) (2 ^ n) || leb (2 ^ n + 2 ^ suc n) (rank n x + rank n y)))
unfolding sat_add xor
sat_add_lem n x y hx hy = ground (
  arith,
  pow-suc 2 n,
  one-le-pow n 2 (omega arith),
  bound_cases n x hx,
  mod-add (2 ^ suc n) (x + y),
  add_test n (bound (suc n) x) y ((x + y) % 2 ^ suc n),
)

-- Signed subtraction on words of `n + 1` bits: in ranks, the difference clamped to the range of the
-- type, and the flag says whether it was out of the range.
pub sat_sub_lem :
    (n x y : ℕ)
    → x < 2 ^ suc n
    → y < 2 ^ suc n
    → (rank n (sat_sub (suc n) x y).res ≡ min (rank n x + 2 ^ n - rank n y) (2 ^ suc n - 1))
      × ((sat_sub (suc n) x y).sat
          ≡ (ltb (rank n x + 2 ^ n) (rank n y) || leb (2 ^ suc n + rank n y) (rank n x + 2 ^ n)))
unfolding sat_sub xor
sat_sub_lem n x y hx hy = ground (
  arith,
  pow-suc 2 n,
  one-le-pow n 2 (omega arith),
  bound_cases n x hx,
  mod-add (2 ^ suc n) (x + 2 ^ suc n - y),
  sub_test n (bound (suc n) x) y ((x + 2 ^ suc n - y) % 2 ^ suc n),
)

sat_add-lt : (n x y : ℕ) → x < 2 ^ suc n → y < 2 ^ suc n → (sat_add (suc n) x y).res < 2 ^ suc n
unfolding sat_add
sat_add-lt n x y hx hy =
    ground (arith, pow-suc 2 n, one-le-pow n 2 (omega arith), bound_cases n x hx)

swap_test :
    (n x y z : ℕ)
    → x < 2 ^ suc n
    → y < 2 ^ suc n
    → z < 2 ^ suc n
    → bit (bit_and (bit_xor y z) (bit_xor x z)) (suc n - 1)
      ≡ (xor (leb (2 ^ n) y) (leb (2 ^ n) z) && xor (leb (2 ^ n) x) (leb (2 ^ n) z))
swap_test n x y z hx hy hz =
    ap (bit _) (last n)
    ∙ bit-and _ _ n
    ∙ ap₂ (λ s t. s && t) (xor_sign n y z hy hz) (xor_sign n x z hx hz)

-- In ranks, half the range being `h`: with operands in a good order, clamping twice clamps once.
abbrev WellOrdered : ℕ → ℕ → ℕ → ℕ → Type 0
WellOrdered h p q r = ((h ≤ p) ⊎ (h ≤ q) ⊎ (r < h)) × ((p < h) ⊎ (q < h) ⊎ (h ≤ r))

clamp_chain :
    (h p q r : ℕ)
    → p < h + h
    → q < h + h
    → r < h + h
    → WellOrdered h p q r
    → min (min (p + q - h) (h + h - 1) + r - h) (h + h - 1) ≡ min (p + q + r - (h + h)) (h + h - 1)
clamp_chain h p q r hp hq hr ok_order = omega arith

clamp_chain_flag :
    (h p q r : ℕ)
    → p < h + h
    → q < h + h
    → r < h + h
    → WellOrdered h p q r
    → let m = min (p + q - h) (h + h - 1) in
      ((ltb (p + q) h || leb (h + (h + h)) (p + q)) || (ltb (m + r) h || leb (h + (h + h)) (m + r)))
      ≡ (ltb (p + q + r) (h + h) || leb (h + h + (h + h)) (p + q + r))
clamp_chain_flag h p q r hp hq hr ok_order = ground arith

rank-lt : (n x : ℕ) → x < 2 ^ suc n → rank n x < 2 ^ n + 2 ^ n
rank-lt n x h = ground (arith, pow-suc 2 n)

-- The same of the results of two calls.
chain_results :
    (h w p q r m t : ℕ) (f g : Bool)
    → w ≡ h + h
    → p < h + h
    → q < h + h
    → r < h + h
    → WellOrdered h p q r
    → (m ≡ min (p + q - h) (w - 1)) × (f ≡ (ltb (p + q) h || leb (h + w) (p + q)))
    → (t ≡ min (m + r - h) (w - 1)) × (g ≡ (ltb (m + r) h || leb (h + w) (m + r)))
    → (t ≡ min (p + q + r - w) (w - 1))
      × ((f || g) ≡ (ltb (p + q + r) w || leb (w + w) (p + q + r)))
chain_results h w p q r m t f g e hp hq hr ok_order first second =
    rw (second.1, first.1, second.0, first.0, e)
      (clamp_chain h p q r hp hq hr ok_order, clamp_chain_flag h p q r hp hq hr ok_order)

chain_ranks :
    (n x a b : ℕ)
    → x < 2 ^ suc n
    → a < 2 ^ suc n
    → b < 2 ^ suc n
    → WellOrdered (2 ^ n) (rank n x) (rank n a) (rank n b)
    → let first = sat_add (suc n) x a in
      let second = sat_add (suc n) first.res b in
      (rank n second.res ≡ min (rank n x + rank n a + rank n b - 2 ^ suc n) (2 ^ suc n - 1))
      × ((first.sat || second.sat) ≡ (
          ltb (rank n x + rank n a + rank n b) (2 ^ suc n)
          || leb (2 ^ suc n + 2 ^ suc n) (rank n x + rank n a + rank n b)))
chain_ranks n x a b hx ha hb ok_order =
    chain_results (2 ^ n) (2 ^ suc n) (rank n x) (rank n a) (rank n b) _ _ _ _
      (omega (arith, pow-suc 2 n)) (rank-lt n x hx) (rank-lt n a ha) (rank-lt n b hb) ok_order
      (sat_add_lem n x a hx ha)
      (sat_add_lem n (sat_add (suc n) x a).res b (sat_add-lt n x a hx ha) hb)

chain_clamps :
    (n x a b : ℕ)
    → x < 2 ^ suc n
    → a < 2 ^ suc n
    → b < 2 ^ suc n
    → (xor (leb (2 ^ n) a) (leb (2 ^ n) b) && not (xor (leb (2 ^ n) x) (leb (2 ^ n) a))) ≡ false
    → let first = sat_add (suc n) x a in
      let second = sat_add (suc n) first.res b in
      (rank n second.res ≡ min (rank n x + rank n a + rank n b - 2 ^ suc n) (2 ^ suc n - 1))
      × ((first.sat || second.sat) ≡ (
          ltb (rank n x + rank n a + rank n b) (2 ^ suc n)
          || leb (2 ^ suc n + 2 ^ suc n) (rank n x + rank n a + rank n b)))
unfolding xor
chain_clamps n x a b hx ha hb ok_order = chain_ranks n x a b hx ha hb (ground (arith, pow-suc 2 n))

-- On words of `n + 1` bits, the sum of three is clamped as a whole, whichever operands come first,
-- and the flag says whether it was out of the range.
pub sat_add_three_lem :
    (n x y z : ℕ)
    → x < 2 ^ suc n
    → y < 2 ^ suc n
    → z < 2 ^ suc n
    → (rank n (sat_add_three (suc n) x y z).res
        ≡ min (rank n x + rank n y + rank n z - 2 ^ suc n) (2 ^ suc n - 1))
      × ((sat_add_three (suc n) x y z).sat ≡ (
          ltb (rank n x + rank n y + rank n z) (2 ^ suc n)
          || leb (2 ^ suc n + 2 ^ suc n) (rank n x + rank n y + rank n z)))
unfolding sat_add_three xor
sat_add_three_lem n x y z hx hy hz = ground (
  arith,
  swap_test n x y z hx hy hz,
  chain_clamps n x y z hx hy hz,
  chain_clamps n x z y hx hz hy,
)
