-- ===== src/Arith.antt =====
-- riscv/arith.h: integer helpers on 64-bit words. A word is a number below `2 ^ 64`; a signed word
-- is its bit pattern. Every wrap-around is written out.
pub mod Product
pub mod Saturate
pub mod Trailing
pub mod Leading
pub mod Ones
pub mod Examples
use nnemu.Base.{
  ℕ, zero, suc, ◌+◌, ◌-◌, ◌*◌, ◌/◌, ◌%◌, ◌^◌, Bool, true, false, not, ◌||◌, xor, bit_and, bit_or,
  bit_xor, ltb, leb, ◌==◌, if◌then◌else◌,
}
use nnemu.Base.Bits.{bit, bit_not}

abbrev pub u32 : ℕ → ℕ
u32 x = x % 2 ^ 32

abbrev pub u64 : ℕ → ℕ
u64 x = x % 2 ^ 64

-- The high word of an unsigned product, from four 32-bit products.
pub mulhu : ℕ → ℕ → ℕ
mulhu a b =
    let a0 = u32 a in
    let a1 = a / 2 ^ 32 in
    let b0 = u32 b in
    let b1 = b / 2 ^ 32 in
    let t = u64 (a1 * b0 + (a0 * b0) / 2 ^ 32) in
    let y1 = u32 t in
    let y2 = u32 (t / 2 ^ 32) in
    let t' = u64 (a0 * b1 + y1) in
    let t'' = u64 (a1 * b1 + y2 + t' / 2 ^ 32) in
    let y2' = u32 t'' in let y3 = u32 (t'' / 2 ^ 32) in bit_or (u64 (y3 * 2 ^ 32)) y2'

-- The sign of an `int64_t`.
abbrev pub negative : ℕ → Bool
negative a = leb (2 ^ 63) a

-- `-a` on 64 bits.
abbrev pub neg64 : ℕ → ℕ
neg64 a = u64 (2 ^ 64 - a)

abbrev pub abs64 : ℕ → ℕ
abs64 a = if negative a then neg64 a else a

-- `~res + (product == 0)`.
abbrev pub negate_high : ℕ → ℕ → ℕ
negate_high res product = u64 (bit_not 64 res + (if product == 0 then 1 else 0))

pub mulh : ℕ → ℕ → ℕ
mulh a b =
    let res = mulhu (abs64 a) (abs64 b) in
    if xor (negative a) (negative b) then negate_high res (u64 (a * b)) else res

pub mulhsu : ℕ → ℕ → ℕ
mulhsu a b =
    let res = mulhu (abs64 a) b in if negative a then negate_high res (u64 (a * b)) else res

-- A result with the flag `sat`.
pub record Sat : Type 0 where
  pub res : ℕ
  pub sat : Bool

-- `-(b)` for a Boolean `b`, on `w` bits.
abbrev pub minus : ℕ → Bool → ℕ
minus w b = if b then 2 ^ w - 1 else 0

-- The unsigned saturating operations, on `w` bits.
pub sat_addu : ℕ → ℕ → ℕ → Sat
sat_addu w x y =
    let res = (x + y) % 2 ^ w in
    let sat = ltb res x in record { res = bit_or res (minus w sat); sat = sat }

pub sat_subu : ℕ → ℕ → ℕ → Sat
sat_subu w x y =
    let res = (x + 2 ^ w - y) % 2 ^ w in
    let fits = leb res x in record { res = bit_and res (minus w fits); sat = not fits }

-- The bound that an overflow ends at: the largest value, or for a negative `x` the smallest.
abbrev pub bound : ℕ → ℕ → ℕ
bound w x = (x / 2 ^ (w - 1) + (2 ^ (w - 1) - 1)) % 2 ^ w

-- The signed ones; the test reads the sign bit of the combined words.
pub sat_add : ℕ → ℕ → ℕ → Sat
sat_add w x y =
    let res = (x + y) % 2 ^ w in
    let ux = bound w x in
    if not (bit (bit_or (bit_xor ux y) (bit_not w (bit_xor y res))) (w - 1))
    then record { res = ux; sat = true }
    else record { res = res; sat = false }

pub sat_sub : ℕ → ℕ → ℕ → Sat
sat_sub w x y =
    let res = (x + 2 ^ w - y) % 2 ^ w in
    let ux = bound w x in
    if bit (bit_and (bit_xor ux y) (bit_xor ux res)) (w - 1)
    then record { res = ux; sat = true }
    else record { res = res; sat = false }

-- The sum of three: the second operand to be added is the one whose sign may cancel.
pub sat_add_three : ℕ → ℕ → ℕ → ℕ → Sat
sat_add_three w x y z =
    let swap = bit (bit_and (bit_xor y z) (bit_xor x z)) (w - 1) in
    let a = if swap then z else y in
    let b = if swap then y else z in
    let first = sat_add w x a in
    let second = sat_add w first.res b in record { res = second.res; sat = first.sat || second.sat }

-- `val >> pos` cut to `len` bits.
pub extract64 : ℕ → ℕ → ℕ → ℕ
extract64 val pos len = bit_and (val / 2 ^ pos) ((2 ^ 64 - 1) / 2 ^ (64 - len))

pub make_mask64 : ℕ → ℕ → ℕ
make_mask64 pos len = u64 ((2 ^ 64 - 1) / 2 ^ (64 - len) * 2 ^ pos)

-- What the lines of `ctz` and `clz` share: the word and the count so far.
pub record Scan : Type 0 where
  pub val : ℕ
  pub res : ℕ

-- `if ((val << (64 - k)) == 0) res += k, val >>= k;`
unfoldable pub ctz_step : ℕ → Scan → Scan
ctz_step k s =
    if u64 (s.val * 2 ^ (64 - k)) == 0 then record { val = s.val / 2 ^ k; res = s.res + k } else s

unfoldable pub ctz : ℕ → ℕ
ctz val =
    if val == 0
    then 0
    else (ctz_step 1 (
        ctz_step 2 (
          ctz_step 4 (ctz_step 8 (ctz_step 16 (ctz_step 32 (record { val = val; res = 0 }))))))).res

-- `if ((val >> (64 - k)) == 0) res += k, val <<= k;`
pub clz_step : ℕ → Scan → Scan
clz_step k s =
    if s.val / 2 ^ (64 - k) == 0 then record { val = u64 (s.val * 2 ^ k); res = s.res + k } else s

pub clz : ℕ → ℕ
clz val =
    if val == 0
    then 0
    else (clz_step 1 (
        clz_step 2 (
          clz_step 4 (clz_step 8 (clz_step 16 (clz_step 32 (record { val = val; res = 0 }))))))).res

-- The `while` of `cto`, with fuel.
unfoldable pub cto_loop : ℕ → ℕ → ℕ → ℕ
cto_loop zero val res = res
cto_loop (suc fuel) val res =
    let rest = cto_loop fuel (val / 2) (res + 1) in if bit_and val 1 == 1 then rest else res

-- A word has 64 bits, so the loop stops within 64 rounds.
unfoldable pub cto : ℕ → ℕ
unfolding cto_loop
cto val = cto_loop 65 val 0

pub log2 : ℕ → ℕ
log2 val = if val == 0 then 0 else 63 - clz val

-- One line of `popcount`: neighbouring fields of `k` bits are added.
abbrev pub add_fields : ℕ → ℕ → ℕ → ℕ
add_fields mask k val = u64 (bit_and val mask + bit_and (val / 2 ^ k) mask)

unfoldable pub popcount : ℕ → ℕ
popcount val = add_fields 0x00000000ffffffff 32 (
    add_fields 0x0000ffff0000ffff 16 (
      add_fields 0x00ff00ff00ff00ff 8 (
        add_fields 0x0f0f0f0f0f0f0f0f 4
          (add_fields 0x3333333333333333 2 (add_fields 0x5555555555555555 1 val)))))

-- The loop of `xperm`: `left` fields from bit `i` on. The shift for the mask is defined in C for
-- `sz_log2` below 6.
unfoldable pub xperm_loop : ℕ → ℕ → ℕ → ℕ → ℕ → ℕ → ℕ → ℕ
xperm_loop rs1 rs2 sz_log2 len zero i r = r
xperm_loop rs1 rs2 sz_log2 len (suc left) i r =
    let sz = 2 ^ sz_log2 in
    let mask = 2 ^ sz - 1 in
    let pos = u64 (bit_and (rs2 / 2 ^ i) mask * 2 ^ sz_log2) in
    xperm_loop rs1 rs2 sz_log2 len left (i + sz)
      (if ltb pos len then bit_or r (u64 (bit_and (rs1 / 2 ^ pos) mask * 2 ^ i)) else r)

-- `i` runs in steps of `sz` below `len`.
unfoldable pub xperm : ℕ → ℕ → ℕ → ℕ → ℕ
xperm rs1 rs2 sz_log2 len =
    xperm_loop rs1 rs2 sz_log2 len ((len + 2 ^ sz_log2 - 1) / 2 ^ sz_log2) 0 0
