-- ===== src/Endian.antt =====
-- riscv/devices.h: `write_little_endian_reg` and `read_little_endian_reg`, which access some bytes of
-- a register of `sz` bytes, and how the words of the devices use them.
pub mod Lanes
pub mod Examples
use nnemu.Base.{ℕ, zero, suc, ◌+◌, ◌-◌, ◌*◌, ◌/◌, ◌%◌, ◌^◌, List, [], ◌∷◌, bit_and, bit_or}
use nnemu.Base.Bits.{bit_not}

-- One round of the write: byte `k` of the word is cleared and set.
unfoldable pub put_byte : ℕ → ℕ → ℕ → ℕ → ℕ
put_byte sz k word b =
    bit_or (bit_and word (bit_not (8 * sz) (0xff * 2 ^ (8 * k)))) (b * 2 ^ (8 * k))

unfoldable pub write_little_endian_reg : ℕ → ℕ → ℕ → List ℕ → ℕ
unfolding put_byte
write_little_endian_reg sz word addr [] = word
write_little_endian_reg sz word addr (b ∷ bytes) =
    write_little_endian_reg sz (put_byte sz (addr % sz) word b) (addr + 1) bytes

-- The `uint8_t` that one round of the read stores.
pub byte_of : ℕ → ℕ → ℕ
byte_of word k = word / 2 ^ (8 * k) % 256

pub read_little_endian_reg : ℕ → ℕ → ℕ → ℕ → List ℕ
unfolding byte_of
read_little_endian_reg sz word addr zero = []
read_little_endian_reg sz word addr (suc len) =
    byte_of word (addr % sz) ∷ read_little_endian_reg sz word (addr + 1) len
