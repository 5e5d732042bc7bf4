-- ===== src/Decode.antt =====
-- riscv/decode.h: the macros get_field and set_field, on 64-bit words.
pub mod Laws
use nnemu.Base.{ℕ, ◌*◌, ◌/◌, ◌%◌, ◌^◌, bit_and, bit_or}
use nnemu.Base.Bits.{bit_not}

-- The lowest bit of a mask of neighbouring bits.
abbrev pub lowest_of : ℕ → ℕ
lowest_of mask = bit_and mask (bit_not 64 (mask * 2 % 2 ^ 64))

abbrev pub get_field : ℕ → ℕ → ℕ
get_field reg mask = bit_and reg mask / lowest_of mask

abbrev pub set_field : ℕ → ℕ → ℕ → ℕ
set_field reg mask val =
    bit_or (bit_and reg (bit_not 64 mask)) (bit_and (val * lowest_of mask % 2 ^ 64) mask)
