-- ===== src/Rom.antt =====
-- riscv/rom.cc and `rom_device_t` of riscv/devices.h: a read-only memory. The test of the range adds
-- on 64 bits; bytes past the end of the data, which an address near the top of the range would then
-- reach, are left out of the result.
use nnemu.Base.{
  ℕ, ◌+◌, ◌%◌, ◌^◌, Bool, false, ltb, if◌then◌else◌, Option, none, some, List, take, drop, length,
}

unfoldable pub load : List ℕ → ℕ → ℕ → Option (List ℕ)
load contents addr len =
    if ltb (length contents) ((addr + len) % 2 ^ 64)
    then none
    else some (take len (drop addr contents))

unfoldable pub store : List ℕ → ℕ → List ℕ → List ℕ × Bool
store contents addr bytes = (contents, false)
