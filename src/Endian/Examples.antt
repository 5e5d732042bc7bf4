-- ===== src/Endian/Examples.antt =====
-- Two bytes in the middle of a word.
use nnemu.Base.{ℕ, ◌≡◌, refl, arith, List, [], ◌∷◌, length}
use nnemu.Endian.{read_little_endian_reg, write_little_endian_reg}
use nnemu.Endian.Lanes.{IsBytes, read-write}

abbrev two_bytes : List ℕ
two_bytes = 0xab ∷ 0xcd ∷ []

middle : write_little_endian_reg 4 0x11223344 0x1001 two_bytes ≡ 0x11cdab44
unfolding write_little_endian_reg
middle = refl

two_bytes-IsBytes : IsBytes two_bytes
two_bytes-IsBytes = (omega arith, (omega arith, tt))

read-write_example :
    read_little_endian_reg 4
      (write_little_endian_reg 4 0x11223344 0x1001 two_bytes)
      0x1001
      (length two_bytes)
    ≡ two_bytes
read-write_example =
    read-write 4 0x11223344 0x1001 two_bytes (omega arith) (omega arith) two_bytes-IsBytes
