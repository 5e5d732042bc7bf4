-- ===== src/Arith/Examples.antt =====
-- riscv/arith.h at concrete words.
use nnemu.Base.{ℕ, ◌-◌, ◌*◌, ◌/◌, ◌^◌, ◌≡◌, refl, arith}
use nnemu.Arith.{mulhu}
use nnemu.Arith.Product.{mulhu_lem}

-- The word of all ones, and some others.
abbrev ones : ℕ
ones = 2 ^ 64 - 1

mulhu_ones : mulhu (2 ^ 64 - 1) (2 ^ 64 - 1) ≡ 2 ^ 64 - 2
unfolding mulhu
mulhu_ones = refl

mulhu_lem_example : mulhu ones ones ≡ ones * ones / 2 ^ 64
mulhu_lem_example = mulhu_lem ones ones (omega arith) (omega arith)
