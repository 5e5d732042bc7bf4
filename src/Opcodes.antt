-- ===== src/Opcodes.antt =====
-- riscv/opcodes.h: the instructions that the debug module writes for a hart.
use nnemu.Base.{bit_or, ℕ, ◌%◌, ◌*◌, ◌+◌, ◌-◌, ◌/◌, ◌^◌}

abbrev pub match_jal : ℕ
match_jal = 0x6f

abbrev pub match_sw : ℕ
match_sw = 0x2023

abbrev pub match_sd : ℕ
match_sd = 0x3023

abbrev pub match_ld : ℕ
match_ld = 0x3003

abbrev pub match_lw : ℕ
match_lw = 0x2003

abbrev pub match_csrrw : ℕ
match_csrrw = 0x1073

abbrev pub match_csrrs : ℕ
match_csrrs = 0x2073

abbrev pub match_fsw : ℕ
match_fsw = 0x2027

abbrev pub match_fsd : ℕ
match_fsd = 0x3027

abbrev pub match_flw : ℕ
match_flw = 0x2007

abbrev pub match_fld : ℕ
match_fld = 0x3007

abbrev pub match_ebreak : ℕ
match_ebreak = 0x100073

abbrev pub match_lui : ℕ
match_lui = 0x37

abbrev pub zero_reg : ℕ
zero_reg = 0

abbrev pub s0 : ℕ
s0 = 8

-- The field of `value` from bit `lo` to bit `hi`.
unfoldable pub bits : ℕ → ℕ → ℕ → ℕ
bits value hi lo = value / 2 ^ lo % 2 ^ (hi + 1 - lo)

-- `x << k` of a 32-bit word.
abbrev pub shl : ℕ → ℕ → ℕ
shl x k = x * 2 ^ k % 2 ^ 32

unfoldable pub jal : ℕ → ℕ → ℕ
unfolding bits
jal rd imm = bit_or (shl (bits imm 20 20) 31) (
    bit_or (shl (bits imm 10 1) 21) (
      bit_or (shl (bits imm 11 11) 20)
        (bit_or (shl (bits imm 19 12) 12) (bit_or (shl rd 7) match_jal))))

-- The stores differ in their opcode, and so do the loads.
abbrev pub store_insn : ℕ → ℕ → ℕ → ℕ → ℕ
store_insn op src base offset =
    bit_or (shl (bits offset 11 5) 25)
      (bit_or (shl src 20) (bit_or (shl base 15) (bit_or (shl (bits offset 4 0) 7) op)))

abbrev pub load_insn : ℕ → ℕ → ℕ → ℕ → ℕ
load_insn op rd base offset =
    bit_or (shl (bits offset 11 0) 20) (bit_or (shl base 15) (bit_or (shl (bits rd 4 0) 7) op))

abbrev pub sw : ℕ → ℕ → ℕ → ℕ
sw = store_insn match_sw

abbrev pub sd : ℕ → ℕ → ℕ → ℕ
sd = store_insn match_sd

abbrev pub fsw : ℕ → ℕ → ℕ → ℕ
fsw src = store_insn match_fsw (bits src 4 0)

abbrev pub fsd : ℕ → ℕ → ℕ → ℕ
fsd src = store_insn match_fsd (bits src 4 0)

abbrev pub lw : ℕ → ℕ → ℕ → ℕ
lw = load_insn match_lw

abbrev pub ld : ℕ → ℕ → ℕ → ℕ
ld = load_insn match_ld

abbrev pub flw : ℕ → ℕ → ℕ → ℕ
flw = load_insn match_flw

abbrev pub fld : ℕ → ℕ → ℕ → ℕ
fld = load_insn match_fld

abbrev pub csrw : ℕ → ℕ → ℕ
csrw source csr = bit_or (shl csr 20) (bit_or (shl source 15) match_csrrw)

abbrev pub csrr : ℕ → ℕ → ℕ
csrr rd csr = bit_or (shl csr 20) (bit_or (shl rd 7) match_csrrs)

abbrev pub csrrs : ℕ → ℕ → ℕ → ℕ
csrrs rd rs1 csr = bit_or (shl csr 20) (bit_or (shl rs1 15) (bit_or (shl rd 7) match_csrrs))

abbrev pub ebreak : ℕ
ebreak = match_ebreak

abbrev pub lui : ℕ → ℕ → ℕ
lui dest imm = bit_or (shl (bits imm 19 0) 12) (bit_or (shl dest 7) match_lui)
