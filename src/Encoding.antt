-- ===== src/Encoding.antt =====
-- riscv/encoding.h: the fields of registers and page-table entries, by the name of their macro.
use nnemu.Base.{ℕ, ◌^◌}

abbrev pub pmp_r : ℕ
pmp_r = 0x01

abbrev pub pmp_w : ℕ
pmp_w = 0x02

abbrev pub pmp_x : ℕ
pmp_x = 0x04

abbrev pub pmp_a : ℕ
pmp_a = 0x18

abbrev pub pmp_l : ℕ
pmp_l = 0x80

abbrev pub pmp_shift : ℕ
pmp_shift = 2

abbrev pub pmp_tor : ℕ
pmp_tor = 0x08

abbrev pub pmp_na4 : ℕ
pmp_na4 = 0x10

abbrev pub pmp_napot : ℕ
pmp_napot = 0x18

abbrev pub mseccfg_mml : ℕ
mseccfg_mml = 0x1

abbrev pub mseccfg_mmwp : ℕ
mseccfg_mmwp = 0x2

abbrev pub mseccfg_rlb : ℕ
mseccfg_rlb = 0x4

abbrev pub prv_m : ℕ
prv_m = 3

abbrev pub prv_s : ℕ
prv_s = 1

abbrev pub pte_v : ℕ
pte_v = 0x001

abbrev pub pte_r : ℕ
pte_r = 0x002

abbrev pub pte_w : ℕ
pte_w = 0x004

abbrev pub pte_x : ℕ
pte_x = 0x008

abbrev pub pte_u : ℕ
pte_u = 0x010

abbrev pub pte_a : ℕ
pte_a = 0x040

abbrev pub pte_d : ℕ
pte_d = 0x080

abbrev pub pte_rsvd : ℕ
pte_rsvd = 0x1FC0000000000000

abbrev pub pte_pbmt : ℕ
pte_pbmt = 0x6000000000000000

abbrev pub pte_n : ℕ
pte_n = 0x8000000000000000

abbrev pub pte_attr : ℕ
pte_attr = 0xFFC0000000000000

abbrev pub pte_ppn_shift : ℕ
pte_ppn_shift = 10

abbrev pub mstatus_sum : ℕ
mstatus_sum = 0x00040000

abbrev pub mstatus_mxr : ℕ
mstatus_mxr = 0x00080000

abbrev pub envcfg_hade : ℕ
envcfg_hade = 0x2000000000000000

abbrev pub envcfg_pbmte : ℕ
envcfg_pbmte = 0x4000000000000000

abbrev pub mstatus_mprv : ℕ
mstatus_mprv = 0x00020000

abbrev pub mstatus_mpv : ℕ
mstatus_mpv = 0x0000008000000000

abbrev pub mnstatus_nmie : ℕ
mnstatus_nmie = 0x00000008

abbrev pub irq_m_ext : ℕ
irq_m_ext = 11

abbrev pub mip_ssip : ℕ
mip_ssip = 2 ^ 1

abbrev pub mip_vssip : ℕ
mip_vssip = 2 ^ 2

abbrev pub mip_msip : ℕ
mip_msip = 2 ^ 3

abbrev pub mip_stip : ℕ
mip_stip = 2 ^ 5

abbrev pub mip_vstip : ℕ
mip_vstip = 2 ^ 6

abbrev pub mip_mtip : ℕ
mip_mtip = 2 ^ 7

abbrev pub mip_seip : ℕ
mip_seip = 2 ^ 9

abbrev pub mip_vseip : ℕ
mip_vseip = 2 ^ 10

abbrev pub mip_meip : ℕ
mip_meip = 2 ^ 11

abbrev pub mip_lcofip : ℕ
mip_lcofip = 2 ^ 13

abbrev pub mstatus_mie : ℕ
mstatus_mie = 0x8

abbrev pub mstatus_sie : ℕ
mstatus_sie = 0x2
