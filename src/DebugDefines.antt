-- ===== src/DebugDefines.antt =====
-- riscv/debug_defines.h, riscv/encoding.h: the fields of the trigger registers, by the name of their
-- macro. A field is its mask; one that depends on the width of a register is a function of it.
use nnemu.Base.{ℕ, ◌-◌, ◌*◌, ◌^◌}

abbrev pub csr_etrigger_action : ℕ
csr_etrigger_action = 0x3f

abbrev pub csr_etrigger_dmode : ℕ → ℕ
csr_etrigger_dmode xlen = 2 ^ (xlen - 5)

abbrev pub csr_etrigger_hit : ℕ → ℕ
csr_etrigger_hit xlen = 2 ^ (xlen - 6)

abbrev pub csr_etrigger_m : ℕ
csr_etrigger_m = 0x200

abbrev pub csr_etrigger_s : ℕ
csr_etrigger_s = 0x80

abbrev pub csr_etrigger_type : ℕ → ℕ
csr_etrigger_type xlen = 0xf * 2 ^ (xlen - 4)

abbrev pub csr_etrigger_u : ℕ
csr_etrigger_u = 0x40

abbrev pub csr_etrigger_vs : ℕ
csr_etrigger_vs = 0x1000

abbrev pub csr_etrigger_vu : ℕ
csr_etrigger_vu = 0x800

abbrev pub csr_icount_action : ℕ
csr_icount_action = 0x3f

abbrev pub csr_icount_count : ℕ
csr_icount_count = 0xfffc00

abbrev pub csr_icount_dmode : ℕ → ℕ
csr_icount_dmode xlen = 2 ^ (xlen - 5)

abbrev pub csr_icount_hit : ℕ
csr_icount_hit = 0x1000000

abbrev pub csr_icount_m : ℕ
csr_icount_m = 0x200

abbrev pub csr_icount_pending : ℕ
csr_icount_pending = 0x100

abbrev pub csr_icount_s : ℕ
csr_icount_s = 0x80

abbrev pub csr_icount_type : ℕ → ℕ
csr_icount_type xlen = 0xf * 2 ^ (xlen - 4)

abbrev pub csr_icount_u : ℕ
csr_icount_u = 0x40

abbrev pub csr_icount_vs : ℕ
csr_icount_vs = 0x4000000

abbrev pub csr_icount_vu : ℕ
csr_icount_vu = 0x2000000

abbrev pub csr_itrigger_action : ℕ
csr_itrigger_action = 0x3f

abbrev pub csr_itrigger_dmode : ℕ → ℕ
csr_itrigger_dmode xlen = 2 ^ (xlen - 5)

abbrev pub csr_itrigger_hit : ℕ → ℕ
csr_itrigger_hit xlen = 2 ^ (xlen - 6)

abbrev pub csr_itrigger_m : ℕ
csr_itrigger_m = 0x200

abbrev pub csr_itrigger_nmi : ℕ
csr_itrigger_nmi = 0x400

abbrev pub csr_itrigger_s : ℕ
csr_itrigger_s = 0x80

abbrev pub csr_itrigger_type : ℕ → ℕ
csr_itrigger_type xlen = 0xf * 2 ^ (xlen - 4)

abbrev pub csr_itrigger_u : ℕ
csr_itrigger_u = 0x40

abbrev pub csr_itrigger_vs : ℕ
csr_itrigger_vs = 0x1000

abbrev pub csr_itrigger_vu : ℕ
csr_itrigger_vu = 0x800

abbrev pub csr_mcontrol6_action : ℕ
csr_mcontrol6_action = 0xf000

abbrev pub csr_mcontrol6_chain : ℕ
csr_mcontrol6_chain = 0x800

abbrev pub csr_mcontrol6_dmode : ℕ → ℕ
csr_mcontrol6_dmode xlen = 2 ^ (xlen - 5)

abbrev pub csr_mcontrol6_execute : ℕ
csr_mcontrol6_execute = 4

abbrev pub csr_mcontrol6_hit : ℕ
csr_mcontrol6_hit = 0x400000

abbrev pub csr_mcontrol6_load : ℕ
csr_mcontrol6_load = 1

abbrev pub csr_mcontrol6_m : ℕ
csr_mcontrol6_m = 0x40

abbrev pub csr_mcontrol6_match : ℕ
csr_mcontrol6_match = 0x780

abbrev pub csr_mcontrol6_s : ℕ
csr_mcontrol6_s = 0x10

abbrev pub csr_mcontrol6_select : ℕ
csr_mcontrol6_select = 0x200000

abbrev pub csr_mcontrol6_store : ℕ
csr_mcontrol6_store = 2

abbrev pub csr_mcontrol6_timing : ℕ
csr_mcontrol6_timing = 0x100000

abbrev pub csr_mcontrol6_type : ℕ → ℕ
csr_mcontrol6_type xlen = 0xf * 2 ^ (xlen - 4)

abbrev pub csr_mcontrol6_u : ℕ
csr_mcontrol6_u = 8

abbrev pub csr_mcontrol6_vs : ℕ
csr_mcontrol6_vs = 0x1000000

abbrev pub csr_mcontrol6_vu : ℕ
csr_mcontrol6_vu = 0x800000

abbrev pub csr_mcontrol_dmode : ℕ → ℕ
csr_mcontrol_dmode xlen = 2 ^ (xlen - 5)

abbrev pub csr_mcontrol_hit : ℕ
csr_mcontrol_hit = 0x100000

abbrev pub csr_mcontrol_s : ℕ
csr_mcontrol_s = 0x10

abbrev pub csr_mcontrol_type : ℕ → ℕ
csr_mcontrol_type xlen = 0xf * 2 ^ (xlen - 4)

abbrev pub csr_mcontrol_u : ℕ
csr_mcontrol_u = 8

abbrev pub csr_tdata1_dmode : ℕ → ℕ
csr_tdata1_dmode xlen = 2 ^ (xlen - 5)

abbrev pub csr_tdata1_type : ℕ → ℕ
csr_tdata1_type xlen = 0xf * 2 ^ (xlen - 4)

abbrev pub csr_tdata1_type_disabled : ℕ
csr_tdata1_type_disabled = 15

abbrev pub csr_tdata1_type_etrigger : ℕ
csr_tdata1_type_etrigger = 5

abbrev pub csr_tdata1_type_icount : ℕ
csr_tdata1_type_icount = 3

abbrev pub csr_tdata1_type_itrigger : ℕ
csr_tdata1_type_itrigger = 4

abbrev pub csr_tdata1_type_mcontrol : ℕ
csr_tdata1_type_mcontrol = 2

abbrev pub csr_tdata1_type_mcontrol6 : ℕ
csr_tdata1_type_mcontrol6 = 6

abbrev pub csr_textra32_mhselect : ℕ
csr_textra32_mhselect = 0x3800000

abbrev pub csr_textra32_mhvalue : ℕ
csr_textra32_mhvalue = 0xfc000000

abbrev pub csr_textra32_mhvalue_length : ℕ
csr_textra32_mhvalue_length = 6

abbrev pub csr_textra32_sbytemask : ℕ
csr_textra32_sbytemask = 0xc0000

abbrev pub csr_textra32_sselect : ℕ
csr_textra32_sselect = 3

abbrev pub csr_textra32_svalue : ℕ
csr_textra32_svalue = 0x3fffc

abbrev pub csr_textra32_svalue_length : ℕ
csr_textra32_svalue_length = 0x10

abbrev pub csr_textra64_mhselect : ℕ
csr_textra64_mhselect = 0x7000000000000

abbrev pub csr_textra64_mhvalue : ℕ
csr_textra64_mhvalue = 0xfff8000000000000

abbrev pub csr_textra64_mhvalue_length : ℕ
csr_textra64_mhvalue_length = 0xd

abbrev pub csr_textra64_sbytemask : ℕ
csr_textra64_sbytemask = 0x1f000000000

abbrev pub csr_textra64_sselect : ℕ
csr_textra64_sselect = 3

abbrev pub csr_textra64_svalue : ℕ
csr_textra64_svalue = 0xffffffffc

abbrev pub csr_textra64_svalue_length : ℕ
csr_textra64_svalue_length = 0x22

abbrev pub mcontrol_action : ℕ
mcontrol_action = 0x3f * 2 ^ 12

abbrev pub mcontrol_action_debug_mode : ℕ
mcontrol_action_debug_mode = 1

abbrev pub mcontrol_action_trace_emit : ℕ
mcontrol_action_trace_emit = 4

abbrev pub mcontrol_chain : ℕ
mcontrol_chain = 2 ^ 11

abbrev pub mcontrol_execute : ℕ
mcontrol_execute = 2 ^ 2

abbrev pub mcontrol_load : ℕ
mcontrol_load = 2 ^ 0

abbrev pub mcontrol_m : ℕ
mcontrol_m = 2 ^ 6

abbrev pub mcontrol_maskmax : ℕ → ℕ
mcontrol_maskmax xlen = 0x3f * 2 ^ (xlen - 11)

abbrev pub mcontrol_match : ℕ
mcontrol_match = 0xf * 2 ^ 7

abbrev pub mcontrol_match_equal : ℕ
mcontrol_match_equal = 0

abbrev pub mcontrol_match_ge : ℕ
mcontrol_match_ge = 2

abbrev pub mcontrol_match_lt : ℕ
mcontrol_match_lt = 3

abbrev pub mcontrol_match_mask_high : ℕ
mcontrol_match_mask_high = 5

abbrev pub mcontrol_match_mask_low : ℕ
mcontrol_match_mask_low = 4

abbrev pub mcontrol_match_napot : ℕ
mcontrol_match_napot = 1

abbrev pub mcontrol_s : ℕ
mcontrol_s = 2 ^ 4

abbrev pub mcontrol_select : ℕ
mcontrol_select = 2 ^ 19

abbrev pub mcontrol_store : ℕ
mcontrol_store = 2 ^ 1

abbrev pub mcontrol_timing : ℕ
mcontrol_timing = 2 ^ 18

abbrev pub mcontrol_type : ℕ → ℕ
mcontrol_type xlen = 0xf * 2 ^ (xlen - 4)

abbrev pub mcontrol_u : ℕ
mcontrol_u = 2 ^ 3
