-- ===== src/DebugModule/Fields.antt =====
-- riscv/debug_defines.h, riscv/encoding.h, debug_rom_defines.h: the registers of the debug module and
-- their fields, and the addresses of the debug ROM.
use nnemu.Base.{ℕ}

abbrev pub ac_access_register_aarsize : ℕ
ac_access_register_aarsize = 0x700000

abbrev pub ac_access_register_postexec : ℕ
ac_access_register_postexec = 0x40000

abbrev pub ac_access_register_regno : ℕ
ac_access_register_regno = 0xffff

abbrev pub ac_access_register_transfer : ℕ
ac_access_register_transfer = 0x20000

abbrev pub ac_access_register_write : ℕ
ac_access_register_write = 0x10000

abbrev pub csr_dscratch0 : ℕ
csr_dscratch0 = 0x7b2

abbrev pub csr_dscratch1 : ℕ
csr_dscratch1 = 0x7b3

abbrev pub csr_fcsr : ℕ
csr_fcsr = 0x3

abbrev pub csr_fflags : ℕ
csr_fflags = 0x1

abbrev pub csr_frm : ℕ
csr_frm = 0x2

abbrev pub csr_mstatus : ℕ
csr_mstatus = 0x300

abbrev pub debug_rom_entry : ℕ
debug_rom_entry = 0x800

abbrev pub debug_rom_exception : ℕ
debug_rom_exception = 0x10c

abbrev pub debug_rom_flags : ℕ
debug_rom_flags = 0x400

abbrev pub debug_rom_flag_go : ℕ
debug_rom_flag_go = 0

abbrev pub debug_rom_flag_resume : ℕ
debug_rom_flag_resume = 1

abbrev pub debug_rom_going : ℕ
debug_rom_going = 0x104

abbrev pub debug_rom_halted : ℕ
debug_rom_halted = 0x100

abbrev pub debug_rom_resuming : ℕ
debug_rom_resuming = 0x108

abbrev pub debug_rom_whereto : ℕ
debug_rom_whereto = 0x300

abbrev pub dm_abstractauto : ℕ
dm_abstractauto = 0x18

abbrev pub dm_abstractauto_autoexecdata : ℕ
dm_abstractauto_autoexecdata = 0xfff

abbrev pub dm_abstractauto_autoexecprogbuf : ℕ
dm_abstractauto_autoexecprogbuf = 0xffff0000

abbrev pub dm_abstractcs : ℕ
dm_abstractcs = 0x16

abbrev pub dm_abstractcs_busy : ℕ
dm_abstractcs_busy = 0x1000

abbrev pub dm_abstractcs_cmderr : ℕ
dm_abstractcs_cmderr = 0x700

abbrev pub dm_abstractcs_datacount : ℕ
dm_abstractcs_datacount = 0xf

abbrev pub dm_abstractcs_progbufsize : ℕ
dm_abstractcs_progbufsize = 0x1f000000

abbrev pub dm_authdata : ℕ
dm_authdata = 0x30

abbrev pub dm_command : ℕ
dm_command = 0x17

abbrev pub dm_data0 : ℕ
dm_data0 = 0x4

abbrev pub dm_dmcontrol : ℕ
dm_dmcontrol = 0x10

abbrev pub dm_dmcontrol_ackhavereset : ℕ
dm_dmcontrol_ackhavereset = 0x10000000

abbrev pub dm_dmcontrol_dmactive : ℕ
dm_dmcontrol_dmactive = 1

abbrev pub dm_dmcontrol_haltreq : ℕ
dm_dmcontrol_haltreq = 0x80000000

abbrev pub dm_dmcontrol_hartreset : ℕ
dm_dmcontrol_hartreset = 0x20000000

abbrev pub dm_dmcontrol_hartselhi : ℕ
dm_dmcontrol_hartselhi = 0xffc0

abbrev pub dm_dmcontrol_hartsello : ℕ
dm_dmcontrol_hartsello = 0x3ff0000

abbrev pub dm_dmcontrol_hartsello_length : ℕ
dm_dmcontrol_hartsello_length = 0xa

abbrev pub dm_dmcontrol_hasel : ℕ
dm_dmcontrol_hasel = 0x4000000

abbrev pub dm_dmcontrol_ndmreset : ℕ
dm_dmcontrol_ndmreset = 2

abbrev pub dm_dmcontrol_resumereq : ℕ
dm_dmcontrol_resumereq = 0x40000000

abbrev pub dm_dmcs2 : ℕ
dm_dmcs2 = 0x32

abbrev pub dm_dmcs2_group : ℕ
dm_dmcs2_group = 0x7c

abbrev pub dm_dmcs2_grouptype : ℕ
dm_dmcs2_grouptype = 0x800

abbrev pub dm_dmcs2_hgwrite : ℕ
dm_dmcs2_hgwrite = 2

abbrev pub dm_dmstatus : ℕ
dm_dmstatus = 0x11

abbrev pub dm_dmstatus_allhalted : ℕ
dm_dmstatus_allhalted = 0x200

abbrev pub dm_dmstatus_allhavereset : ℕ
dm_dmstatus_allhavereset = 0x80000

abbrev pub dm_dmstatus_allnonexistent : ℕ
dm_dmstatus_allnonexistent = 0x8000

abbrev pub dm_dmstatus_allresumeack : ℕ
dm_dmstatus_allresumeack = 0x20000

abbrev pub dm_dmstatus_allrunning : ℕ
dm_dmstatus_allrunning = 0x800

abbrev pub dm_dmstatus_allunavail : ℕ
dm_dmstatus_allunavail = 0x2000

abbrev pub dm_dmstatus_anyhalted : ℕ
dm_dmstatus_anyhalted = 0x100

abbrev pub dm_dmstatus_anyhavereset : ℕ
dm_dmstatus_anyhavereset = 0x40000

abbrev pub dm_dmstatus_anynonexistent : ℕ
dm_dmstatus_anynonexistent = 0x4000

abbrev pub dm_dmstatus_anyresumeack : ℕ
dm_dmstatus_anyresumeack = 0x10000

abbrev pub dm_dmstatus_anyrunning : ℕ
dm_dmstatus_anyrunning = 0x400

abbrev pub dm_dmstatus_anyunavail : ℕ
dm_dmstatus_anyunavail = 0x1000

abbrev pub dm_dmstatus_authbusy : ℕ
dm_dmstatus_authbusy = 0x40

abbrev pub dm_dmstatus_authenticated : ℕ
dm_dmstatus_authenticated = 0x80

abbrev pub dm_dmstatus_impebreak : ℕ
dm_dmstatus_impebreak = 0x400000

abbrev pub dm_dmstatus_version : ℕ
dm_dmstatus_version = 0xf

abbrev pub dm_hartinfo : ℕ
dm_hartinfo = 0x12

abbrev pub dm_hartinfo_dataaccess : ℕ
dm_hartinfo_dataaccess = 0x10000

abbrev pub dm_hartinfo_dataaddr : ℕ
dm_hartinfo_dataaddr = 0xfff

abbrev pub dm_hartinfo_datasize : ℕ
dm_hartinfo_datasize = 0xf000

abbrev pub dm_hartinfo_nscratch : ℕ
dm_hartinfo_nscratch = 0xf00000

abbrev pub dm_hawindow : ℕ
dm_hawindow = 0x15

abbrev pub dm_hawindowsel : ℕ
dm_hawindowsel = 0x14

abbrev pub dm_progbuf0 : ℕ
dm_progbuf0 = 0x20

abbrev pub dm_sbaddress0 : ℕ
dm_sbaddress0 = 0x39

abbrev pub dm_sbaddress1 : ℕ
dm_sbaddress1 = 0x3a

abbrev pub dm_sbaddress2 : ℕ
dm_sbaddress2 = 0x3b

abbrev pub dm_sbaddress3 : ℕ
dm_sbaddress3 = 0x37

abbrev pub dm_sbcs : ℕ
dm_sbcs = 0x38

abbrev pub dm_sbcs_sbaccess : ℕ
dm_sbcs_sbaccess = 0xe0000

abbrev pub dm_sbcs_sbaccess128 : ℕ
dm_sbcs_sbaccess128 = 0x10

abbrev pub dm_sbcs_sbaccess16 : ℕ
dm_sbcs_sbaccess16 = 2

abbrev pub dm_sbcs_sbaccess32 : ℕ
dm_sbcs_sbaccess32 = 4

abbrev pub dm_sbcs_sbaccess64 : ℕ
dm_sbcs_sbaccess64 = 8

abbrev pub dm_sbcs_sbaccess8 : ℕ
dm_sbcs_sbaccess8 = 1

abbrev pub dm_sbcs_sbasize : ℕ
dm_sbcs_sbasize = 0xfe0

abbrev pub dm_sbcs_sbautoincrement : ℕ
dm_sbcs_sbautoincrement = 0x10000

abbrev pub dm_sbcs_sberror : ℕ
dm_sbcs_sberror = 0x7000

abbrev pub dm_sbcs_sbreadonaddr : ℕ
dm_sbcs_sbreadonaddr = 0x100000

abbrev pub dm_sbcs_sbreadondata : ℕ
dm_sbcs_sbreadondata = 0x8000

abbrev pub dm_sbcs_sbversion : ℕ
dm_sbcs_sbversion = 0xe0000000

abbrev pub dm_sbdata0 : ℕ
dm_sbdata0 = 0x3c

abbrev pub dm_sbdata1 : ℕ
dm_sbdata1 = 0x3d

abbrev pub dm_sbdata2 : ℕ
dm_sbdata2 = 0x3e

abbrev pub dm_sbdata3 : ℕ
dm_sbdata3 = 0x3f

abbrev pub mstatus_fs : ℕ
mstatus_fs = 0x6000
