-- ===== src/DebugModule/Commands.antt =====
-- riscv/debug_module.cc: abstract commands, and the accesses to the system bus.
use nnemu.Base.{
  Bool, List, Option, [], bit_and, bit_or, false, get_or, if◌then◌else◌, leb, length, ltb, none,
  not, set, some, true, truthy, ℕ, ◌%◌, ◌&&◌, ◌*◌, ◌++◌, ◌+◌, ◌-◌, ◌/◌, ◌==◌, ◌^◌, ◌||◌, ◌∷◌,
}
use nnemu.Decode.{get_field}
use nnemu.Opcodes.{
  csrr, csrrs, csrw, ebreak, fld, flw, fsd, fsw, jal, ld, lui, lw, s0, sd, sw, zero_reg,
}
use nnemu.DebugModule.Fields.{
  ac_access_register_aarsize, ac_access_register_postexec, ac_access_register_regno,
  ac_access_register_transfer, ac_access_register_write, csr_dscratch0, csr_dscratch1, csr_fcsr,
  csr_fflags, csr_frm, csr_mstatus, debug_rom_flag_go, mstatus_fs,
}
use nnemu.DebugModule.{
  Config, Dm, Loaded, Sim, cmderr_busy, cmderr_haltresume, cmderr_none, cmderr_notsup,
  debug_abstract_start, debug_data_start, debug_progbuf_start, flags_at, read32, selected_hart_id,
  selected_hart_state, write32,
}

unfoldable pub is_fpu_reg : ℕ → Bool
is_fpu_reg regno =
    (leb 0x1020 regno && leb regno 0x103f)
    || ((regno == csr_fflags) || ((regno == csr_frm) || (regno == csr_fcsr)))

-- The instruction for 32 or 64 bits; no other size is supported.
abbrev pub by_size : ℕ → ℕ → ℕ → Option ℕ
by_size size word double = if size == 2 then some word else if size == 3 then some double else none

-- What a transfer makes of the program: instructions, instructions up to an error, or a custom register.
pub data Transfer : Type 0 where
  emitted unsupported : List ℕ → Transfer
  custom : Transfer

-- The instructions before, the one for the size, and those after it.
abbrev pub around : List ℕ → Option ℕ → List ℕ → Transfer
around before none after = Transfer.unsupported before
around before (some insn) after = Transfer.emitted (before ++ insn ∷ after)

abbrev pub unless : Bool → ℕ → List ℕ
unless b insn = if b then [] else insn ∷ []

unfoldable pub csr_transfer : ℕ → ℕ → Bool → Transfer
unfolding is_fpu_reg
csr_transfer regno size write =
    let before = unless (is_fpu_reg regno) (csrw s0 csr_dscratch0) in
    let after = unless (is_fpu_reg regno) (csrr s0 csr_dscratch0) in
    if write
    then around before
        (by_size size (lw s0 zero_reg debug_data_start) (ld s0 zero_reg debug_data_start))
        (csrw s0 regno ∷ after)
    else around (before ++ csrr s0 regno ∷ [])
        (by_size size (sw s0 zero_reg debug_data_start) (sd s0 zero_reg debug_data_start)) after

unfoldable pub gpr_transfer : ℕ → ℕ → Bool → Transfer
gpr_transfer regno size write =
    let regnum = regno - 0x1000 in
    if write
    then around []
        (by_size size (lw regnum zero_reg debug_data_start) (ld regnum zero_reg debug_data_start))
        (unless (not (regnum == s0)) (csrw s0 csr_dscratch0))
    else around []
        (by_size size (sw regnum zero_reg debug_data_start) (sd regnum zero_reg debug_data_start))
        []

unfoldable pub fpr_transfer : ℕ → ℕ → Bool → Transfer
fpr_transfer regno size write =
    let fprnum = regno - 0x1020 in
    if write
    then around []
        (by_size size (flw fprnum zero_reg debug_data_start) (fld fprnum zero_reg debug_data_start))
        []
    else around []
        (by_size size (fsw fprnum zero_reg debug_data_start) (fsd fprnum zero_reg debug_data_start))
        []

-- By the number of the register.
unfoldable pub register_transfer : Config → ℕ → ℕ → Bool → Transfer
register_transfer config regno size write =
    if ltb regno 0x1000 && config.support_abstract_csr_access
    then csr_transfer regno size write
    else if leb 0x1000 regno && ltb regno 0x1020
    then gpr_transfer regno size write
    else if leb 0x1020 regno && (ltb regno 0x1040 && config.support_abstract_fpr_access)
    then fpr_transfer regno size write
    else if leb 0xc000 regno && (bit_and regno 1 == 1)
    then Transfer.custom
    else Transfer.unsupported []

abbrev pub save_fpu : List ℕ
save_fpu =
    csrw s0 csr_dscratch0
    ∷ csrr s0 csr_mstatus
    ∷ csrw s0 csr_dscratch1
    ∷ lui s0 (mstatus_fs / 2 ^ 12)
    ∷ csrrs zero_reg s0 csr_mstatus
    ∷ []

abbrev pub restore_fpu : List ℕ
restore_fpu = csrr s0 csr_dscratch1 ∷ csrw s0 csr_mstatus ∷ csrr s0 csr_dscratch0 ∷ []

-- Registers of the floating-point unit need it switched on.
abbrev pub with_fpu : Bool → Transfer → Transfer
with_fpu false t = t
with_fpu true (Transfer.emitted words) = Transfer.emitted (save_fpu ++ words ++ restore_fpu)
with_fpu true (Transfer.unsupported words) = Transfer.unsupported (save_fpu ++ words)
with_fpu true Transfer.custom = Transfer.custom

abbrev pub write_words : List ℕ → ℕ → List ℕ → List ℕ
write_words memory i [] = memory
write_words memory i (word ∷ words) = write_words (write32 memory i word) (i + 1) words

abbrev pub fail : ℕ → Dm → Dm
fail err d = record d { abstractcs = record (d.abstractcs) { cmderr = err } }

-- `regno` counts from 0xc000 on.
unfoldable pub custom_register : ℕ → Bool → Dm → Dm
unfolding read32 write32
custom_register regno write d =
    let custom_number = regno - 0xc000 in
    let number = (custom_number + d.custom_base) % 2 ^ 32 in
    let d = fail cmderr_none d in
    if write
    then record d { custom_base = (read32 d.dmdata 0 + 2 ^ 32 - custom_number) % 2 ^ 32 }
    else record d { dmdata = write32 (write32 d.dmdata 0 number) 1 0 }

-- The last instruction, after `i` others: on to the program buffer, or back to the debug ROM.
abbrev pub leave : Config → ℕ → ℕ → ℕ
leave config command i =
    if truthy (get_field command ac_access_register_postexec)
    then jal zero_reg (
        (debug_progbuf_start config + 2 ^ 32 + 2 ^ 32 - debug_abstract_start config - 4 * i)
        % 2 ^ 32)
    else ebreak

-- The program is handed to the selected hart.
unfoldable pub start : {S : Type 0} → Sim S → List ℕ → Dm → Dm
unfolding write32
start sim words d =
    let id = selected_hart_id sim d in
    let program = words ++ leave d.config d.command (length words) ∷ [] in
    record d {
      debug_abstract = write_words d.debug_abstract 0 program;
      debug_rom_flags = set d.debug_rom_flags id (bit_or (flags_at d id) (2 ^ debug_rom_flag_go));
      rti_remaining = d.config.abstract_rti;
      abstract_command_completed = false;
      abstractcs = record (d.abstractcs) { busy = true };
    }

-- The transfer that a command asks for.
unfoldable pub command_transfer : Config → ℕ → Transfer
unfolding register_transfer is_fpu_reg
command_transfer config command =
    let size = get_field command ac_access_register_aarsize in
    let write = truthy (get_field command ac_access_register_write) in
    let regno = get_field command ac_access_register_regno in
    if truthy (get_field command ac_access_register_transfer)
    then with_fpu (is_fpu_reg regno) (register_transfer config regno size write)
    else Transfer.emitted []

-- What the transfer does.
abbrev pub transferred : {S : Type 0} → Sim S → Dm → Transfer → Dm
transferred sim d (Transfer.emitted words) = start sim words d
transferred sim d (Transfer.unsupported words) =
    fail cmderr_notsup (record d { debug_abstract = write_words d.debug_abstract 0 words })
transferred sim d Transfer.custom =
    custom_register (get_field d.command ac_access_register_regno)
      (truthy (get_field d.command ac_access_register_write)) d

unfoldable pub perform_abstract_command : {S : Type 0} → Sim S → Dm → Dm
unfolding command_transfer start custom_register write32
perform_abstract_command sim d =
    if not (d.abstractcs.cmderr == cmderr_none)
    then d
    else if d.abstractcs.busy
    then fail cmderr_busy d
    else if not (d.command / 2 ^ 24 == 0)
    then fail cmderr_notsup d
    else if not (selected_hart_state sim d).halted
    then fail cmderr_haltresume d
    else transferred sim d (command_transfer d.config d.command)

unfoldable pub sb_access_bits : Dm → ℕ
sb_access_bits d = 8 * 2 ^ d.sbcs.sbaccess

-- The sums are those of 32-bit words, before they are widened.
abbrev pub advance : ℕ → List ℕ → List ℕ
advance carry [] = []
advance carry (word ∷ words) =
    let value = (word + carry) % 2 ^ 32 in value ∷ advance (value / 2 ^ 32) words

unfoldable pub sb_autoincrement : Dm → Dm
unfolding sb_access_bits
sb_autoincrement d =
    if not d.sbcs.autoincrement || (d.config.max_sba_data_width == 0)
    then d
    else record d { sbaddress = advance (sb_access_bits d / 8) d.sbaddress }

abbrev pub sb_address : Dm → ℕ
sb_address d = bit_or (get_or d.sbaddress 1 0 * 2 ^ 32) (get_or d.sbaddress 0 0)

-- Whether the module has an access of this size, of `2 ^ sbaccess` bytes.
abbrev pub sb_supported : Dm → Bool
sb_supported d = ltb d.sbcs.sbaccess 4 && leb (sb_access_bits d) d.config.max_sba_data_width

abbrev pub sb_fail : ℕ → Dm → Dm
sb_fail err d = record d { sbcs = record (d.sbcs) { error = err } }

abbrev pub put_sbdata : ℕ → Dm → Dm
put_sbdata value d =
    let low = set d.sbdata 0 (value % 2 ^ 32) in
    record d { sbdata = if d.sbcs.sbaccess == 3 then set low 1 (value / 2 ^ 32 % 2 ^ 32) else low }

-- What the value of a load, or its trap, does; another trap than an access fault goes through.
abbrev pub sb_loaded : {S : Type 0} → Dm → S → Loaded → Option (Dm × S)
sb_loaded d s (Loaded.loaded value) = some (put_sbdata value d, s)
sb_loaded d s Loaded.access_fault = some (sb_fail 2 d, s)
sb_loaded d s Loaded.other_trap = none

module _ {S : Type 0} (sim : Sim S) where
  unfoldable pub sb_read : Dm → S → Option (Dm × S)
  unfolding sb_access_bits
  sb_read d s =
      let r = sim.load (2 ^ d.sbcs.sbaccess) (sb_address d) d s in
      if not (sb_supported d) then some (sb_fail 3 d, s) else sb_loaded d r.0 r.1

  -- A store that traps goes through: no trap is caught.
  unfoldable pub sb_write : Dm → S → Option (Dm × S)
  unfolding sb_access_bits
  sb_write d s =
      let low = get_or d.sbdata 0 0 in
      let value =
        if d.sbcs.sbaccess == 3
        then bit_or (get_or d.sbdata 1 0 * 2 ^ 32) low
        else low % 2 ^ sb_access_bits d in
      if not (sb_supported d)
      then some (sb_fail 3 d, s)
      else sim.store (2 ^ d.sbcs.sbaccess) (sb_address d) value d s
