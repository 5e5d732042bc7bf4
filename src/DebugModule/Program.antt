-- ===== src/DebugModule/Program.antt =====
-- riscv/debug_module.cc: the program that an abstract command makes, and the sizes of the arrays.
use nnemu.Base.{
  Bool, List, Option, [], arith, bit_and, bit_or, drop, false, if_both, if◌then◌else◌, leb, length,
  length-append, length-drop, length-set, length-take, ltb, none, not, refl, some, take, true,
  truthy, ℕ, ◌%◌, ◌&&◌, ◌*◌, ◌++◌, ◌+◌, ◌-◌, ◌/◌, ◌==◌, ◌^◌, ◌∙◌, ◌∷◌, ◌≡◌, ◌≤◌,
}
use nnemu.DebugModule.Fields.{
  ac_access_register_aarsize, ac_access_register_regno, ac_access_register_transfer,
  ac_access_register_write, csr_dscratch0, debug_rom_flag_go,
}
use nnemu.Opcodes.{csrr, csrw, fld, flw, fsd, fsw, ld, lw, s0, sd, sw, zero_reg}
use nnemu.DebugModule.{
  Config, Dm, Sim, bytes_of, cmderr_busy, cmderr_haltresume, cmderr_none, cmderr_notsup, datasize,
  debug_abstract_size, debug_data_start, field_width, flags_at, program_buffer_bytes,
  selected_hart_id, selected_hart_state, splice, write32,
}
use nnemu.DebugModule.Commands.{
  Transfer, around, by_size, command_transfer, csr_transfer, custom_register, fail, fpr_transfer,
  gpr_transfer, is_fpu_reg, leave, perform_abstract_command, register_transfer, restore_fpu,
  save_fpu, start, transferred, unless, with_fpu, write_words,
}
use nnemu.Decode.{get_field}

abbrev pub length_of : Transfer → ℕ
length_of (Transfer.emitted words) = length words
length_of (Transfer.unsupported words) = length words
length_of Transfer.custom = 0

around-length_of :
    (before after : List ℕ) (insn : Option ℕ)
    → length_of (around before insn after) ≤ length before + length after + 1
around-length_of before after none = omega arith
around-length_of before after (some insn) = omega (arith, length-append before (insn ∷ after))

unless-length : (b : Bool) (insn : ℕ) → length (unless b insn) ≡ (if b then 0 else 1)
unless-length true insn = refl
unless-length false insn = refl

abbrev IsShort : ℕ → Transfer → Type 0
IsShort n t = length_of t ≤ n

csr_transfer-length_of :
    (regno size : ℕ) (write : Bool)
    → length_of (csr_transfer regno size write) ≤ (if is_fpu_reg regno then 2 else 4)
unfolding csr_transfer
csr_transfer-length_of regno size write =
    let before = unless (is_fpu_reg regno) (csrw s0 csr_dscratch0) in
    let after = unless (is_fpu_reg regno) (csrr s0 csr_dscratch0) in
    let n = unless-length (is_fpu_reg regno) (csrw s0 csr_dscratch0) in
    let m = unless-length (is_fpu_reg regno) (csrr s0 csr_dscratch0) in
    if_both (IsShort (if is_fpu_reg regno then 2 else 4)) write _ _
      (ground (
        arith,
        n,
        m,
        around-length_of before (csrw s0 regno ∷ after)
            (by_size size (lw s0 zero_reg debug_data_start) (ld s0 zero_reg debug_data_start)),
      ))
      (ground (
        arith,
        n,
        m,
        length-append before (csrr s0 regno ∷ []),
        around-length_of (before ++ csrr s0 regno ∷ []) after
            (by_size size (sw s0 zero_reg debug_data_start) (sd s0 zero_reg debug_data_start)),
      ))

gpr_transfer-length_of :
    (regno size : ℕ) (write : Bool) → length_of (gpr_transfer regno size write) ≤ 2
unfolding gpr_transfer
gpr_transfer-length_of regno size write =
    let regnum = regno - 0x1000 in
    let n = unless-length (not (regnum == s0)) (csrw s0 csr_dscratch0) in
    if_both (IsShort 2) write _ _
      (ground (
        arith,
        n,
        around-length_of [] (unless (not (regnum == s0)) (csrw s0 csr_dscratch0)) (
            by_size size (lw regnum zero_reg debug_data_start)
              (ld regnum zero_reg debug_data_start)),
      ))
      (ground (
        arith,
        around-length_of [] [] (
            by_size size (sw regnum zero_reg debug_data_start)
              (sd regnum zero_reg debug_data_start)),
      ))

fpr_transfer-length_of :
    (regno size : ℕ) (write : Bool) → length_of (fpr_transfer regno size write) ≤ 2
unfolding fpr_transfer
fpr_transfer-length_of regno size write =
    let fprnum = regno - 0x1020 in
    if_both (IsShort 2) write _ _
      (omega (
        arith,
        around-length_of [] [] (
            by_size size (flw fprnum zero_reg debug_data_start)
              (fld fprnum zero_reg debug_data_start)),
      ))
      (omega (
        arith,
        around-length_of [] [] (
            by_size size (fsw fprnum zero_reg debug_data_start)
              (fsd fprnum zero_reg debug_data_start)),
      ))

register_transfer-length_of :
    (config : Config) (regno size : ℕ) (write : Bool)
    → length_of (register_transfer config regno size write) ≤ (if is_fpu_reg regno then 2 else 4)
unfolding register_transfer
register_transfer-length_of config regno size write =
    let P = IsShort (if is_fpu_reg regno then 2 else 4) in
    let two = λ (n : ℕ) (h : n ≤ 2). at_least (is_fpu_reg regno) n h in
    if_both P (ltb regno 0x1000 && config.support_abstract_csr_access) _ _
      (csr_transfer-length_of regno size write)
      (if_both P (leb 0x1000 regno && ltb regno 0x1020) _ _
        (two _ (gpr_transfer-length_of regno size write))
        (if_both P (leb 0x1020 regno && (ltb regno 0x1040 && config.support_abstract_fpr_access)) _
          _ (two _ (fpr_transfer-length_of regno size write))
          (if_both P (leb 0xc000 regno && (bit_and regno 1 == 1)) Transfer.custom
            (Transfer.unsupported []) (two 0 (omega arith)) (two 0 (omega arith)))))
  where
    at_least : (b : Bool) (n : ℕ) → n ≤ 2 → n ≤ (if b then 2 else 4)
    at_least b n h = ground arith

with_fpu-length_of :
    (b : Bool) (t : Transfer) → length_of t ≤ (if b then 2 else 4) → length_of (with_fpu b t) ≤ 10
with_fpu-length_of false t h = omega (arith, h)
with_fpu-length_of true (Transfer.emitted words) h =
    omega (arith, h, length-append save_fpu (words ++ restore_fpu), length-append words restore_fpu)
with_fpu-length_of true (Transfer.unsupported words) h =
    omega (arith, h, length-append save_fpu words)
with_fpu-length_of true Transfer.custom h = omega arith

-- With the instruction that leaves it, every program has at most eleven instructions.
command_transfer-length_of :
    (config : Config) (command : ℕ) → length_of (command_transfer config command) ≤ 10
unfolding command_transfer
command_transfer-length_of config command =
    let regno = get_field command ac_access_register_regno in
    if_both (IsShort 10) (truthy (get_field command ac_access_register_transfer)) _
      (Transfer.emitted [])
      (with_fpu-length_of (is_fpu_reg regno) _ (
        register_transfer-length_of config regno (get_field command ac_access_register_aarsize)
          (truthy (get_field command ac_access_register_write))))
      (omega arith)

pub splice-length :
    (memory : List ℕ) (offset : ℕ) (bytes : List ℕ)
    → offset + length bytes ≤ length memory
    → length (splice memory offset bytes) ≡ length memory
splice-length memory offset bytes h = omega (
  arith,
  h,
  length-append (take offset memory ++ bytes) (drop (offset + length bytes) memory),
  length-append (take offset memory) bytes,
  length-take offset memory,
  length-drop (offset + length bytes) memory,
)

pub write32-length :
    (memory : List ℕ) (index value : ℕ)
    → index * 4 + 4 ≤ length memory
    → length (write32 memory index value) ≡ length memory
unfolding write32
write32-length memory index value h = splice-length memory (index * 4) (bytes_of value) h

write_words-length :
    (memory : List ℕ) (i : ℕ) (words : List ℕ)
    → (i + length words) * 4 ≤ length memory
    → length (write_words memory i words) ≡ length memory
write_words-length memory i [] h = refl
write_words-length memory i (word ∷ words) h =
    let first = write32-length memory i word (omega (arith, h)) in
    write_words-length (write32 memory i word) (i + 1) words (omega (arith, h, first)) ∙ first

-- The arrays of the module have their sizes, where the IDs of the harts are below `n`.
pub record IsSized (n : ℕ) (d : Dm) : Type 0 where
  pub abstract_size : length d.debug_abstract ≡ debug_abstract_size * 4
  pub data_size : length d.dmdata ≡ datasize * 4
  pub buffer_size : length d.program_buffer ≡ program_buffer_bytes d.config
  pub states_size : length d.hart_state ≡ 2 ^ field_width n
  pub flags_size : length d.debug_rom_flags ≡ 1024
  pub mask_size : length d.hart_array_mask ≡ n

start-IsSized :
    {n : ℕ} {S : Type 0} (sim : Sim S) (words : List ℕ) (d : Dm)
    → length words ≤ 10
    → IsSized n d
    → IsSized n (start sim words d)
unfolding start
start-IsSized {n} sim words d h v =
    let last = leave d.config d.command (length words) in
    record {
      abstract_size =
          write_words-length d.debug_abstract 0 (words ++ last ∷ [])
            (omega (arith, h, v.abstract_size, length-append words (last ∷ [])))
          ∙ v.abstract_size;
      data_size = v.data_size;
      buffer_size = v.buffer_size;
      states_size = v.states_size;
      flags_size =
          length-set d.debug_rom_flags (selected_hart_id sim d)
            (bit_or (flags_at d (selected_hart_id sim d)) (2 ^ debug_rom_flag_go))
          ∙ v.flags_size;
      mask_size = v.mask_size;
    }

custom_register-IsSized :
    {n : ℕ} (regno : ℕ) (write : Bool) (d : Dm)
    → IsSized n d
    → IsSized n (custom_register regno write d)
unfolding custom_register
custom_register-IsSized {n} regno write d v =
    let number = (regno - 0xc000 + d.custom_base) % 2 ^ 32 in
    let first = write32-length d.dmdata 0 number (omega (arith, v.data_size)) in
    if_both (IsSized n) write _ _
      (record {
        abstract_size = v.abstract_size;
        data_size = v.data_size;
        buffer_size = v.buffer_size;
        states_size = v.states_size;
        flags_size = v.flags_size;
        mask_size = v.mask_size;
      })
      (record {
        abstract_size = v.abstract_size;
        data_size =
            write32-length (write32 d.dmdata 0 number) 1 0 (omega (arith, first, v.data_size))
            ∙ first
            ∙ v.data_size;
        buffer_size = v.buffer_size;
        states_size = v.states_size;
        flags_size = v.flags_size;
        mask_size = v.mask_size;
      })

pub failed-IsSized : {n : ℕ} (err : ℕ) (d : Dm) → IsSized n d → IsSized n (fail err d)
failed-IsSized {n} err d v = record {
  abstract_size = v.abstract_size;
  data_size = v.data_size;
  buffer_size = v.buffer_size;
  states_size = v.states_size;
  flags_size = v.flags_size;
  mask_size = v.mask_size;
}

transferred-IsSized :
    {n : ℕ} {S : Type 0} (sim : Sim S) (d : Dm) (t : Transfer)
    → length_of t ≤ 10
    → IsSized n d
    → IsSized n (transferred sim d t)
transferred-IsSized {n} sim d (Transfer.emitted words) h v = start-IsSized sim words d h v
transferred-IsSized {n} sim d (Transfer.unsupported words) h v = record {
  abstract_size =
      write_words-length d.debug_abstract 0 words (omega (arith, h, v.abstract_size))
      ∙ v.abstract_size;
  data_size = v.data_size;
  buffer_size = v.buffer_size;
  states_size = v.states_size;
  flags_size = v.flags_size;
  mask_size = v.mask_size;
}
transferred-IsSized {n} sim d Transfer.custom h v =
    custom_register-IsSized (get_field d.command ac_access_register_regno)
      (truthy (get_field d.command ac_access_register_write)) d v

-- Whatever the command register holds, performing the command writes its program, and the data of a
-- custom register, within their arrays: no array changes its size.
pub perform-IsSized :
    {n : ℕ} {S : Type 0} (sim : Sim S) (d : Dm)
    → IsSized n d
    → IsSized n (perform_abstract_command sim d)
unfolding perform_abstract_command
perform-IsSized {n} sim d v = if_both (IsSized n) (not (d.abstractcs.cmderr == cmderr_none)) d _ v (
    if_both (IsSized n) d.abstractcs.busy (fail cmderr_busy d) _ (failed-IsSized cmderr_busy d v) (
      if_both (IsSized n) (not (d.command / 2 ^ 24 == 0)) (fail cmderr_notsup d) _
        (failed-IsSized cmderr_notsup d v)
        (if_both (IsSized n) (not (selected_hart_state sim d).halted) (fail cmderr_haltresume d) _
          (failed-IsSized cmderr_haltresume d v)
          (transferred-IsSized sim d (command_transfer d.config d.command)
            (command_transfer-length_of d.config d.command) v))))
