-- ===== src/DebugModule/Access.antt =====
-- riscv/debug_module.cc: loads and stores of a hart that runs the debug ROM, whose bytes are an argument.
-- DEBUG_START is 0. A store is none where the source has no defined result: an assertion on the length
-- fails, or the ID, which a hart stores, is past the end of an array.
use nnemu.Base.{
  ◌≡◌, ◌⊎◌, ◌<◌, ◌≤◌, Bool, List, Option, [], bit_and, drop, false, if◌then◌else◌, leb, length, ltb,
  none, not, set, some, take, true, ℕ, ◌%◌, ◌&&◌, ◌*◌, ◌+◌, ◌-◌, ◌==◌, ◌^◌, ◌∷◌,
}
use nnemu.Base.Bits.{bit, bit_not}
use nnemu.DebugModule.{
  Dm, HaltRequest, Sim, flags_at, hart_at, cmderr_exception, cmderr_none, datasize,
  debug_abstract_size, debug_abstract_start, debug_data_start, debug_progbuf_start,
  program_buffer_bytes, put, read32, selected_hart_id, splice,
}
use nnemu.DebugModule.Fields.{
  debug_rom_entry, debug_rom_exception, debug_rom_flag_go, debug_rom_flag_resume, debug_rom_flags,
  debug_rom_going, debug_rom_halted, debug_rom_resuming, debug_rom_whereto,
}
use nnemu.DebugModule.Commands.{fail}

-- A range within the window of an array; the end of the window is a sum of 64 bits, or of 32.
abbrev pub inside : ℕ → ℕ → ℕ → ℕ → Bool
inside base size addr len = leb base addr && leb ((addr + len) % 2 ^ 64) (base + size)

abbrev pub inside_word : ℕ → ℕ → ℕ → ℕ → Bool
inside_word base size addr len =
    leb base addr && leb ((addr + len) % 2 ^ 64) ((base + size) % 2 ^ 32)

abbrev pub slice : List ℕ → ℕ → ℕ → List ℕ
slice memory offset len = take len (drop offset memory)

unfoldable pub load : List ℕ → ℕ → ℕ → Dm → Option (List ℕ)
load rom addr len d =
    if inside debug_rom_entry (length rom) addr len
    then some (slice rom (addr - debug_rom_entry) len)
    else if inside debug_rom_whereto 4 addr len
    then some (slice d.debug_rom_whereto (addr - debug_rom_whereto) len)
    else if inside debug_rom_flags 1024 addr len
    then some (slice d.debug_rom_flags (addr - debug_rom_flags) len)
    else if inside_word (debug_abstract_start d.config) (debug_abstract_size * 4) addr len
    then some (slice d.debug_abstract (addr - debug_abstract_start d.config) len)
    else if inside debug_data_start (datasize * 4) addr len
    then some (slice d.dmdata (addr - debug_data_start) len)
    else if inside_word (debug_progbuf_start d.config) (program_buffer_bytes d.config) addr len
    then some (slice d.program_buffer (addr - debug_progbuf_start d.config) len)
    else none

-- A hart that halts asks the other harts of its group to halt.
unfoldable pub halt_group : ℕ → List ℕ → Dm → Dm
halt_group group [] d = d
halt_group group (id ∷ ids) d =
    let h = hart_at d id in
    halt_group group ids (
      if not h.halted && (h.haltgroup == group)
      then record d { halt_request = put d.halt_request id HaltRequest.hr_group }
      else d)

-- Bit `b` of the flags of a hart is cleared.
abbrev pub clear_flag : ℕ → ℕ → Dm → Dm
clear_flag id b d = record d {
  debug_rom_flags = set d.debug_rom_flags id (bit_and (flags_at d id) (bit_not 8 (2 ^ b)));
}

-- The store has the length of an ID, and there is an entry of the array for it.
abbrev pub has_state : ℕ → ℕ → Dm → Bool
has_state len id d = (len == 4) && ltb id (length d.hart_state)

abbrev pub has_flags : ℕ → ℕ → Dm → Bool
has_flags len id d = (len == 4) && ltb id (length d.debug_rom_flags)

-- The answer to a store that names a hart.
abbrev pub named : Bool → Dm → Option (Dm × Bool)
named b d = if b then some (d, true) else none

module _ {S : Type 0} (sim : Sim S) where
  unfoldable pub hart_halted : ℕ → Dm → Dm
  unfolding halt_group
  hart_halted id d =
      let h = hart_at d id in
      let stopped = record d { hart_state = set d.hart_state id (record h { halted = true }) } in
      let d =
        if h.halted
        then d
        else if h.haltgroup == 0
        then stopped
        else halt_group h.haltgroup sim.harts stopped in
      if (selected_hart_id sim d == id) && not (bit (flags_at d id) debug_rom_flag_go)
      then record d { abstract_command_completed = true }
      else d

  unfoldable pub hart_resuming : ℕ → Dm → Dm
  hart_resuming id d = clear_flag id debug_rom_flag_resume (record d {
    hart_state = set d.hart_state id (record (hart_at d id) { halted = false; resumeack = true });
  })

  unfoldable pub raise_exception : Dm → Dm
  raise_exception d = if d.abstractcs.cmderr == cmderr_none then fail cmderr_exception d else d

  unfoldable pub store : ℕ → List ℕ → Dm → Option (Dm × Bool)
  unfolding hart_halted hart_resuming raise_exception read32
  store addr bytes d =
      let len = length bytes in
      let id = if len == 4 then read32 bytes 0 else 0 in
      if inside debug_data_start (datasize * 4) addr len
      then some (record d { dmdata = splice d.dmdata (addr - debug_data_start) bytes }, true)
      else if inside_word (debug_progbuf_start d.config) (program_buffer_bytes d.config) addr len
      then some (
        record d {
          program_buffer = splice d.program_buffer (addr - debug_progbuf_start d.config) bytes;
        },
        true,
      )
      else if addr == debug_rom_halted
      then named (has_state len id d) (hart_halted id d)
      else if addr == debug_rom_going
      then named (has_flags len id d) (clear_flag id debug_rom_flag_go d)
      else if addr == debug_rom_resuming
      then named (has_state len id d && has_flags len id d) (hart_resuming id d)
      else if addr == debug_rom_exception
      then some (raise_exception d, true)
      else some (d, false)

-- What the bus promises of a store: it leaves the module as it is, or it is one store of at most eight
-- bytes to the module, which is the device at 0, below the next one at 0x1000.
abbrev pub StoresThrough : {S : Type 0} → Sim S → Type 0
StoresThrough {S} sim =
    (len addr value : ℕ) (d e : Dm) (s t : S)
    → sim.store len addr value d s ≡ some (e, t)
    → (e ≡ d)
      ⊎ ((addr < 0x1000)
          × (bytes : List ℕ) × (b : Bool) × (length bytes ≤ 8)
          × (store sim addr bytes d ≡ some (e, b)))
