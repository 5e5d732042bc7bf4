-- ===== src/DebugModule/Dmi.antt =====
-- riscv/debug_module.cc: the registers that a debugger reads and writes.
-- A result is none if a trap of the system bus goes through; the value of a read is none, and that of a
-- write false, if the module refuses the address.
pub mod Read
pub mod Write
use nnemu.Base.{Bool, Option, if◌then◌else◌, leb, ltb, none, not, some, ℕ, ◌&&◌, ◌+◌, ◌==◌}
use nnemu.Base.Bits.{bit}
use nnemu.DebugModule.Fields.{dm_data0, dm_progbuf0}
use nnemu.DebugModule.{Dm, Sim, cmderr_busy, cmderr_none, datasize}
use nnemu.DebugModule.Commands.{fail, perform_abstract_command, sb_autoincrement}

abbrev pub at_data : ℕ → Bool
at_data address = leb dm_data0 address && ltb address (dm_data0 + datasize)

abbrev pub at_progbuf : Dm → ℕ → Bool
at_progbuf d address = leb dm_progbuf0 address && ltb address (dm_progbuf0 + d.config.progbufsize)

-- An access to the data while a command runs is an error.
abbrev pub note_busy : Dm → Dm
note_busy d =
    if d.abstractcs.busy && (d.abstractcs.cmderr == cmderr_none) then fail cmderr_busy d else d

-- The command that an access to entry `i` starts again.
abbrev pub autoexec : {S : Type 0} → Sim S → Bool → ℕ → ℕ → Dm → Dm
autoexec sim busy mask i d = if not busy && bit mask i then perform_abstract_command sim d else d

-- After an access to the bus: the increment, whether it failed or not, or only if it did not.
abbrev pub advanced : {S : Type 0} → Option (Dm × S) → Option (Dm × S)
advanced none = none
advanced (some r) = some (sb_autoincrement r.0, r.1)

abbrev pub incremented : Dm → Dm
incremented d = if d.sbcs.error == 0 then sb_autoincrement d else d

abbrev pub settled : {S : Type 0} → Option (Dm × S) → Option (Dm × S)
settled none = none
settled (some r) = some (incremented r.0, r.1)

-- The answer of an access: a write that was taken, or the value that was read.
abbrev pub answered : {S A : Type 0} → A → Option (Dm × S) → Option (Dm × S × A)
answered a none = none
answered a (some r) = some (r.0, r.1, a)
