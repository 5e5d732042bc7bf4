-- ===== src/DebugModule/Locked.antt =====
-- riscv/debug_module.cc: writes of a debugger that has not authenticated itself.
use nnemu.Base.{Bool, ◌⊎◌, Option, false, some, ℕ, ◌≡◌}
use nnemu.DebugModule.{Dm, HaltRequest, Sim}

-- The memories of the module and what it knows of the harts are as they were, no hart is asked to halt
-- that was not asked before, and the module is still locked.
pub record IsUntouched (d e : Dm) : Type 0 where
  pub still_locked : e.authenticated ≡ false
  pub same_config : e.config ≡ d.config
  pub same_data : e.dmdata ≡ d.dmdata
  pub same_buffer : e.program_buffer ≡ d.program_buffer
  pub same_abstract : e.debug_abstract ≡ d.debug_abstract
  pub same_harts : e.hart_state ≡ d.hart_state
  pub same_flags : e.debug_rom_flags ≡ d.debug_rom_flags
  pub same_mask : e.hart_array_mask ≡ d.hart_array_mask
  pub requests :
      (id : ℕ) → (e.halt_request id ≡ d.halt_request id) ⊎ (e.halt_request id ≡ HaltRequest.hr_none)

module _ {S : Type 0} (sim : Sim S) where
  -- The result of a write that reaches nothing.
  abbrev pub Harmless : Dm → S → Option (Dm × S × Bool) → Type 0
  Harmless d s r = (d' : Dm) × (b : Bool) × (r ≡ some (d', s, b)) × IsUntouched d d'
