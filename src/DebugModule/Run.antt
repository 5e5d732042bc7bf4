-- ===== src/DebugModule/Run.antt =====
-- riscv/debug_module.cc: accesses of a debugger and of the harts in any order.
use nnemu.Base.{Bool, List, Option, [], length, none, some, ℕ, ◌+◌, ◌<◌, ◌^◌, ◌∷◌}
use nnemu.DebugModule.{Dm, Sim, proc_reset, run_test_idle}
use nnemu.DebugModule.Dmi.Write.{dmi_write}
use nnemu.DebugModule.Dmi.Read.{dmi_read}
use nnemu.DebugModule.Program.{IsSized}
use nnemu.DebugModule.Access.{store}
use nnemu.DebugModule.Stored.{Names}

pub data Event : Type 0 where
  read : ℕ → Event
  write : ℕ → ℕ → ℕ → Event
  store_bytes : ℕ → List ℕ → Event
  idle : Event
  hart_reset : ℕ → Event

-- How a run ends: a trap of the system bus goes through, a store has no defined result, or there is a
-- module.
pub data Ending (S : Type 0) : Type 0 where
  trapped undefined : Ending S
  left : Dm → S → Ending S

abbrev pub answer : {S A : Type 0} → Option (Dm × S × A) → Ending S
answer none = Ending.trapped
answer (some r) = Ending.left r.0 r.1

abbrev pub stored : {S : Type 0} → S → Option (Dm × Bool) → Ending S
stored s none = Ending.undefined
stored s (some r) = Ending.left r.0 s

-- A store of a hart that does not wrap around at the end of the address space, and names a hart below
-- `n` where it reports one.
abbrev pub IsMeant : ℕ → Event → Type 0
IsMeant n (Event.store_bytes addr bytes) = (addr + length bytes < 2 ^ 64) × Names n addr bytes
IsMeant n event = Unit

abbrev pub Each : {A : Type 0} → (A → Type 0) → List A → Type 0
Each P [] = Unit
Each P (x ∷ xs) = P x × Each P xs

-- A run that ends with a module has its arrays of their sizes; none ends undefined.
abbrev pub EndsSized : {S : Type 0} → ℕ → Ending S → Type 0
EndsSized n Ending.trapped = Unit
EndsSized n Ending.undefined = ⊥
EndsSized n (Ending.left d s) = IsSized n d

module _ {S : Type 0} (sim : Sim S) where
  abbrev pub step : Event → Dm → S → Ending S
  step (Event.read address) d s = answer (dmi_read sim address d s)
  step (Event.write random address value) d s = answer (dmi_write sim random address value d s)
  step (Event.store_bytes addr bytes) d s = stored s (store sim addr bytes d)
  step Event.idle d s = Ending.left (run_test_idle d) s
  step (Event.hart_reset id) d s = Ending.left (proc_reset id d) s

  abbrev pub run : List Event → Ending S → Ending S
  run [] e = e
  run (event ∷ events) Ending.trapped = Ending.trapped
  run (event ∷ events) Ending.undefined = Ending.undefined
  run (event ∷ events) (Ending.left d s) = run events (step event d s)
