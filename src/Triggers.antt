-- ===== src/Triggers.antt =====
-- riscv/triggers.h: the triggers of a hart, and what they read of it.
-- A trigger is its common part and what its class adds. `delete` and `new` replace a trigger.
pub mod Registers
pub mod Match
pub mod TriggerModule
pub mod Chains
pub mod Napot
pub mod Outcomes
pub mod Steps
pub mod Legal
pub mod Settings
pub mod Watched
pub mod Protected
pub mod Isolated
mod Examples
use nnemu.Base.{
  ℕ, ◌*◌, ◌/◌, ◌%◌, ◌^◌, Bool, true, false, if◌then◌else◌, ltb, ◌||◌, ◌==◌, List, [], ◌∷◌,
}

pub data Operation : Type 0 where
  execute store load : Operation

-- `action_t`, as a number.
abbrev pub action_debug_exception : ℕ
action_debug_exception = 0

abbrev pub action_debug_mode : ℕ
action_debug_mode = 1

abbrev pub action_maxval : ℕ
action_maxval = 4

abbrev pub timing_before : Bool
timing_before = false

abbrev pub timing_after : Bool
timing_after = true

abbrev pub sselect_ignore : ℕ
sselect_ignore = 0

abbrev pub sselect_scontext : ℕ
sselect_scontext = 1

abbrev pub sselect_asid : ℕ
sselect_asid = 2

abbrev pub sselect_maxval : ℕ
sselect_maxval = 2

pub data MhselectMode : Type 0 where
  ignore mcontext vmid : MhselectMode

pub record MatchResult : Type 0 where
  pub timing : Bool
  pub action : ℕ

-- What the triggers read of the processor. `overflow` is what the compiler makes of an `int` shift that
-- does not fit an `int`.
pub record Proc : Type 0 where
  pub xlen : ℕ
  pub const_xlen : ℕ
  pub prv : ℕ
  pub v : Bool
  pub debug_mode : Bool
  pub has_s : Bool
  pub has_u : Bool
  pub has_h : Bool
  pub scontext : ℕ
  pub mcontext : ℕ
  pub satp : ℕ
  pub hgatp : ℕ
  pub overflow : ℕ → ℕ → ℕ

pub data Matching : Type 0 where
  equal napot ge lt mask_low mask_high : Matching

-- `mcontrol_common_t`.
pub record Mcontrol : Type 0 where
  pub dmode : Bool
  pub action : ℕ
  pub hit : Bool
  pub select : Bool
  pub timing : Bool
  pub chain : Bool
  pub matching : Matching
  pub on_execute : Bool
  pub on_store : Bool
  pub on_load : Bool

-- `trap_common_t`; `nmi` is a field of `itrigger_t` only.
pub record TrapCommon : Type 0 where
  pub dmode : Bool
  pub hit : Bool
  pub action : ℕ
  pub nmi : Bool

pub record Icount : Type 0 where
  pub dmode : Bool
  pub hit : Bool
  pub count : ℕ
  pub count_read_value : ℕ
  pub pending : Bool
  pub pending_read_value : Bool
  pub action : ℕ

pub data Kind : Type 0 where
  disabled : Bool → Kind
  itrigger etrigger : TrapCommon → Kind
  mcontrol mcontrol6 : Mcontrol → Kind
  icount : Icount → Kind

pub record Trigger : Type 0 where
  pub tdata2 : ℕ
  pub vs : Bool
  pub vu : Bool
  pub m : Bool
  pub s : Bool
  pub u : Bool
  pub sselect : ℕ
  pub svalue : ℕ
  pub sbytemask : ℕ
  pub mhselect : ℕ
  pub mhvalue : ℕ
  pub kind : Kind

-- The virtual functions of one line.
abbrev pub get_dmode : Kind → Bool
get_dmode (Kind.disabled dmode) = dmode
get_dmode (Kind.itrigger k) = k.dmode
get_dmode (Kind.etrigger k) = k.dmode
get_dmode (Kind.mcontrol k) = k.dmode
get_dmode (Kind.mcontrol6 k) = k.dmode
get_dmode (Kind.icount k) = k.dmode

abbrev pub get_chain : Kind → Bool
get_chain (Kind.mcontrol k) = k.chain
get_chain (Kind.mcontrol6 k) = k.chain
get_chain k = false

abbrev pub get_execute : Kind → Bool
get_execute (Kind.mcontrol k) = k.on_execute
get_execute (Kind.mcontrol6 k) = k.on_execute
get_execute k = false

abbrev pub get_store : Kind → Bool
get_store (Kind.mcontrol k) = k.on_store
get_store (Kind.mcontrol6 k) = k.on_store
get_store k = false

abbrev pub get_load : Kind → Bool
get_load (Kind.mcontrol k) = k.on_load
get_load (Kind.mcontrol6 k) = k.on_load
get_load k = false

abbrev pub icount_check_needed : Kind → Bool
icount_check_needed (Kind.icount k) = ltb 0 k.count || k.pending
icount_check_needed k = false

abbrev pub bool_number : Bool → ℕ
bool_number b = if b then 1 else 0

-- `x << k` of an `int`, as a 64-bit word.
abbrev pub int_shift : Proc → ℕ → ℕ → ℕ
int_shift p x k = if ltb (x * 2 ^ k) (2 ^ 31) then x * 2 ^ k else p.overflow x k
