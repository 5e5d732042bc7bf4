-- ===== src/Processor.antt =====
-- riscv/processor.cc: `take_interrupt`. The icount trigger, which may fire before the trap, is left out.
pub mod Priority
pub mod Delegation
pub mod Examples
use nnemu.Base.{
  ℕ, zero, suc, ◌+◌, ◌-◌, ◌*◌, ◌/◌, ◌^◌, Bool, true, false, not, ◌&&◌, ◌||◌, ltb, ◌==◌, truthy,
  if◌then◌else◌, Option, none, some, bit_and, bit_or,
}
use nnemu.Base.Bits.{bit_not}
use nnemu.Arith.{ctz}
use nnemu.Encoding.{
  prv_m, prv_s, mnstatus_nmie, irq_m_ext, mip_ssip, mip_vssip, mip_msip, mip_stip, mip_vstip,
  mip_mtip, mip_seip, mip_vseip, mip_meip, mip_lcofip, mstatus_mie, mstatus_sie,
}

-- What `take_interrupt` reads of the state, and the flag that it clears.
pub record Hart : Type 0 where
  pub prv : ℕ
  pub v : Bool
  pub debug_mode : Bool
  pub mstatus : ℕ
  pub sstatus : ℕ
  pub mideleg : ℕ
  pub hideleg : ℕ
  pub mnstatus : Option ℕ
  pub max_xlen : ℕ
  pub in_wfi : Bool

-- `-b` of a flag.
abbrev pub mask_of : Bool → ℕ
mask_of b = if b then 2 ^ 64 - 1 else 0

abbrev pub m_enabled : Hart → Bool
m_enabled h = ltb h.prv prv_m || ((h.prv == prv_m) && truthy (bit_and h.mstatus mstatus_mie))

abbrev pub sie : Hart → Bool
sie h = truthy (bit_and h.sstatus mstatus_sie)

abbrev pub vs_enabled : Hart → Bool
vs_enabled h = ltb h.prv prv_s || ((h.prv == prv_s) && sie h)

abbrev pub hs_enabled : Hart → Bool
hs_enabled h = h.v || vs_enabled h

-- The interrupts of the highest level that has any.
unfoldable pub enabled_interrupts : ℕ → Hart → ℕ
enabled_interrupts pending h =
    let m = bit_and (bit_and pending (bit_not 64 h.mideleg)) (mask_of (m_enabled h)) in
    let deleg_to_hs = bit_and h.mideleg (bit_not 64 h.hideleg) in
    let hs = bit_and (bit_and pending deleg_to_hs) (mask_of (hs_enabled h)) in
    let vs = bit_and (bit_and pending h.hideleg) (mask_of (vs_enabled h)) in
    if not (m == 0) then m else if h.v && (hs == 0) then vs else hs

-- The interrupts that are left by priority; `none` is `abort`.
unfoldable pub prioritise : ℕ → Option ℕ
prioritise enabled =
    if truthy (enabled / 2 ^ (irq_m_ext + 1))
    then some (enabled / 2 ^ (irq_m_ext + 1) * 2 ^ (irq_m_ext + 1))
    else if truthy (bit_and enabled mip_meip)
    then some mip_meip
    else if truthy (bit_and enabled mip_msip)
    then some mip_msip
    else if truthy (bit_and enabled mip_mtip)
    then some mip_mtip
    else if truthy (bit_and enabled mip_seip)
    then some mip_seip
    else if truthy (bit_and enabled mip_ssip)
    then some mip_ssip
    else if truthy (bit_and enabled mip_stip)
    then some mip_stip
    else if truthy (bit_and enabled mip_lcofip)
    then some mip_lcofip
    else if truthy (bit_and enabled mip_vseip)
    then some mip_vseip
    else if truthy (bit_and enabled mip_vssip)
    then some mip_vssip
    else if truthy (bit_and enabled mip_vstip)
    then some mip_vstip
    else none

pub data Taken : Type 0 where
  no_trap aborted : Taken
  trap : ℕ → Taken

unfoldable pub nmie : Hart → Bool
nmie h = elim h.mnstatus [ none ↦ true | some mnstatus ↦ truthy (bit_and mnstatus mnstatus_nmie) ]

unfoldable pub take_interrupt : ℕ → Hart → Hart × Taken
take_interrupt pending h =
    let enabled = enabled_interrupts pending h in
    let h' = record h { in_wfi = false } in
    if pending == 0
    then (h, Taken.no_trap)
    else if not h.debug_mode && (nmie h && truthy enabled)
    then (elim (prioritise enabled) [
      | none ↦ (h', Taken.aborted)
      | some chosen ↦ (h', Taken.trap (bit_or (2 ^ (h.max_xlen - 1)) (ctz chosen)))
    ])
    else (h', Taken.no_trap)
