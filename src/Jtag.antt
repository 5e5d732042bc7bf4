-- ===== src/Jtag.antt =====
-- riscv/jtag_dtm.cc and riscv/jtag_dtm.h: the JTAG port of the debug module.
-- The debug module is a parameter: `H` is its state. The text printed for an unsupported instruction
-- is left out.
pub mod Tap
pub mod Scan
pub mod Busy
pub mod Examples
use nnemu.Base.{
  ℕ, zero, suc, ◌+◌, ◌-◌, ◌*◌, ◌/◌, ◌%◌, ◌^◌, Bool, true, false, not, ◌&&◌, ◌||◌, ltb, ◌==◌, truthy,
  if◌then◌else◌, Option, none, some, bit_and, bit_or,
}
use nnemu.Base.Bits.{bit_not, odd}

pub data State : Type 0 where
  test_logic_reset run_test_idle select_dr_scan capture_dr shift_dr exit1_dr pause_dr exit2_dr
        update_dr :
      State
  select_ir_scan capture_ir shift_ir exit1_ir pause_ir exit2_ir update_ir : State

-- The table `next`, by the level of TMS.
unfoldable pub next : State → Bool → State
next State.test_logic_reset tms = if tms then State.test_logic_reset else State.run_test_idle
next State.run_test_idle tms = if tms then State.select_dr_scan else State.run_test_idle
next State.select_dr_scan tms = if tms then State.select_ir_scan else State.capture_dr
next State.capture_dr tms = if tms then State.exit1_dr else State.shift_dr
next State.shift_dr tms = if tms then State.exit1_dr else State.shift_dr
next State.exit1_dr tms = if tms then State.update_dr else State.pause_dr
next State.pause_dr tms = if tms then State.exit2_dr else State.pause_dr
next State.exit2_dr tms = if tms then State.update_dr else State.shift_dr
next State.update_dr tms = if tms then State.select_dr_scan else State.run_test_idle
next State.select_ir_scan tms = if tms then State.test_logic_reset else State.capture_ir
next State.capture_ir tms = if tms then State.exit1_ir else State.shift_ir
next State.shift_ir tms = if tms then State.exit1_ir else State.shift_ir
next State.exit1_ir tms = if tms then State.update_ir else State.pause_ir
next State.pause_ir tms = if tms then State.exit2_ir else State.pause_ir
next State.exit2_ir tms = if tms then State.update_ir else State.shift_ir
next State.update_ir tms = if tms then State.select_dr_scan else State.run_test_idle

abbrev pub ir_idcode : ℕ
ir_idcode = 1

abbrev pub ir_dtmcontrol : ℕ
ir_dtmcontrol = 0x10

abbrev pub ir_dbus : ℕ
ir_dbus = 0x11

abbrev pub ir_bypass : ℕ
ir_bypass = 0x1f

abbrev pub dtmcontrol_dmireset : ℕ
dtmcontrol_dmireset = 2 ^ 16

abbrev pub dtmcontrol_dmihardreset : ℕ
dtmcontrol_dmihardreset = 2 ^ 17

abbrev pub dmi_op_status_success : ℕ
dmi_op_status_success = 0

abbrev pub dmi_op_status_failed : ℕ
dmi_op_status_failed = 2

abbrev pub dmi_op_status_busy : ℕ
dmi_op_status_busy = 3

abbrev pub dmi_op_read : ℕ
dmi_op_read = 1

abbrev pub dmi_op_write : ℕ
dmi_op_write = 2

abbrev pub ir_length : ℕ
ir_length = 5

abbrev pub abits : ℕ
abits = 6

abbrev pub idcode : ℕ
idcode = 0xdeadbeef

pub record Jtag : Type 0 where
  pub required_rti_cycles : ℕ
  pub tck : Bool
  pub tms : Bool
  pub tdi : Bool
  pub tdo : Bool
  pub ir : ℕ
  pub dr : ℕ
  pub dr_length : ℕ
  pub dtmcontrol : ℕ
  pub dmi : ℕ
  pub bypass : ℕ
  pub rti_remaining : ℕ
  pub busy_stuck : Bool
  pub state : State

-- What the constructor leaves alone is an argument.
unfoldable pub make : ℕ → ℕ → ℕ → ℕ → ℕ → Bool → Jtag
make required_rti_cycles ir dr dr_length rti_remaining busy_stuck = record {
  required_rti_cycles = required_rti_cycles;
  tck = false;
  tms = false;
  tdi = false;
  tdo = false;
  ir = ir;
  dr = dr;
  dr_length = dr_length;
  dtmcontrol = bit_or (abits * 2 ^ 4) 1;
  dmi = dmi_op_status_success;
  bypass = 0;
  rti_remaining = rti_remaining;
  busy_stuck = busy_stuck;
  state = State.test_logic_reset;
}

unfoldable pub reset : Jtag → Jtag
reset j = record j {
  state = State.test_logic_reset;
  busy_stuck = false;
  rti_remaining = 0;
  dmi = 0;
}

-- The public operations of the debug module; a read gives the value where it succeeds.
pub record DebugModule (H : Type 0) : Type 0 where
  pub dmi_read : ℕ → H → H × Option ℕ
  pub dmi_write : ℕ → ℕ → H → H × Bool
  pub run_test_idle : H → H

unfoldable pub capture : Jtag → Jtag
capture j =
    if j.ir == ir_idcode
    then record j { dr = idcode; dr_length = 32 }
    else if j.ir == ir_dtmcontrol
    then record j { dr = j.dtmcontrol; dr_length = 32 }
    else if j.ir == ir_dbus
    then (if ltb 0 j.rti_remaining || j.busy_stuck
        then record j { dr = dmi_op_status_busy; busy_stuck = true; dr_length = abits + 34 }
        else record j { dr = j.dmi; dr_length = abits + 34 })
    else if j.ir == ir_bypass
    then record j { dr = j.bypass; dr_length = 1 }
    else j

-- The fields of a debug-bus request, and `set_field` of two of them.
abbrev pub dmi_op : ℕ → ℕ
dmi_op dr = bit_and dr 3

abbrev pub dmi_data : ℕ → ℕ
dmi_data dr = dr / 2 ^ 2 % 2 ^ 32

abbrev pub dmi_address : ℕ → ℕ
dmi_address dr = dr / 2 ^ 34 % 2 ^ abits

abbrev pub set_op : ℕ → ℕ → ℕ
set_op dmi op = bit_or (bit_and dmi (bit_not 64 3)) op

abbrev pub set_data : ℕ → ℕ → ℕ
set_data dmi value =
    bit_or (bit_and dmi (bit_not 64 (0xffffffff * 4)))
      (bit_and (value * 4 % 2 ^ 64) (0xffffffff * 4))

-- The rising edge of the clock, with the levels of TMS and TDI from the call before.
unfoldable pub rise : Jtag → Jtag
rise j =
    let after = next j.state j.tms in
    let t = if j.tdi then 1 else 0 in
    elim j.state [
      | State.shift_dr ↦ record j {
        dr = bit_or (j.dr / 2) (t * 2 ^ (j.dr_length - 1) % 2 ^ 64);
        state = after;
      }
      | State.shift_ir ↦ record j {
        ir = bit_or (j.ir / 2) (t * 2 ^ (ir_length - 1));
        state = after;
      }
      | _ ↦ record j { state = after }
    ]

module _ {H : Type 0} (dm : DebugModule H) where
  -- The request of `IR_DBUS`: the new state of the module, the data register of the bus, and success.
  unfoldable pub request : ℕ → H → H × ℕ × Bool
  request dr h =
      let read_result = dm.dmi_read (dmi_address dr) h in
      let write_result = dm.dmi_write (dmi_address dr) (dmi_data dr) h in
      if dmi_op dr == dmi_op_read
      then (elim read_result.1 [
        | some value ↦ (read_result.0, set_data dr value, true)
        | none ↦ (read_result.0, dr, false)
      ])
      else if dmi_op dr == dmi_op_write
      then (write_result.0, dr, write_result.1)
      else (h, dr, true)

  unfoldable pub update : Jtag → H → Jtag × H
  update j h =
      let j' =
        if truthy (bit_and j.dr dtmcontrol_dmireset) then record j { busy_stuck = false } else j in
      let done = request j.dr h in
      if j.ir == ir_dtmcontrol
      then (if truthy (bit_and j.dr dtmcontrol_dmihardreset) then reset j' else j', h)
      else if j.ir == ir_bypass
      then (record j { bypass = j.dr % 2 ^ 32 }, h)
      else if (j.ir == ir_dbus) && not j.busy_stuck
      then (
        record j {
          dmi = set_op done.1 (if done.2 then dmi_op_status_success else dmi_op_status_failed);
          rti_remaining = j.required_rti_cycles;
        },
        done.0,
      )
      else (j, h)

  -- Any other call.
  unfoldable pub fall : Jtag → H → Jtag × H
  fall j h = elim j.state [
    | State.run_test_idle ↦ (record j { rti_remaining = j.rti_remaining - 1 }, dm.run_test_idle h)
    | State.test_logic_reset ↦ (record j { ir = ir_idcode }, h)
    | State.capture_dr ↦ (capture j, h)
    | State.shift_dr ↦ (record j { tdo = odd j.dr }, h)
    | State.update_dr ↦ update j h
    | State.shift_ir ↦ (record j { tdo = odd j.ir }, h)
    | _ ↦ (j, h)
  ]

  unfoldable pub set_pins : Bool → Bool → Bool → Jtag → H → Jtag × H
  set_pins tck tms tdi j h =
      let (j', h') = if tck && not j.tck then (rise j, h) else fall j h in
      (record j' { tck = tck; tms = tms; tdi = tdi }, h')
