-- ===== src/Jtag/Examples.antt =====
-- Tests of the JTAG port, and its theorems at concrete inputs.
use nnemu.Base.{ℕ, ◌+◌, ◌*◌, ◌≡◌, refl, arith, Bool, true, false, some, List, [], ◌∷◌}
use nnemu.Jtag.{
  Jtag, State, DebugModule, make, request, next, rise, fall, update, ir_dbus, set_pins,
}
use nnemu.Jtag.Tap.{clocks_high, five_clocks_reset}
use nnemu.Jtag.Scan.{Shifting, scan, scan-exchange, value, low_bits}
use nnemu.Jtag.Busy.{Pins, Stuck, calls, uncleared, calls-Stuck}

-- A module with one register, which counts its idle cycles.
abbrev counter : DebugModule (ℕ × ℕ)
counter = record {
  dmi_read = λ address h. (h, some h.0);
  dmi_write = λ address data' h. ((data', h.1), true);
  run_test_idle = λ h. (h.0, h.1 + 1);
}

abbrev fresh_port : Jtag
fresh_port = make 2 0 0 0 0 false

-- A port that shifts the 32 bits of the identification register.
abbrev shifting_port : Jtag
shifting_port = record fresh_port {
  state = State.shift_dr;
  ir = 1;
  dr = 0xdeadbeef;
  dr_length = 32;
}

abbrev word_bits : List Bool
word_bits = low_bits 32 0x12345678

-- A write of 7 to the register, then a read of it after the module idled.
abbrev request_port : ℕ → Jtag
request_port dr = record fresh_port {
  state = State.update_dr;
  ir = ir_dbus;
  dr = dr;
  dr_length = 40;
}

write_test : (update counter (request_port (7 * 4 + 2)) (0, 0)).1 ≡ (7, 0)
unfolding update make request
write_test = refl

read_test : (update counter (request_port 1) (7, 0)).0.dmi ≡ 7 * 4
unfolding update make request
read_test = refl

abbrev busy_port : Jtag
busy_port = record fresh_port {
  state = State.update_dr;
  ir = ir_dbus;
  dr = 7 * 4 + 2;
  busy_stuck = true;
}

abbrev some_pins : List Pins
some_pins =
    record { tck = false; tms = false; tdi = false }
    ∷ record { tck = true; tms = false; tdi = false }
    ∷ record { tck = false; tms = false; tdi = false }
    ∷ []

five_clocks_reset_example :
    (clocks_high counter (true ∷ false ∷ true ∷ true ∷ false ∷ []) (shifting_port, (0, 0))).0.state
    ≡ State.test_logic_reset
five_clocks_reset_example =
    five_clocks_reset counter (true ∷ false ∷ true ∷ true ∷ false ∷ []) (shifting_port, (0, 0))
      (omega arith)

shifting_port-Shifting : Shifting 32 0xdeadbeef shifting_port
shifting_port-Shifting = record {
  in_shift = refl;
  wide = refl;
  word = omega arith;
  nonempty = omega arith;
  holds = refl;
  fits = omega arith;
}

scan-exchange_example :
    ((scan counter word_bits (shifting_port, (0, 0))).0.0.dr ≡ value word_bits)
    × ((scan counter word_bits (shifting_port, (0, 0))).0.1 ≡ (0, 0))
    × ((scan counter word_bits (shifting_port, (0, 0))).1 ≡ low_bits 32 0xdeadbeef)
scan-exchange_example =
    scan-exchange counter 32 0xdeadbeef word_bits shifting_port (0, 0) shifting_port-Shifting refl

calls-Stuck_example :
    Stuck counter busy_port.dmi (5, 0) (calls counter some_pins (busy_port, (5, 0)))
unfolding uncleared set_pins rise fall update next
calls-Stuck_example = calls-Stuck counter some_pins (busy_port, (5, 0)) refl refl
