-- ===== src/Jtag/Tap.antt =====
-- riscv/jtag_dtm.cc: the state machine of the test access port.
use nnemu.Base.{
  ℕ, ◌-◌, ◌≤◌, ◌≡◌, inl, inr, refl, ap, arith, Bool, true, false, not, ◌&&◌, Bool-cases, List, [],
  ◌∷◌, length, truthy, ◌==◌, bit_and,
}
use nnemu.Jtag.{
  Jtag, State, next, DebugModule, reset, capture, update, rise, fall, set_pins, ir_dtmcontrol,
  ir_bypass, ir_dbus, dtmcontrol_dmireset, dtmcontrol_dmihardreset,
}

-- The clocks with TMS high that lead to the reset state.
distance : State → ℕ
distance State.test_logic_reset = 0
distance State.select_ir_scan = 1
distance State.select_dr_scan = 2
distance State.run_test_idle = 3
distance State.update_dr = 3
distance State.update_ir = 3
distance State.exit1_dr = 4
distance State.exit2_dr = 4
distance State.exit1_ir = 4
distance State.exit2_ir = 4
distance State.capture_dr = 5
distance State.shift_dr = 5
distance State.pause_dr = 5
distance State.capture_ir = 5
distance State.shift_ir = 5
distance State.pause_ir = 5

distance_le : (s : State) → distance s ≤ 5
unfolding distance
distance_le s = ground arith

distance-next : (s : State) → distance (next s true) ≡ distance s - 1
unfolding distance next
distance-next s = ground arith

distance_zero : (s : State) → distance s ≡ 0 → s ≡ State.test_logic_reset
unfolding distance
distance_zero s h = ground arith

capture-state : (j : Jtag) → (capture j).state ≡ j.state
unfolding capture
capture-state j = ground arith

rise_from : (s : State) (j : Jtag) → (rise (record j { state = s })).state ≡ next s j.tms
unfolding rise
rise_from State.shift_dr j = refl
rise_from State.shift_ir j = refl
rise_from s j = refl

module _ {H : Type 0} (dm : DebugModule H) where
  -- A call without a rising edge keeps the state, unless a hard reset puts it back.
  update-distance : (j : Jtag) (h : H) → distance (update dm j h).0.state ≤ distance j.state
  unfolding update reset distance
  update-distance j h = elim (Bool-cases (j.ir == ir_dtmcontrol)) [
    | inl control ↦ elim (Bool-cases (truthy (bit_and j.dr dtmcontrol_dmihardreset))) [
      | inl hard ↦ rw (control, hard, update) (omega arith)
      | inr soft ↦ elim (Bool-cases (truthy (bit_and j.dr dtmcontrol_dmireset))) [
        | inl e ↦ rw (control, soft, e, update) (omega arith)
        | inr e ↦ rw (control, soft, e, update) (omega arith)
      ]
    ]
    | inr other ↦ elim (Bool-cases (j.ir == ir_bypass)) [
      | inl e ↦ rw (other, e, update) (omega arith)
      | inr e ↦ elim (Bool-cases ((j.ir == ir_dbus) && not j.busy_stuck)) [
        | inl b ↦ rw (other, e, b, update) (omega arith)
        | inr b ↦ rw (other, e, b, update) (omega arith)
      ]
    ]
  ]

  fall_from :
      (s : State) (j : Jtag) (h : H)
      → distance (fall dm (record j { state = s }) h).0.state ≤ distance s
  unfolding fall
  fall_from State.run_test_idle j h = omega arith
  fall_from State.test_logic_reset j h = omega arith
  fall_from State.capture_dr j h =
      omega (arith, ap distance (capture-state (record j { state = State.capture_dr })))
  fall_from State.shift_dr j h = omega arith
  fall_from State.update_dr j h = update-distance (record j { state = State.update_dr }) h
  fall_from State.shift_ir j h = omega arith
  fall_from s j h = omega arith

  -- One clock: the pins change while TCK is low, and then it rises.
  abbrev pub clock : Bool → Bool → Jtag × H → Jtag × H
  clock tms tdi (j, h) =
      let low = set_pins dm false tms tdi j h in set_pins dm true tms tdi low.0 low.1

  clock-distance :
      (tdi : Bool) (x : Jtag × H) → distance (clock true tdi x).0.state ≤ distance x.0.state - 1
  unfolding set_pins
  clock-distance tdi (j, h) =
      let j' = (fall dm j h).0 in
      let low = record j' { tck = false; tms = true; tdi = tdi } in
      omega (
        arith,
        ap distance (rise_from low.state low),
        distance-next j'.state,
        fall_from j.state j h,
      )

  -- Clocks with TMS high, with any levels of TDI.
  unfoldable pub clocks_high : List Bool → Jtag × H → Jtag × H
  clocks_high [] x = x
  clocks_high (tdi ∷ rest) x = clocks_high rest (clock true tdi x)

  clocks_high-distance :
      (tdis : List Bool) (x : Jtag × H)
      → distance (clocks_high tdis x).0.state ≤ distance x.0.state - length tdis
  unfolding clocks_high
  clocks_high-distance [] x = omega arith
  clocks_high-distance (tdi ∷ rest) x =
      omega (arith, clock-distance tdi x, clocks_high-distance rest (clock true tdi x))

-- From every state of the port, and whatever the data registers, the levels of TDI and the debug
-- module are, five clocks with TMS high lead to the reset state.
pub five_clocks_reset :
    {H : Type 0} (dm : DebugModule H) (tdis : List Bool) (x : Jtag × H)
    → 5 ≤ length tdis
    → (clocks_high dm tdis x).0.state ≡ State.test_logic_reset
five_clocks_reset dm tdis x h =
    distance_zero (clocks_high dm tdis x).0.state
      (omega (arith, clocks_high-distance dm tdis x, distance_le x.0.state))
