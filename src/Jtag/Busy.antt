-- ===== src/Jtag/Busy.antt =====
-- riscv/jtag_dtm.cc: the busy state of the port.
use nnemu.Base.{
  subst, ℕ, ◌≡◌, refl, ap, sym, ◌∙◌, arith, Bool, true, false, not, ◌&&◌, ◌||◌, Bool-cases, inl,
  inr, List, [], ◌∷◌, truthy, ◌==◌, bit_and,
}
use nnemu.Jtag.{
  Jtag, State, DebugModule, capture, update, rise, fall, set_pins, ir_dtmcontrol, ir_bypass,
  dtmcontrol_dmireset, dtmcontrol_dmihardreset,
}

-- The levels of TCK, TMS and TDI of a call.
pub record Pins : Type 0 where
  pub tck : Bool
  pub tms : Bool
  pub tdi : Bool

abbrev pub is_update : State → Bool
is_update State.update_dr = true
is_update s = false

-- The call that clears the busy state: no rising edge, in UPDATE_DR, with one of the reset bits.
abbrev pub clears : Pins → Jtag → Bool
clears p j =
    not (p.tck && not j.tck)
    && (is_update j.state
        && ((j.ir == ir_dtmcontrol)
            && (truthy (bit_and j.dr dtmcontrol_dmireset)
                || truthy (bit_and j.dr dtmcontrol_dmihardreset))))

module _ {H : Type 0} (dm : DebugModule H) where
  -- The debug module was only told of idle cycles.
  pub data Idled : H → H → Type 0 where
    idled_none : (h : H) → Idled h h
    idled_more : (h h' : H) → Idled (dm.run_test_idle h) h' → Idled h h'

  unfoldable pub calls : List Pins → Jtag × H → Jtag × H
  calls [] x = x
  calls (p ∷ rest) x = calls rest (set_pins dm p.tck p.tms p.tdi x.0 x.1)

  -- None of the calls clears the busy state.
  unfoldable pub uncleared : List Pins → Jtag × H → Bool
  uncleared [] x = true
  uncleared (p ∷ rest) x =
      not (clears p x.0) && uncleared rest (set_pins dm p.tck p.tms p.tdi x.0 x.1)

  -- The port is busy, holds `dmi`, and the module idled since `h`.
  pub record Stuck (dmi : ℕ) (h : H) (x : Jtag × H) : Type 0 where
    pub busy : x.0.busy_stuck ≡ true
    pub kept : x.0.dmi ≡ dmi
    pub idled : Idled h x.1

  update-Stuck :
      (j : Jtag) (h : H)
      → j.busy_stuck ≡ true
      → ((j.ir == ir_dtmcontrol)
          && (truthy (bit_and j.dr dtmcontrol_dmireset)
              || truthy (bit_and j.dr dtmcontrol_dmihardreset)))
        ≡ false
      → Stuck j.dmi h (update dm j h)
  unfolding update
  update-Stuck j h busy keeps =
      let stays : (x : Jtag × H) → x ≡ (j, h) → Stuck j.dmi h x = λ x e. record {
        busy = ap (λ y. y.0.busy_stuck) e ∙ busy;
        kept = ap (λ y. y.0.dmi) e;
        idled = subst (λ y. Idled h y.1) (sym e) (idled_none h);
      } in
      elim (Bool-cases (j.ir == ir_dtmcontrol)) [
        | inl control ↦
            let soft : truthy (bit_and j.dr dtmcontrol_dmireset) ≡ false =
              ground (arith, keeps, control) in
            let hard : truthy (bit_and j.dr dtmcontrol_dmihardreset) ≡ false =
              ground (arith, keeps, control) in
            stays (update dm j h) (rw (control, soft, hard, update) refl)
        | inr other ↦ elim (Bool-cases (j.ir == ir_bypass)) [
          | inl e ↦
              rw (other, e, update) (record { busy = busy; kept = refl; idled = idled_none h })
          | inr e ↦ stays (update dm j h) (rw (other, e, busy, update) (ground arith))
        ]
      ]

  capture-Stuck :
      (j : Jtag) → j.busy_stuck ≡ true → ((capture j).busy_stuck ≡ true) × ((capture j).dmi ≡ j.dmi)
  unfolding capture
  capture-Stuck j busy = (ground arith, ground arith)

  fall_from-Stuck :
      (s : State) (j : Jtag) (h : H)
      → j.busy_stuck ≡ true
      → (is_update s
          && ((j.ir == ir_dtmcontrol)
              && (truthy (bit_and j.dr dtmcontrol_dmireset)
                  || truthy (bit_and j.dr dtmcontrol_dmihardreset))))
        ≡ false
      → Stuck j.dmi h (fall dm (record j { state = s }) h)
  unfolding fall
  fall_from-Stuck State.run_test_idle j h busy keeps = record {
    busy = busy;
    kept = refl;
    idled = idled_more h (dm.run_test_idle h) (idled_none (dm.run_test_idle h));
  }
  fall_from-Stuck State.capture_dr j h busy keeps =
      let after = capture-Stuck (record j { state = State.capture_dr }) busy in
      record { busy = after.0; kept = after.1; idled = idled_none h }
  fall_from-Stuck State.update_dr j h busy keeps =
      update-Stuck (record j { state = State.update_dr }) h busy keeps
  fall_from-Stuck s j h busy keeps = record { busy = busy; kept = refl; idled = idled_none h }

  rise_from-Stuck :
      (s : State) (j : Jtag) (h : H)
      → j.busy_stuck ≡ true
      → Stuck j.dmi h (rise (record j { state = s }), h)
  unfolding rise
  rise_from-Stuck State.shift_dr j h busy = record {
    busy = busy;
    kept = refl;
    idled = idled_none h;
  }
  rise_from-Stuck State.shift_ir j h busy = record {
    busy = busy;
    kept = refl;
    idled = idled_none h;
  }
  rise_from-Stuck s j h busy = record { busy = busy; kept = refl; idled = idled_none h }

  set_pins-Stuck :
      (p : Pins) (x : Jtag × H)
      → x.0.busy_stuck ≡ true
      → clears p x.0 ≡ false
      → Stuck x.0.dmi x.1 (set_pins dm p.tck p.tms p.tdi x.0 x.1)
  unfolding set_pins
  set_pins-Stuck p (j, h) busy keeps = elim (Bool-cases (p.tck && not j.tck)) [
    | inl up ↦
        let s = rise_from-Stuck j.state j h busy in
        rw up (record { busy = s.busy; kept = s.kept; idled = s.idled })
    | inr down ↦
        let s = fall_from-Stuck j.state j h busy (ground (arith, keeps, down)) in
        rw down (record { busy = s.busy; kept = s.kept; idled = s.idled })
  ]

  Idled-trans : {h h1 h2 : H} → Idled h h1 → Idled h1 h2 → Idled h h2
  Idled-trans (idled_none h) r = r
  Idled-trans {h2 = h2} (idled_more h h1 l) r = idled_more h h2 (Idled-trans l r)

-- While the port is busy, any calls of set_pins among which none clears that state (an update of the
-- DTM control register with a reset bit) leave it busy, keep the result of the last request, and the
-- debug module gets no read and no write: it is only told of idle cycles.
pub calls-Stuck :
    {H : Type 0} (dm : DebugModule H) (pins : List Pins) (x : Jtag × H)
    → x.0.busy_stuck ≡ true
    → uncleared dm pins x ≡ true
    → Stuck dm x.0.dmi x.1 (calls dm pins x)
unfolding calls uncleared
calls-Stuck dm [] x busy keeps = record { busy = busy; kept = refl; idled = idled_none x.1 }
calls-Stuck dm (p ∷ rest) x busy keeps =
    let y = set_pins dm p.tck p.tms p.tdi x.0 x.1 in
    let one = set_pins-Stuck dm p x busy (ground (arith, keeps)) in
    let more = calls-Stuck dm rest y one.busy (ground (arith, keeps)) in
    record {
      busy = more.busy;
      kept = more.kept ∙ one.kept;
      idled = Idled-trans dm one.idled more.idled;
    }
