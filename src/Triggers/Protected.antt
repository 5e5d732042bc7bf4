-- ===== src/Triggers/Protected.antt =====
-- riscv/triggers.cc: the triggers of the debugger, which have `dmode` set.
use nnemu.Base.{
  Bool, List, Option, [], ap, arith, false, get_elem?, inl, inr, map, none, set, some, suc, true,
  zero, ℕ, ◌∙◌, ◌∷◌, ◌≡◌,
}
use nnemu.Triggers.{Proc, Trigger, get_dmode}
use nnemu.Triggers.TriggerModule.{TriggerModule, module_tdata3_write, tdata1_write, tdata2_write}
use nnemu.Triggers.Outcomes.{
  Outcome, tdata1_write-Outcome, tdata2_write-Outcome, tdata3_write-Outcome, written,
}
use nnemu.Triggers.Registers.{tdata3_write}
use nnemu.Triggers.Steps.{Each, Event, proc_of, run, step}
use nnemu.Triggers.Settings.{
  access-settings, icount-settings, settings, settings_at, settings_of-get_dmode, trap-settings,
}

abbrev dmode_of : Option Trigger → Bool
dmode_of none = false
dmode_of (some t) = get_dmode t.kind

-- A trigger that is set in the place of one of the program is not in the place of one of the debugger.
set-settings :
    (ts : List Trigger) (j : ℕ) (t : Trigger) (i : ℕ) {old s : Trigger}
    → get_elem? ts j ≡ some old
    → get_dmode old.kind ≡ false
    → get_elem? (map settings ts) i ≡ some s
    → get_dmode s.kind ≡ true
    → get_elem? (map settings (set ts j t)) i ≡ some s
set-settings [] j t i h n g d = absurd (ground arith)
set-settings (u ∷ ts) zero t zero {old} {s} h n g d =
    absurd (ground (arith, settings_of-get_dmode u.kind, ap dmode_of h, ap dmode_of g, n, d))
set-settings (u ∷ ts) zero t (suc i) h n g d = g
set-settings (u ∷ ts) (suc j) t zero h n g d = g
set-settings (u ∷ ts) (suc j) t (suc i) h n g d = set-settings ts j t i h n g d

Outcome-settings :
    (p : Proc) (index : ℕ) (t : Trigger → Trigger) (d : TriggerModule) (r : TriggerModule × Bool)
    (i : ℕ) {s : Trigger}
    → Outcome p index t d r
    → p.debug_mode ≡ false
    → settings_at i d ≡ some s
    → get_dmode s.kind ≡ true
    → settings_at i r.0 ≡ some s
Outcome-settings p index t d r i (inl same) out g h = ap (λ r. settings_at i r.0) same ∙ g
Outcome-settings p index t d r i (inr (old, at, l, same)) out g h =
    ap (λ r. settings_at i r.0) same
    ∙ set-settings d.triggers index (t old) i at (ground (arith, l, out)) g h

step-settings :
    (event : Event) (d : TriggerModule) (i : ℕ) {s : Trigger}
    → (proc_of event).debug_mode ≡ false
    → settings_at i d ≡ some s
    → get_dmode s.kind ≡ true
    → settings_at i (step event d) ≡ some s
step-settings (Event.write1 p index val) d i out g h =
    Outcome-settings p index (written p index val d) d (tdata1_write p index val d) i
      (elim (tdata1_write-Outcome p index val d) [
        | inl same ↦ inl same
        | inr (old, at, l, c, same) ↦ inr (old, at, l, same)
      ])
      out g h
step-settings (Event.write2 p index val) d i out g h =
    Outcome-settings p index (λ old. record old { tdata2 = val }) d (tdata2_write p index val d) i
      (tdata2_write-Outcome p index val d) out g h
step-settings (Event.write3 p index val) d i out g h =
    Outcome-settings p index (tdata3_write p val) d (module_tdata3_write p index val d) i
      (tdata3_write-Outcome p index val d) out g h
step-settings (Event.access p operation address data') d i out g h =
    ap (λ ts. get_elem? ts i) (access-settings p operation address data' d) ∙ g
step-settings (Event.count p) d i out g h = ap (λ ts. get_elem? ts i) (icount-settings p d) ∙ g
step-settings (Event.trap p cause) d i out g h =
    ap (λ ts. get_elem? ts i) (trap-settings p cause d) ∙ g

-- Outside debug mode, whatever the program writes and whatever is detected, a trigger that has `dmode`
-- set keeps all its settings: only its hit, its count and its pending bit change.
pub run-settings :
    (events : List Event) (d : TriggerModule) (i : ℕ) {s : Trigger}
    → Each (λ event. (proc_of event).debug_mode ≡ false) events
    → settings_at i d ≡ some s
    → get_dmode s.kind ≡ true
    → settings_at i (run events d) ≡ some s
run-settings [] d i out g h = g
run-settings (event ∷ events) d i out g h =
    run-settings events (step event d) i out.1 (step-settings event d i out.0 g h) h
