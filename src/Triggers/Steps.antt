-- ===== src/Triggers/Steps.antt =====
-- Writes and detections of the trigger module in any order, each with the processor's state of its time.
use nnemu.Base.{
  Bool, List, Option, [], ap, arith, false, get_elem?, if◌then◌else◌, inl, inr, none, not,
  replicate, set, some, subst, suc, sym, true, truthy, zero, ℕ, ◌-◌, ◌||◌, ◌∷◌, ◌≡◌, ◌≤◌,
}
use nnemu.Decode.Laws.{get_field-set_field_zero}
use nnemu.DebugDefines.{csr_tdata1_dmode, csr_tdata1_type}
use nnemu.Triggers.{MatchResult, Operation, Proc, Trigger, get_chain}
use nnemu.Triggers.Registers.{flag, tdata3_write}
use nnemu.Triggers.Match.{is_some, stash_read_values, trigger_access, trigger_icount, trigger_trap}
use nnemu.Triggers.Outcomes.{
  Outcome, access-triggers, allowed, handed, icount-triggers, tdata1_write-Outcome,
  tdata2_write-Outcome, tdata3_write-Outcome, trap-triggers,
}
use nnemu.Triggers.TriggerModule.{
  TriggerModule, access_loop, better, detect_icount_match, detect_memory_access_match,
  detect_trap_match, each_trigger, make, module_tdata3_write, new_trigger, renewed, stash_all,
  tdata1_write, tdata2_write,
}
use nnemu.Decode.{get_field}

pub data Event : Type 0 where
  write1 write2 write3 : Proc → ℕ → ℕ → Event
  access : Proc → Operation → ℕ → Option ℕ → Event
  count : Proc → Event
  trap : Proc → ℕ → Event

abbrev pub proc_of : Event → Proc
proc_of (Event.write1 p index val) = p
proc_of (Event.write2 p index val) = p
proc_of (Event.write3 p index val) = p
proc_of (Event.access p operation address data') = p
proc_of (Event.count p) = p
proc_of (Event.trap p cause) = p

abbrev pub step : Event → TriggerModule → TriggerModule
step (Event.write1 p index val) d = (tdata1_write p index val d).0
step (Event.write2 p index val) d = (tdata2_write p index val d).0
step (Event.write3 p index val) d = (module_tdata3_write p index val d).0
step (Event.access p operation address data') d =
    (detect_memory_access_match p operation address data' d).0
step (Event.count p) d = (detect_icount_match p d).0
step (Event.trap p cause) d = (detect_trap_match p cause d).0

abbrev pub run : List Event → TriggerModule → TriggerModule
run [] d = d
run (e ∷ rest) d = run rest (step e d)

-- A property of every element of a list.
abbrev pub Each : {A : Type 0} → (A → Type 0) → List A → Type 0
Each P [] = Unit
Each P (x ∷ xs) = P x × Each P xs

-- What a write to tdata1 hands to the triggers has no `dmode` outside debug mode.
abbrev pub Cleared : Proc → ℕ → Type 0
Cleared p tdata1 = p.debug_mode ≡ false → flag tdata1 (csr_tdata1_dmode p.xlen) ≡ false

handed-Cleared : (p : Proc) (val : ℕ) → p.xlen ≤ 64 → Cleared p (handed p val)
handed-Cleared p val w b =
    simp b (ap truthy (get_field-set_field_zero val (p.xlen - 5) (omega arith)))

-- A property of one trigger that everything keeps that the module does.
pub record Kept (P : Trigger → Type 0) : Type 0 where
  pub fresh : P new_trigger
  pub kept_renewed :
      (p : Proc) (type tdata1 : ℕ) (allow_chain : Bool) (old : Trigger)
      → Cleared p tdata1
      → P (renewed p type tdata1 allow_chain old)
  pub kept_tdata2 : (val : ℕ) (t : Trigger) → P t → P (record t { tdata2 = val })
  pub kept_tdata3 : (p : Proc) (val : ℕ) (t : Trigger) → P t → P (tdata3_write p val t)
  pub kept_access :
      (p : Proc) (operation : Operation) (address : ℕ) (data' : Option ℕ) (t : Trigger)
      → P t
      → P (trigger_access p operation address data' t).0
  pub kept_stash : (t : Trigger) → P t → P (record t { kind = stash_read_values t.kind })
  pub kept_icount : (p : Proc) (t : Trigger) → P t → P (trigger_icount p t).0
  pub kept_trap : (p : Proc) (cause : ℕ) (t : Trigger) → P t → P (trigger_trap p cause t).0

module _ {P : Trigger → Type 0} (k : Kept P) where
  replicate-Each : (n : ℕ) → Each P (replicate n new_trigger)
  replicate-Each zero = tt
  replicate-Each (suc n) = (k.fresh, replicate-Each n)

  set-Each : (ts : List Trigger) (i : ℕ) (t : Trigger) → Each P ts → P t → Each P (set ts i t)
  set-Each [] i t e h = tt
  set-Each (u ∷ ts) zero t e h = (h, e.1)
  set-Each (u ∷ ts) (suc i) t e h = (e.0, set-Each ts i t e.1 h)

  Each-read : (ts : List Trigger) (i : ℕ) {t : Trigger} → Each P ts → get_elem? ts i ≡ some t → P t
  Each-read [] i e h = absurd (ground arith)
  Each-read (u ∷ ts) zero {t} e h = subst P (cc) e.0
  Each-read (u ∷ ts) (suc i) e h = Each-read ts i e.1 h

  access_loop-Each :
      (p : Proc) (operation : Operation) (address : ℕ) (data' : Option ℕ) (chain_ok : Bool)
      (ret : Option MatchResult) (ts : List Trigger)
      → Each P ts
      → Each P (access_loop p operation address data' chain_ok ret ts).0
  unfolding access_loop
  access_loop-Each p operation address data' chain_ok ret [] e = tt
  access_loop-Each p operation address data' true ret (t ∷ ts) e = (
    k.kept_access p operation address data' t e.0,
    access_loop-Each p operation address data'
        (is_some (trigger_access p operation address data' t).1 || not (get_chain t.kind))
        (if get_chain t.kind
          then ret
          else better ret (trigger_access p operation address data' t).1)
        ts e.1,
  )
  access_loop-Each p operation address data' false ret (t ∷ ts) e =
      (e.0, access_loop-Each p operation address data' (not (get_chain t.kind)) ret ts e.1)

  stash_all-Each : (ts : List Trigger) → Each P ts → Each P (stash_all ts)
  stash_all-Each [] e = tt
  stash_all-Each (t ∷ ts) e = (k.kept_stash t e.0, stash_all-Each ts e.1)

  each_trigger-Each :
      (detect : Trigger → Trigger × Option MatchResult) (ret : Option MatchResult)
      (ts : List Trigger)
      → ((t : Trigger) → P t → P (detect t).0)
      → Each P ts
      → Each P (each_trigger detect ret ts).0
  unfolding each_trigger
  each_trigger-Each detect ret [] h e = tt
  each_trigger-Each detect ret (t ∷ ts) h e =
      (h t e.0, each_trigger-Each detect (better ret (detect t).1) ts h e.1)

  Outcome-Each :
      (p : Proc) (index : ℕ) (t : Trigger → Trigger) (d : TriggerModule) (r : TriggerModule × Bool)
      → ((old : Trigger) → P old → P (t old))
      → Each P d.triggers
      → Outcome p index t d r
      → Each P r.0.triggers
  Outcome-Each p index t d r h e (inl same) = subst (λ r. Each P r.0.triggers) (sym same) e
  Outcome-Each p index t d r h e (inr (old, at, l, same)) =
      subst (λ r. Each P r.0.triggers) (sym same)
        (set-Each d.triggers index (t old) e (h old (Each-read d.triggers index e at)))

  if-Each :
      (b : Bool) (xs ys : List Trigger) → Each P xs → Each P ys → Each P (if b then xs else ys)
  if-Each true xs ys h g = h
  if-Each false xs ys h g = g

  tdata1_write-Each :
      (p : Proc) (index val : ℕ) (d : TriggerModule)
      → p.xlen ≤ 64
      → Each P d.triggers
      → Each P (tdata1_write p index val d).0.triggers
  tdata1_write-Each p index val d w e = elim (tdata1_write-Outcome p index val d) [
    | inl same ↦ subst (λ r. Each P r.0.triggers) (sym same) e
    | inr (old, at, l, c, same) ↦
        subst (λ r. Each P r.0.triggers) (sym same)
          (set-Each d.triggers index _ e (
            k.kept_renewed p (get_field val (csr_tdata1_type p.xlen)) (handed p val)
              (allowed p index val d) old (handed-Cleared p val w)))
  ]

  step-Each :
      (event : Event) (d : TriggerModule)
      → (proc_of event).xlen ≤ 64
      → Each P d.triggers
      → Each P (step event d).triggers
  step-Each (Event.write1 p index val) d w e = tdata1_write-Each p index val d w e
  step-Each (Event.write2 p index val) d w e =
      Outcome-Each p index (λ old. record old { tdata2 = val }) d (tdata2_write p index val d)
        (k.kept_tdata2 val) e (tdata2_write-Outcome p index val d)
  step-Each (Event.write3 p index val) d w e =
      Outcome-Each p index (tdata3_write p val) d (module_tdata3_write p index val d)
        (k.kept_tdata3 p val) e (tdata3_write-Outcome p index val d)
  step-Each (Event.access p operation address data') d w e =
      subst (λ d. Each P d.triggers) (sym (access-triggers p operation address data' d))
        (if-Each p.debug_mode _ _ e
          (access_loop-Each p operation address data' true none d.triggers e))
  step-Each (Event.count p) d w e =
      let stashed = stash_all-Each d.triggers e in
      subst (λ d. Each P d.triggers) (sym (icount-triggers p d))
        (if-Each p.debug_mode _ _ stashed (
          each_trigger-Each (trigger_icount p) none (stash_all d.triggers) (k.kept_icount p)
            stashed))
  step-Each (Event.trap p cause) d w e =
      subst (λ d. Each P d.triggers) (sym (trap-triggers p cause d))
        (if-Each p.debug_mode _ _ e
          (each_trigger-Each (trigger_trap p cause) none d.triggers (k.kept_trap p cause) e))

  pub run-Each :
      (events : List Event) (d : TriggerModule)
      → Each (λ event. (proc_of event).xlen ≤ 64) events
      → Each P d.triggers
      → Each P (run events d).triggers
  run-Each [] d w e = e
  run-Each (event ∷ events) d w e = run-Each events (step event d) w.1 (step-Each event d w.0 e)

  -- From the module as it is made.
  pub made-Each :
      (n : ℕ) (events : List Event)
      → Each (λ event. (proc_of event).xlen ≤ 64) events
      → Each P (run events (make n)).triggers
  unfolding make
  made-Each n events w = run-Each events (make n) w (replicate-Each n)
