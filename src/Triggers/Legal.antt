-- ===== src/Triggers/Legal.antt =====
-- riscv/triggers.cc: the legal values of the fields of a trigger.
use nnemu.Base.{
  Bool, Bool-cases, List, Option, arith, false, if◌then◌else◌, inl, inr, refl, subst, sym, true, ℕ,
  ◌&&◌, ◌≡◌, ◌≤◌,
}
use nnemu.DebugDefines.{
  csr_etrigger_action, csr_etrigger_dmode, csr_icount_action, csr_icount_dmode, csr_itrigger_action,
  csr_itrigger_dmode, csr_mcontrol6_action, csr_mcontrol6_dmode, csr_mcontrol6_execute,
  csr_mcontrol6_load, csr_mcontrol6_select, csr_mcontrol6_timing, csr_mcontrol_dmode,
  csr_tdata1_dmode, mcontrol_action, mcontrol_execute, mcontrol_load, mcontrol_select,
  mcontrol_timing,
}
use nnemu.Triggers.{
  Kind, Mcontrol, Operation, Proc, Trigger, action_debug_exception, action_debug_mode,
  action_maxval, get_dmode, sselect_maxval, timing_after, timing_before,
}
use nnemu.Triggers.Registers.{
  disabled_write, etrigger_write, flag, icount_write, itrigger_write, legalize_action,
  legalize_timing, mcontrol6_write, mcontrol_write, tdata3_read, tdata3_write,
}
use nnemu.Triggers.TriggerModule.{make, new_trigger, renewed}
use nnemu.Triggers.Steps.{Cleared, Each, Event, Kept, made-Each, proc_of, run}
use nnemu.Triggers.Outcomes.{fresh_cases, tdata3_write-kind, trap_match-hit}
use nnemu.Triggers.Match.{
  common_match, etrigger_match, icount_match, itrigger_match, kind_access, kind_icount, kind_trap,
  stash_read_values, trigger_access, trigger_icount, trigger_trap,
}

abbrev pub action_of : Kind → ℕ
action_of (Kind.disabled dmode) = action_debug_exception
action_of (Kind.itrigger k) = k.action
action_of (Kind.etrigger k) = k.action
action_of (Kind.mcontrol k) = k.action
action_of (Kind.mcontrol6 k) = k.action
action_of (Kind.icount k) = k.action

-- A match on loaded data comes after the access; any other one on execution comes before.
abbrev pub IsTimed : Mcontrol → Type 0
IsTimed k = k.timing ≡ (
    if k.select && k.on_load
    then timing_after
    else if k.on_execute
    then timing_before
    else k.timing)

abbrev pub KindTimed : Kind → Type 0
KindTimed (Kind.mcontrol k) = IsTimed k
KindTimed (Kind.mcontrol6 k) = IsTimed k
KindTimed k = Unit

pub record LegalKind (k : Kind) : Type 0 where
  pub known : action_of k ≤ action_maxval
  pub by_debugger : action_of k ≡ action_debug_mode → get_dmode k ≡ true
  pub timed : KindTimed k

pub record IsLegal (t : Trigger) : Type 0 where
  pub kind : LegalKind t.kind
  pub selected : t.sselect ≤ sselect_maxval

legalize_action-le :
    (val action_mask dmode_mask : ℕ) → legalize_action val action_mask dmode_mask ≤ action_maxval
unfolding legalize_action
legalize_action-le val action_mask dmode_mask = ground arith

legalize_action-debug_mode :
    (val action_mask dmode_mask : ℕ)
    → legalize_action val action_mask dmode_mask ≡ action_debug_mode
    → flag val dmode_mask ≡ true
unfolding legalize_action
legalize_action-debug_mode val action_mask dmode_mask h = ground arith

legalize_timing_lem :
    (val timing_mask select_mask execute_mask load_mask : ℕ)
    → legalize_timing val timing_mask select_mask execute_mask load_mask ≡ (
        if flag val select_mask && flag val load_mask
        then timing_after
        else if flag val execute_mask
        then timing_before
        else legalize_timing val timing_mask select_mask execute_mask load_mask)
unfolding legalize_timing
legalize_timing_lem val timing_mask select_mask execute_mask load_mask = ground arith

mcontrol_write-LegalKind :
    (p : Proc) (val : ℕ) (allow_chain : Bool) (t : Trigger)
    → LegalKind (mcontrol_write p val allow_chain t).kind
unfolding mcontrol_write
mcontrol_write-LegalKind p val allow_chain t = record {
  known = legalize_action-le val mcontrol_action (csr_mcontrol_dmode p.xlen);
  by_debugger = legalize_action-debug_mode val mcontrol_action (csr_mcontrol_dmode p.xlen);
  timed = legalize_timing_lem val mcontrol_timing mcontrol_select mcontrol_execute mcontrol_load;
}

mcontrol6_write-LegalKind :
    (p : Proc) (val : ℕ) (allow_chain : Bool) (t : Trigger)
    → LegalKind (mcontrol6_write p val allow_chain t).kind
unfolding mcontrol6_write
mcontrol6_write-LegalKind p val allow_chain t = record {
  known = legalize_action-le val csr_mcontrol6_action (csr_mcontrol6_dmode p.const_xlen);
  by_debugger =
      legalize_action-debug_mode val csr_mcontrol6_action (csr_mcontrol6_dmode p.const_xlen);
  timed =
      legalize_timing_lem val csr_mcontrol6_timing csr_mcontrol6_select csr_mcontrol6_execute
        csr_mcontrol6_load;
}

-- The counter's `dmode` is only set in debug mode; outside it the bit is clear.
icount-dmode :
    (p : Proc) (val : ℕ)
    → Cleared p val
    → flag val (csr_icount_dmode p.xlen) ≡ true
    → (p.debug_mode && flag val (csr_icount_dmode p.xlen)) ≡ true
icount-dmode p val c h = elim (Bool-cases p.debug_mode) [
  | inl b ↦ simp (b, h) refl
  | inr b ↦ absurd (ground (arith, c b, h))
]

icount_write-LegalKind :
    (p : Proc) (val : ℕ) (t : Trigger) → Cleared p val → LegalKind (icount_write p val t).kind
unfolding icount_write
icount_write-LegalKind p val t c = record {
  known = legalize_action-le val csr_icount_action (csr_icount_dmode p.xlen);
  by_debugger = λ h.
      icount-dmode p val c
        (legalize_action-debug_mode val csr_icount_action (csr_icount_dmode p.xlen) h);
  timed = tt;
}

itrigger_write-LegalKind :
    (p : Proc) (val : ℕ) (t : Trigger) → LegalKind (itrigger_write p val t).kind
unfolding itrigger_write
itrigger_write-LegalKind p val t = record {
  known = legalize_action-le val csr_itrigger_action (csr_itrigger_dmode p.xlen);
  by_debugger = legalize_action-debug_mode val csr_itrigger_action (csr_itrigger_dmode p.xlen);
  timed = tt;
}

etrigger_write-LegalKind :
    (p : Proc) (val : ℕ) (t : Trigger) → LegalKind (etrigger_write p val t).kind
unfolding etrigger_write
etrigger_write-LegalKind p val t = record {
  known = legalize_action-le val csr_etrigger_action (csr_etrigger_dmode p.xlen);
  by_debugger = legalize_action-debug_mode val csr_etrigger_action (csr_etrigger_dmode p.xlen);
  timed = tt;
}

disabled_LegalKind : (dmode : Bool) → LegalKind (Kind.disabled dmode)
disabled_LegalKind dmode = record {
  known = omega arith;
  by_debugger = λ h. absurd (omega (arith, h));
  timed = tt;
}

tdata3_write-sselect :
    (p : Proc) (val : ℕ) (t : Trigger) → (tdata3_write p val t).sselect ≤ sselect_maxval
unfolding tdata3_write
tdata3_write-sselect p val t = ground arith

tdata3_write-IsLegal :
    (p : Proc) (val : ℕ) (t : Trigger) → LegalKind t.kind → IsLegal (tdata3_write p val t)
tdata3_write-IsLegal p val t k = record {
  kind = subst LegalKind (sym (tdata3_write-kind p val t)) k;
  selected = tdata3_write-sselect p val t;
}

-- A property of triggers, by their kinds.
abbrev HasLegalKind : Trigger → Type 0
HasLegalKind t = LegalKind t.kind

disabled_write-LegalKind :
    (p : Proc) (val : ℕ) (t : Trigger) → LegalKind (disabled_write p val t).kind
unfolding disabled_write
disabled_write-LegalKind p val t = disabled_LegalKind (flag val (csr_tdata1_dmode p.xlen))

renewed-IsLegal :
    (p : Proc) (type tdata1 : ℕ) (allow_chain : Bool) (old : Trigger)
    → Cleared p tdata1
    → IsLegal (renewed p type tdata1 allow_chain old)
unfolding renewed
renewed-IsLegal p type tdata1 allow_chain old c = tdata3_write-IsLegal p (tdata3_read p old) _ (
    fresh_cases HasLegalKind p type tdata1 allow_chain
      (mcontrol_write-LegalKind p tdata1 allow_chain new_trigger)
      (icount_write-LegalKind p tdata1 new_trigger c)
      (itrigger_write-LegalKind p tdata1 new_trigger)
      (etrigger_write-LegalKind p tdata1 new_trigger)
      (mcontrol6_write-LegalKind p tdata1 allow_chain new_trigger)
      (disabled_write-LegalKind p tdata1 new_trigger))

kind_access-LegalKind :
    (p : Proc) (t : Trigger) (operation : Operation) (address : ℕ) (data' : Option ℕ) (k : Kind)
    → LegalKind k
    → LegalKind (kind_access p t operation address data' k).0
unfolding kind_access
kind_access-LegalKind p t operation address data' (Kind.disabled dmode) h = h
kind_access-LegalKind p t operation address data' (Kind.itrigger k) h = h
kind_access-LegalKind p t operation address data' (Kind.etrigger k) h = h
kind_access-LegalKind p t operation address data' (Kind.icount k) h = h
kind_access-LegalKind p t operation address data' (Kind.mcontrol k) h = record {
  known = h.known;
  by_debugger = h.by_debugger;
  timed = h.timed;
}
kind_access-LegalKind p t operation address data' (Kind.mcontrol6 k) h = record {
  known = h.known;
  by_debugger = h.by_debugger;
  timed = h.timed;
}

stash-LegalKind : (k : Kind) → LegalKind k → LegalKind (stash_read_values k)
unfolding stash_read_values
stash-LegalKind (Kind.disabled dmode) h = h
stash-LegalKind (Kind.itrigger k) h = h
stash-LegalKind (Kind.etrigger k) h = h
stash-LegalKind (Kind.mcontrol k) h = h
stash-LegalKind (Kind.mcontrol6 k) h = h
stash-LegalKind (Kind.icount k) h = record {
  known = h.known;
  by_debugger = h.by_debugger;
  timed = tt;
}

kind_icount-LegalKind :
    (p : Proc) (t : Trigger) (k : Kind) → LegalKind k → LegalKind (kind_icount p t k).0
unfolding kind_icount icount_match
kind_icount-LegalKind p t (Kind.disabled dmode) h = h
kind_icount-LegalKind p t (Kind.itrigger k) h = h
kind_icount-LegalKind p t (Kind.etrigger k) h = h
kind_icount-LegalKind p t (Kind.mcontrol k) h = h
kind_icount-LegalKind p t (Kind.mcontrol6 k) h = h
kind_icount-LegalKind p t (Kind.icount k) h = elim (Bool-cases (common_match p t)) [
  | inl m ↦ simp m (record { known = h.known; by_debugger = h.by_debugger; timed = tt })
  | inr m ↦ simp m h
]

kind_trap-LegalKind :
    (p : Proc) (t : Trigger) (cause : ℕ) (k : Kind)
    → LegalKind k
    → LegalKind (kind_trap p t cause k).0
unfolding kind_trap
kind_trap-LegalKind p t cause (Kind.disabled dmode) h = h
kind_trap-LegalKind p t cause (Kind.mcontrol k) h = h
kind_trap-LegalKind p t cause (Kind.mcontrol6 k) h = h
kind_trap-LegalKind p t cause (Kind.icount k) h = h
kind_trap-LegalKind p t cause (Kind.itrigger k) h =
    subst (λ k'. LegalKind (Kind.itrigger k'))
      (sym (trap_match-hit p t (itrigger_match t.tdata2 k.nmi) cause k))
      (record { known = h.known; by_debugger = h.by_debugger; timed = tt })
kind_trap-LegalKind p t cause (Kind.etrigger k) h =
    subst (λ k'. LegalKind (Kind.etrigger k'))
      (sym (trap_match-hit p t (etrigger_match t.tdata2) cause k))
      (record { known = h.known; by_debugger = h.by_debugger; timed = tt })

Kept-IsLegal : Kept IsLegal
unfolding trigger_access trigger_icount trigger_trap
Kept-IsLegal = record {
  fresh = record { kind = disabled_LegalKind false; selected = omega arith };
  kept_renewed = renewed-IsLegal;
  kept_tdata2 = λ val t h. record { kind = h.kind; selected = h.selected };
  kept_tdata3 = λ p val t h. tdata3_write-IsLegal p val t h.kind;
  kept_access = λ p operation address data' t h. record {
    kind = kind_access-LegalKind p t operation address data' t.kind h.kind;
    selected = h.selected;
  };
  kept_stash = λ t h. record { kind = stash-LegalKind t.kind h.kind; selected = h.selected };
  kept_icount =
      λ p t h. record { kind = kind_icount-LegalKind p t t.kind h.kind; selected = h.selected };
  kept_trap = λ p cause t h. record {
    kind = kind_trap-LegalKind p t cause t.kind h.kind;
    selected = h.selected;
  };
}

-- Whatever is written and detected, on words of at most 64 bits, every trigger is legal: its action is
-- one that the specification names, it enters debug mode only if it belongs to the debugger, its timing
-- fits what it matches, and it selects no more than the ASID.
pub run-IsLegal :
    (n : ℕ) (events : List Event)
    → Each (λ event. (proc_of event).xlen ≤ 64) events
    → Each IsLegal (run events (make n)).triggers
run-IsLegal n events w = made-Each Kept-IsLegal n events w
