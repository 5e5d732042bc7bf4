-- ===== src/Triggers/TriggerModule.antt =====
-- riscv/triggers.cc, module_t, and `trigger_updated` of riscv/processor.cc.
-- An index out of range, which the selection of a trigger rules out, changes nothing. The TLB flush of
-- `trigger_updated` is left out.
use nnemu.Base.{
  Bool, List, Option, [], bit_or, false, get_elem?, if◌then◌else◌, ltb, none, not, replicate, set,
  some, suc, true, zero, ℕ, ◌&&◌, ◌+◌, ◌==◌, ◌^◌, ◌||◌, ◌∷◌,
}
use nnemu.Decode.{get_field, set_field}
use nnemu.DebugDefines.{
  csr_tdata1_dmode, csr_tdata1_type, csr_tdata1_type_disabled, csr_tdata1_type_etrigger,
  csr_tdata1_type_icount, csr_tdata1_type_itrigger, csr_tdata1_type_mcontrol,
  csr_tdata1_type_mcontrol6,
}
use nnemu.Triggers.{
  Kind, MatchResult, Operation, Proc, Trigger, get_chain, get_dmode, get_execute, get_load,
  get_store, icount_check_needed,
}
use nnemu.Triggers.Registers.{
  disabled_write, etrigger_write, flag, icount_write, itrigger_write, mcontrol6_write,
  mcontrol_write, tdata3_read, tdata3_write, trigger_tdata1_read,
}
use nnemu.Triggers.Match.{is_some, stash_read_values, trigger_access, trigger_icount, trigger_trap}

-- `check_triggers_fetch`, `_load` and `_store` of the MMU, `check_triggers_icount` of the processor.
pub record Checks : Type 0 where
  pub check_fetch : Bool
  pub check_load : Bool
  pub check_store : Bool
  pub check_icount : Bool

pub record TriggerModule : Type 0 where
  pub triggers : List Trigger
  pub checks : Checks

-- A trigger that `new` makes, of the class of a kind.
abbrev pub new_trigger : Trigger
new_trigger = record {
  tdata2 = 0;
  vs = false;
  vu = false;
  m = false;
  s = false;
  u = false;
  sselect = 0;
  svalue = 0;
  sbytemask = 0;
  mhselect = 0;
  mhvalue = 0;
  kind = Kind.disabled false;
}

unfoldable pub make : ℕ → TriggerModule
make count = record {
  triggers = replicate count new_trigger;
  checks = record {
    check_fetch = false;
    check_load = false;
    check_store = false;
    check_icount = false;
  };
}

abbrev pub any_kind : (Kind → Bool) → List Trigger → Bool
any_kind f [] = false
any_kind f (t ∷ rest) = f t.kind || any_kind f rest

unfoldable pub trigger_updated : List Trigger → Checks
trigger_updated triggers = record {
  check_fetch = any_kind get_execute triggers;
  check_load = any_kind get_load triggers;
  check_store = any_kind get_store triggers;
  check_icount = any_kind icount_check_needed triggers;
}

-- The trigger at an index is replaced.
abbrev pub replaced : ℕ → Trigger → TriggerModule → TriggerModule
replaced index t d =
    let triggers = set d.triggers index t in
    record { triggers = triggers; checks = trigger_updated triggers }

abbrev pub kind_at : ℕ → TriggerModule → Kind
kind_at index d = elim (get_elem? d.triggers index) [ none ↦ Kind.disabled false | some t ↦ t.kind ]

abbrev pub locked : Proc → Trigger → Bool
locked p t = get_dmode t.kind && not p.debug_mode

-- The new trigger of `tdata1_write`, by its type.
unfoldable pub fresh_trigger : Proc → ℕ → ℕ → Bool → Trigger
fresh_trigger p type tdata1 allow_chain =
    if type == csr_tdata1_type_mcontrol
    then mcontrol_write p tdata1 allow_chain new_trigger
    else if type == csr_tdata1_type_icount
    then icount_write p tdata1 new_trigger
    else if type == csr_tdata1_type_itrigger
    then itrigger_write p tdata1 new_trigger
    else if type == csr_tdata1_type_etrigger
    then etrigger_write p tdata1 new_trigger
    else if type == csr_tdata1_type_mcontrol6
    then mcontrol6_write p tdata1 allow_chain new_trigger
    else disabled_write p tdata1 new_trigger

-- It takes tdata2 and tdata3 of the old one.
unfoldable pub renewed : Proc → ℕ → ℕ → Bool → Trigger → Trigger
renewed p type tdata1 allow_chain old =
    tdata3_write p (tdata3_read p old)
      (record (fresh_trigger p type tdata1 allow_chain) { tdata2 = old.tdata2 })

-- Whether the trigger before `index` is there, has `dmode` clear and `chain` set.
abbrev pub chained_before : ℕ → TriggerModule → Bool
chained_before zero d = false
chained_before (suc index) d = not (get_dmode (kind_at index d)) && get_chain (kind_at index d)

unfoldable pub tdata1_write : Proc → ℕ → ℕ → TriggerModule → TriggerModule × Bool
tdata1_write p index val d =
    let dmode_mask = csr_tdata1_dmode p.xlen in
    let allow_chain = not (get_dmode (kind_at (index + 1) d) && not (flag val dmode_mask)) in
    let tdata1 = if p.debug_mode then val else set_field val dmode_mask 0 in
    let type = get_field val (csr_tdata1_type p.xlen) in
    elim (get_elem? d.triggers index) [
      | none ↦ (d, false)
      | some old ↦
          if locked p old
          then (d, false)
          else if chained_before index d && flag tdata1 dmode_mask
          then (d, false)
          else (replaced index (renewed p type tdata1 allow_chain old) d, true)
    ]

unfoldable pub tdata2_write : Proc → ℕ → ℕ → TriggerModule → TriggerModule × Bool
tdata2_write p index val d = elim (get_elem? d.triggers index) [
  | none ↦ (d, false)
  | some old ↦
      if locked p old then (d, false) else (replaced index (record old { tdata2 = val }) d, true)
]

unfoldable pub module_tdata3_write : Proc → ℕ → ℕ → TriggerModule → TriggerModule × Bool
module_tdata3_write p index val d = elim (get_elem? d.triggers index) [
  | none ↦ (d, false)
  | some old ↦
      if locked p old then (d, false) else (replaced index (tdata3_write p val old) d, true)
]

unfoldable pub tdata1_read : Proc → ℕ → TriggerModule → ℕ
tdata1_read p index d = elim (get_elem? d.triggers index) [
  | none ↦ 0
  | some t ↦ trigger_tdata1_read p t
]

unfoldable pub tdata2_read : ℕ → TriggerModule → ℕ
tdata2_read index d = elim (get_elem? d.triggers index) [ none ↦ 0 | some t ↦ t.tdata2 ]

unfoldable pub module_tdata3_read : Proc → ℕ → TriggerModule → ℕ
module_tdata3_read p index d = elim (get_elem? d.triggers index) [
  | none ↦ 0
  | some t ↦ tdata3_read p t
]

abbrev pub tinfo_read : ℕ
tinfo_read = bit_or (2 ^ csr_tdata1_type_mcontrol) (
    bit_or (2 ^ csr_tdata1_type_icount) (
      bit_or (2 ^ csr_tdata1_type_itrigger) (
        bit_or (2 ^ csr_tdata1_type_etrigger)
          (bit_or (2 ^ csr_tdata1_type_mcontrol6) (2 ^ csr_tdata1_type_disabled)))))

-- The result so far and a new one: the later one only with a greater action.
abbrev pub better : Option MatchResult → Option MatchResult → Option MatchResult
better ret none = ret
better none (some r) = some r
better (some a) (some r) = if ltb a.action r.action then some r else some a

-- The loop of `detect_memory_access_match`; an inhibited trigger is passed over.
unfoldable pub access_loop :
    Proc
    → Operation
    → ℕ
    → Option ℕ
    → Bool
    → Option MatchResult
    → List Trigger
    → List Trigger × Option MatchResult
access_loop p operation address data' chain_ok ret [] = ([], ret)
access_loop p operation address data' chain_ok ret (t ∷ rest) =
    let (t', result) = trigger_access p operation address data' t in
    let chain = get_chain t.kind in
    let skipped = access_loop p operation address data' (not chain) ret rest in
    let tested =
      access_loop p operation address data' (is_some result || not chain)
        (if chain then ret else better ret result) rest in
    if chain_ok then (t' ∷ tested.0, tested.1) else (t ∷ skipped.0, skipped.1)

unfoldable pub detect_memory_access_match :
    Proc → Operation → ℕ → Option ℕ → TriggerModule → TriggerModule × Option MatchResult
detect_memory_access_match p operation address data' d =
    let (triggers, r) = access_loop p operation address data' true none d.triggers in
    if p.debug_mode then (d, none) else (record d { triggers = triggers }, r)

-- The loops of the two other detections, which only take the best match.
unfoldable pub each_trigger :
    (Trigger → Trigger × Option MatchResult)
    → Option MatchResult
    → List Trigger
    → List Trigger × Option MatchResult
each_trigger detect ret [] = ([], ret)
each_trigger detect ret (t ∷ rest) =
    let (t', result) = detect t in
    let (ts, r) = each_trigger detect (better ret result) rest in (t' ∷ ts, r)

abbrev pub stash_all : List Trigger → List Trigger
stash_all [] = []
stash_all (t ∷ rest) = record t { kind = stash_read_values t.kind } ∷ stash_all rest

unfoldable pub detect_icount_match : Proc → TriggerModule → TriggerModule × Option MatchResult
detect_icount_match p d =
    let stashed = stash_all d.triggers in
    let (triggers, r) = each_trigger (trigger_icount p) none stashed in
    if p.debug_mode
    then (record d { triggers = stashed }, none)
    else (record d { triggers = triggers }, r)

unfoldable pub detect_trap_match : Proc → ℕ → TriggerModule → TriggerModule × Option MatchResult
detect_trap_match p cause d =
    let (triggers, r) = each_trigger (trigger_trap p cause) none d.triggers in
    if p.debug_mode then (d, none) else (record d { triggers = triggers }, r)
