-- ===== src/Triggers/Outcomes.antt =====
-- riscv/triggers.cc: what a write and a detection make of the list of triggers.
use nnemu.Base.{
  Bool, Bool-cases, Option, Option-cases, bit_and, false, get_elem?, if◌then◌else◌, inl, inr, none,
  not, refl, some, true, truthy, ℕ, ◌&&◌, ◌+◌, ◌-◌, ◌^◌, ◌||◌, ◌≡◌, ◌⊎◌,
}
use nnemu.Base.Bits.{bit_not}
use nnemu.Decode.{get_field, set_field}
use nnemu.Triggers.{Operation, Proc, TrapCommon, Trigger, get_dmode}
use nnemu.DebugDefines.{csr_tdata1_dmode, csr_tdata1_type}
use nnemu.Triggers.Registers.{
  disabled_write, etrigger_write, flag, icount_write, itrigger_write, mcontrol6_write,
  mcontrol_write, tdata3_write,
}
use nnemu.Triggers.Match.{common_match, is_some, trap_match, trigger_icount, trigger_trap}
use nnemu.Triggers.TriggerModule.{
  TriggerModule, access_loop, chained_before, detect_icount_match, detect_memory_access_match,
  detect_trap_match, each_trigger, fresh_trigger, kind_at, locked, module_tdata3_write, new_trigger,
  renewed, replaced, stash_all, tdata1_write, tdata2_write,
}

-- The `tdata1` that a write hands on, and whether the new trigger may be chained.
abbrev pub handed : Proc → ℕ → ℕ
handed p val = if p.debug_mode then val else set_field val (csr_tdata1_dmode p.xlen) 0

abbrev pub allowed : Proc → ℕ → ℕ → TriggerModule → Bool
allowed p index val d =
    not (get_dmode (kind_at (index + 1) d) && not (flag val (csr_tdata1_dmode p.xlen)))

-- The trigger that a write to tdata1 puts in the place of an old one.
abbrev pub written : Proc → ℕ → ℕ → TriggerModule → Trigger → Trigger
written p index val d =
    renewed p (get_field val (csr_tdata1_type p.xlen)) (handed p val) (allowed p index val d)

-- What a write does: nothing, or it puts `t old` in the place of a trigger that is not locked.
abbrev pub Outcome : Proc → ℕ → (Trigger → Trigger) → TriggerModule → TriggerModule × Bool → Type 0
Outcome p index t d r =
    (r ≡ (d, false))
    ⊎ ((old : Trigger) × (get_elem? d.triggers index ≡ some old)
        × (locked p old ≡ false)
        × (r ≡ (replaced index (t old) d, true)))

-- A write to tdata1 also sees that no chained trigger of the program stands before one of the debugger.
pub tdata1_write-Outcome :
    (p : Proc) (index val : ℕ) (d : TriggerModule)
    → ((tdata1_write p index val d) ≡ (d, false))
      ⊎ ((old : Trigger) × (get_elem? d.triggers index ≡ some old)
          × (locked p old ≡ false)
          × ((chained_before index d && flag (handed p val) (csr_tdata1_dmode p.xlen)) ≡ false)
          × (tdata1_write p index val d ≡ (replaced index (written p index val d old) d, true)))
unfolding tdata1_write
tdata1_write-Outcome p index val d = elim (Option-cases (get_elem? d.triggers index)) [
  | inl h ↦ inl (rw (h, tdata1_write) refl)
  | inr (old, h) ↦ elim (Bool-cases (locked p old)) [
    | inl l ↦ inl (rw (h, l, tdata1_write) refl)
    | inr l ↦
        elim (Bool-cases
          (chained_before index d && flag (handed p val) (csr_tdata1_dmode p.xlen))) [
            | inl c ↦ inl (rw (h, l, c, tdata1_write) refl)
            | inr c ↦ inr (old, h, l, c, rw (h, l, c, tdata1_write) refl)
          ]
  ]
]

pub tdata2_write-Outcome :
    (p : Proc) (index val : ℕ) (d : TriggerModule)
    → Outcome p index (λ old. record old { tdata2 = val }) d (tdata2_write p index val d)
unfolding tdata2_write
tdata2_write-Outcome p index val d = elim (Option-cases (get_elem? d.triggers index)) [
  | inl h ↦ inl (rw (h, tdata2_write) refl)
  | inr (old, h) ↦ elim (Bool-cases (locked p old)) [
    | inl l ↦ inl (rw (h, l, tdata2_write) refl)
    | inr l ↦ inr (old, h, l, rw (h, l, tdata2_write) refl)
  ]
]

pub tdata3_write-Outcome :
    (p : Proc) (index val : ℕ) (d : TriggerModule)
    → Outcome p index (tdata3_write p val) d (module_tdata3_write p index val d)
unfolding module_tdata3_write
tdata3_write-Outcome p index val d = elim (Option-cases (get_elem? d.triggers index)) [
  | inl h ↦ inl (rw (h, module_tdata3_write) refl)
  | inr (old, h) ↦ elim (Bool-cases (locked p old)) [
    | inl l ↦ inl (rw (h, l, module_tdata3_write) refl)
    | inr l ↦ inr (old, h, l, rw (h, l, module_tdata3_write) refl)
  ]
]

pub access-triggers :
    (p : Proc) (operation : Operation) (address : ℕ) (data' : Option ℕ) (d : TriggerModule)
    → (detect_memory_access_match p operation address data' d).0 ≡ record d {
      triggers =
          if p.debug_mode
          then d.triggers
          else (access_loop p operation address data' true none d.triggers).0;
    }
unfolding detect_memory_access_match
access-triggers p operation address data' d = elim (Bool-cases p.debug_mode) [
  | inl b ↦ simp b refl
  | inr b ↦ simp b refl
]

pub icount-triggers :
    (p : Proc) (d : TriggerModule)
    → (detect_icount_match p d).0 ≡ record d {
      triggers =
          if p.debug_mode
          then stash_all d.triggers
          else (each_trigger (trigger_icount p) none (stash_all d.triggers)).0;
    }
unfolding detect_icount_match
icount-triggers p d = elim (Bool-cases p.debug_mode) [ inl b ↦ simp b refl | inr b ↦ simp b refl ]

pub trap-triggers :
    (p : Proc) (cause : ℕ) (d : TriggerModule)
    → (detect_trap_match p cause d).0 ≡ record d {
      triggers =
          if p.debug_mode
          then d.triggers
          else (each_trigger (trigger_trap p cause) none d.triggers).0;
    }
unfolding detect_trap_match
trap-triggers p cause d = elim (Bool-cases p.debug_mode) [
  | inl b ↦ simp b refl
  | inr b ↦ simp b refl
]

if_cases : (Q : Trigger → Type 0) (b : Bool) (t u : Trigger) → Q t → Q u → Q (if b then t else u)
if_cases Q true t u h g = h
if_cases Q false t u h g = g

-- A new trigger is that of one of the six types.
pub fresh_cases :
    (Q : Trigger → Type 0) (p : Proc) (type tdata1 : ℕ) (allow_chain : Bool)
    → Q (mcontrol_write p tdata1 allow_chain new_trigger)
    → Q (icount_write p tdata1 new_trigger)
    → Q (itrigger_write p tdata1 new_trigger)
    → Q (etrigger_write p tdata1 new_trigger)
    → Q (mcontrol6_write p tdata1 allow_chain new_trigger)
    → Q (disabled_write p tdata1 new_trigger)
    → Q (fresh_trigger p type tdata1 allow_chain)
unfolding fresh_trigger
fresh_cases Q p type tdata1 allow_chain h2 h3 h4 h5 h6 h15 =
    if_cases Q _ _ _ h2
      (if_cases Q _ _ _ h3 (if_cases Q _ _ _ h4 (if_cases Q _ _ _ h5 (if_cases Q _ _ _ h6 h15))))

-- The kind of a trigger is set by a write to tdata1 only.
pub tdata3_write-kind : (p : Proc) (val : ℕ) (t : Trigger) → (tdata3_write p val t).kind ≡ t.kind
unfolding tdata3_write
tdata3_write-kind p val t = refl

pub renewed-kind :
    (p : Proc) (type tdata1 : ℕ) (allow_chain : Bool) (old : Trigger)
    → (renewed p type tdata1 allow_chain old).kind ≡ (fresh_trigger p type tdata1 allow_chain).kind
unfolding renewed tdata3_write
renewed-kind p type tdata1 allow_chain old = refl

-- A detection of traps and interrupts changes `hit` only.
pub trap_match-hit :
    (p : Proc) (t : Trigger) (matches : Bool → ℕ → Bool) (cause : ℕ) (k : TrapCommon)
    → (trap_match p t matches cause k).0
      ≡ record k { hit = is_some (trap_match p t matches cause k).1 || k.hit }
unfolding trap_match
trap_match-hit p t matches cause k =
    elim (Bool-cases (
      common_match p t
      && matches (truthy (bit_and cause (2 ^ (p.xlen - 1))))
          (bit_and cause (bit_not 64 (2 ^ (p.xlen - 1)))))) [
            | inl m ↦ rw m refl
            | inr m ↦ rw m refl
          ]
