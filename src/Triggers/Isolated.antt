-- ===== src/Triggers/Isolated.antt =====
-- riscv/triggers.cc: chains from triggers of the program to those of the debugger.
use nnemu.Base.{
  Bool, Bool-cases, List, Option, [], ap, ap₂, arith, false, get_elem?, get_elem?-set,
  if◌then◌else◌, inl, inr, map, none, not, refl, set, some, subst, suc, sym, true, zero, ℕ, ◌&&◌,
  ◌==◌, ◌||◌, ◌∙◌, ◌∷◌, ◌≡◌,
}
use nnemu.DebugDefines.{csr_tdata1_dmode, csr_tdata1_type}
use nnemu.Triggers.{Kind, Proc, Trigger, get_chain, get_dmode}
use nnemu.Triggers.Registers.{
  disabled_write, etrigger_write, flag, icount_write, itrigger_write, mcontrol6_write,
  mcontrol_write, tdata3_write,
}
use nnemu.Triggers.TriggerModule.{
  TriggerModule, chained_before, fresh_trigger, module_tdata3_write, tdata1_write, tdata2_write,
}
use nnemu.Triggers.Steps.{Each, Event, run, step}
use nnemu.Triggers.Outcomes.{
  Outcome, allowed, fresh_cases, handed, renewed-kind, tdata1_write-Outcome, tdata2_write-Outcome,
  tdata3_write-Outcome, tdata3_write-kind, written,
}
use nnemu.Triggers.Settings.{
  access-settings, icount-settings, settings, settings_of, settings_of-get_dmode, trap-settings,
}
use nnemu.Decode.{get_field, set_field}

abbrev kind_of : Option Trigger → Kind
kind_of o = elim o [ none ↦ Kind.disabled false | some t ↦ t.kind ]

-- The trigger at an index is chained to the next one without being the debugger's.
abbrev pub chained_at : ℕ → List Trigger → Bool
chained_at i ts = not (get_dmode (kind_of (get_elem? ts i))) && get_chain (kind_of (get_elem? ts i))

abbrev pub dmode_at : ℕ → List Trigger → Bool
dmode_at i ts = get_dmode (kind_of (get_elem? ts i))

abbrev pub IsIsolated : List Trigger → Type 0
IsIsolated ts = (i : ℕ) → (chained_at i ts && dmode_at (suc i) ts) ≡ false

-- A write is guarded if it is made in debug mode, or does not ask for `dmode`, and if the hart runs at
-- its full width, by which mcontrol6 reads its fields.
abbrev pub IsGuarded : Event → Type 0
IsGuarded (Event.write1 p index val) =
    ((p.debug_mode || not (flag val (csr_tdata1_dmode p.xlen))) ≡ true) × (p.const_xlen ≡ p.xlen)
IsGuarded event = Unit

-- `dmode` of a new trigger comes from what is written, and one that is chained was allowed to be.
abbrev IsFresh : Proc → ℕ → Bool → Kind → Type 0
IsFresh p tdata1 allow_chain k =
    (get_dmode k ≡ true → flag tdata1 (csr_tdata1_dmode p.xlen) ≡ true)
    × (get_chain k ≡ true
        → (allow_chain ≡ true) × (get_dmode k ≡ flag tdata1 (csr_tdata1_dmode p.xlen)))

fresh_trigger-IsFresh :
    (p : Proc) (type tdata1 : ℕ) (allow_chain : Bool)
    → p.const_xlen ≡ p.xlen
    → IsFresh p tdata1 allow_chain (fresh_trigger p type tdata1 allow_chain).kind
unfolding mcontrol_write mcontrol6_write icount_write itrigger_write etrigger_write disabled_write
fresh_trigger-IsFresh p type tdata1 allow_chain w =
    fresh_cases (λ t. IsFresh p tdata1 allow_chain t.kind) p type tdata1 allow_chain
      (λ h. h, λ h. (ground (arith, h), refl))
      (λ h. ground (arith, h), λ h. absurd (ground (arith, h)))
      (λ h. h, λ h. absurd (ground (arith, h))) (λ h. h, λ h. absurd (ground (arith, h)))
      (
        λ h. ap (λ n. flag tdata1 (csr_tdata1_dmode n)) (sym w) ∙ h,
        λ h. (ground (arith, h), ap (λ n. flag tdata1 (csr_tdata1_dmode n)) w),
      )
      (λ h. h, λ h. absurd (ground (arith, h)))

settings_of-get_chain : (k : Kind) → get_chain (settings_of k) ≡ get_chain k
settings_of-get_chain (Kind.disabled dmode) = refl
settings_of-get_chain (Kind.itrigger k) = refl
settings_of-get_chain (Kind.etrigger k) = refl
settings_of-get_chain (Kind.mcontrol k) = refl
settings_of-get_chain (Kind.mcontrol6 k) = refl
settings_of-get_chain (Kind.icount k) = refl

settings-dmode_at : (ts : List Trigger) (i : ℕ) → dmode_at i (map settings ts) ≡ dmode_at i ts
settings-dmode_at [] i = refl
settings-dmode_at (t ∷ ts) zero = settings_of-get_dmode t.kind
settings-dmode_at (t ∷ ts) (suc i) = settings-dmode_at ts i

settings-chained_at : (ts : List Trigger) (i : ℕ) → chained_at i (map settings ts) ≡ chained_at i ts
settings-chained_at [] i = refl
settings-chained_at (t ∷ ts) zero =
    ap₂ (λ a b. not a && b) (settings_of-get_dmode t.kind) (settings_of-get_chain t.kind)
settings-chained_at (t ∷ ts) (suc i) = settings-chained_at ts i

settings-IsIsolated :
    (ts us : List Trigger) → map settings us ≡ map settings ts → IsIsolated ts → IsIsolated us
settings-IsIsolated ts us e h i =
    ap₂ (λ a b. a && b) (same i chained_at settings-chained_at)
      (same (suc i) dmode_at settings-dmode_at)
    ∙ h i
  where
    same :
        (i : ℕ) (f : ℕ → List Trigger → Bool)
        → ((ts : List Trigger) (i : ℕ) → f i (map settings ts) ≡ f i ts)
        → f i us ≡ f i ts
    same i f g = sym (g us i) ∙ ap (f i) e ∙ g ts i

read-set :
    (ts : List Trigger) (index : ℕ) (t : Trigger) {old : Trigger} (i : ℕ)
    → get_elem? ts index ≡ some old
    → kind_of (get_elem? (set ts index t) i)
      ≡ (if i == index then t.kind else kind_of (get_elem? ts i))
read-set ts index t {old} i h =
    ap kind_of (get_elem?-set ts index i t old h)
    ∙ elim (Bool-cases (i == index)) [ inl e ↦ rw e refl | inr e ↦ rw e refl ]

dmode_at-set :
    (ts : List Trigger) (index : ℕ) (t : Trigger) {old : Trigger} (i : ℕ)
    → get_elem? ts index ≡ some old
    → dmode_at i (set ts index t) ≡ (if i == index then get_dmode t.kind else dmode_at i ts)
dmode_at-set ts index t i h =
    ap get_dmode (read-set ts index t i h)
    ∙ elim (Bool-cases (i == index)) [ inl e ↦ rw e refl | inr e ↦ rw e refl ]

chained_at-set :
    (ts : List Trigger) (index : ℕ) (t : Trigger) {old : Trigger} (i : ℕ)
    → get_elem? ts index ≡ some old
    → chained_at i (set ts index t)
      ≡ (if i == index then not (get_dmode t.kind) && get_chain t.kind else chained_at i ts)
chained_at-set ts index t i h =
    ap (λ k. not (get_dmode k) && get_chain k) (read-set ts index t i h)
    ∙ elim (Bool-cases (i == index)) [ inl e ↦ rw e refl | inr e ↦ rw e refl ]

-- A chain to the next trigger would have to be within the old list, or start or end at the new trigger.
link_fits :
    (here next : Bool) (d c chained dmode : Bool)
    → (here ≡ true → next ≡ false)
    → (next ≡ true → chained ≡ true → d ≡ false)
    → (here ≡ true → d ≡ false → c ≡ true → dmode ≡ false)
    → (chained && dmode) ≡ false
    → ((if here then not d && c else chained) && (if next then d else dmode)) ≡ false
link_fits here next d c chained dmode apart before after iso = ground arith

-- The new trigger fits between its neighbours.
abbrev Fits : ℕ → Kind → List Trigger → Type 0
Fits index k ts =
    ((i : ℕ) → suc i ≡ index → chained_at i ts ≡ true → get_dmode k ≡ false)
    × (get_dmode k ≡ false → get_chain k ≡ true → dmode_at (suc index) ts ≡ false)

set-IsIsolated :
    (ts : List Trigger) (index : ℕ) (t : Trigger) {old : Trigger}
    → get_elem? ts index ≡ some old
    → Fits index t.kind ts
    → IsIsolated ts
    → IsIsolated (set ts index t)
set-IsIsolated ts index t {old} h (before, after) iso i =
    ap₂ (λ a b. a && b) (chained_at-set ts index t i h) (dmode_at-set ts index t (suc i) h)
    ∙ link_fits (i == index) (suc i == index) (get_dmode t.kind) (get_chain t.kind)
        (chained_at i ts) (dmode_at (suc i) ts) (λ e. ground arith) (λ e. before i (ground arith))
        (λ e d c. ap (λ n. dmode_at (suc n) ts) {x = i} {y = index} (ground arith) ∙ after d c)
        (iso i)

chained_before-suc :
    (d : TriggerModule) (index i : ℕ)
    → suc i ≡ index
    → chained_before index d ≡ chained_at i d.triggers
chained_before-suc d zero i e = absurd (omega (arith, e))
chained_before-suc d (suc index) i e =
    ap (λ n. chained_at n d.triggers) {x = index} {y = i} (omega (arith, e))

-- A trigger that stays where it is fits.
old-Fits :
    (ts : List Trigger) (index : ℕ) {old : Trigger}
    → get_elem? ts index ≡ some old
    → IsIsolated ts
    → Fits index old.kind ts
old-Fits ts index {old} h iso = (
  λ i e c. ground (arith, c, iso i, ap (λ n. dmode_at n ts) e, ap (λ o. get_dmode (kind_of o)) h),
  λ d c. ground (
    arith,
    d,
    c,
    iso index,
    ap (λ o. get_dmode (kind_of o)) h,
    ap (λ o. get_chain (kind_of o)) h,
  ),
)

guarded_flag :
    (p : Proc) (val : ℕ)
    → (p.debug_mode || not (flag val (csr_tdata1_dmode p.xlen))) ≡ true
    → flag (handed p val) (csr_tdata1_dmode p.xlen) ≡ false
    → flag val (csr_tdata1_dmode p.xlen) ≡ false
guarded_flag p val g h = elim (Bool-cases p.debug_mode) [
  | inl b ↦
      ap
        (λ (b : Bool).
          flag (if b then val else set_field val (csr_tdata1_dmode p.xlen) 0)
            (csr_tdata1_dmode p.xlen))
        (sym b)
      ∙ h
  | inr b ↦ ground (arith, b, g)
]

fresh-Fits :
    (p : Proc) (index val : ℕ) (d : TriggerModule) (k : Kind)
    → (p.debug_mode || not (flag val (csr_tdata1_dmode p.xlen))) ≡ true
    → (chained_before index d && flag (handed p val) (csr_tdata1_dmode p.xlen)) ≡ false
    → IsFresh p (handed p val) (allowed p index val d) k
    → Fits index k d.triggers
fresh-Fits p index val d k guard c (asked, allow) = (
  λ i e chain.
      no_dmode (get_dmode k) (flag (handed p val) (csr_tdata1_dmode p.xlen)) asked
        (ground (arith, c, chain, chained_before-suc d index i e)),
  λ plain chain.
      let (ok, dmode) = allow chain in
      ground (arith, ok, guarded_flag p val guard (sym dmode ∙ plain)),
)
  where
    no_dmode : (a b : Bool) → (a ≡ true → b ≡ true) → b ≡ false → a ≡ false
    no_dmode a b h e = ground arith

written-IsFresh :
    (p : Proc) (index val : ℕ) (d : TriggerModule) (old : Trigger)
    → p.const_xlen ≡ p.xlen
    → IsFresh p (handed p val) (allowed p index val d) (written p index val d old).kind
written-IsFresh p index val d old wide =
    let type = get_field val (csr_tdata1_type p.xlen) in
    subst (IsFresh p (handed p val) (allowed p index val d))
      (sym (renewed-kind p type (handed p val) (allowed p index val d) old))
      (fresh_trigger-IsFresh p type (handed p val) (allowed p index val d) wide)

tdata1_write-IsIsolated :
    (p : Proc) (index val : ℕ) (d : TriggerModule)
    → IsGuarded (Event.write1 p index val)
    → IsIsolated d.triggers
    → IsIsolated (tdata1_write p index val d).0.triggers
tdata1_write-IsIsolated p index val d (guard, wide) iso =
    elim (tdata1_write-Outcome p index val d) [
      | inl same ↦ subst (λ r. IsIsolated r.0.triggers) (sym same) iso
      | inr (old, at, l, c, same) ↦
          subst (λ r. IsIsolated r.0.triggers) (sym same)
            (set-IsIsolated d.triggers index (written p index val d old) at
              (fresh-Fits p index val d (written p index val d old).kind guard c
                (written-IsFresh p index val d old wide))
              iso)
    ]

Outcome-IsIsolated :
    (p : Proc) (index : ℕ) (t : Trigger → Trigger) (d : TriggerModule) (r : TriggerModule × Bool)
    → ((old : Trigger) → (t old).kind ≡ old.kind)
    → Outcome p index t d r
    → IsIsolated d.triggers
    → IsIsolated r.0.triggers
Outcome-IsIsolated p index t d r k (inl same) iso =
    subst (λ r. IsIsolated r.0.triggers) (sym same) iso
Outcome-IsIsolated p index t d r k (inr (old, at, l, same)) iso =
    subst (λ r. IsIsolated r.0.triggers) (sym same)
      (set-IsIsolated d.triggers index (t old) at
        (subst (λ k. Fits index k d.triggers) (sym (k old)) (old-Fits d.triggers index at iso)) iso)

step-IsIsolated :
    (event : Event) (d : TriggerModule)
    → IsGuarded event
    → IsIsolated d.triggers
    → IsIsolated (step event d).triggers
step-IsIsolated (Event.write1 p index val) d g iso = tdata1_write-IsIsolated p index val d g iso
step-IsIsolated (Event.write2 p index val) d g iso =
    Outcome-IsIsolated p index (λ old. record old { tdata2 = val }) d (tdata2_write p index val d)
      (λ old. refl) (tdata2_write-Outcome p index val d) iso
step-IsIsolated (Event.write3 p index val) d g iso =
    Outcome-IsIsolated p index (tdata3_write p val) d (module_tdata3_write p index val d)
      (tdata3_write-kind p val) (tdata3_write-Outcome p index val d) iso
step-IsIsolated (Event.access p operation address data') d g iso =
    settings-IsIsolated d.triggers _ (access-settings p operation address data' d) iso
step-IsIsolated (Event.count p) d g iso = settings-IsIsolated d.triggers _ (icount-settings p d) iso
step-IsIsolated (Event.trap p cause) d g iso =
    settings-IsIsolated d.triggers _ (trap-settings p cause d) iso

-- From any list in which no chained trigger of the program stands before one of the debugger, any events
-- lead to such a list, as long as every write to tdata1 is made in debug mode or does not ask for `dmode`,
-- at the full width of the hart.
pub run-IsIsolated :
    (events : List Event) (d : TriggerModule)
    → Each IsGuarded events
    → IsIsolated d.triggers
    → IsIsolated (run events d).triggers
run-IsIsolated [] d g iso = iso
run-IsIsolated (event ∷ events) d g iso =
    run-IsIsolated events (step event d) g.1 (step-IsIsolated event d g.0 iso)
