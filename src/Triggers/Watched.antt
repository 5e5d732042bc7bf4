-- ===== src/Triggers/Watched.antt =====
-- riscv/triggers.cc, riscv/processor.cc: the flags that say which accesses need the triggers at all.
use nnemu.Base.{
  Bool, List, Option, [], ap, ap₂, arith, false, if◌then◌else◌, inl, inr, map, none, not, refl,
  replicate, subst, suc, sym, true, zero, ℕ, ◌||◌, ◌∙◌, ◌∷◌, ◌≡◌,
}
use nnemu.Triggers.{
  Kind, MatchResult, Operation, Proc, Trigger, get_chain, get_execute, get_load, get_store,
  icount_check_needed,
}
use nnemu.Triggers.Match.{
  icount_match, is_some, kind_access, kind_icount, kind_trap, stash_read_values, trigger_access,
  trigger_icount, trigger_trap,
}
use nnemu.Triggers.TriggerModule.{
  TriggerModule, access_loop, any_kind, better, each_trigger, make, module_tdata3_write,
  new_trigger, replaced, stash_all, tdata2_write, trigger_updated,
}
use nnemu.Triggers.Outcomes.{
  Outcome, access-triggers, icount-triggers, tdata1_write-Outcome, tdata2_write-Outcome,
  tdata3_write-Outcome, trap-triggers,
}
use nnemu.Triggers.Settings.{access-settings, icount-settings, settings, settings_of, trap-settings}
use nnemu.Triggers.Registers.{tdata3_write}
use nnemu.Triggers.Steps.{Event, run, step}

-- The flags of fetches, loads and stores say exactly whether a trigger looks at them; that of the
-- counters is set as long as a counter runs or is pending.
pub record IsWatched (d : TriggerModule) : Type 0 where
  pub fetches : d.checks.check_fetch ≡ any_kind get_execute d.triggers
  pub loads : d.checks.check_load ≡ any_kind get_load d.triggers
  pub stores : d.checks.check_store ≡ any_kind get_store d.triggers
  pub counts : any_kind icount_check_needed d.triggers ≡ true → d.checks.check_icount ≡ true

settings_of-get_execute : (k : Kind) → get_execute (settings_of k) ≡ get_execute k
settings_of-get_execute (Kind.disabled dmode) = refl
settings_of-get_execute (Kind.itrigger k) = refl
settings_of-get_execute (Kind.etrigger k) = refl
settings_of-get_execute (Kind.mcontrol k) = refl
settings_of-get_execute (Kind.mcontrol6 k) = refl
settings_of-get_execute (Kind.icount k) = refl

settings_of-get_load : (k : Kind) → get_load (settings_of k) ≡ get_load k
settings_of-get_load (Kind.disabled dmode) = refl
settings_of-get_load (Kind.itrigger k) = refl
settings_of-get_load (Kind.etrigger k) = refl
settings_of-get_load (Kind.mcontrol k) = refl
settings_of-get_load (Kind.mcontrol6 k) = refl
settings_of-get_load (Kind.icount k) = refl

settings_of-get_store : (k : Kind) → get_store (settings_of k) ≡ get_store k
settings_of-get_store (Kind.disabled dmode) = refl
settings_of-get_store (Kind.itrigger k) = refl
settings_of-get_store (Kind.etrigger k) = refl
settings_of-get_store (Kind.mcontrol k) = refl
settings_of-get_store (Kind.mcontrol6 k) = refl
settings_of-get_store (Kind.icount k) = refl

any_kind-settings :
    (f : Kind → Bool) (ts : List Trigger)
    → ((k : Kind) → f (settings_of k) ≡ f k)
    → any_kind f (map settings ts) ≡ any_kind f ts
any_kind-settings f [] h = refl
any_kind-settings f (t ∷ ts) h = ap₂ (λ a b. a || b) (h t.kind) (any_kind-settings f ts h)

-- Lists with the same settings are looked at alike.
any_kind-same :
    (f : Kind → Bool) (ts us : List Trigger)
    → ((k : Kind) → f (settings_of k) ≡ f k)
    → map settings us ≡ map settings ts
    → any_kind f ts ≡ any_kind f us
any_kind-same f ts us h e =
    sym (any_kind-settings f ts h) ∙ ap (any_kind f) (sym e) ∙ any_kind-settings f us h

-- A detection that keeps the settings, and lets no more triggers count, keeps the flags right.
detected-IsWatched :
    (d : TriggerModule) (ts : List Trigger) {e : TriggerModule}
    → e ≡ record d { triggers = ts }
    → map settings e.triggers ≡ map settings d.triggers
    → (any_kind icount_check_needed ts ≡ true → any_kind icount_check_needed d.triggers ≡ true)
    → IsWatched d
    → IsWatched e
detected-IsWatched d ts {e} same keep count w = subst IsWatched (sym same) (record {
  fetches = w.fetches ∙ any_kind-same get_execute d.triggers ts settings_of-get_execute kept;
  loads = w.loads ∙ any_kind-same get_load d.triggers ts settings_of-get_load kept;
  stores = w.stores ∙ any_kind-same get_store d.triggers ts settings_of-get_store kept;
  counts = λ h. w.counts (count h);
})
  where
    kept : map settings ts ≡ map settings d.triggers
    kept = sym (ap (λ d. map settings d.triggers) same) ∙ keep

replaced-IsWatched : (index : ℕ) (t : Trigger) (d : TriggerModule) → IsWatched (replaced index t d)
unfolding trigger_updated
replaced-IsWatched index t d = record {
  fetches = refl;
  loads = refl;
  stores = refl;
  counts = λ h. h;
}

Outcome-IsWatched :
    (p : Proc) (index : ℕ) (t : Trigger → Trigger) (d : TriggerModule) (r : TriggerModule × Bool)
    → Outcome p index t d r
    → IsWatched d
    → IsWatched r.0
Outcome-IsWatched p index t d r (inl same) w = subst (λ r. IsWatched r.0) (sym same) w
Outcome-IsWatched p index t d r (inr (old, at, l, same)) w =
    subst (λ r. IsWatched r.0) (sym same) (replaced-IsWatched index (t old) d)

either :
    (a b c e : Bool)
    → (a ≡ true → c ≡ true)
    → (b ≡ true → e ≡ true)
    → (a || b) ≡ true
    → (c || e) ≡ true
either true b c e h g x = rw (h refl) refl
either false b true e h g x = refl
either false b false e h g x = g x

access-counting :
    (p : Proc) (t : Trigger) (operation : Operation) (address : ℕ) (data' : Option ℕ) (k : Kind)
    → icount_check_needed (kind_access p t operation address data' k).0 ≡ icount_check_needed k
unfolding kind_access
access-counting p t operation address data' (Kind.disabled dmode) = refl
access-counting p t operation address data' (Kind.itrigger k) = refl
access-counting p t operation address data' (Kind.etrigger k) = refl
access-counting p t operation address data' (Kind.mcontrol k) = refl
access-counting p t operation address data' (Kind.mcontrol6 k) = refl
access-counting p t operation address data' (Kind.icount k) = refl

stash-counting : (k : Kind) → icount_check_needed (stash_read_values k) ≡ icount_check_needed k
unfolding stash_read_values
stash-counting (Kind.disabled dmode) = refl
stash-counting (Kind.itrigger k) = refl
stash-counting (Kind.etrigger k) = refl
stash-counting (Kind.mcontrol k) = refl
stash-counting (Kind.mcontrol6 k) = refl
stash-counting (Kind.icount k) = refl

-- A counter that runs or is pending after a step did so before it.
icount-counting :
    (p : Proc) (t : Trigger) (k : Kind)
    → icount_check_needed (kind_icount p t k).0 ≡ true
    → icount_check_needed k ≡ true
unfolding kind_icount icount_match
icount-counting p t (Kind.disabled dmode) h = h
icount-counting p t (Kind.itrigger k) h = h
icount-counting p t (Kind.etrigger k) h = h
icount-counting p t (Kind.mcontrol k) h = h
icount-counting p t (Kind.mcontrol6 k) h = h
icount-counting p t (Kind.icount k) h = ground arith

trap-counting :
    (p : Proc) (t : Trigger) (cause : ℕ) (k : Kind)
    → icount_check_needed (kind_trap p t cause k).0 ≡ icount_check_needed k
unfolding kind_trap
trap-counting p t cause (Kind.disabled dmode) = refl
trap-counting p t cause (Kind.mcontrol k) = refl
trap-counting p t cause (Kind.mcontrol6 k) = refl
trap-counting p t cause (Kind.icount k) = refl
trap-counting p t cause (Kind.itrigger k) = refl
trap-counting p t cause (Kind.etrigger k) = refl

trigger_icount-counting :
    (p : Proc) (t : Trigger)
    → icount_check_needed (trigger_icount p t).0.kind ≡ true
    → icount_check_needed t.kind ≡ true
unfolding trigger_icount
trigger_icount-counting p t h = icount-counting p t t.kind h

trigger_trap-counting :
    (p : Proc) (cause : ℕ) (t : Trigger)
    → icount_check_needed (trigger_trap p cause t).0.kind ≡ true
    → icount_check_needed t.kind ≡ true
unfolding trigger_trap
trigger_trap-counting p cause t h = sym (trap-counting p t cause t.kind) ∙ h

access_loop-counting :
    (p : Proc) (operation : Operation) (address : ℕ) (data' : Option ℕ) (chain_ok : Bool)
    (ret : Option MatchResult) (ts : List Trigger)
    → any_kind icount_check_needed (access_loop p operation address data' chain_ok ret ts).0
      ≡ any_kind icount_check_needed ts
unfolding access_loop trigger_access
access_loop-counting p operation address data' chain_ok ret [] = refl
access_loop-counting p operation address data' true ret (t ∷ ts) =
    ap₂ (λ a b. a || b) (access-counting p t operation address data' t.kind)
      (access_loop-counting p operation address data'
        (is_some (trigger_access p operation address data' t).1 || not (get_chain t.kind))
        (if get_chain t.kind
          then ret
          else better ret (trigger_access p operation address data' t).1)
        ts)
access_loop-counting p operation address data' false ret (t ∷ ts) =
    ap (λ b. icount_check_needed t.kind || b)
      (access_loop-counting p operation address data' (not (get_chain t.kind)) ret ts)

stash_all-counting :
    (ts : List Trigger)
    → any_kind icount_check_needed (stash_all ts) ≡ any_kind icount_check_needed ts
stash_all-counting [] = refl
stash_all-counting (t ∷ ts) = ap₂ (λ a b. a || b) (stash-counting t.kind) (stash_all-counting ts)

each_trigger-counting :
    (detect : Trigger → Trigger × Option MatchResult) (ret : Option MatchResult) (ts : List Trigger)
    → ((t : Trigger)
        → icount_check_needed (detect t).0.kind ≡ true
        → icount_check_needed t.kind ≡ true)
    → any_kind icount_check_needed (each_trigger detect ret ts).0 ≡ true
    → any_kind icount_check_needed ts ≡ true
unfolding each_trigger
each_trigger-counting detect ret [] h g = g
each_trigger-counting detect ret (t ∷ ts) h g =
    either _ _ _ _ (h t) (each_trigger-counting detect (better ret (detect t).1) ts h) g

if-counting :
    (b : Bool) (xs ys zs : List Trigger)
    → (any_kind icount_check_needed xs ≡ true → any_kind icount_check_needed zs ≡ true)
    → (any_kind icount_check_needed ys ≡ true → any_kind icount_check_needed zs ≡ true)
    → any_kind icount_check_needed (if b then xs else ys) ≡ true
    → any_kind icount_check_needed zs ≡ true
if-counting true xs ys zs h g e = h e
if-counting false xs ys zs h g e = g e

step-IsWatched : (event : Event) (d : TriggerModule) → IsWatched d → IsWatched (step event d)
step-IsWatched (Event.write1 p index val) d w = elim (tdata1_write-Outcome p index val d) [
  | inl same ↦ subst (λ r. IsWatched r.0) (sym same) w
  | inr (old, at, l, c, same) ↦ subst (λ r. IsWatched r.0) (sym same) (replaced-IsWatched index _ d)
]
step-IsWatched (Event.write2 p index val) d w =
    Outcome-IsWatched p index (λ old. record old { tdata2 = val }) d (tdata2_write p index val d)
      (tdata2_write-Outcome p index val d) w
step-IsWatched (Event.write3 p index val) d w =
    Outcome-IsWatched p index (tdata3_write p val) d (module_tdata3_write p index val d)
      (tdata3_write-Outcome p index val d) w
step-IsWatched (Event.access p operation address data') d w =
    detected-IsWatched d _ (access-triggers p operation address data' d)
      (access-settings p operation address data' d)
      (λ e.
        if-counting p.debug_mode _ _ d.triggers (λ h. h)
          (λ h. sym (access_loop-counting p operation address data' true none d.triggers) ∙ h) e)
      w
step-IsWatched (Event.count p) d w =
    let stashed = λ (h : any_kind icount_check_needed (stash_all d.triggers) ≡ true).
      sym (stash_all-counting d.triggers) ∙ h in
    detected-IsWatched d _ (icount-triggers p d) (icount-settings p d)
      (if-counting p.debug_mode _ _ d.triggers stashed (λ h. stashed (
        each_trigger-counting (trigger_icount p) none (stash_all d.triggers)
          (trigger_icount-counting p) h)))
      w
step-IsWatched (Event.trap p cause) d w =
    detected-IsWatched d _ (trap-triggers p cause d) (trap-settings p cause d)
      (if-counting p.debug_mode _ _ d.triggers (λ h. h)
        (each_trigger-counting (trigger_trap p cause) none d.triggers
          (trigger_trap-counting p cause)))
      w

none_watched :
    (f : Kind → Bool) (n : ℕ)
    → f (Kind.disabled false) ≡ false
    → any_kind f (replicate n new_trigger) ≡ false
none_watched f zero h = refl
none_watched f (suc n) h = rw h (none_watched f n h)

make-IsWatched : (n : ℕ) → IsWatched (make n)
unfolding make
make-IsWatched n = record {
  fetches = sym (none_watched get_execute n refl);
  loads = sym (none_watched get_load n refl);
  stores = sym (none_watched get_store n refl);
  counts = λ h. sym (none_watched icount_check_needed n refl) ∙ h;
}

-- Whatever is written and detected, in any order and in any mode, the flags are right: no fetch, load,
-- store or instruction that a trigger looks at passes without the triggers being asked.
pub run-IsWatched : (n : ℕ) (events : List Event) → IsWatched (run events (make n))
run-IsWatched n events = from events (make n) (make-IsWatched n)
  where
    from : (events : List Event) (d : TriggerModule) → IsWatched d → IsWatched (run events d)
    from [] d w = w
    from (event ∷ events) d w = from events (step event d) (step-IsWatched event d w)
