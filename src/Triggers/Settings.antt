-- ===== src/Triggers/Settings.antt =====
-- riscv/triggers.cc: what a debugger sets of a trigger, and the detections.
use nnemu.Base.{
  Bool, Bool-cases, List, Option, [], ap, ap₂, false, get_elem?, if◌then◌else◌, inl, inr, map, none,
  not, refl, true, ℕ, ◌||◌, ◌∙◌, ◌∷◌, ◌≡◌,
}
use nnemu.Triggers.{Kind, MatchResult, Operation, Proc, Trigger, get_chain, get_dmode}
use nnemu.Triggers.Match.{
  common_match, etrigger_match, icount_match, is_some, itrigger_match, kind_access, kind_icount,
  kind_trap, stash_read_values, trigger_access, trigger_icount, trigger_trap,
}
use nnemu.Triggers.TriggerModule.{
  TriggerModule, access_loop, better, detect_icount_match, detect_memory_access_match,
  detect_trap_match, each_trigger, stash_all,
}
use nnemu.Triggers.Outcomes.{access-triggers, icount-triggers, trap-triggers, trap_match-hit}

-- What a debugger sets of a trigger: all but the hit, the count and the pending bit.
abbrev pub settings_of : Kind → Kind
settings_of (Kind.disabled dmode) = Kind.disabled dmode
settings_of (Kind.itrigger k) = Kind.itrigger (record k { hit = false })
settings_of (Kind.etrigger k) = Kind.etrigger (record k { hit = false })
settings_of (Kind.mcontrol k) = Kind.mcontrol (record k { hit = false })
settings_of (Kind.mcontrol6 k) = Kind.mcontrol6 (record k { hit = false })
settings_of (Kind.icount k) = Kind.icount (record k {
  hit = false;
  count = 0;
  count_read_value = 0;
  pending = false;
  pending_read_value = false;
})

abbrev pub settings : Trigger → Trigger
settings t = record t { kind = settings_of t.kind }

abbrev pub settings_at : ℕ → TriggerModule → Option Trigger
settings_at index d = get_elem? (map settings d.triggers) index

pub settings_of-get_dmode : (k : Kind) → get_dmode (settings_of k) ≡ get_dmode k
settings_of-get_dmode (Kind.disabled dmode) = refl
settings_of-get_dmode (Kind.itrigger k) = refl
settings_of-get_dmode (Kind.etrigger k) = refl
settings_of-get_dmode (Kind.mcontrol k) = refl
settings_of-get_dmode (Kind.mcontrol6 k) = refl
settings_of-get_dmode (Kind.icount k) = refl

access-settings_of :
    (p : Proc) (t : Trigger) (operation : Operation) (address : ℕ) (data' : Option ℕ) (k : Kind)
    → settings_of (kind_access p t operation address data' k).0 ≡ settings_of k
unfolding kind_access
access-settings_of p t operation address data' (Kind.disabled dmode) = refl
access-settings_of p t operation address data' (Kind.itrigger k) = refl
access-settings_of p t operation address data' (Kind.etrigger k) = refl
access-settings_of p t operation address data' (Kind.mcontrol k) = refl
access-settings_of p t operation address data' (Kind.mcontrol6 k) = refl
access-settings_of p t operation address data' (Kind.icount k) = refl

stash-settings_of : (k : Kind) → settings_of (stash_read_values k) ≡ settings_of k
unfolding stash_read_values
stash-settings_of (Kind.disabled dmode) = refl
stash-settings_of (Kind.itrigger k) = refl
stash-settings_of (Kind.etrigger k) = refl
stash-settings_of (Kind.mcontrol k) = refl
stash-settings_of (Kind.mcontrol6 k) = refl
stash-settings_of (Kind.icount k) = refl

icount-settings_of :
    (p : Proc) (t : Trigger) (k : Kind) → settings_of (kind_icount p t k).0 ≡ settings_of k
unfolding kind_icount icount_match
icount-settings_of p t (Kind.disabled dmode) = refl
icount-settings_of p t (Kind.itrigger k) = refl
icount-settings_of p t (Kind.etrigger k) = refl
icount-settings_of p t (Kind.mcontrol k) = refl
icount-settings_of p t (Kind.mcontrol6 k) = refl
icount-settings_of p t (Kind.icount k) = elim (Bool-cases (common_match p t)) [
  | inl m ↦ rw m refl
  | inr m ↦ rw m refl
]

trap-settings_of :
    (p : Proc) (t : Trigger) (cause : ℕ) (k : Kind)
    → settings_of (kind_trap p t cause k).0 ≡ settings_of k
unfolding kind_trap
trap-settings_of p t cause (Kind.disabled dmode) = refl
trap-settings_of p t cause (Kind.mcontrol k) = refl
trap-settings_of p t cause (Kind.mcontrol6 k) = refl
trap-settings_of p t cause (Kind.icount k) = refl
trap-settings_of p t cause (Kind.itrigger k) =
    ap (λ k'. settings_of (Kind.itrigger k'))
      (trap_match-hit p t (itrigger_match t.tdata2 k.nmi) cause k)
trap-settings_of p t cause (Kind.etrigger k) =
    ap (λ k'. settings_of (Kind.etrigger k')) (trap_match-hit p t (etrigger_match t.tdata2) cause k)

-- The three detections keep the settings of every trigger.
pub access_loop-settings :
    (p : Proc) (operation : Operation) (address : ℕ) (data' : Option ℕ) (chain_ok : Bool)
    (ret : Option MatchResult) (ts : List Trigger)
    → map settings (access_loop p operation address data' chain_ok ret ts).0 ≡ map settings ts
unfolding access_loop trigger_access
access_loop-settings p operation address data' chain_ok ret [] = refl
access_loop-settings p operation address data' true ret (t ∷ ts) =
    ap₂ (λ k rest. record t { kind = k } ∷ rest)
      (access-settings_of p t operation address data' t.kind)
      (access_loop-settings p operation address data'
        (is_some (trigger_access p operation address data' t).1 || not (get_chain t.kind))
        (if get_chain t.kind
          then ret
          else better ret (trigger_access p operation address data' t).1)
        ts)
access_loop-settings p operation address data' false ret (t ∷ ts) =
    ap (λ rest. settings t ∷ rest)
      (access_loop-settings p operation address data' (not (get_chain t.kind)) ret ts)

pub stash_all-settings : (ts : List Trigger) → map settings (stash_all ts) ≡ map settings ts
stash_all-settings [] = refl
stash_all-settings (t ∷ ts) =
    ap₂ (λ k rest. record t { kind = k } ∷ rest) (stash-settings_of t.kind) (stash_all-settings ts)

pub each_trigger-settings :
    (detect : Trigger → Trigger × Option MatchResult) (ret : Option MatchResult) (ts : List Trigger)
    → ((t : Trigger) → settings (detect t).0 ≡ settings t)
    → map settings (each_trigger detect ret ts).0 ≡ map settings ts
unfolding each_trigger
each_trigger-settings detect ret [] h = refl
each_trigger-settings detect ret (t ∷ ts) h =
    ap₂ (λ (u : Trigger) rest. u ∷ rest) (h t)
      (each_trigger-settings detect (better ret (detect t).1) ts h)

pub trigger_icount-settings :
    (p : Proc) (t : Trigger) → settings (trigger_icount p t).0 ≡ settings t
unfolding trigger_icount
trigger_icount-settings p t = ap (λ k. record t { kind = k }) (icount-settings_of p t t.kind)

pub trigger_trap-settings :
    (p : Proc) (cause : ℕ) (t : Trigger) → settings (trigger_trap p cause t).0 ≡ settings t
unfolding trigger_trap
trigger_trap-settings p cause t =
    ap (λ k. record t { kind = k }) (trap-settings_of p t cause t.kind)

pub if-settings :
    (b : Bool) (xs ys zs : List Trigger)
    → map settings xs ≡ map settings zs
    → map settings ys ≡ map settings zs
    → map settings (if b then xs else ys) ≡ map settings zs
if-settings true xs ys zs h g = h
if-settings false xs ys zs h g = g

pub access-settings :
    (p : Proc) (operation : Operation) (address : ℕ) (data' : Option ℕ) (d : TriggerModule)
    → map settings (detect_memory_access_match p operation address data' d).0.triggers
      ≡ map settings d.triggers
access-settings p operation address data' d =
    ap (λ d. map settings d.triggers) (access-triggers p operation address data' d)
    ∙ if-settings p.debug_mode _ _ d.triggers refl
        (access_loop-settings p operation address data' true none d.triggers)

pub icount-settings :
    (p : Proc) (d : TriggerModule)
    → map settings (detect_icount_match p d).0.triggers ≡ map settings d.triggers
icount-settings p d =
    ap (λ d. map settings d.triggers) (icount-triggers p d)
    ∙ if-settings p.debug_mode _ _ d.triggers (stash_all-settings d.triggers) (
        each_trigger-settings (trigger_icount p) none (stash_all d.triggers)
          (trigger_icount-settings p)
        ∙ stash_all-settings d.triggers)

pub trap-settings :
    (p : Proc) (cause : ℕ) (d : TriggerModule)
    → map settings (detect_trap_match p cause d).0.triggers ≡ map settings d.triggers
trap-settings p cause d =
    ap (λ d. map settings d.triggers) (trap-triggers p cause d)
    ∙ if-settings p.debug_mode _ _ d.triggers refl (
        each_trigger-settings (trigger_trap p cause) none d.triggers
          (trigger_trap-settings p cause))
