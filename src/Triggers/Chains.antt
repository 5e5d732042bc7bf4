-- ===== src/Triggers/Chains.antt =====
-- riscv/triggers.cc: chains of triggers. A trigger with `chain` set forms a chain with the next one.
use nnemu.Base.{
  ℕ, ◌≡◌, refl, ap, sym, ◌∙◌, Bool, true, false, if◌then◌else◌, Option, none, List, [], ◌∷◌,
  Bool-cases, inl, inr,
}
use nnemu.Triggers.{MatchResult, Operation, Proc, Trigger, get_chain}
use nnemu.Triggers.Match.{is_some, trigger_access}
use nnemu.Triggers.TriggerModule.{TriggerModule, access_loop, better, detect_memory_access_match}

-- The list cut into its chains, each up to a trigger that is not chained to the next.
abbrev attach : Trigger → List (List Trigger) → List (List Trigger)
attach t [] = (t ∷ []) ∷ []
attach t (chain ∷ chains) = (t ∷ chain) ∷ chains

abbrev pub chains_of : List Trigger → List (List Trigger)
chains_of [] = []
chains_of (t ∷ rest) =
    if get_chain t.kind then attach t (chains_of rest) else (t ∷ []) ∷ chains_of rest

module _ (p : Proc) (operation : Operation) (address : ℕ) (data' : Option ℕ) where
  abbrev pub match_of : Trigger → Option MatchResult
  match_of t = (trigger_access p operation address data' t).1

  -- A chain matches if all its triggers do, with the match of the last one; a chain that the end of
  -- the list cuts off does not.
  abbrev pub chain_match : List Trigger → Option MatchResult
  chain_match [] = none
  chain_match (t ∷ []) = if get_chain t.kind then none else match_of t
  chain_match (t ∷ u ∷ rest) = if is_some (match_of t) then chain_match (u ∷ rest) else none

  abbrev pub best_chain : Option MatchResult → List (List Trigger) → Option MatchResult
  best_chain ret [] = ret
  best_chain ret (chain ∷ chains) = best_chain (better ret (chain_match chain)) chains

  abbrev later : List (List Trigger) → List (List Trigger)
  later [] = []
  later (chain ∷ chains) = chains

  abbrev looped : Bool → Option MatchResult → List Trigger → Option MatchResult
  looped chain_ok ret ts = (access_loop p operation address data' chain_ok ret ts).1

  later-attach :
      (t : Trigger) (chains : List (List Trigger)) → later (attach t chains) ≡ later chains
  later-attach t [] = refl
  later-attach t (chain ∷ chains) = refl

  -- A chain is never empty.
  data Filled : List (List Trigger) → Type 0 where
    filled_none : Filled []
    filled_more :
        (t : Trigger) (chain : List Trigger) (chains : List (List Trigger))
        → Filled ((t ∷ chain) ∷ chains)

  attach-Filled : (t : Trigger) (chains : List (List Trigger)) → Filled (attach t chains)
  attach-Filled t [] = filled_more t [] []
  attach-Filled t (chain ∷ chains) = filled_more t chain chains

  chains_of-Filled : (ts : List Trigger) → Filled (chains_of ts)
  chains_of-Filled [] = filled_none
  chains_of-Filled (t ∷ rest) = elim (Bool-cases (get_chain t.kind)) [
    | inl e ↦ rw e (attach-Filled t (chains_of rest))
    | inr e ↦ rw e (filled_more t [] (chains_of rest))
  ]

  attach-matched :
      (t : Trigger) (ret : Option MatchResult) (chains : List (List Trigger))
      → Filled chains
      → get_chain t.kind ≡ true
      → is_some (match_of t) ≡ true
      → best_chain ret (attach t chains) ≡ best_chain ret chains
  attach-matched t ret chains filled_none c e = rw c refl
  attach-matched t ret chains (filled_more u chain more) c e = rw (e, best_chain) refl

  attach-missed :
      (t : Trigger) (ret : Option MatchResult) (chains : List (List Trigger))
      → Filled chains
      → get_chain t.kind ≡ true
      → is_some (match_of t) ≡ false
      → best_chain ret (attach t chains) ≡ best_chain ret (later chains)
  attach-missed t ret chains filled_none c e = rw c refl
  attach-missed t ret chains (filled_more u chain more) c e = rw (e, best_chain) refl

  best_chain-single :
      (t : Trigger) (ret : Option MatchResult) (chains : List (List Trigger))
      → get_chain t.kind ≡ false
      → best_chain ret ((t ∷ []) ∷ chains) ≡ best_chain (better ret (match_of t)) chains
  best_chain-single t ret chains c =
      ap (λ r. best_chain (better ret r) chains) {x = chain_match (t ∷ [])} {y = match_of t}
        (rw c refl)

  looped-chains :
      (chain_ok : Bool) (ret : Option MatchResult) (ts : List Trigger)
      → looped chain_ok ret ts
        ≡ best_chain ret (if chain_ok then chains_of ts else later (chains_of ts))
  unfolding access_loop
  looped-chains true ret [] = refl
  looped-chains false ret [] = refl
  looped-chains true ret (t ∷ rest) = elim (Bool-cases (get_chain t.kind)) [
    | inl c ↦ elim (Bool-cases (is_some (match_of t))) [
      | inl e ↦
          rw (c, e)
            (looped-chains true ret rest
              ∙ sym (attach-matched t ret (chains_of rest) (chains_of-Filled rest) c e))
      | inr e ↦
          rw (c, e)
            (looped-chains false ret rest
              ∙ sym (attach-missed t ret (chains_of rest) (chains_of-Filled rest) c e))
    ]
    | inr c ↦ elim (Bool-cases (is_some (match_of t))) [
      | inl e ↦
          rw (c, e)
            (looped-chains true (better ret (match_of t)) rest
              ∙ sym (best_chain-single t ret (chains_of rest) c))
      | inr e ↦
          rw (c, e)
            (looped-chains true (better ret (match_of t)) rest
              ∙ sym (best_chain-single t ret (chains_of rest) c))
    ]
  ]
  looped-chains false ret (t ∷ rest) = elim (Bool-cases (get_chain t.kind)) [
    | inl c ↦
        rw c (
          looped-chains false ret rest
          ∙ ap (best_chain ret) (sym (later-attach t (chains_of rest))))
    | inr c ↦ rw c (looped-chains true ret rest)
  ]

-- Outside debug mode the detection of a memory access gives the best match of the chains into which the
-- list is cut; a chain matches if all its triggers do, and one that the end of the list cuts off does not.
pub detect-chains :
    (p : Proc) (operation : Operation) (address : ℕ) (data' : Option ℕ) (d : TriggerModule)
    → p.debug_mode ≡ false
    → (detect_memory_access_match p operation address data' d).1
      ≡ best_chain p operation address data' none (chains_of d.triggers)
unfolding detect_memory_access_match
detect-chains p operation address data' d h =
    simp h (looped-chains p operation address data' true none d.triggers)
