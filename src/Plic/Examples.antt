-- ===== src/Plic/Examples.antt =====
-- A controller of 31 sources with the two contexts of one hart.
use nnemu.Base.{ℕ, ◌≤◌, ◌<◌, ◌≡◌, ◌⊎◌, refl, arith, Bool, true, false, List, [], ◌∷◌}
use nnemu.Plic.{Plic, Context, context_best_pending, make}
use nnemu.Plic.Best.{asks, context_best_pending_lem}
use nnemu.Plic.Sync.{IsSynced}
use nnemu.Plic.Run.{Event, run, run-IsSynced}

abbrev quiet : Bool → Context
quiet mmode = record {
  hart = 0;
  mmode = mmode;
  priority_threshold = 0;
  enable = λ _. 0;
  pending = λ _. 0;
  pending_priority = λ _. 0;
  claimed = λ _. 0;
}

abbrev fresh : Plic
fresh = record {
  contexts = quiet true ∷ quiet false ∷ [];
  num_ids = 32;
  num_ids_word = 1;
  max_prio = 15;
  priority = λ _. 0;
  level = λ _. 0;
  mip = λ _. 0;
}

-- Priority 3 for source 5, enabled for both contexts; the source rises, and is claimed.
abbrev session : List Event
session =
    Event.stores 0x14 (3 ∷ 0 ∷ 0 ∷ 0 ∷ [])
    ∷ Event.stores 0x2000 (0x20 ∷ 0 ∷ 0 ∷ 0 ∷ [])
    ∷ Event.levels 5 true
    ∷ Event.loads 0x200004 4
    ∷ []

run-IsSynced_example : IsSynced (run (make ((0, true) ∷ (3, false) ∷ []) 31 (λ hart. 0)) session)
run-IsSynced_example =
    run-IsSynced ((0, true) ∷ (3, false) ∷ []) 31 (λ hart. 0) session (omega arith) (λ hart. refl)

-- Sources 5 and 6 ask, 6 with the greater priority.
abbrev asking : Context
asking = record (quiet true) { pending = λ _. 0x60; pending_priority = λ i. i }

context_best_pending_lem_example :
    let best = context_best_pending fresh asking in
    (1 ≤ best → asks fresh.num_ids asking best ≡ true)
    × ((x : ℕ)
        → 1 ≤ x
        → asks fresh.num_ids asking x ≡ true
        → (1 ≤ best)
          × ((asking.pending_priority x < asking.pending_priority best)
              ⊎ ((asking.pending_priority x ≡ asking.pending_priority best) × (best ≤ x))))
context_best_pending_lem_example = context_best_pending_lem fresh asking (omega arith)
