-- ===== src/Clint/Examples.antt =====
-- Two harts, one with a deadline.
use nnemu.Base.{ℕ, false, List, [], ◌∷◌}
use nnemu.Clint.{make}
use nnemu.Clint.Timer.{Event, IsTimed, run, run-IsTimed}

abbrev session : List (ℕ × Event)
session =
    (0, Event.stores 0x4000 (100 ∷ 0 ∷ 0 ∷ 0 ∷ 0 ∷ 0 ∷ 0 ∷ 0 ∷ []))
    ∷ (5, Event.increments 99)
    ∷ (6, Event.increments 1)
    ∷ (7, Event.loads 0xbff8 8)
    ∷ []

run-IsTimed_example : IsTimed (run (make 0 (0 ∷ 1 ∷ []) 10000000 false (λ _. 0) (λ _. 0)) session)
run-IsTimed_example = run-IsTimed session 0 (0 ∷ 1 ∷ []) 10000000 false (λ _. 0) (λ _. 0)
