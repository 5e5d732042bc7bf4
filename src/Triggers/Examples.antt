-- ===== src/Triggers/Examples.antt =====
-- A hart of 64 bits with two triggers, the first of them the debugger's.
use nnemu.Base.{
  Bool, List, [], arith, false, none, refl, some, suc, true, zero, ℕ, ◌&&◌, ◌*◌, ◌+◌, ◌/◌, ◌==◌,
  ◌^◌, ◌∷◌, ◌≡◌,
}
use nnemu.Arith.{cto, cto_loop}
use nnemu.Triggers.{Matching, Operation, Proc, bool_number}
use nnemu.Triggers.Registers.{
  legalize_action, legalize_match, legalize_timing, mcontrol6_write, tdata3_read, tdata3_write,
}
use nnemu.Triggers.Match.{value_match}
use nnemu.Triggers.TriggerModule.{
  TriggerModule, detect_memory_access_match, fresh_trigger, make, new_trigger, renewed,
  tdata1_write, trigger_updated,
}
use nnemu.Triggers.Steps.{Each, Event, run, step}
use nnemu.Triggers.Outcomes.{written}
use nnemu.Triggers.Settings.{settings, settings_at}
use nnemu.Triggers.Protected.{run-settings}
use nnemu.Triggers.Legal.{IsLegal, run-IsLegal}
use nnemu.Triggers.Watched.{IsWatched, run-IsWatched}
use nnemu.Triggers.Isolated.{IsIsolated, chained_at, dmode_at, run-IsIsolated}
use nnemu.Triggers.Chains.{best_chain, chains_of, detect-chains}
use nnemu.Triggers.Napot.{napot-block}

abbrev hart : Bool → Proc
hart debug_mode = record {
  xlen = 64;
  const_xlen = 64;
  prv = 3;
  v = false;
  debug_mode = debug_mode;
  has_s = true;
  has_u = true;
  has_h = false;
  scontext = 0;
  mcontext = 0;
  satp = 0;
  hgatp = 0;
  overflow = λ x k. 0;
}

-- mcontrol6 on execution in M-mode: `dmode`, `chain` and the action as given.
abbrev mcontrol6_word : Bool → Bool → ℕ → ℕ
mcontrol6_word dmode chain action =
    6 * 2 ^ 60
    + bool_number dmode * 2 ^ 59
    + action * 2 ^ 12
    + bool_number chain * 2 ^ 11
    + 2 ^ 6
    + 4

abbrev two : TriggerModule
two = step (Event.write1 (hart true) 0 (mcontrol6_word true false 1)) (make 2)

abbrev attack : List Event
attack =
    Event.write1 (hart false) 0 0
    ∷ Event.write2 (hart false) 0 0x1000
    ∷ Event.write1 (hart false) 1 (mcontrol6_word false true 1)
    ∷ Event.access (hart false) Operation.execute 0 none
    ∷ Event.count (hart false)
    ∷ Event.trap (hart false) 3
    ∷ []

two_owned :
    settings_at 0 two
    ≡ some (settings (written (hart true) 0 (mcontrol6_word true false 1) (make 2) new_trigger))
unfolding make tdata1_write
two_owned = refl

run-settings_example :
    settings_at 0 (run attack two)
    ≡ some (settings (written (hart true) 0 (mcontrol6_word true false 1) (make 2) new_trigger))
unfolding renewed tdata3_write fresh_trigger mcontrol6_write
run-settings_example =
    run-settings attack two 0 (refl, (refl, (refl, (refl, (refl, (refl, tt)))))) two_owned refl

run-IsLegal_example : Each IsLegal (run attack (make 2)).triggers
run-IsLegal_example = run-IsLegal 2 attack (omega arith)

run-IsWatched_example : IsWatched (run attack (make 2))
run-IsWatched_example = run-IsWatched 2 attack

fresh-IsIsolated : IsIsolated (make 2).triggers
unfolding make
fresh-IsIsolated zero = refl
fresh-IsIsolated (suc zero) = refl
fresh-IsIsolated (suc (suc i)) = refl

abbrev guarded : List Event
guarded =
    Event.write1 (hart true) 1 (mcontrol6_word true false 1)
    ∷ Event.write1 (hart false) 0 (mcontrol6_word false true 0)
    ∷ Event.count (hart false)
    ∷ []

run-IsIsolated_example : IsIsolated (run guarded (make 2)).triggers
run-IsIsolated_example =
    run-IsIsolated guarded (make 2) ((refl, refl), ((refl, refl), (tt, tt))) fresh-IsIsolated

-- A write that asks for `dmode` outside debug mode chains the program's trigger to the debugger's.
abbrev unguarded : List Event
unguarded =
    Event.write1 (hart true) 1 (mcontrol6_word true false 1)
    ∷ Event.write1 (hart false) 0 (mcontrol6_word true true 0)
    ∷ []

chained_to_debugger :
    (chained_at 0 (run unguarded (make 2)).triggers && dmode_at 1 (run unguarded (make 2)).triggers)
    ≡ true
unfolding make tdata1_write trigger_updated renewed tdata3_write fresh_trigger mcontrol6_write
    legalize_action legalize_timing legalize_match tdata3_read
chained_to_debugger = refl

detect-chains_example :
    (detect_memory_access_match (hart false) Operation.execute 0 none (run guarded (make 2))).1
    ≡ best_chain
        (hart false)
        Operation.execute
        0
        none
        none
        (chains_of (run guarded (make 2)).triggers)
detect-chains_example =
    detect-chains (hart false) Operation.execute 0 none (run guarded (make 2)) refl

-- 0x17 has three trailing ones: a block of 16 bytes.
napot-block_example :
    value_match (hart false) Matching.napot 0x17 0x1e
    ≡ (0x1e / 2 ^ (cto 0x17 + 1) == 0x17 / 2 ^ (cto 0x17 + 1))
unfolding cto cto_loop
napot-block_example = napot-block (hart false) 0x17 0x1e (omega arith) (omega arith) (omega arith)

block_matches : value_match (hart false) Matching.napot 0x17 0x1e ≡ true
unfolding value_match cto cto_loop
block_matches = refl

block_misses : value_match (hart false) Matching.napot 0x17 0x20 ≡ false
unfolding value_match cto cto_loop
block_misses = refl
