-- ===== src/Pmp/Examples.antt =====
-- Two entries: a locked region of 4 KiB, and a region of 32 bytes.
use nnemu.Base.{
  ℕ, zero, suc, ◌/◌, ◌^◌, ◌<◌, ◌≡◌, ◌↔◌, ◌==◌, refl, arith, true, if◌then◌else◌, List, [], ◌∷◌,
}
use nnemu.Memtracer.{AccessType}
use nnemu.Pmp.{
  Pmp, read_cfg, read_cfg_loop, match4, tor_paddr, napot_mask, pmp_ok, access_ok, count_sectors,
}
use nnemu.Pmp.Locked.{IsLocked, Event, run, run-IsLocked}
use nnemu.Pmp.Napot.{IsNapot, match4-napot}
use nnemu.Pmp.Decision.{hit, NoHit, AllHit, pmp_ok-first}

-- Entry 0 holds 0x80000000 and nine ones; entry 1 holds 0x1000 and two ones.
abbrev two_regions : Pmp
two_regions = record {
  cfg = λ i. if i == 0 then 0x99 else if i == 1 then 0x1b else 0;
  addr = λ i. if i == 0 then 0x200001ff else if i == 1 then 0x403 else 0;
  n_pmp = 2;
  lg_pmp_granularity = 2;
  mseccfg = 0;
  xlen = 64;
}

configuration : read_cfg two_regions 0 ≡ 0x1b99
unfolding read_cfg read_cfg_loop
configuration = refl

first-IsLocked : IsLocked 0 two_regions
first-IsLocked = record {
  implemented = omega arith;
  few = omega arith;
  no_bypass = refl;
  locked = refl;
}

abbrev attack : List Event
attack = Event.mseccfg_write 4 ∷ Event.cfg_write 0 0x1f1f ∷ Event.addr_write 0 0 ∷ []

run-IsLocked_example :
    let q = run two_regions attack in
    IsLocked 0 q
    × (q.cfg 0 ≡ two_regions.cfg 0)
    × (q.addr 0 ≡ two_regions.addr 0)
    × ((a : ℕ) → match4 q 0 a ≡ match4 two_regions 0 a)
run-IsLocked_example = run-IsLocked attack 0 two_regions first-IsLocked

second-IsNapot : IsNapot two_regions 1 0x80 2
second-IsNapot = record { napot = refl; finest = refl; holds = refl; fits = omega arith }

match4-napot_example : match4 two_regions 1 0x1004 ≡ (0x1004 / 2 ^ suc (suc (suc 2)) == 0x80)
match4-napot_example = match4-napot two_regions 1 0x80 2 0x1004 second-IsNapot (omega arith)

first_misses : (e : ℕ) → e < 1 → NoHit two_regions e 0x1004 (count_sectors 4)
unfolding match4 napot_mask tor_paddr
first_misses zero h zero l = refl
first_misses zero h (suc j) l = absurd (omega arith)
first_misses (suc e) h j l = absurd (omega arith)

second_matches : hit two_regions 1 0x1004 0 ≡ true
unfolding match4 napot_mask tor_paddr
second_matches = refl

pmp_ok-first_example : (pmp_ok two_regions 0x1004 4 AccessType.load 0 ≡ true) ↔ (
    AllHit two_regions 1 0x1004 (count_sectors 4)
    × (access_ok two_regions 1 AccessType.load 0 ≡ true))
pmp_ok-first_example =
    pmp_ok-first two_regions 0x1004 4 AccessType.load 0 1 0 (omega arith) first_misses (omega arith)
      second_matches

no_hits : (e : ℕ) → e < 2 → NoHit two_regions e 0x9000 (count_sectors 4)
unfolding match4 napot_mask tor_paddr
no_hits zero h zero l = refl
no_hits (suc zero) h zero l = refl
no_hits e h (suc j) l = absurd (omega arith)
no_hits (suc (suc e)) h j l = absurd (omega arith)
