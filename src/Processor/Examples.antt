-- ===== src/Processor/Examples.antt =====
-- Tests of `take_interrupt`, and its theorems at concrete inputs.
use nnemu.Base.{
  ℕ, ◌+◌, ◌-◌, ◌%◌, ◌^◌, ◌≡◌, refl, arith, true, false, if◌then◌else◌, leb, none, some, bit_or,
}
use nnemu.Base.Bits.{bit}
use nnemu.Arith.{ctz, ctz_step}
use nnemu.Processor.{Hart, Taken, take_interrupt, enabled_interrupts, prioritise, nmie}
use nnemu.Processor.Priority.{first_of, standard_order, prioritise_lem}
use nnemu.Processor.Delegation.{Delegated, take_interrupt-Delegated}

-- A supervisor that delegates its external interrupt to itself.
abbrev supervisor : Hart
supervisor = record {
  prv = 1;
  v = false;
  debug_mode = false;
  mstatus = 0;
  sstatus = 2;
  mideleg = 2 ^ 9;
  hideleg = 0;
  mnstatus = none;
  max_xlen = 64;
  in_wfi = true;
}

machine_first : (take_interrupt (2 ^ 9 + 2 ^ 7) supervisor).1 ≡ Taken.trap (2 ^ 63 + 7)
unfolding take_interrupt enabled_interrupts prioritise nmie ctz ctz_step
machine_first = refl

delegated : (take_interrupt (2 ^ 9) supervisor).1 ≡ Taken.trap (2 ^ 63 + 9)
unfolding take_interrupt enabled_interrupts prioritise nmie ctz ctz_step
delegated = refl

overflow_first : prioritise (2 ^ 13 + 2 ^ 11) ≡ some (2 ^ 13)
unfolding prioritise
overflow_first = refl

take_interrupt-Delegated_example :
    (i : ℕ) × (2 ^ 63 + 9 ≡ bit_or (2 ^ 63) i)
    × (bit (2 ^ 9) i ≡ true)
    × Delegated (2 ^ 9) supervisor i
    × (false ≡ false)
    × (nmie supervisor ≡ true)
take_interrupt-Delegated_example =
    take_interrupt-Delegated (2 ^ 9) (2 ^ 63 + 9) supervisor (omega arith) (omega arith)
      (omega arith) delegated

prioritise_lem_example :
    prioritise 0x222
    ≡ (if leb (2 ^ 12) 0x222 then some (0x222 - 0x222 % 2 ^ 12) else first_of standard_order 0x222)
prioritise_lem_example = prioritise_lem 0x222
