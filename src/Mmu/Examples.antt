-- ===== src/Mmu/Examples.antt =====
-- Tests of the page-table walk, and its theorems at concrete inputs.
use nnemu.Encoding.{mstatus_sum}
use nnemu.Base.{
  ℕ, ◌+◌, ◌*◌, ◌^◌, ◌≡◌, ◌↔◌, refl, arith, true, false, if◌then◌else◌, ◌==◌, truthy, some, none,
  bit_and, update,
}
use nnemu.Memtracer.{AccessType}
use nnemu.Pmp.{Pmp, pmp_ok}
use nnemu.Mmu.{
  Outcome, Fault, and_then, PhysicalMemory, Registers, VmInfo, decode_vm_info, page_base, examine,
  permitted, pte_load, napot_bits, napot_reserved,
}
use nnemu.Mmu.Walk.{walk, walk_loop, s2xlate, canonical, user_wrong, set_bits}
use nnemu.Mmu.Entry.{Grants, translated}
use nnemu.Mmu.Sound.{PathTo, mxr}
use nnemu.Mmu.Meaning.{Paged, Translates, walk-Translates, walk-Grants, mode_allowed}

-- A memory of doublewords.
abbrev words : PhysicalMemory (ℕ → ℕ)
words = record { load = λ size a m. (m, some (m a)); store = λ size a v m. (update m a v, true) }

-- The root page at 0x1000 points to the page at 0x2000, which maps a superpage of 2 MiB.
abbrev tables : ℕ → ℕ
tables a = if a == 0x1000 then 0x801 else if a == 0x2008 then 0x200800d7 else 0

abbrev no_pmp : Pmp
no_pmp = record {
  cfg = λ i. 0;
  addr = λ i. 0;
  n_pmp = 0;
  lg_pmp_granularity = 2;
  mseccfg = 0;
  xlen = 64;
}

abbrev user_registers : Registers
user_registers = record {
  const_xlen = 64;
  xlen = 64;
  satp = λ virt. 8 * 2 ^ 60 + 1;
  sstatus = λ virt. 0;
  hgatp = 0;
  menvcfg = 0;
  henvcfg = 0;
  svnapot = false;
  prv = 0;
  v = false;
  debug_mode = false;
  mstatus = 0;
  hstatus = 0;
  mnstatus = none;
  pmp = no_pmp;
}

abbrev sv39 : VmInfo
sv39 = record { levels = 3; idxbits = 9; widenbits = 0; ptesize = 8; ptbase = 0x1000 }

user_load :
    (walk words user_registers 0x201234 AccessType.load 0 false false tables).1
    ≡ Outcome.done 0x80201000
unfolding walk walk_loop s2xlate decode_vm_info canonical user_wrong set_bits and_then examine
    permitted pte_load page_base napot_bits napot_reserved pmp_ok
user_load = refl

user_fetch :
    (walk words user_registers 0x201234 AccessType.fetch 0 false false tables).1
    ≡ Outcome.fault (Fault.page_fault false 0x201234 AccessType.fetch)
unfolding walk walk_loop s2xlate decode_vm_info canonical user_wrong set_bits and_then examine
    permitted pte_load page_base napot_bits napot_reserved pmp_ok
user_fetch = refl

user_Paged : Paged words user_registers sv39 0x201234 AccessType.load 0 false tables
unfolding decode_vm_info pte_load pmp_ok
user_Paged = record { decoded = refl; some_levels = omega arith; still = λ a. refl }

walk-Translates_example :
    (((walk words user_registers 0x201234 AccessType.load 0 false false tables).1
        ≡ Outcome.done 0x80201000)
      ↔ Translates words user_registers sv39 0x201234 AccessType.load 0 false tables 0x80201000)
    × (Translates words user_registers sv39 0x201234 AccessType.load 0 false tables 0x80201000
        → (walk words user_registers 0x201234 AccessType.load 0 false false tables).0 ≡ tables)
walk-Translates_example =
    walk-Translates words user_registers sv39 0x201234 AccessType.load 0 false tables 0x80201000
      user_Paged refl

walk-Grants_example :
    (i : ℕ) × (at : ℕ) × (pte : ℕ) × PathTo words user_registers sv39 0x201234 AccessType.load 0
      false tables i at pte 3 0x1000
    × Grants AccessType.load false
        (mxr words user_registers sv39 0x201234 AccessType.load 0 false)
        (i * 9)
        pte
    × (mode_allowed AccessType.load 0 (truthy (bit_and 0 mstatus_sum)) pte ≡ true)
    × (0x80201000 ≡ translated (i * 9) 0x201234 pte)
walk-Grants_example =
    walk-Grants words user_registers sv39 0x201234 AccessType.load 0 false tables 0x80201000
      user_Paged user_load
