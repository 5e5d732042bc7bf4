-- ===== src/Mmu.antt =====
-- riscv/mmu.h, riscv/mmu.cc: what the page-table walks share: the mode of translation, the entries of a
-- page table and how they are read and written.
-- The memory behind the MMU (`addr_to_mem`, `mmio_load`, `mmio_store`) is a parameter: `S` is its state.
pub mod Walk
pub mod Entry
pub mod Sound
pub mod Meaning
pub mod Examples
use nnemu.Base.{
  ℕ, zero, suc, ◌+◌, ◌-◌, ◌*◌, ◌/◌, ◌%◌, ◌^◌, Bool, true, false, not, ◌&&◌, ◌||◌, ltb, leb, ◌==◌,
  truthy, if◌then◌else◌, Option, none, some, bit_and, bit_or,
}
use nnemu.Base.Bits.{bit_not}
use nnemu.Memtracer.{AccessType, is_load, is_store, is_fetch}
use nnemu.Arith.{ctz}
use nnemu.Pmp.{Pmp, pmp_ok}
use nnemu.Encoding.{
  prv_m, prv_s, pte_v, pte_r, pte_w, pte_x, pte_u, pte_a, pte_d, pte_rsvd, pte_pbmt, pte_n,
  pte_attr, pte_ppn_shift,
}

-- The traps that the MMU throws: `access_fault`, `page_fault` with the virtual address,
-- `guest_page_fault` with both addresses. `aborted` is a call of `abort`.
pub data Fault : Type 0 where
  access_fault page_fault : Bool → ℕ → AccessType → Fault
  guest_page_fault : ℕ → ℕ → AccessType → Fault
  aborted : Fault

pub data Outcome (A : Type 0) : Type 0 where
  done : A → Outcome A
  fault : Fault → Outcome A

-- A call that may change the memory and may throw, and what follows it.
unfoldable pub and_then : {S A B : Type 0} → S × Outcome A → (A → S → S × Outcome B) → S × Outcome B
and_then (s, Outcome.done a) f = f a s
and_then (s, Outcome.fault e) f = (s, Outcome.fault e)

-- `size` bytes at a physical address, as the number that `from_target` and `to_target` convert.
pub record PhysicalMemory (S : Type 0) : Type 0 where
  pub load : ℕ → ℕ → S → S × Option ℕ
  pub store : ℕ → ℕ → ℕ → S → S × Bool

abbrev pub page_shift : ℕ
page_shift = 12

-- The registers that a walk reads; a register with a copy for virtual mode is a function of `virt`.
pub record Registers : Type 0 where
  pub const_xlen : ℕ
  pub xlen : ℕ
  pub satp : Bool → ℕ
  pub sstatus : Bool → ℕ
  pub hgatp : ℕ
  pub menvcfg : ℕ
  pub henvcfg : ℕ
  pub svnapot : Bool
  pub prv : ℕ
  pub v : Bool
  pub debug_mode : Bool
  pub mstatus : ℕ
  pub hstatus : ℕ
  pub mnstatus : Option ℕ
  pub pmp : Pmp

pub record VmInfo : Type 0 where
  pub levels : ℕ
  pub idxbits : ℕ
  pub widenbits : ℕ
  pub ptesize : ℕ
  pub ptbase : ℕ

abbrev bare : VmInfo
bare = record { levels = 0; idxbits = 0; widenbits = 0; ptesize = 0; ptbase = 0 }

-- The paged modes of a 32-bit and a 64-bit hart, whose root page has the number `ppn`.
abbrev paged32 : ℕ → ℕ → VmInfo
paged32 widenbits ppn = record {
  levels = 2;
  idxbits = 10;
  widenbits = widenbits;
  ptesize = 4;
  ptbase = ppn * 2 ^ page_shift;
}

abbrev paged64 : ℕ → ℕ → ℕ → VmInfo
paged64 levels widenbits ppn = record {
  levels = levels;
  idxbits = 9;
  widenbits = widenbits;
  ptesize = 8;
  ptbase = ppn * 2 ^ page_shift;
}

-- `none` is `abort`. The numbers are those of `SATP_MODE_*` and `HGATP_MODE_*`.
unfoldable pub decode_vm_info : ℕ → Bool → ℕ → ℕ → Option VmInfo
decode_vm_info xlen stage2 prv satp =
    let mode32 = satp / 2 ^ 31 % 2 in
    let mode64 = satp / 2 ^ 60 % 16 in
    let ppn32 = satp % 2 ^ 22 in
    let ppn64 = satp % 2 ^ 44 in
    if prv == prv_m
    then some bare
    else if not stage2 && (leb prv prv_s && (xlen == 32))
    then (if mode32 == 0 then some bare else some (paged32 0 ppn32))
    else if not stage2 && (leb prv prv_s && (xlen == 64))
    then (if mode64 == 0
        then some bare
        else if mode64 == 8
        then some (paged64 3 0 ppn64)
        else if mode64 == 9
        then some (paged64 4 0 ppn64)
        else if mode64 == 10
        then some (paged64 5 0 ppn64)
        else if mode64 == 11
        then some (paged64 6 0 ppn64)
        else none)
    else if stage2 && (xlen == 32)
    then (if mode32 == 0 then some bare else some (paged32 2 ppn32))
    else if stage2 && (xlen == 64)
    then (if mode64 == 0
        then some bare
        else if mode64 == 8
        then some (paged64 3 2 ppn64)
        else if mode64 == 9
        then some (paged64 4 2 ppn64)
        else if mode64 == 10
        then some (paged64 5 2 ppn64)
        else none)
    else none

abbrev pub ppn_of : ℕ → ℕ
ppn_of pte = bit_and pte (bit_not 64 pte_attr) / 2 ^ pte_ppn_shift

abbrev pub pte_table : ℕ → Bool
pte_table pte = bit_and pte (bit_or (bit_or pte_v pte_r) (bit_or pte_w pte_x)) == pte_v

-- What a walk does with an entry: it stops with a fault, goes on to the next level, or ends here.
pub data Verdict : Type 0 where
  stop descend leaf : Verdict

-- The permission that an access needs.
unfoldable pub permitted : AccessType → Bool → Bool → ℕ → Bool
permitted type hlvx mxr pte =
    if is_fetch type || hlvx
    then truthy (bit_and pte pte_x)
    else if is_load type
    then truthy (bit_and pte pte_r) || (mxr && truthy (bit_and pte pte_x))
    else truthy (bit_and pte pte_r) && truthy (bit_and pte pte_w)

-- The tests of an entry, in both walks; `user_wrong` says whether its U bit forbids the access. The
-- walks test that and the V bit in different orders, and stop either way.
unfoldable pub examine : Bool → Bool → Bool → Bool → ℕ → ℕ → Verdict
examine svnapot pbmte user_wrong allowed ptshift pte =
    if truthy (bit_and pte pte_rsvd)
    then Verdict.stop
    else if not svnapot && truthy (bit_and pte pte_n)
    then Verdict.stop
    else if not pbmte && truthy (bit_and pte pte_pbmt)
    then Verdict.stop
    else if bit_and pte pte_pbmt == pte_pbmt
    then Verdict.stop
    else if pte_table pte
    then (if truthy
          (bit_and pte (bit_or (bit_or (bit_or pte_d pte_a) (bit_or pte_u pte_n)) pte_pbmt))
        then Verdict.stop
        else Verdict.descend)
    else if user_wrong
    then Verdict.stop
    else if not (truthy (bit_and pte pte_v))
        || (not (truthy (bit_and pte pte_r)) && truthy (bit_and pte pte_w))
    then Verdict.stop
    else if not allowed
    then Verdict.stop
    else if not (bit_and (ppn_of pte) (2 ^ ptshift - 1) == 0)
    then Verdict.stop
    else Verdict.leaf

-- The bits that a leaf needs set: accessed, and dirty for a store.
abbrev pub needed : AccessType → ℕ
needed type = bit_or pte_a (if is_store type then pte_d else 0)

unfoldable pub napot_bits : ℕ → ℕ
napot_bits pte = if truthy (bit_and pte pte_n) then ctz (ppn_of pte) + 1 else 0

-- Whether a leaf at level `i` has a reserved NAPOT encoding.
unfoldable pub napot_reserved : ℕ → ℕ → Bool
napot_reserved i pte =
    (truthy (bit_and pte pte_n) && ((ppn_of pte == 0) || not (i == 0)))
    || (not (napot_bits pte == 0) && not (napot_bits pte == 4))

-- The page that a leaf gives for an address.
unfoldable pub page_base : ℕ → ℕ → ℕ → ℕ
page_base ptshift addr pte =
    let napot = 2 ^ napot_bits pte - 1 in
    let vpn = addr / 2 ^ page_shift in
    bit_or (bit_or (bit_and (ppn_of pte) (bit_not 64 napot)) (bit_and vpn napot))
      (bit_and vpn (2 ^ ptshift - 1))
    * 2 ^ page_shift
    % 2 ^ 64

module _ {S : Type 0} (memory : PhysicalMemory S) (c : Registers) where
  unfoldable pub pte_load : ℕ → ℕ → Bool → AccessType → ℕ → S → S × Outcome ℕ
  pte_load pte_paddr addr virt trap_type ptesize s =
      let failed = Outcome.fault (Fault.access_fault virt addr trap_type) in
      let got = memory.load ptesize pte_paddr s in
      if pmp_ok c.pmp pte_paddr ptesize AccessType.load prv_s
      then (elim got.1 [ some pte ↦ (got.0, Outcome.done pte) | none ↦ (got.0, failed) ])
      else (s, failed)

  unfoldable pub pte_store : ℕ → ℕ → ℕ → Bool → AccessType → ℕ → S → S × Outcome Unit
  pte_store pte_paddr new_pte addr virt trap_type ptesize s =
      let failed = Outcome.fault (Fault.access_fault virt addr trap_type) in
      let put = memory.store ptesize pte_paddr (new_pte % 2 ^ (8 * ptesize)) s in
      if pmp_ok c.pmp pte_paddr ptesize AccessType.store prv_s
      then (if put.1 then (put.0, Outcome.done tt) else (put.0, failed))
      else (s, failed)
