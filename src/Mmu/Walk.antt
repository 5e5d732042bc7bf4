-- ===== src/Mmu/Walk.antt =====
-- riscv/mmu.cc: the page-table walks `s2xlate` and `walk`, and `translate`.
-- A loop over the levels runs down to level 0, so `suc i` levels are left at level `i`.
use nnemu.Encoding.{
  prv_m, prv_s, pte_u, mstatus_sum, mstatus_mxr, envcfg_hade, envcfg_pbmte, mnstatus_nmie,
  mstatus_mprv, mstatus_mpv,
}
use nnemu.Base.{
  ℕ, zero, suc, ◌+◌, ◌-◌, ◌*◌, ◌/◌, ◌%◌, ◌^◌, Bool, true, false, not, ◌&&◌, ◌||◌, ◌==◌, truthy,
  if◌then◌else◌, none, some, bit_and, bit_or,
}
use nnemu.Base.Bits.{bit_not}
use nnemu.Memtracer.{AccessType, is_fetch}
use nnemu.Pmp.{pmp_ok}
use nnemu.Mmu.{
  Fault, Outcome, and_then, PhysicalMemory, Registers, VmInfo, decode_vm_info, Verdict, examine,
  permitted, needed, napot_reserved, page_base, ppn_of, pte_load, pte_store, page_shift,
}

-- The flags of `xlate_flags`.
abbrev xlate_virt : ℕ
xlate_virt = 1

abbrev xlate_virt_hlvx : ℕ
xlate_virt_hlvx = 2

unfoldable pub in_mprv : Registers → Bool
in_mprv c =
    not (elim c.mnstatus [
      | none ↦ false
      | some mnstatus ↦ not (truthy (bit_and mnstatus mnstatus_nmie))
    ])
    && (not c.debug_mode && truthy (bit_and c.mstatus mstatus_mprv))

-- The mode and the stage that an access is translated with.
unfoldable pub access_mode : Registers → AccessType → ℕ → ℕ × Bool
access_mode c type xlate_flags =
    let mpp = c.mstatus / 2 ^ 11 % 4 in
    let (mode, virt) =
      if in_mprv c
      then (mpp, (truthy (bit_and c.mstatus mstatus_mpv) && not (mpp == prv_m)) || c.v)
      else (c.prv, c.v) in
    if is_fetch type
    then (c.prv, c.v)
    else if truthy (bit_and xlate_flags xlate_virt)
    then (c.hstatus / 2 ^ 8 % 2, true)
    else (mode, virt)

-- Whether the upper bits of the address all equal its highest translated bit.
unfoldable pub canonical : Registers → VmInfo → ℕ → Bool
canonical c vm addr =
    let va_bits = page_shift + vm.levels * vm.idxbits in
    let mask = 2 ^ (c.xlen - (va_bits - 1)) - 1 in
    let masked_msbs = bit_and (addr / 2 ^ (va_bits - 1)) mask in
    (masked_msbs == 0) || (masked_msbs == mask)

-- Whether the U bit of an entry forbids the access.
unfoldable pub user_wrong : Registers → AccessType → ℕ → Bool → ℕ → Bool
user_wrong c type mode virt pte =
    let s_mode = mode == prv_s in
    let sum = truthy (bit_and (c.sstatus virt) mstatus_sum) in
    if truthy (bit_and pte pte_u) then s_mode && (is_fetch type || not sum) else not s_mode

module _ {S : Type 0} (memory : PhysicalMemory S) (c : Registers) where
  -- The accessed and dirty bits of a leaf: set where `hade` says so, else `thrown` is thrown.
  unfoldable pub set_bits : Bool → ℕ → ℕ → AccessType → ℕ → Bool → ℕ → Fault → S → S × Outcome Unit
  set_bits virt addr pte_paddr type pte hade ptesize thrown s =
      let stored =
        pte_store memory c pte_paddr (bit_or pte (needed type)) addr virt type ptesize s in
      if bit_and pte (needed type) == needed type
      then (s, Outcome.done tt)
      else if hade
      then stored
      else (s, Outcome.fault thrown)

  module _ (vm : VmInfo) (gva gpa : ℕ) (type trap_type : AccessType) (hlvx : Bool) where
    unfoldable pub s2_loop : ℕ → ℕ → S → S × Outcome ℕ
    s2_loop zero base s = (s, Outcome.fault (Fault.guest_page_fault gva (gpa / 4) trap_type))
    s2_loop (suc i) base s =
        let thrown = Fault.guest_page_fault gva (gpa / 4) trap_type in
        let ptshift = i * vm.idxbits in
        let idxbits = if i == vm.levels - 1 then vm.idxbits + vm.widenbits else vm.idxbits in
        let idx = gpa / 2 ^ (page_shift + ptshift) % 2 ^ idxbits in
        let pte_paddr = (base + idx * vm.ptesize) % 2 ^ 64 in
        let mxr = truthy (bit_and (c.sstatus false) mstatus_mxr) in
        let pbmte = truthy (bit_and c.menvcfg envcfg_pbmte) in
        let hade = truthy (bit_and c.menvcfg envcfg_hade) in
        and_then (pte_load memory c pte_paddr gva true trap_type vm.ptesize s) (λ pte s.
          elim (examine c.svnapot pbmte (not (truthy (bit_and pte pte_u)))
            (permitted type hlvx mxr pte) ptshift pte) [
              | Verdict.stop ↦ (s, Outcome.fault thrown)
              | Verdict.descend ↦ s2_loop i (ppn_of pte * 2 ^ page_shift % 2 ^ 64) s
              | Verdict.leaf ↦
                  and_then (set_bits true gva pte_paddr type pte hade vm.ptesize thrown s) (λ u s.
                    if napot_reserved i pte then (s, Outcome.fault thrown) else (
                      s,
                      Outcome.done (bit_or (page_base ptshift gpa pte) (gpa % 2 ^ page_shift)),
                    ))
            ])

  unfoldable pub s2xlate : ℕ → ℕ → AccessType → AccessType → Bool → Bool → S → S × Outcome ℕ
  s2xlate gva gpa type trap_type virt hlvx s =
      if not virt
      then (s, Outcome.done gpa)
      else (elim (decode_vm_info c.const_xlen true 0 c.hgatp) [
        | none ↦ (s, Outcome.fault Fault.aborted)
        | some vm ↦
            let maxgpabits = vm.levels * vm.idxbits + vm.widenbits + page_shift in
            if vm.levels == 0
            then (s, Outcome.done gpa)
            else if bit_and gpa (bit_not 64 (2 ^ maxgpabits - 1)) == 0
            then s2_loop vm gva gpa type trap_type hlvx vm.levels vm.ptbase s
            else (s, Outcome.fault (Fault.guest_page_fault gva (gpa / 4) trap_type))
      ])

  module _ (vm : VmInfo) (addr : ℕ) (type : AccessType) (mode : ℕ) (virt hlvx : Bool) where
    unfoldable pub walk_loop : ℕ → ℕ → S → S × Outcome ℕ
    walk_loop zero base s = (s, Outcome.fault (Fault.page_fault virt addr type))
    walk_loop (suc i) base s =
        let thrown = Fault.page_fault virt addr type in
        let ptshift = i * vm.idxbits in
        let idx = addr / 2 ^ (page_shift + ptshift) % 2 ^ vm.idxbits in
        let mxr = truthy (bit_and (bit_or (c.sstatus false) (c.sstatus virt)) mstatus_mxr) in
        let envcfg = if virt then c.henvcfg else c.menvcfg in
        let pbmte = truthy (bit_and envcfg envcfg_pbmte) in
        let hade = truthy (bit_and envcfg envcfg_hade) in
        and_then
          (s2xlate addr ((base + idx * vm.ptesize) % 2 ^ 64) AccessType.load type virt false s)
          (λ pte_paddr s.
            and_then (pte_load memory c pte_paddr addr virt type vm.ptesize s) (λ pte s.
              elim (examine c.svnapot pbmte (user_wrong c type mode virt pte)
                (permitted type hlvx mxr pte) ptshift pte) [
                  | Verdict.stop ↦ (s, Outcome.fault thrown)
                  | Verdict.descend ↦ walk_loop i (ppn_of pte * 2 ^ page_shift % 2 ^ 64) s
                  | Verdict.leaf ↦
                      and_then (set_bits virt addr pte_paddr type pte hade vm.ptesize thrown s)
                        (λ u s.
                          if napot_reserved i pte
                          then (s, Outcome.fault thrown)
                          else and_then
                              (s2xlate addr
                                (bit_or (page_base ptshift addr pte) (addr % 2 ^ page_shift)) type
                                type virt hlvx s)
                              (λ phys s. (s, Outcome.done (phys - phys % 2 ^ page_shift))))
                ]))

  unfoldable pub walk : ℕ → AccessType → ℕ → Bool → Bool → S → S × Outcome ℕ
  walk addr type mode virt hlvx s = elim (decode_vm_info c.const_xlen false mode (c.satp virt)) [
    | none ↦ (s, Outcome.fault Fault.aborted)
    | some vm ↦
        if vm.levels == 0
        then and_then (s2xlate addr (addr % 2 ^ c.xlen) type type virt hlvx s)
            (λ phys s. (s, Outcome.done (phys - phys % 2 ^ page_shift)))
        else walk_loop vm addr type mode virt hlvx (if canonical c vm addr then vm.levels else 0)
            vm.ptbase s
  ]

  unfoldable pub translate : ℕ → ℕ → AccessType → ℕ → S → S × Outcome ℕ
  translate addr len type xlate_flags s =
      let (mode, virt) = access_mode c type xlate_flags in
      let hlvx = truthy (bit_and xlate_flags xlate_virt_hlvx) in
      and_then (walk addr type mode virt hlvx s) (λ page s.
        let paddr = bit_or page (addr % 2 ^ page_shift) in
        if pmp_ok c.pmp paddr len type mode
        then (s, Outcome.done paddr)
        else (s, Outcome.fault (Fault.access_fault virt addr type)))
