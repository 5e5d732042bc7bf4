-- ===== src/Mmu/Meaning.antt =====
-- riscv/mmu.cc: `walk` without a second stage, from the register satp on: which pages it translates to,
-- and which accesses the leaf grants.
use nnemu.Encoding.{prv_m, prv_s, mstatus_sum, envcfg_hade, envcfg_pbmte}
use native.Mathlib.Nat.{mul-le-mul_right}
use nnemu.Base.{
  ℕ, ◌+◌, ◌-◌, ◌*◌, ◌/◌, ◌%◌, ◌^◌, ◌<◌, ◌≡◌, ◌≢◌, refl, ap, sym, ◌∙◌, arith, Bool, true, false, not,
  ◌&&◌, ◌||◌, ◌==◌, ◌≤◌, leb, none, subst, Option, if_both, truthy, if◌then◌else◌, bit_and, bit_or,
  Bool-cases, inl, inr, ◌↔◌, some,
}
use nnemu.Base.Bits.{bit, truthy-and-pow, or_fields}
use nnemu.Memtracer.{AccessType, is_fetch}
use nnemu.Mmu.{
  Fault, Outcome, and_then, PhysicalMemory, Registers, VmInfo, Verdict, permitted, needed,
  napot_reserved, decode_vm_info, page_base, page_shift,
}
use nnemu.Mmu.Walk.{user_wrong, set_bits, walk_loop, walk, canonical}
use nnemu.Mmu.Entry.{Grants, page_base-translated, translated, examine-Grants, examine-user}
use nnemu.Mmu.Sound.{
  read_at, mxr, judge, settle, looped, PathTo, arrives, passes, walk_loop-PathTo, Found,
  walk_loop-Found, is_done,
}

-- The bits of an entry allow the access in this mode: bit 4 is U.
abbrev pub mode_allowed : AccessType → ℕ → Bool → ℕ → Bool
mode_allowed type mode sum pte =
    if bit pte 4 then not (mode == prv_s) || (not (is_fetch type) && sum) else mode == prv_s

user_wrong-mode :
    (c : Registers) (type : AccessType) (mode pte : ℕ)
    → user_wrong c type mode false pte ≡ false
    → mode_allowed type mode (truthy (bit_and (c.sstatus false) mstatus_sum)) pte ≡ true
unfolding user_wrong
user_wrong-mode c type mode pte h = ground (arith, h, truthy-and-pow 4 pte)

page_base-multiple : (ptshift addr pte : ℕ) → page_base ptshift addr pte % 2 ^ page_shift ≡ 0
unfolding page_base
page_base-multiple ptshift addr pte = omega arith

-- The offset in the page, put in and cut off again.
cut_offset :
    (page offset : ℕ)
    → page % 4096 ≡ 0
    → offset < 4096
    → bit_or page offset - bit_or page offset % 4096 ≡ page
cut_offset page offset multiple small =
    let whole : page ≡ page / 4096 * 2 ^ 12 = omega (arith, multiple) in
    let sum : bit_or page offset ≡ page + offset =
      ap (λ t. bit_or t offset) whole
      ∙ or_fields 12 (page / 4096) offset small
      ∙ omega (arith, multiple) in
    omega (arith, sum, multiple, ap (λ t. t % 4096) sum)

abbrev page_of : Outcome ℕ → ℕ
page_of (Outcome.done page) = page
page_of (Outcome.fault f) = 0

-- The highest level of every paged mode is at most 45 bits above the lowest.
IsLow : Option VmInfo → Type 0
IsLow none = Unit
IsLow (some vm) = (vm.levels - 1) * vm.idxbits ≤ 45

decode-IsLow : (xlen prv satp : ℕ) → IsLow (decode_vm_info xlen false prv satp)
unfolding decode_vm_info IsLow
decode-IsLow xlen prv satp =
    let mode32 = satp / 2 ^ 31 % 2 in
    let mode64 = satp / 2 ^ 60 % 16 in
    let P = IsLow in
    if_both P (prv == prv_m) _ _ (omega arith) (
      if_both P (leb prv prv_s && (xlen == 32)) _ _
        (if_both P (mode32 == 0) _ _ (omega arith) (omega arith))
        (if_both P (leb prv prv_s && (xlen == 64)) _ _
          (if_both P (mode64 == 0) _ _ (omega arith) (
            if_both P (mode64 == 8) _ _ (omega arith) (
              if_both P (mode64 == 9) _ _ (omega arith) (
                if_both P (mode64 == 10) _ _ (omega arith)
                  (if_both P (mode64 == 11) _ _ (omega arith) tt)))))
          tt))

decoded-low :
    (vm : VmInfo) (o : Option VmInfo) → IsLow o → o ≡ some vm → (vm.levels - 1) * vm.idxbits ≤ 45
unfolding IsLow
decoded-low vm o low e = subst IsLow e low

-- The accessed bit of a leaf is set, and for a store the dirty bit.
abbrev pub marked : AccessType → ℕ → Bool
marked type pte = bit_and pte (needed type) == needed type

after_bits :
    {S : Type 0} (r : S × Outcome Unit) (reserved : Bool) (thrown : Fault) (phys page : ℕ) (s' : S)
    → and_then r (λ u s. if reserved then (s, Outcome.fault thrown) else (s, Outcome.done phys))
      ≡ (s', Outcome.done page)
    → (reserved ≡ false) × (phys ≡ page)
unfolding and_then
after_bits (t, Outcome.fault f) reserved thrown phys page s' e =
    absurd (ground (arith, ap (λ r. is_done r.1) e))
after_bits (t, Outcome.done u) true thrown phys page s' e =
    absurd (ground (arith, ap (λ r. is_done r.1) e))
after_bits (t, Outcome.done u) false thrown phys page s' e = (refl, ap (λ r. page_of r.1) e)

module _ {S : Type 0} (memory : PhysicalMemory S) (c : Registers) (vm : VmInfo) (addr : ℕ)
    (type : AccessType) (mode : ℕ) (hlvx : Bool) (s : S) where
  settle-done :
      (i at pte : ℕ)
      → marked type pte ≡ true
      → napot_reserved i pte ≡ false
      → settle memory c vm addr type mode hlvx i at pte s
        ≡ (s, Outcome.done (page_base (i * vm.idxbits) addr pte))
  unfolding set_bits and_then
  settle-done i at pte m r =
      rw (m, set_bits)
        (rw (r, and_then)
          (ap (λ page. (s, Outcome.done page))
            (cut_offset (page_base (i * vm.idxbits) addr pte) (addr % 4096)
              (page_base-multiple (i * vm.idxbits) addr pte) (omega arith))))

  -- Whatever the setting of the bits does, a page is that of a leaf without a reserved encoding.
  settle-page :
      (i at pte page : ℕ) (s' : S)
      → settle memory c vm addr type mode hlvx i at pte s ≡ (s', Outcome.done page)
      → (napot_reserved i pte ≡ false) × (page_base (i * vm.idxbits) addr pte ≡ page)
  settle-page i at pte page s' e =
      let (good, same) = after_bits _ (napot_reserved i pte) _ _ page s' e in
      (
        good,
        sym (
              cut_offset (page_base (i * vm.idxbits) addr pte) (addr % 4096)
                (page_base-multiple (i * vm.idxbits) addr pte) (omega arith))
            ∙ same,
      )

  settle-only :
      (i at pte page : ℕ) (s' : S)
      → truthy (bit_and c.menvcfg envcfg_hade) ≡ false
      → settle memory c vm addr type mode hlvx i at pte s ≡ (s', Outcome.done page)
      → (marked type pte ≡ true) × (napot_reserved i pte ≡ false)
  unfolding set_bits and_then
  settle-only i at pte page s' off e = elim (Bool-cases (marked type pte)) [
    | inl m ↦ elim (Bool-cases (napot_reserved i pte)) [
      | inl r ↦
          let throws : settle memory c vm addr type mode hlvx i at pte s
              ≡ (s, Outcome.fault (Fault.page_fault false addr type)) =
            rw (m, set_bits) (rw (r, and_then) refl) in
          absurd (ground (arith, ap (λ r. is_done r.1) (sym throws ∙ e)))
      | inr r ↦ (m, r)
    ]
    | inr m ↦
        let throws : settle memory c vm addr type mode hlvx i at pte s
            ≡ (s, Outcome.fault (Fault.page_fault false addr type)) =
          rw (m, off, set_bits) refl in
        absurd (ground (arith, ap (λ r. is_done r.1) (sym throws ∙ e)))
  ]

  PathTo-leaf :
      {i at pte n base : ℕ}
      → PathTo memory c vm addr type mode hlvx s i at pte n base
      → judge memory c vm addr type mode hlvx i pte ≡ Verdict.leaf
  PathTo-leaf (arrives base e got leads) = leads
  PathTo-leaf (passes n base table got leads rest) = PathTo-leaf rest

  -- The page table translates the address to a page.
  pub record Translates (page : ℕ) : Type 0 where
    pub level_of : ℕ
    pub at : ℕ
    pub pte : ℕ
    pub path : PathTo memory c vm addr type mode hlvx s level_of at pte vm.levels vm.ptbase
    pub is_canonical : canonical c vm addr ≡ true
    pub is_marked : marked type pte ≡ true
    pub not_reserved : napot_reserved level_of pte ≡ false
    pub page_is : translated (level_of * vm.idxbits) addr pte ≡ page

  -- The mode of translation is paged, and reading an entry of the page table changes nothing.
  pub record Paged : Type 0 where
    pub decoded : decode_vm_info c.const_xlen false mode (c.satp false) ≡ some vm
    pub some_levels : vm.levels ≢ 0
    pub still : (a : ℕ) → (read_at memory c vm addr type mode hlvx a s).0 ≡ s

  PathTo-level :
      {i at pte n base : ℕ} → PathTo memory c vm addr type mode hlvx s i at pte n base → i < n
  PathTo-level (arrives base e got leads) = omega arith
  PathTo-level (passes n base table got leads rest) = omega (arith, PathTo-level rest)

  -- The page that the code computes for the leaf of a path.
  leaf-translated :
      {i at pte base : ℕ}
      → Paged
      → PathTo memory c vm addr type mode hlvx s i at pte vm.levels base
      → napot_reserved i pte ≡ false
      → page_base (i * vm.idxbits) addr pte ≡ translated (i * vm.idxbits) addr pte
  leaf-translated {i} {at} {pte} v path good =
      let low = decoded-low vm _ (decode-IsLow c.const_xlen mode (c.satp false)) v.decoded in
      let inside = PathTo-level path in
      let grants =
        examine-Grants type hlvx (mxr memory c vm addr type mode hlvx) c.svnapot
          (truthy (bit_and c.menvcfg envcfg_pbmte)) (user_wrong c type mode false pte)
          (i * vm.idxbits) pte (PathTo-leaf path) in
      page_base-translated i vm.idxbits addr pte
        (omega (
          arith,
          low,
          mul-le-mul_right {m = i} {n = vm.levels - 1} vm.idxbits (omega (arith, inside)),
        ))
        good grants.aligned

  walk-looped :
      Paged
      → walk memory c addr type mode false hlvx s
        ≡ looped memory c vm addr type mode hlvx
            (if canonical c vm addr then vm.levels else 0)
            vm.ptbase
            s
  unfolding walk
  walk-looped v =
      let paged : (vm.levels == 0) ≡ false = ground (arith, v.some_levels) in
      rw (v.decoded, walk) (rw paged refl)

  walk_to :
      (page : ℕ)
      → Paged
      → Translates page
      → walk memory c addr type mode false hlvx s ≡ (s, Outcome.done page)
  walk_to page v t =
      walk-looped v
      ∙ ap (λ b. looped memory c vm addr type mode hlvx (if b then vm.levels else 0) vm.ptbase s)
          t.is_canonical
      ∙ walk_loop-PathTo memory c vm addr type mode hlvx s t.path
      ∙ settle-done t.level_of t.at t.pte t.is_marked t.not_reserved
      ∙ ap (λ page. (s, Outcome.done page)) (leaf-translated v t.path t.not_reserved ∙ t.page_is)

  walk_from :
      (page : ℕ) (s' : S)
      → Paged
      → walk memory c addr type mode false hlvx s ≡ (s', Outcome.done page)
      → (canonical c vm addr ≡ true)
        × Found memory c vm addr type mode hlvx s vm.levels vm.ptbase page s'
  unfolding walk_loop
  walk_from page s' v e = elim (Bool-cases (canonical c vm addr)) [
    | inl is ↦ (
      is,
      walk_loop-Found memory c vm addr type mode hlvx s vm.levels vm.ptbase page s' v.still (
          sym (
            walk-looped v
            ∙ ap
                (λ b.
                  looped memory c vm addr type mode hlvx (if b then vm.levels else 0) vm.ptbase s)
                is)
          ∙ e),
    )
    | inr isnt ↦ absurd (
        ground (
          arith,
          ap (λ r. is_done r.1)
              (sym (
                  walk-looped v
                  ∙ ap
                      (λ b.
                        looped memory c vm addr type mode hlvx (if b then vm.levels else 0)
                          vm.ptbase s)
                      isnt)
                ∙ e),
        ))
  ]

-- With one stage of translation, where the hardware does not set accessed and dirty bits and reading
-- the page table changes nothing, a walk gives a page exactly if the address is canonical and the page
-- table has a path of table entries to a leaf that passes the tests, has its accessed bit set (for a
-- store also its dirty bit) and no reserved NAPOT encoding, and stands for this page: it is at the frame
-- of the leaf, with the bits of the page number below the leaf, or the last four for a leaf with the
-- NAPOT bit, from the address; the memory is then as it was.
pub walk-Translates :
    {S : Type 0} (memory : PhysicalMemory S) (c : Registers) (vm : VmInfo) (addr : ℕ)
    (type : AccessType) (mode : ℕ) (hlvx : Bool) (s : S) (page : ℕ)
    → Paged memory c vm addr type mode hlvx s
    → truthy (bit_and c.menvcfg envcfg_hade) ≡ false
    → (((walk memory c addr type mode false hlvx s).1 ≡ Outcome.done page)
        ↔ Translates memory c vm addr type mode hlvx s page)
      × (Translates memory c vm addr type mode hlvx s page
          → (walk memory c addr type mode false hlvx s).0 ≡ s)
walk-Translates memory c vm addr type mode hlvx s page v off =
    let w = walk memory c addr type mode false hlvx s in
    (
      (
        λ e.
            let (is, f) =
              walk_from memory c vm addr type mode hlvx s page w.0 v (ap (λ r. (w.0, r)) e) in
            let (m, r) =
              settle-only memory c vm addr type mode hlvx s f.level_of f.at f.pte page w.0 off
                f.settled in
            let known = settle-done memory c vm addr type mode hlvx s f.level_of f.at f.pte m r in
            record {
              level_of = f.level_of;
              at = f.at;
              pte = f.pte;
              path = f.path;
              is_canonical = is;
              is_marked = m;
              not_reserved = r;
              page_is =
                  sym (leaf-translated memory c vm addr type mode hlvx s v f.path r)
                  ∙ ap (λ r. page_of r.1) (sym known ∙ f.settled);
            },
        λ t. ap (λ r. r.1) (walk_to memory c vm addr type mode hlvx s page v t),
      ),
      λ t. ap (λ r. r.0) (walk_to memory c vm addr type mode hlvx s page v t),
    )

-- Where reading the page table changes nothing, every page that a walk with one stage gives comes from
-- a valid leaf that has the permission of the access, allows it in this mode by its U bit, and has an
-- aligned frame: the page is at this frame, with the bits of the page number below the leaf, or the
-- last four for a leaf with the NAPOT bit, from the address.
pub walk-Grants :
    {S : Type 0} (memory : PhysicalMemory S) (c : Registers) (vm : VmInfo) (addr : ℕ)
    (type : AccessType) (mode : ℕ) (hlvx : Bool) (s : S) (page : ℕ)
    → Paged memory c vm addr type mode hlvx s
    → (walk memory c addr type mode false hlvx s).1 ≡ Outcome.done page
    → (i : ℕ) × (at : ℕ) × (pte : ℕ) × PathTo memory c vm addr type mode hlvx s i at pte vm.levels
        vm.ptbase
      × Grants type hlvx (mxr memory c vm addr type mode hlvx) (i * vm.idxbits) pte
      × (mode_allowed type mode (truthy (bit_and (c.sstatus false) mstatus_sum)) pte ≡ true)
      × (page ≡ translated (i * vm.idxbits) addr pte)
walk-Grants memory c vm addr type mode hlvx s page v e =
    let w = walk memory c addr type mode false hlvx s in
    let (is, f) = walk_from memory c vm addr type mode hlvx s page w.0 v (ap (λ r. (w.0, r)) e) in
    let leads = PathTo-leaf memory c vm addr type mode hlvx s f.path in
    let (good, same) =
      settle-page memory c vm addr type mode hlvx s f.level_of f.at f.pte page w.0 f.settled in
    let pbmte = truthy (bit_and c.menvcfg envcfg_pbmte) in
    let wrong = user_wrong c type mode false f.pte in
    let allowed = permitted type hlvx (mxr memory c vm addr type mode hlvx) f.pte in
    (
      f.level_of,
      f.at,
      f.pte,
      f.path,
      examine-Grants type hlvx (mxr memory c vm addr type mode hlvx) c.svnapot pbmte wrong
          (f.level_of * vm.idxbits) f.pte leads,
      user_wrong-mode c type mode f.pte
          (examine-user c.svnapot pbmte wrong allowed (f.level_of * vm.idxbits) f.pte leads),
      sym same ∙ leaf-translated memory c vm addr type mode hlvx s v f.path good,
    )
