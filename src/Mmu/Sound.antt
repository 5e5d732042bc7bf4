-- ===== src/Mmu/Sound.antt =====
-- riscv/mmu.cc: the paths of a page table, and the walk along them.
use nnemu.Encoding.{mstatus_mxr, envcfg_hade, envcfg_pbmte}
use nnemu.Base.{
  ℕ, zero, suc, ◌+◌, ◌-◌, ◌*◌, ◌/◌, ◌%◌, ◌^◌, ◌≡◌, refl, ap, sym, ◌∙◌, arith, Bool, true, false,
  truthy, if◌then◌else◌, bit_and, bit_or, inl, inr, ◌⊎◌,
}
use nnemu.Memtracer.{AccessType}
use nnemu.Mmu.{
  Fault, Outcome, and_then, PhysicalMemory, Registers, VmInfo, Verdict, examine, permitted,
  napot_reserved, page_base, ppn_of, pte_load, page_shift,
}
use nnemu.Mmu.Walk.{user_wrong, set_bits, s2xlate, walk_loop}

abbrev pub is_done : {A : Type 0} → Outcome A → Bool
is_done (Outcome.done a) = true
is_done (Outcome.fault f) = false

verdict_cases : (v : Verdict) → ((v ≡ Verdict.stop) ⊎ (v ≡ Verdict.descend)) ⊎ (v ≡ Verdict.leaf)
verdict_cases Verdict.stop = inl (inl refl)
verdict_cases Verdict.descend = inl (inr refl)
verdict_cases Verdict.leaf = inr refl

-- A call that leaves the memory as it is throws or gives a value.
read_cases :
    {S A : Type 0} {s : S} (r : S × Outcome A)
    → r.0 ≡ s
    → ((f : Fault) × (r ≡ (s, Outcome.fault f))) ⊎ ((a : A) × (r ≡ (s, Outcome.done a)))
read_cases (t, Outcome.done a) e = inr (a, ap (λ t. (t, Outcome.done a)) e)
read_cases (t, Outcome.fault f) e = inl (f, ap (λ t. (t, Outcome.fault f)) e)

module _ {S : Type 0} (memory : PhysicalMemory S) (c : Registers) (vm : VmInfo) (addr : ℕ)
    (type : AccessType) (mode : ℕ) (hlvx : Bool) where
  -- Where the entry of level `i` stands in the page at `base`.
  abbrev pub entry_at : ℕ → ℕ → ℕ
  entry_at i base =
      (base + addr / 2 ^ (page_shift + i * vm.idxbits) % 2 ^ vm.idxbits * vm.ptesize) % 2 ^ 64

  abbrev pub read_at : ℕ → S → S × Outcome ℕ
  read_at at s = pte_load memory c at addr false type vm.ptesize s

  abbrev pub mxr : Bool
  mxr = truthy (bit_and (bit_or (c.sstatus false) (c.sstatus false)) mstatus_mxr)

  abbrev pub judge : ℕ → ℕ → Verdict
  judge i pte =
      examine c.svnapot (truthy (bit_and c.menvcfg envcfg_pbmte)) (user_wrong c type mode false pte)
        (permitted type hlvx mxr pte) (i * vm.idxbits) pte

  abbrev below : ℕ → ℕ
  below table = ppn_of table * 2 ^ page_shift % 2 ^ 64

  -- What the walk does when it arrives, and on every verdict.
  abbrev pub settle : ℕ → ℕ → ℕ → S → S × Outcome ℕ
  settle i at pte s =
      let thrown = Fault.page_fault false addr type in
      and_then
        (set_bits memory c false addr at type pte (truthy (bit_and c.menvcfg envcfg_hade))
          vm.ptesize thrown s)
        (λ u s.
          if napot_reserved i pte
          then (s, Outcome.fault thrown)
          else (let phys = bit_or (page_base (i * vm.idxbits) addr pte) (addr % 2 ^ page_shift) in
              (s, Outcome.done (phys - phys % 2 ^ page_shift))))

  abbrev pub looped : ℕ → ℕ → S → S × Outcome ℕ
  looped n base s = walk_loop memory c vm addr type mode false hlvx n base s

  abbrev decide : Verdict → ℕ → ℕ → ℕ → S → S × Outcome ℕ
  decide v i at pte s = elim v [
    | Verdict.stop ↦ (s, Outcome.fault (Fault.page_fault false addr type))
    | Verdict.descend ↦ looped i (below pte) s
    | Verdict.leaf ↦ settle i at pte s
  ]

  level :
      (i base : ℕ) (s : S)
      → looped (suc i) base s
        ≡ and_then
            (read_at (entry_at i base) s)
            (λ pte s. decide (judge i pte) i (entry_at i base) pte s)
  unfolding walk_loop s2xlate and_then
  level i base s = refl

  module _ (s : S) where
    -- The page table leads, from the page at `base` with `n` levels left, to the entry `pte` at the
    -- address `at` on level `i`.
    pub data PathTo (i at pte : ℕ) : ℕ → ℕ → Type 0 where
      arrives :
          (base : ℕ)
          → entry_at i base ≡ at
          → read_at at s ≡ (s, Outcome.done pte)
          → judge i pte ≡ Verdict.leaf
          → PathTo i at pte (suc i) base
      passes :
          (n base table : ℕ)
          → read_at (entry_at n base) s ≡ (s, Outcome.done table)
          → judge n table ≡ Verdict.descend
          → PathTo i at pte n (below table)
          → PathTo i at pte (suc n) base

    decided :
        (i base pte : ℕ) (v : Verdict)
        → read_at (entry_at i base) s ≡ (s, Outcome.done pte)
        → judge i pte ≡ v
        → looped (suc i) base s ≡ decide v i (entry_at i base) pte s
    unfolding and_then
    decided i base pte v got e =
        level i base s
        ∙ ap (λ r. and_then r (λ pte s. decide (judge i pte) i (entry_at i base) pte s)) got
        ∙ ap (λ v. decide v i (entry_at i base) pte s) e

    refused :
        (i base : ℕ) (f : Fault)
        → read_at (entry_at i base) s ≡ (s, Outcome.fault f)
        → looped (suc i) base s ≡ (s, Outcome.fault f)
    unfolding and_then
    refused i base f got =
        level i base s
        ∙ ap (λ r. and_then r (λ pte s. decide (judge i pte) i (entry_at i base) pte s)) got

    -- Along a path the walk comes to the leaf, and to what follows.
    pub walk_loop-PathTo :
        {i at pte n base : ℕ} → PathTo i at pte n base → looped n base s ≡ settle i at pte s
    walk_loop-PathTo {i} {at} {pte} (arrives base e got leads) =
        decided i base pte Verdict.leaf (ap (λ a. read_at a s) e ∙ got) leads
        ∙ ap (λ a. settle i a pte s) e
    walk_loop-PathTo (passes n base table got leads rest) =
        decided n base table Verdict.descend got leads ∙ walk_loop-PathTo rest

    -- A walk that succeeds came along a path, where reading an entry leaves the memory as it is.
    pub record Found (n base page : ℕ) (s' : S) : Type 0 where
      pub level_of : ℕ
      pub at : ℕ
      pub pte : ℕ
      pub path : PathTo level_of at pte n base
      pub settled : settle level_of at pte s ≡ (s', Outcome.done page)

    pub walk_loop-Found :
        (n base page : ℕ) (s' : S)
        → ((a : ℕ) → (read_at a s).0 ≡ s)
        → looped n base s ≡ (s', Outcome.done page)
        → Found n base page s'
    unfolding walk_loop
    walk_loop-Found zero base page s' still e = absurd (ground (arith, ap (λ r. is_done r.1) e))
    walk_loop-Found (suc i) base page s' still e =
        elim (read_cases (read_at (entry_at i base) s) (still (entry_at i base))) [
          | inl bad ↦
              absurd (ground (arith, ap (λ r. is_done r.1) (sym (refused i base bad.0 bad.1) ∙ e)))
          | inr good ↦ elim (verdict_cases (judge i good.0)) [
            | inl (inl stops) ↦ absurd (
                ground (
                  arith,
                  ap (λ r. is_done r.1) (sym (decided i base good.0 Verdict.stop good.1 stops) ∙ e),
                ))
            | inl (inr down) ↦
                let deeper =
                  walk_loop-Found i (below good.0) page s' still
                    (sym (decided i base good.0 Verdict.descend good.1 down) ∙ e) in
                record {
                  level_of = deeper.level_of;
                  at = deeper.at;
                  pte = deeper.pte;
                  path = passes i base good.0 good.1 down deeper.path;
                  settled = deeper.settled;
                }
            | inr leads ↦ record {
              level_of = i;
              at = entry_at i base;
              pte = good.0;
              path = arrives base refl good.1 leads;
              settled = sym (decided i base good.0 Verdict.leaf good.1 leads) ∙ e;
            }
          ]
        ]
