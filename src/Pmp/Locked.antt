-- ===== src/Pmp/Locked.antt =====
-- riscv/csrs.cc: the locked entries of the protection, and writes to its registers.
use nnemu.Encoding.{pmp_tor, mseccfg_rlb, mseccfg_mml, mseccfg_mmwp}
use nnemu.Base.{
  ℕ, zero, suc, ◌+◌, ◌-◌, ◌*◌, ◌/◌, ◌%◌, ◌≤◌, ◌<◌, ◌≡◌, ◌≢◌, refl, ap, ◌∙◌, arith, Bool, true,
  false, not, ◌&&◌, ◌||◌, ltb, ◌==◌, truthy, Bool-cases, inl, inr, List, [], ◌∷◌, update, bit_and,
  bit_or,
}
use nnemu.Base.Bits.{bit, bit-and, bit-or, truthy-and-pow}
use nnemu.Pmp.{
  Pmp, max_pmp, get_rlb, is_locked, mode_of, next_locked_and_tor, write_addr, write_cfg_entry,
  write_cfg_loop, write_cfg, legal_cfg, forbidden, any_locked, write_mseccfg, match4, tor_paddr,
  tor_base_paddr, napot_mask,
}

-- Entry `i` is implemented and locked, and the lock may not be bypassed.
pub record IsLocked (i : ℕ) (p : Pmp) : Type 0 where
  pub implemented : i < p.n_pmp
  pub few : p.n_pmp ≤ max_pmp
  pub no_bypass : get_rlb p ≡ false
  pub locked : is_locked p i ≡ true

-- Entry `i` is the same in both states: its byte, its address, and the address below it, if it is the
-- base of the region.
pub record Same (i : ℕ) (p q : Pmp) : Type 0 where
  pub n_pmp_same : q.n_pmp ≡ p.n_pmp
  pub granularity_same : q.lg_pmp_granularity ≡ p.lg_pmp_granularity
  pub rlb_same : get_rlb q ≡ get_rlb p
  pub cfg_same : q.cfg i ≡ p.cfg i
  pub addr_same : q.addr i ≡ p.addr i
  pub base_same : mode_of p i ≡ pmp_tor → q.addr (i - 1) ≡ p.addr (i - 1)

Same-refl : (i : ℕ) (p : Pmp) → Same i p p
Same-refl i p = record {
  n_pmp_same = refl;
  granularity_same = refl;
  rlb_same = refl;
  cfg_same = refl;
  addr_same = refl;
  base_same = λ h. refl;
}

Same-trans : (i : ℕ) (p q r : Pmp) → Same i p q → Same i q r → Same i p r
Same-trans i p q r s t = record {
  n_pmp_same = t.n_pmp_same ∙ s.n_pmp_same;
  granularity_same = t.granularity_same ∙ s.granularity_same;
  rlb_same = t.rlb_same ∙ s.rlb_same;
  cfg_same = t.cfg_same ∙ s.cfg_same;
  addr_same = t.addr_same ∙ s.addr_same;
  base_same = λ h. t.base_same (ap (λ c. bit_and c 0x18) s.cfg_same ∙ h) ∙ s.base_same h;
}

Same-IsLocked : (i : ℕ) (p q : Pmp) → Same i p q → IsLocked i p → IsLocked i q
Same-IsLocked i p q s l = record {
  implemented = rw s.n_pmp_same l.implemented;
  few = rw s.n_pmp_same l.few;
  no_bypass = s.rlb_same ∙ l.no_bypass;
  locked = rw s.cfg_same l.locked;
}

-- The test of a write to the address of entry `j`.
abbrev writable : ℕ → Pmp → Bool
writable j p =
    ltb j p.n_pmp && (not (not (get_rlb p) && is_locked p j) && not (next_locked_and_tor p j))

-- It fails for a locked entry, and for the base of a locked region.
writable-ne : (i j : ℕ) (p : Pmp) → IsLocked i p → writable j p ≡ true → j ≢ i
writable-ne i j p l w e = ground (arith, w, l.locked, l.no_bypass, ap (λ t. is_locked p t) e)

writable-ne_base :
    (i j : ℕ) (p : Pmp)
    → IsLocked i p
    → mode_of p i ≡ pmp_tor
    → writable j p ≡ true
    → i ≢ 0
    → j ≢ i - 1
unfolding next_locked_and_tor
writable-ne_base i j p l m w pos e =
    let next : j + 1 ≡ i = omega arith in
    ground (
      arith,
      w,
      l.locked,
      l.no_bypass,
      l.implemented,
      l.few,
      ap (λ t. is_locked p t) next,
      ap (λ t. mode_of p t) next,
    )

write_addr-Same : (i j val : ℕ) (p : Pmp) → IsLocked i p → Same i p (write_addr j val p).0
unfolding write_addr
write_addr-Same i j val p l =
    let some_entry : (p.n_pmp == 0) ≡ false = ground (arith, l.implemented) in
    elim (Bool-cases (writable j p)) [
      | inr refused ↦ rw (some_entry, refused) (Same-refl i p)
      | inl w ↦
          rw (some_entry, w)
            (record {
              n_pmp_same = refl;
              granularity_same = refl;
              rlb_same = refl;
              cfg_same = refl;
              addr_same = ground (arith, writable-ne i j p l w);
              base_same = λ h. base h w;
            })
    ]
  where
    base :
        mode_of p i ≡ pmp_tor
        → writable j p ≡ true
        → update p.addr j (bit_and val 0x3fffffffffffff) (i - 1) ≡ p.addr (i - 1)
    base h w = elim (Bool-cases (i == 0)) [
      | inl first ↦ ground (arith, writable-ne i j p l w)
      | inr later ↦ ground (arith, writable-ne_base i j p l h w)
    ]

write_cfg_entry-Same : (i j byte : ℕ) (p : Pmp) → IsLocked i p → Same i p (write_cfg_entry j byte p)
unfolding write_cfg_entry
write_cfg_entry-Same i j byte p l =
    let test =
      ltb j p.n_pmp
      && ((get_rlb p || not (is_locked p j))
          && (get_rlb p || not (forbidden p (legal_cfg p byte)))) in
    elim (Bool-cases test) [
      | inr refused ↦ rw refused (Same-refl i p)
      | inl w ↦
          let apart : j ≢ i =
            λ e. ground (arith, w, l.locked, l.no_bypass, ap (λ t. is_locked p t) e) in
          rw w (record {
            n_pmp_same = refl;
            granularity_same = refl;
            rlb_same = refl;
            cfg_same = ground (arith, apart);
            addr_same = refl;
            base_same = λ h. refl;
          })
    ]

write_cfg_loop-Same :
    (i left j val : ℕ) (p : Pmp) → IsLocked i p → Same i p (write_cfg_loop left j val p)
unfolding write_cfg_loop
write_cfg_loop-Same i zero j val p l = Same-refl i p
write_cfg_loop-Same i (suc left) j val p l =
    let now = write_cfg_entry-Same i j (val % 256) p l in
    let q = write_cfg_entry j (val % 256) p in
    Same-trans i p q _ now
      (write_cfg_loop-Same i left (j + 1) (val / 256) q (Same-IsLocked i p q now l))

any_locked-found : (p : Pmp) (n i : ℕ) → i < n → is_locked p i ≡ true → any_locked p n ≡ true
unfolding any_locked
any_locked-found p zero i h e = absurd (omega arith)
any_locked-found p (suc n) i h e = elim (Bool-cases (i == n)) [
  | inl last ↦ ground (arith, ap (λ t. is_locked p t) {x = i} {y = n} (ground (arith, last)))
  | inr before ↦ ground (arith, any_locked-found p n i (ground (arith, before)) e)
]

-- The bit of `RLB` after a write of `mseccfg` that keeps it.
rlb_kept :
    (old val : ℕ)
    → truthy (
        bit_and
          (bit_or (bit_or old (bit_and val mseccfg_mmwp)) (bit_and val mseccfg_mml))
          mseccfg_rlb)
      ≡ truthy (bit_and old mseccfg_rlb)
unfolding bit
rlb_kept old val = ground (
  arith,
  truthy-and-pow 2 (bit_or (bit_or old (bit_and val 2)) (bit_and val 1)),
  truthy-and-pow 2 old,
  bit-or (bit_or old (bit_and val 2)) (bit_and val 1) 2,
  bit-or old (bit_and val 2) 2,
  bit-and val 2 2,
  bit-and val 1 2,
)

write_mseccfg-Same : (i val : ℕ) (p : Pmp) → IsLocked i p → Same i p (write_mseccfg val p).0
unfolding write_mseccfg
write_mseccfg-Same i val p l =
    let found = any_locked-found p p.n_pmp i l.implemented l.locked in
    let some_entry : (p.n_pmp == 0) ≡ false = ground (arith, l.implemented) in
    rw (some_entry, found, l.no_bypass)
      (record {
        n_pmp_same = refl;
        granularity_same = refl;
        rlb_same = rlb_kept p.mseccfg val;
        cfg_same = refl;
        addr_same = refl;
        base_same = λ h. refl;
      })

-- A write to one of the registers.
pub data Event : Type 0 where
  addr_write : ℕ → ℕ → Event
  cfg_write : ℕ → ℕ → Event
  mseccfg_write : ℕ → Event

unfoldable pub step : Pmp → Event → Pmp
step p (addr_write j val) = (write_addr j val p).0
step p (cfg_write n val) = (write_cfg n val p).0
step p (mseccfg_write val) = (write_mseccfg val p).0

unfoldable pub run : Pmp → List Event → Pmp
run p [] = p
run p (e ∷ es) = run (step p e) es

step-Same : (i : ℕ) (p : Pmp) (e : Event) → IsLocked i p → Same i p (step p e)
unfolding step write_cfg
step-Same i p (addr_write j val) l = write_addr-Same i j val p l
step-Same i p (cfg_write n val) l = elim (Bool-cases (p.n_pmp == 0)) [
  | inl e ↦ rw (e, step) (Same-refl i p)
  | inr e ↦ rw (e, step) (write_cfg_loop-Same i (p.xlen / 8) (n * 4) val p l)
]
step-Same i p (mseccfg_write val) l = write_mseccfg-Same i val p l

run-Same : (es : List Event) (i : ℕ) (p : Pmp) → IsLocked i p → Same i p (run p es)
unfolding run
run-Same [] i p l = Same-refl i p
run-Same (e ∷ es) i p l =
    let now = step-Same i p e l in
    let q = step p e in Same-trans i p q _ now (run-Same es i q (Same-IsLocked i p q now l))

Same-match4 : (i a : ℕ) (p q : Pmp) → Same i p q → match4 q i a ≡ match4 p i a
unfolding match4 tor_paddr tor_base_paddr napot_mask
Same-match4 i a p q s = elim (Bool-cases (mode_of p i == pmp_tor)) [
  | inl tor ↦
      rw (s.cfg_same, s.addr_same, s.granularity_same, s.base_same (ground (arith, tor))) refl
  | inr other ↦ rw (s.cfg_same, s.addr_same, s.granularity_same, other) refl
]

-- An entry that is implemented and locked, while `RLB` is clear, keeps its configuration and its
-- address, matches the same addresses, and stays locked with `RLB` clear, after any writes to the
-- address, configuration and security registers.
pub run-IsLocked :
    (es : List Event) (i : ℕ) (p : Pmp)
    → IsLocked i p
    → let q = run p es in
      IsLocked i q
      × (q.cfg i ≡ p.cfg i)
      × (q.addr i ≡ p.addr i)
      × ((a : ℕ) → match4 q i a ≡ match4 p i a)
run-IsLocked es i p l =
    let s = run-Same es i p l in
    (Same-IsLocked i p (run p es) s l, s.cfg_same, s.addr_same, λ a. Same-match4 i a p (run p es) s)
