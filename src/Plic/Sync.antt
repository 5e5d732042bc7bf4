-- ===== src/Plic/Sync.antt =====
-- riscv/plic.cc: the interrupt-pending bits of the harts and the contexts of the controller.
use nnemu.Base.{
  ℕ, ◌^◌, ◌<◌, ◌≡◌, ◌≢◌, refl, subst, ap, ◌∙◌, sym, arith, ◌⊎◌, inl, inr, Bool, true, false, not,
  ◌&&◌, ◌==◌, if◌then◌else◌, bit_and, some, List, set, get_elem?, set_cases,
}
use nnemu.Base.Bits.{bit, bit_not, bit-and, bit-or, bit-not, bit-pow, bit-zero, two_pow_lt}
use nnemu.Plic.{
  Plic, Context, context_best_pending, mip_meip, mip_seip, backdoor_write_with_mask, context_update,
  set_context,
}

-- The bit of a context in `mip`.
abbrev pub mip_bit : Context → ℕ
mip_bit c = if c.mmode then 11 else 9

-- The line of a context agrees with what the controller would choose.
abbrev pub InSync : Plic → Context → Type 0
InSync p c = bit (p.mip c.hart) (mip_bit c) ≡ not (context_best_pending p c == 0)

-- Two contexts have different lines.
abbrev pub Distinct : Context → Context → Type 0
Distinct c d = (c.hart ≢ d.hart) ⊎ (c.mmode ≢ d.mmode)

pub backdoor-bit :
    (old k i : ℕ) (on : Bool)
    → i < 64
    → k < 64
    → bit (backdoor_write_with_mask old (2 ^ k) (if on then 2 ^ k else 0)) i
      ≡ (if i == k then on else bit old i)
unfolding backdoor_write_with_mask
backdoor-bit old k i on hi hk = ground (
  arith,
  bit-or (bit_and old (bit_not 64 (2 ^ k))) (bit_and (if on then 2 ^ k else 0) (2 ^ k)) i,
  bit-and old (bit_not 64 (2 ^ k)) i,
  bit-and (2 ^ k) (2 ^ k) i,
  bit-and 0 (2 ^ k) i,
  bit-zero i,
  bit-not 64 (2 ^ k) i (two_pow_lt k 64 hk) hi,
  bit-pow k i,
)

line_after :
    (old i : ℕ) (m on : Bool)
    → i < 64
    → let mask = if m then mip_meip else mip_seip in
      bit (backdoor_write_with_mask old mask (if on then mask else 0)) i
      ≡ (if i == (if m then 11 else 9) then on else bit old i)
line_after old i true on h = backdoor-bit old 11 i on h (omega arith)
line_after old i false on h = backdoor-bit old 9 i on h (omega arith)

-- Every context of the controller has its own line, and the line agrees with it.
pub record IsSynced (p : Plic) : Type 0 where
  pub distinct :
      (i j : ℕ) (c d : Context)
      → get_elem? p.contexts i ≡ some c
      → get_elem? p.contexts j ≡ some d
      → i ≢ j
      → Distinct c d
  pub in_sync : (i : ℕ) (c : Context) → get_elem? p.contexts i ≡ some c → InSync p c

-- The lines after one context is written back.
update_line :
    (p : Plic) (c d : Context)
    → bit ((context_update p c).mip d.hart) (mip_bit d) ≡ (
        if (d.hart == c.hart) && (mip_bit d == mip_bit c)
        then not (context_best_pending p c == 0)
        else bit (p.mip d.hart) (mip_bit d))
unfolding context_update
update_line p c d = ground (
  arith,
  line_after (p.mip c.hart) (mip_bit d) c.mmode (not (context_best_pending p c == 0))
      (ground arith),
  ap (λ t. bit (p.mip t) (mip_bit d)) {x = d.hart} {y = c.hart},
)

pub best_ext :
    (p q : Plic) (c : Context)
    → p.num_ids ≡ q.num_ids
    → p.num_ids_word ≡ q.num_ids_word
    → context_best_pending p c ≡ context_best_pending q c
unfolding context_best_pending
best_ext p q c e f = rw (e, f)

-- Each context of the list after a write was there before, as far as its line goes.
origin :
    (cs : List Context) (n i : ℕ) (c c' d : Context)
    → get_elem? cs n ≡ some c
    → c'.hart ≡ c.hart
    → c'.mmode ≡ c.mmode
    → get_elem? (set cs n c') i ≡ some d
    → (e : Context) × (get_elem? cs i ≡ some e) × (e.hart ≡ d.hart) × (e.mmode ≡ d.mmode)
origin cs n i c c' d at_n same_hart same_mode at_i = elim (set_cases cs n i c' c d at_n at_i) [
  | inl (here, e) ↦ (
    c,
    ap (get_elem? cs) here ∙ at_n,
    sym same_hart ∙ ap (λ t. t.hart) e,
    sym same_mode ∙ ap (λ t. t.mmode) e,
  )
  | inr (_, old) ↦ (d, old, refl, refl)
]

Distinct-cong :
    (c d c' d' : Context)
    → c.hart ≡ c'.hart
    → c.mmode ≡ c'.mmode
    → d.hart ≡ d'.hart
    → d.mmode ≡ d'.mmode
    → Distinct c d
    → Distinct c' d'
Distinct-cong c d c' d' h m h' m' v = ground arith

-- Writing a context back over its old value, and updating its line, keeps all lines right.
pub write_back-IsSynced :
    (p : Plic) (n : ℕ) (c c' : Context)
    → get_elem? p.contexts n ≡ some c
    → c'.hart ≡ c.hart
    → c'.mmode ≡ c.mmode
    → IsSynced p
    → IsSynced (context_update (set_context n c' p) c')
unfolding context_update
write_back-IsSynced p n c c' at_n same_hart same_mode v = record {
  distinct = λ i j d e at_i at_j ne.
      let (d', old_d, hd, md) = origin p.contexts n i c c' d at_n same_hart same_mode at_i in
      let (e', old_e, he, me) = origin p.contexts n j c c' e at_n same_hart same_mode at_j in
      Distinct-cong d' e' d e hd md he me (v.distinct i j d' e' old_d old_e ne);
  in_sync = λ i d at_i. elim (set_cases p.contexts n i c' c d at_n at_i) [
    | inl (_, e) ↦
        subst (InSync after) e (own_line ∙ ap (λ t. not (t == 0)) (best_ext _ after c' refl refl))
    | inr (ne, old) ↦
        other_line d (v.distinct i n d c old at_n ne)
        ∙ v.in_sync i d old
        ∙ ap (λ t. not (t == 0)) (best_ext p after d refl refl)
  ];
}
  where
    after : Plic
    after = context_update (set_context n c' p) c'

    own_line :
        bit (after.mip c'.hart) (mip_bit c')
        ≡ not (context_best_pending (set_context n c' p) c' == 0)
    own_line = ground (arith, update_line (set_context n c' p) c' c')

    other_line :
        (d : Context)
        → Distinct d c
        → bit (after.mip d.hart) (mip_bit d) ≡ bit (p.mip d.hart) (mip_bit d)
    other_line d ne = ground (arith, update_line (set_context n c' p) c' d)
