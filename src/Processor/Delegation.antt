-- ===== src/Processor/Delegation.antt =====
-- riscv/processor.cc: which interrupts `take_interrupt` takes.
use nnemu.Base.{
  ℕ, ◌-◌, ◌*◌, ◌/◌, ◌%◌, ◌^◌, ◌≤◌, ◌<◌, ◌≡◌, refl, ap, ap₂, sym, ◌∙◌, arith, Bool, true, false, not,
  ◌&&◌, ◌==◌, truthy, leb, ltb, Option, none, some, List, [], ◌∷◌, bit_and, bit_or, Bool-cases, inl,
  inr, ◌⊎◌, subst,
}
use nnemu.Base.Bits.{
  bit, bit_not, bit-and, bit-not, bit-pow, bit-shift_left, bit-shift_right, bit-zero, bit-ones,
  bit_and-lt, bit_above, two_pow_pos,
}
use nnemu.Arith.{ctz}
use nnemu.Arith.Trailing.{ctz_lem}
use nnemu.Processor.{
  Hart, Taken, take_interrupt, enabled_interrupts, prioritise, mask_of, m_enabled, hs_enabled,
  vs_enabled, nmie,
}
use nnemu.Processor.Priority.{first_of, standard_order, prioritise-order, prioritise-above}

-- The bits of a choice are bits of the word it is made from, and it has one.
record Chosen (w x : ℕ) : Type 0 where
  within : (i : ℕ) → bit x i ≡ true → bit w i ≡ true
  some_bit : 0 < x
  narrow : x ≤ w

abbrev chosen_of : Option ℕ → ℕ
chosen_of none = 0
chosen_of (some x) = x

one_bit-Chosen : (w i : ℕ) → bit w i ≡ true → Chosen w (2 ^ i)
one_bit-Chosen w i has = record {
  within = λ j h. let same : j ≡ i = ground (arith, h, bit-pow i j) in ap (bit w) same ∙ has;
  some_bit = two_pow_pos i;
  narrow = elim (Bool-cases (ltb w (2 ^ i))) [
    | inl less ↦ absurd (ground (arith, has, bit_above i w i (ground (arith, less)) (omega arith)))
    | inr more ↦ ground (arith, more)
  ];
}

first_of-Chosen : (order : List ℕ) (w x : ℕ) → first_of order w ≡ some x → Chosen w x
unfolding first_of
first_of-Chosen [] w x e = absurd (ground arith)
first_of-Chosen (i ∷ rest) w x e = elim (Bool-cases (bit w i)) [
  | inl has ↦
      let one : some (2 ^ i) ≡ some x = sym (rw (has, first_of) refl) ∙ e in
      subst (Chosen w) (ap chosen_of one) (one_bit-Chosen w i has)
  | inr hasnt ↦ first_of-Chosen rest w x (ground (arith, hasnt, e))
]

above_within : (w i : ℕ) → bit (w - w % 2 ^ 12) i ≡ true → bit w i ≡ true
above_within w i h =
    let whole : w - w % 2 ^ 12 ≡ w / 2 ^ 12 * 2 ^ 12 = omega arith in
    let shifted : (leb 12 i && bit (w / 2 ^ 12) (i - 12)) ≡ true =
      sym (bit-shift_left 12 (w / 2 ^ 12) i) ∙ sym (ap (λ t. bit t i) whole) ∙ h in
    let above : 12 ≤ i = ground (arith, shifted) in
    sym (bit-shift_right 12 w (i - 12) i (omega (arith, above))) ∙ ground (arith, shifted)

above-Chosen : (w : ℕ) → 2 ^ 12 ≤ w → Chosen w (w - w % 2 ^ 12)
above-Chosen w high = record {
  within = λ i h. above_within w i h;
  some_bit = omega arith;
  narrow = omega arith;
}

-- The lowest bit of a word that has one.
lowest : (x : ℕ) → 0 < x → x < 2 ^ 64 → bit x (ctz x) ≡ true
unfolding bit
lowest x pos lt =
    let (q, whole, odd_q) = ctz_lem x pos lt in
    ap (λ t. bit t (ctz x)) whole
    ∙ bit-shift_left (ctz x) q (ctz x)
    ∙ ground (arith, ap (bit q) {x = ctz x - ctz x} {y = 0} (omega arith), odd_q)

bit-mask_of : (b : Bool) (i : ℕ) → i < 64 → bit (mask_of b) i ≡ b
bit-mask_of true i small = bit-ones 64 i ∙ ground (arith, small)
bit-mask_of false i small = bit-zero i

-- The three words of `take_interrupt` have this form.
bit-masked :
    (a b i : ℕ) (e : Bool)
    → i < 64
    → bit (bit_and (bit_and a b) (mask_of e)) i ≡ ((bit a i && bit b i) && e)
bit-masked a b i e small =
    bit-and (bit_and a b) (mask_of e) i ∙ ap₂ ◌&&◌ (bit-and a b i) (bit-mask_of e i small)

-- What makes an enabled interrupt `i` be taken at the machine level, at the supervisor level, where no
-- machine-level one is, or at the guest's, where no other is.
pub data Delegated (pending : ℕ) (h : Hart) (i : ℕ) : Type 0 where
  to_machine : bit h.mideleg i ≡ false → m_enabled h ≡ true → Delegated pending h i
  to_supervisor :
      bit h.mideleg i ≡ true
      → bit h.hideleg i ≡ false
      → hs_enabled h ≡ true
      → ((j : ℕ) → j < 64 → bit pending j ≡ true → bit h.mideleg j ≡ false → m_enabled h ≡ false)
      → Delegated pending h i
  to_guest :
      h.v ≡ true
      → bit h.hideleg i ≡ true
      → vs_enabled h ≡ true
      → ((j : ℕ) → j < 64 → bit pending j ≡ true → bit h.mideleg j ≡ false → m_enabled h ≡ false)
      → ((j : ℕ)
          → j < 64
          → bit pending j ≡ true
          → bit h.mideleg j ≡ true
          → bit h.hideleg j ≡ false
          → hs_enabled h ≡ false)
      → Delegated pending h i

module _ (pending : ℕ) (h : Hart) (narrow : pending < 2 ^ 64) (mideleg_narrow : h.mideleg < 2 ^ 64)
    (hideleg_narrow : h.hideleg < 2 ^ 64) where
  abbrev machine : ℕ
  machine = bit_and (bit_and pending (bit_not 64 h.mideleg)) (mask_of (m_enabled h))

  abbrev supervisor : ℕ
  supervisor =
      bit_and (bit_and pending (bit_and h.mideleg (bit_not 64 h.hideleg))) (mask_of (hs_enabled h))

  abbrev guest : ℕ
  guest = bit_and (bit_and pending h.hideleg) (mask_of (vs_enabled h))

  bit-machine :
      (i : ℕ) → i < 64 → bit machine i ≡ ((bit pending i && not (bit h.mideleg i)) && m_enabled h)
  bit-machine i small =
      bit-masked pending (bit_not 64 h.mideleg) i (m_enabled h) small
      ∙ ap (λ t. (bit pending i && t) && m_enabled h) (bit-not 64 h.mideleg i mideleg_narrow small)

  bit-supervisor :
      (i : ℕ)
      → i < 64
      → bit supervisor i
        ≡ ((bit pending i && (bit h.mideleg i && not (bit h.hideleg i))) && hs_enabled h)
  bit-supervisor i small =
      bit-masked pending (bit_and h.mideleg (bit_not 64 h.hideleg)) i (hs_enabled h) small
      ∙ ap (λ t. (bit pending i && t) && hs_enabled h)
          (bit-and h.mideleg (bit_not 64 h.hideleg) i
            ∙ ap (λ t. bit h.mideleg i && t) (bit-not 64 h.hideleg i hideleg_narrow small))

  no_machine :
      machine ≡ 0
      → (j : ℕ) → j < 64
      → bit pending j ≡ true
      → bit h.mideleg j ≡ false
      → m_enabled h ≡ false
  no_machine zero_word j small p d =
      sym (rw (p, d) refl) ∙ sym (bit-machine j small) ∙ ap (λ t. bit t j) zero_word ∙ bit-zero j

  no_supervisor :
      supervisor ≡ 0
      → (j : ℕ) → j < 64
      → bit pending j ≡ true
      → bit h.mideleg j ≡ true
      → bit h.hideleg j ≡ false
      → hs_enabled h ≡ false
  no_supervisor zero_word j small p d e =
      sym (rw (p, d, e) refl)
      ∙ sym (bit-supervisor j small)
      ∙ ap (λ t. bit t j) zero_word
      ∙ bit-zero j

  enabled_from :
      (i : ℕ)
      → i < 64
      → bit (enabled_interrupts pending h) i ≡ true
      → (bit pending i ≡ true) × Delegated pending h i
  unfolding enabled_interrupts
  enabled_from i small e = elim (Bool-cases (machine == 0)) [
    | inl no_m ↦
        let none_above = no_machine (ground (arith, no_m)) in
        elim (Bool-cases (h.v && (supervisor == 0))) [
          | inl low ↦
              let has : bit guest i ≡ true = sym (rw (no_m, low, enabled_interrupts) refl) ∙ e in
              let parts = sym (bit-masked pending h.hideleg i (vs_enabled h) small) ∙ has in
              (
                ground (arith, parts),
                to_guest (ground (arith, low)) (ground (arith, parts)) (ground (arith, parts))
                    none_above (no_supervisor (ground (arith, low))),
              )
          | inr high ↦
              let has : bit supervisor i ≡ true =
                sym (rw (no_m, high, enabled_interrupts) refl) ∙ e in
              let parts = sym (bit-supervisor i small) ∙ has in
              (
                ground (arith, parts),
                to_supervisor (ground (arith, parts)) (ground (arith, parts))
                    (ground (arith, parts)) none_above,
              )
        ]
    | inr some_m ↦
        let has : bit machine i ≡ true = sym (rw (some_m, enabled_interrupts) refl) ∙ e in
        let parts = sym (bit-machine i small) ∙ has in
        (ground (arith, parts), to_machine (ground (arith, parts)) (ground (arith, parts)))
  ]

prioritised : (w x : ℕ) → w < 2 ^ 64 → prioritise w ≡ some x → Chosen w x
prioritised w x narrow e = elim (Bool-cases (ltb w (2 ^ 12))) [
  | inl low ↦
      first_of-Chosen standard_order w x (sym (prioritise-order w (ground (arith, low))) ∙ e)
  | inr high ↦
      let above = prioritise-above w (ground (arith, high)) in
      subst (Chosen w) (ap chosen_of (sym above ∙ e)) (above-Chosen w (ground (arith, high)))
]

enabled_interrupts-narrow :
    (pending : ℕ) (h : Hart) → pending < 2 ^ 64 → enabled_interrupts pending h < 2 ^ 64
unfolding enabled_interrupts
enabled_interrupts-narrow pending h narrow =
    let word : (a b : ℕ) → bit_and (bit_and pending a) b < 2 ^ 64 =
      λ a b. bit_and-lt 64 (bit_and pending a) b (bit_and-lt 64 pending a narrow) in
    ground (
      arith,
      word (bit_not 64 h.mideleg) (mask_of (m_enabled h)),
      word (bit_and h.mideleg (bit_not 64 h.hideleg)) (mask_of (hs_enabled h)),
      word h.hideleg (mask_of (vs_enabled h)),
    )

bit_inside : (x i : ℕ) → x < 2 ^ 64 → bit x i ≡ true → i < 64
bit_inside x i narrow has = elim (Bool-cases (ltb i 64)) [
  | inl less ↦ ground (arith, less)
  | inr more ↦ absurd (ground (arith, has, bit_above 64 x i narrow (ground (arith, more))))
]

abbrev cause_of : Taken → ℕ
cause_of (Taken.trap c) = c
cause_of t = 0

abbrev is_trap : Taken → Bool
is_trap (Taken.trap c) = true
is_trap t = false

option_cases : (o : Option ℕ) → (o ≡ none) ⊎ ((x : ℕ) × (o ≡ some x))
option_cases none = inl refl
option_cases (some x) = inr (x, refl)

answer :
    (pending x : ℕ) (h : Hart)
    → prioritise (enabled_interrupts pending h) ≡ some x
    → (pending == 0) ≡ false
    → (not h.debug_mode && (nmie h && truthy (enabled_interrupts pending h))) ≡ true
    → (take_interrupt pending h).1 ≡ Taken.trap (bit_or (2 ^ (h.max_xlen - 1)) (ctz x))
unfolding take_interrupt
answer pending x h choice some_pending ready =
    rw (some_pending, ready, take_interrupt) (rw choice refl)

-- With 64-bit words of interrupts, a trap that `take_interrupt` throws is for an interrupt that is pending and delegated to a level that
-- is enabled, while no pending interrupt belongs to a level above; the hart is not in debug mode and
-- its non-maskable interrupts are enabled.
pub take_interrupt-Delegated :
    (pending cause : ℕ) (h : Hart)
    → pending < 2 ^ 64
    → h.mideleg < 2 ^ 64
    → h.hideleg < 2 ^ 64
    → (take_interrupt pending h).1 ≡ Taken.trap cause
    → (i : ℕ) × (cause ≡ bit_or (2 ^ (h.max_xlen - 1)) i)
      × (bit pending i ≡ true)
      × Delegated pending h i
      × (h.debug_mode ≡ false)
      × (nmie h ≡ true)
unfolding take_interrupt
take_interrupt-Delegated pending cause h narrow mideleg_narrow hideleg_narrow e =
    elim (Bool-cases (pending == 0)) [
      | inl idle ↦ absurd (ground (arith, clash Taken.no_trap (rw (idle, take_interrupt) refl)))
      | inr some_pending ↦ elim (Bool-cases (not h.debug_mode && (nmie h && truthy w))) [
        | inl ready ↦ elim (option_cases (prioritise w)) [
          | inl nothing ↦ absurd (
              ground (
                arith,
                clash Taken.aborted (rw (some_pending, ready, take_interrupt) (rw nothing refl)),
              ))
          | inr choice ↦
              let x = choice.0 in
              let word = enabled_interrupts-narrow pending h narrow in
              let chosen = prioritised w x word choice.1 in
              let x_narrow : x < 2 ^ 64 = omega (arith, chosen.narrow, word) in
              let has = lowest x chosen.some_bit x_narrow in
              let taken : Taken.trap (bit_or (2 ^ (h.max_xlen - 1)) (ctz x)) ≡ Taken.trap cause =
                sym (answer pending x h choice.1 some_pending ready) ∙ e in
              let from =
                enabled_from pending h narrow mideleg_narrow hideleg_narrow (ctz x)
                  (bit_inside x (ctz x) x_narrow has) (chosen.within (ctz x) has) in
              (
                ctz x,
                sym (ap cause_of taken),
                from.0,
                from.1,
                ground (arith, ready),
                ground (arith, ready),
              )
        ]
        | inr held ↦
            absurd
              (ground (arith, clash Taken.no_trap (rw (some_pending, held, take_interrupt) refl)))
      ]
    ]
  where
    w : ℕ
    w = enabled_interrupts pending h

    clash : (t : Taken) → (take_interrupt pending h).1 ≡ t → is_trap t ≡ true
    clash t g = ap is_trap (sym g ∙ e)
