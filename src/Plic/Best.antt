-- ===== src/Plic/Best.antt =====
-- riscv/plic.cc: `context_best_pending` and the sources that ask.
use nnemu.Base.{
  ℕ, zero, suc, ◌+◌, ◌*◌, ◌/◌, ◌%◌, ◌≤◌, ◌<◌, ◌≡◌, refl, subst, ap, ap₂, arith, ◌⊎◌, inl, inr, Bool,
  true, false, not, ◌&&◌, ◌||◌, ltb, ◌==◌, if◌then◌else◌, Bool-cases,
}
use nnemu.Base.Bits.{bit, truthy-and-pow, bit-zero}
use nnemu.Plic.{
  Plic, Context, Candidate, best_step, best_in_word, best_in_words, context_best_pending,
}

-- Source `id` asks for service in a context: it exists, is pending and has not been claimed.
unfoldable pub asks : ℕ → Context → ℕ → Bool
asks num_ids c id =
    ltb id num_ids
    && (bit (c.pending (id / 32)) (id % 32) && not (bit (c.claimed (id / 32)) (id % 32)))

-- `b` is the best of the sources below `limit` other than 0.
record IsBest (num_ids : ℕ) (c : Context) (limit : ℕ) (b : Candidate) : Type 0 where
  pub found :
      1 ≤ b.best_id
      → (b.best_id < limit)
        × (asks num_ids c b.best_id ≡ true)
        × (b.best_id_prio ≡ c.pending_priority b.best_id)
  pub beats :
      (x : ℕ)
      → 1 ≤ x
      → x < limit
      → asks num_ids c x ≡ true
      → (1 ≤ b.best_id)
        × ((c.pending_priority x < c.pending_priority b.best_id)
            ⊎ ((c.pending_priority x ≡ c.pending_priority b.best_id) × (b.best_id ≤ x)))

-- What the loop body does with a source that it reaches.
better : ℕ → Context → ℕ → Candidate → Candidate
better num_ids c id b =
    if asks num_ids c id
    then (if b.best_id == 0 || ltb b.best_id_prio (c.pending_priority id)
        then record { best_id = id; best_id_prio = c.pending_priority id }
        else b)
    else b

best_step_lem :
    (num_ids : ℕ) (c : Context) (i j : ℕ) (b : Candidate)
    → j < 32
    → best_step num_ids c i j b ≡ better num_ids c (i * 32 + j) b
unfolding best_step asks better
best_step_lem num_ids c i j b h = ground (
  arith,
  truthy-and-pow j (c.pending i),
  truthy-and-pow j (c.claimed i),
  ap₂ (λ s t. bit (c.pending s) t) word index,
  ap₂ (λ s t. bit (c.claimed s) t) word index,
)
  where
    word : (i * 32 + j) / 32 ≡ i
    word = omega arith

    index : (i * 32 + j) % 32 ≡ j
    index = omega arith

better-IsBest :
    (num_ids : ℕ) (c : Context) (limit : ℕ) (b : Candidate)
    → IsBest num_ids c limit b
    → IsBest num_ids c (suc limit) (better num_ids c limit b)
unfolding better
better-IsBest num_ids c limit b v = record {
  found = λ p. ground (arith, v.found);
  beats = λ x pos below a. ground (arith, v.found, v.beats x);
}

-- A limit may be passed over if nothing in between asks.
widen-IsBest :
    (num_ids : ℕ) (c : Context) (low high : ℕ) (b : Candidate)
    → low ≤ high
    → ((x : ℕ) → low ≤ x → x < high → asks num_ids c x ≡ false)
    → IsBest num_ids c low b
    → IsBest num_ids c high b
widen-IsBest num_ids c low high b le quiet v = record {
  found = λ p. ground (arith, v.found);
  beats = λ x pos below a. ground (arith, v.beats x, quiet x);
}

best_in_word-IsBest :
    (num_ids : ℕ) (c : Context) (i left j : ℕ) (b : Candidate)
    → left + j ≡ 32
    → IsBest num_ids c (i * 32 + j) b
    → IsBest num_ids c (i * 32 + 32) (best_in_word num_ids c i left j b)
unfolding best_in_word
best_in_word-IsBest num_ids c i zero j b e v =
    let done : i * 32 + j ≡ i * 32 + 32 = omega arith in subst (λ t. IsBest num_ids c t b) done v
best_in_word-IsBest num_ids c i (suc left) j b e v =
    best_in_word-IsBest num_ids c i left (j + 1) (best_step num_ids c i j b) (omega arith) (
      subst (λ t. IsBest num_ids c t (best_step num_ids c i j b)) next
        (rw (best_step_lem num_ids c i j b (omega arith))
          (better-IsBest num_ids c (i * 32 + j) b v)))
  where
    next : suc (i * 32 + j) ≡ i * 32 + (j + 1)
    next = omega arith

best_in_words-IsBest :
    (num_ids : ℕ) (c : Context) (left i n : ℕ) (b : Candidate)
    → left + i ≡ n
    → IsBest num_ids c (i * 32) b
    → IsBest num_ids c (n * 32) (best_in_words num_ids c left i b)
unfolding best_in_words
best_in_words-IsBest num_ids c zero i n b e v =
    let done : i * 32 ≡ n * 32 = omega arith in subst (λ t. IsBest num_ids c t b) done v
best_in_words-IsBest num_ids c (suc left) i n b e v =
    best_in_words-IsBest num_ids c left (i + 1) n _ (omega arith) (
      subst
        (λ t. IsBest num_ids c t (if c.pending i == 0 then b else best_in_word num_ids c i 32 0 b))
        next word)
  where
    next : i * 32 + 32 ≡ (i + 1) * 32
    next = omega arith

    word :
        IsBest num_ids c
          (i * 32 + 32)
          (if c.pending i == 0 then b else best_in_word num_ids c i 32 0 b)
    word = elim (Bool-cases (c.pending i == 0)) [
      | inl empty ↦
          rw empty
            (widen-IsBest num_ids c (i * 32) (i * 32 + 32) b (omega arith) (quiet (ground arith)) v)
      | inr some_bit ↦ rw some_bit (
          best_in_word-IsBest num_ids c i 32 0 b refl
            (subst (λ t. IsBest num_ids c t b) (omega arith) v))
    ]
      where
        quiet : c.pending i ≡ 0 → (x : ℕ) → i * 32 ≤ x → x < i * 32 + 32 → asks num_ids c x ≡ false
        quiet empty x lo hi =
            unfold asks in
            ground (
              arith,
              ap (λ t. bit (c.pending t) (x % 32)) {x = x / 32} {y = i},
              ap (λ t. bit t (x % 32)) empty,
              bit-zero (x % 32),
            )

-- `num_ids_word` counts the words that the sources need.
abbrev pub WordsFit : Plic → Type 0
WordsFit p = p.num_ids ≤ p.num_ids_word * 32

-- If `num_ids_word` counts the words that the sources need: a nonzero result is a source that asks,
-- and if a source asks, the result is nonzero, and of a higher priority than that source, or of the
-- same priority and not a greater number.
pub context_best_pending_lem :
    (p : Plic) (c : Context)
    → WordsFit p
    → let best = context_best_pending p c in
      (1 ≤ best → asks p.num_ids c best ≡ true)
      × ((x : ℕ)
          → 1 ≤ x
          → asks p.num_ids c x ≡ true
          → (1 ≤ best)
            × ((c.pending_priority x < c.pending_priority best)
                ⊎ ((c.pending_priority x ≡ c.pending_priority best) × (best ≤ x))))
unfolding context_best_pending
context_best_pending_lem p c fits =
    (λ h. (final.found h).1, λ x pos a. final.beats x pos (in_range x a) a)
  where
    first : IsBest p.num_ids c (0 * 32) (record { best_id = 0; best_id_prio = 0 })
    first = record {
      found = λ h. absurd (omega arith);
      beats = λ x pos below a. absurd (omega arith);
    }

    final :
        IsBest p.num_ids c
          (p.num_ids_word * 32)
          (best_in_words p.num_ids c p.num_ids_word 0 (record { best_id = 0; best_id_prio = 0 }))
    final = best_in_words-IsBest p.num_ids c p.num_ids_word 0 p.num_ids_word _ (omega arith) first

    in_range : (x : ℕ) → asks p.num_ids c x ≡ true → x < p.num_ids_word * 32
    in_range x a = unfold asks in ground arith
