-- ===== src/Plic/Run.antt =====
-- riscv/plic.cc: the operations of the controller in any order.
use nnemu.Base.{
  ℕ, ◌+◌, ◌%◌, ◌^◌, inl, inr, Bool, true, false, ltb, ◌==◌, Option-cases, none, some, List, [], ◌∷◌,
  ◌≡◌, get_elem?, length, take, drop,
}
use nnemu.Plic.{Plic, make}
use nnemu.Plic.Fresh.{Rising, make-IsSynced}
use nnemu.Plic.Registers.{priority_read, priority_write, set_interrupt_level}
use nnemu.Plic.Access.{
  load_word, store_word, load_context_word, load_enable_word, store_enable_word, store_context_word,
  context_of, enable_context_of, context_offset_of, enable_offset_of, load_four, store_four,
  load_eight, store_eight, load, store, enable_base, context_base, reg_size,
}
use nnemu.Plic.Sync.{IsSynced}
use nnemu.Plic.Handlers.{
  priority_write-IsSynced, enable_write-IsSynced, context_read-IsSynced, context_write-IsSynced,
  level-IsSynced, pair_IsSynced,
}

load_context-IsSynced : (p : Plic) (addr : ℕ) → IsSynced p → IsSynced (load_context_word p addr).0
unfolding load_context_word
load_context-IsSynced p addr v = elim (Option-cases (get_elem? p.contexts (context_of addr))) [
  | inl e ↦ rw (e, load_context_word) v
  | inr (c, e) ↦
      rw (e, load_context_word)
        (context_read-IsSynced p (context_of addr) c (context_offset_of addr) e v)
]

load_word-IsSynced : (p : Plic) (addr : ℕ) → IsSynced p → IsSynced (load_word p addr).0
unfolding load_word
load_word-IsSynced p addr v =
    pair_IsSynced (ltb addr enable_base) (p, some (priority_read p addr)) _ v
      (pair_IsSynced (ltb addr context_base) (p, load_enable_word p addr) _ v
        (pair_IsSynced (ltb addr reg_size) (load_context_word p addr) (p, none)
          (load_context-IsSynced p addr v) v))

store_enable-IsSynced :
    (p : Plic) (addr val : ℕ) → IsSynced p → IsSynced (store_enable_word p addr val).0
unfolding store_enable_word
store_enable-IsSynced p addr val v =
    elim (Option-cases (get_elem? p.contexts (enable_context_of addr))) [
      | inl e ↦ rw (e, store_enable_word) v
      | inr (c, e) ↦
          rw (e, store_enable_word)
            (enable_write-IsSynced p (enable_context_of addr) c (enable_offset_of addr) val e v)
    ]

store_context-IsSynced :
    (p : Plic) (addr val : ℕ) → IsSynced p → IsSynced (store_context_word p addr val).0
unfolding store_context_word
store_context-IsSynced p addr val v = elim (Option-cases (get_elem? p.contexts (context_of addr))) [
  | inl e ↦ rw (e, store_context_word) v
  | inr (c, e) ↦
      rw (e, store_context_word)
        (context_write-IsSynced p (context_of addr) c (context_offset_of addr) val e v)
]

store_word-IsSynced : (p : Plic) (addr val : ℕ) → IsSynced p → IsSynced (store_word p addr val).0
unfolding store_word
store_word-IsSynced p addr val v =
    pair_IsSynced (ltb addr enable_base) (priority_write p addr val, true) _
      (priority_write-IsSynced p addr val v)
      (pair_IsSynced (ltb addr context_base) (store_enable_word p addr val) _
        (store_enable-IsSynced p addr val v)
        (pair_IsSynced (ltb addr reg_size) (store_context_word p addr val) (p, false)
          (store_context-IsSynced p addr val v) v))

load_four-IsSynced : (p : Plic) (addr : ℕ) → IsSynced p → IsSynced (load_four p addr).0
unfolding load_four
load_four-IsSynced p addr v = load_word-IsSynced p addr v

load_eight-IsSynced : (p : Plic) (addr : ℕ) → IsSynced p → IsSynced (load_eight p addr).0
unfolding load_eight
load_eight-IsSynced p addr v = elim (Option-cases (load_four p addr).1) [
  | inl e ↦ rw (e, load_eight) (load_four-IsSynced p addr v)
  | inr (low, e) ↦
      rw (e, load_eight)
        (load_four-IsSynced (load_four p addr).0 ((addr + 4) % 2 ^ 64)
          (load_four-IsSynced p addr v))
]

load-IsSynced : (p : Plic) (addr len : ℕ) → IsSynced p → IsSynced (load p addr len).0
unfolding load
load-IsSynced p addr len v =
    pair_IsSynced (len == 4) (load_four p addr) _ (load_four-IsSynced p addr v)
      (pair_IsSynced (len == 8) (load_eight p addr) (p, none) (load_eight-IsSynced p addr v) v)

store_four-IsSynced :
    (p : Plic) (addr : ℕ) (bytes : List ℕ) → IsSynced p → IsSynced (store_four p addr bytes).0
unfolding store_four
store_four-IsSynced p addr bytes v = store_word-IsSynced p addr _ v

store_eight-IsSynced :
    (p : Plic) (addr : ℕ) (bytes : List ℕ) → IsSynced p → IsSynced (store_eight p addr bytes).0
unfolding store_eight
store_eight-IsSynced p addr bytes v =
    let low = store_four p addr (take 4 bytes) in
    let done = store_four-IsSynced p addr (take 4 bytes) v in
    pair_IsSynced low.1 (store_four low.0 ((addr + 4) % 2 ^ 64) (drop 4 bytes)) (low.0, false)
      (store_four-IsSynced low.0 ((addr + 4) % 2 ^ 64) (drop 4 bytes) done) done

store-IsSynced :
    (p : Plic) (addr : ℕ) (bytes : List ℕ) → IsSynced p → IsSynced (store p addr bytes).0
unfolding store
store-IsSynced p addr bytes v =
    pair_IsSynced (length bytes == 4) (store_four p addr bytes) _
      (store_four-IsSynced p addr bytes v)
      (pair_IsSynced (length bytes == 8) (store_eight p addr bytes) (p, false)
        (store_eight-IsSynced p addr bytes v) v)

-- What can happen to a controller: an access over the bus, or a device changing its line.
pub data Event : Type 0 where
  loads : ℕ → ℕ → Event
  stores : ℕ → List ℕ → Event
  levels : ℕ → Bool → Event

pub step : Plic → Event → Plic
step p (loads addr len) = (load p addr len).0
step p (stores addr bytes) = (store p addr bytes).0
step p (levels id lvl) = set_interrupt_level id lvl p

pub run : Plic → List Event → Plic
unfolding step
run p [] = p
run p (e ∷ es) = run (step p e) es

step-IsSynced : (p : Plic) (e : Event) → IsSynced p → IsSynced (step p e)
unfolding step
step-IsSynced p (loads addr len) v = load-IsSynced p addr len v
step-IsSynced p (stores addr bytes) v = store-IsSynced p addr bytes v
step-IsSynced p (levels id lvl) v = level-IsSynced id lvl p v

run_from-IsSynced : (es : List Event) (p : Plic) → IsSynced p → IsSynced (run p es)
unfolding run
run_from-IsSynced [] p v = v
run_from-IsSynced (e ∷ es) p v = run_from-IsSynced es (step p e) (step-IsSynced p e v)

-- From the constructor on, for harts in the order of their numbers with no interrupt pending, after any
-- loads, stores and level changes: no two contexts share a bit of `mip`, and the external-interrupt bit
-- of every context is set exactly if `context_best_pending` finds a source for it, whatever the
-- threshold of the context is.
pub run-IsSynced :
    (harts : List (ℕ × Bool)) (ndev : ℕ) (mip : ℕ → ℕ) (es : List Event)
    → Rising 0 harts
    → ((hart : ℕ) → mip hart ≡ 0)
    → IsSynced (run (make harts ndev mip) es)
run-IsSynced harts ndev mip es rising clear =
    run_from-IsSynced es (make harts ndev mip) (make-IsSynced harts ndev mip rising clear)
