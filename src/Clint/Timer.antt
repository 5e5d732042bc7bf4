-- ===== src/Clint/Timer.antt =====
-- riscv/clint.cc: the timer interrupt and the time of the harts.
use nnemu.Base.{
  ℕ, ◌+◌, ◌≡◌, ◌⊎◌, refl, ap, sym, ◌∙◌, arith, Bool, true, false, ◌&&◌, ltb, leb, ◌==◌, inl, inr,
  if◌then◌else◌, Bool-cases, Option-cases, none, List, [], ◌∷◌, length, take, drop, Option-cases,
}
use nnemu.Base.Bits.{bit}
use nnemu.Plic.Sync.{backdoor-bit}
use nnemu.Clint.{
  Clint, has_hart, sync_hart, sync_harts, increment, make, load_part, store_part, store_msip,
  store_timer, load_both, load, store_both, store, mtimecmp_base,
}

-- The line of a hart and its `time` register are right.
pub record InTime (h : ℕ) (c : Clint) : Type 0 where
  pub line : bit (c.mip h) 7 ≡ leb (c.mtimecmp h) c.mtime
  pub clock : c.time h ≡ c.mtime

-- So are those of every hart of the simulator.
abbrev pub IsTimed : Clint → Type 0
IsTimed c = (h : ℕ) → has_hart c.harts h ≡ true → InTime h c

sync_hart-line :
    (k h : ℕ) (c : Clint)
    → bit ((sync_hart k c).mip h) 7
      ≡ (if h == k then leb (c.mtimecmp k) c.mtime else bit (c.mip h) 7)
unfolding sync_hart
sync_hart-line k h c =
    ground
      (arith, backdoor-bit (c.mip k) 7 7 (leb (c.mtimecmp k) c.mtime) (omega arith) (omega arith))

sync_hart-clock :
    (k h : ℕ) (c : Clint) → (sync_hart k c).time h ≡ (if h == k then c.mtime else c.time h)
unfolding sync_hart
sync_hart-clock k h c = refl

sync_hart-InTime : (k h : ℕ) (c : Clint) → ((k == h) ≡ true) ⊎ InTime h c → InTime h (sync_hart k c)
unfolding sync_hart
sync_hart-InTime k h c (inl e) = record {
  line = ground (arith, sync_hart-line k h c, e);
  clock = ground (arith, sync_hart-clock k h c, e);
}
sync_hart-InTime k h c (inr v) = record {
  line = ground (arith, sync_hart-line k h c, v.line);
  clock = ground (arith, sync_hart-clock k h c, v.clock);
}

sync_harts-InTime :
    (ks : List ℕ) (h : ℕ) (c : Clint)
    → (has_hart ks h ≡ true) ⊎ InTime h c
    → InTime h (sync_harts ks c)
unfolding sync_harts has_hart
sync_harts-InTime [] h c (inl e) = ground (arith, e)
sync_harts-InTime [] h c (inr v) = v
sync_harts-InTime (k ∷ ks) h c (inr v) =
    sync_harts-InTime ks h (sync_hart k c) (inr (sync_hart-InTime k h c (inr v)))
sync_harts-InTime (k ∷ ks) h c (inl e) = elim (Bool-cases (k == h)) [
  | inl now ↦ sync_harts-InTime ks h (sync_hart k c) (inr (sync_hart-InTime k h c (inl now)))
  | inr other ↦ sync_harts-InTime ks h (sync_hart k c) (inl (ground (arith, e, other)))
]

sync_harts-harts : (ks : List ℕ) (c : Clint) → (sync_harts ks c).harts ≡ c.harts
unfolding sync_harts sync_hart
sync_harts-harts [] c = refl
sync_harts-harts (k ∷ ks) c = sync_harts-harts ks (sync_hart k c)

increment-IsTimed : (now inc : ℕ) (c : Clint) → IsTimed (increment now inc c)
unfolding increment
increment-IsTimed now inc c h e =
    sync_harts-InTime c.harts h _
      (inl (ap (λ hs. has_hart hs h) (sym (sync_harts-harts c.harts _)) ∙ e))

load_part-IsTimed : (now addr len : ℕ) (c : Clint) → IsTimed (load_part now addr len c).0
unfolding load_part
load_part-IsTimed now addr len c = elim (Bool-cases (ltb addr mtimecmp_base)) [
  | inl e ↦ rw e (increment-IsTimed now 0 c)
  | inr e ↦ rw e (increment-IsTimed now 0 c)
]

store_part-IsTimed :
    (now addr : ℕ) (bytes : List ℕ) (c : Clint)
    → IsTimed c
    → IsTimed (store_part now addr bytes c).0
unfolding store_part
store_part-IsTimed now addr bytes c v = elim (Bool-cases (ltb addr mtimecmp_base)) [
  | inl e ↦ rw e (increment-IsTimed now 0 (store_msip addr bytes c))
  | inr e ↦ elim (Option-cases (store_timer addr bytes c)) [
    | inl o ↦ rw (e, o) v
    | inr (c', o) ↦ rw (e, o) (increment-IsTimed now 0 c')
  ]
]

load_both-IsTimed : (now addr : ℕ) (c : Clint) → IsTimed (load_both now addr c).0
unfolding load_both
load_both-IsTimed now addr c =
    let first = load_part now addr 4 (increment now 0 c) in
    let second = load_part now (addr + 4) 4 first.0 in
    elim (Option-cases first.1) [
      | inl e ↦ rw (e, load_both) (load_part-IsTimed now addr 4 (increment now 0 c))
      | inr (x, e) ↦ elim (Option-cases second.1) [
        | inl g ↦ rw (e, load_both, g) (load_part-IsTimed now (addr + 4) 4 first.0)
        | inr (y, g) ↦ rw (e, load_both, g) (load_part-IsTimed now (addr + 4) 4 first.0)
      ]
    ]

module _ {B : Type 0} where
  pair_IsTimed :
      (b : Bool) (x y : Clint × B) → IsTimed x.0 → IsTimed y.0 → IsTimed (if b then x else y).0
  pair_IsTimed true x y v w = v
  pair_IsTimed false x y v w = w

load-IsTimed : (now addr len : ℕ) (c : Clint) → IsTimed c → IsTimed (load now addr len c).0
unfolding load
load-IsTimed now addr len c v =
    pair_IsTimed (ltb 8 len) (c, none) _ v
      (pair_IsTimed (ltb addr mtimecmp_base && (len == 8)) (load_both now addr c)
        (load_part now addr len c) (load_both-IsTimed now addr c)
        (load_part-IsTimed now addr len c))

store_both-IsTimed :
    (now addr : ℕ) (bytes : List ℕ) (c : Clint)
    → IsTimed c
    → IsTimed (store_both now addr bytes c).0
unfolding store_both
store_both-IsTimed now addr bytes c v =
    let first = store_part now addr (take 4 bytes) c in
    let w = store_part-IsTimed now addr (take 4 bytes) c v in
    pair_IsTimed first.1 (store_part now (addr + 4) (drop 4 bytes) first.0) (first.0, false)
      (store_part-IsTimed now (addr + 4) (drop 4 bytes) first.0 w) w

store-IsTimed :
    (now addr : ℕ) (bytes : List ℕ) (c : Clint) → IsTimed c → IsTimed (store now addr bytes c).0
unfolding store
store-IsTimed now addr bytes c v =
    pair_IsTimed (ltb 8 (length bytes)) (c, false) _ v
      (pair_IsTimed (ltb addr mtimecmp_base && (length bytes == 8)) (store_both now addr bytes c)
        (store_part now addr bytes c) (store_both-IsTimed now addr bytes c v)
        (store_part-IsTimed now addr bytes c v))

-- What can happen to the device, each at its time.
pub data Event : Type 0 where
  loads : ℕ → ℕ → Event
  stores : ℕ → List ℕ → Event
  increments : ℕ → Event

unfoldable pub step : Clint → ℕ × Event → Clint
step c (now, loads addr len) = (load now addr len c).0
step c (now, stores addr bytes) = (store now addr bytes c).0
step c (now, increments inc) = increment now inc c

unfoldable pub run : Clint → List (ℕ × Event) → Clint
run c [] = c
run c (e ∷ es) = run (step c e) es

step-IsTimed : (c : Clint) (e : ℕ × Event) → IsTimed c → IsTimed (step c e)
unfolding step
step-IsTimed c (now, loads addr len) v = load-IsTimed now addr len c v
step-IsTimed c (now, stores addr bytes) v = store-IsTimed now addr bytes c v
step-IsTimed c (now, increments inc) v = increment-IsTimed now inc c

run_from-IsTimed : (es : List (ℕ × Event)) (c : Clint) → IsTimed c → IsTimed (run c es)
unfolding run
run_from-IsTimed [] c v = v
run_from-IsTimed (e ∷ es) c v = run_from-IsTimed es (step c e) (step-IsTimed c e v)

-- From the constructor on, after any loads, stores and increments at any times, the timer interrupt
-- of every hart is pending exactly if `mtime` has reached its `mtimecmp`, and its `time` register
-- shows `mtime`.
pub run-IsTimed :
    (es : List (ℕ × Event)) (now : ℕ) (harts : List ℕ) (freq_hz : ℕ) (real_time : Bool)
    (mip time : ℕ → ℕ)
    → IsTimed (run (make now harts freq_hz real_time mip time) es)
unfolding make
run-IsTimed es now harts freq_hz real_time mip time =
    run_from-IsTimed es (make now harts freq_hz real_time mip time) (increment-IsTimed now 0 _)
