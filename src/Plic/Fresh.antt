-- ===== src/Plic/Fresh.antt =====
-- riscv/plic.cc: the controller that the constructor makes.
use nnemu.Base.{
  ℕ, zero, suc, ◌*◌, ◌≡◌, ◌≢◌, ◌≤◌, refl, ap, sym, arith, Bool, true, false, not, ◌==◌, ◌∙◌, some,
  List, [], ◌∷◌, get_elem?, inl, inr, Bool-cases, ◌/◌, ◌%◌,
}
use mathlib.Core.Option.{some-injective}
use nnemu.Base.Bits.{bit, bit-zero}
use nnemu.Plic.{Context, Plic, context_best_pending, make, make_contexts, new_context}
use nnemu.Plic.Best.{asks, context_best_pending_lem}
use nnemu.Plic.Sync.{Distinct, IsSynced, mip_bit}

-- The numbers of the harts rise from `k` on, as the keys of a map do.
abbrev pub Rising : ℕ → List (ℕ × Bool) → Type 0
Rising k [] = Unit
Rising k (h ∷ harts) = (k ≤ h.0) × Rising (suc h.0) harts

-- A context of the constructor, of a hart from `k` on.
record IsNew (k : ℕ) (c : Context) : Type 0 where
  from : k ≤ c.hart
  empty : (i : ℕ) → c.pending i ≡ 0

new_context-IsNew :
    (k hart : ℕ) (mmode : Bool) (c : Context) → k ≤ hart → new_context hart mmode ≡ c → IsNew k c
unfolding new_context
new_context-IsNew k hart mmode c low e = record {
  from = omega (arith, low, ap (λ c. c.hart) e);
  empty = λ i. sym (ap (λ c. c.pending i) e);
}

later-IsNew : (k h : ℕ) (c : Context) → k ≤ h → IsNew (suc h) c → IsNew k c
later-IsNew k h c low v = record { from = omega (arith, low, v.from); empty = v.empty }

contexts-IsNew :
    (k : ℕ) (harts : List (ℕ × Bool)) (i : ℕ) (c : Context)
    → Rising k harts
    → get_elem? (make_contexts harts) i ≡ some c
    → IsNew k c
unfolding make_contexts
contexts-IsNew k [] i c rising e = absurd (ground (arith, e))
contexts-IsNew k ((h, s) ∷ harts) zero c rising e =
    new_context-IsNew k h true c rising.0 (some-injective (new_context h true) c e)
contexts-IsNew k ((h, true) ∷ harts) (suc zero) c rising e =
    new_context-IsNew k h false c rising.0 (some-injective (new_context h false) c e)
contexts-IsNew k ((h, true) ∷ harts) (suc (suc i)) c rising e =
    later-IsNew k h c rising.0 (contexts-IsNew (suc h) harts i c rising.1 e)
contexts-IsNew k ((h, false) ∷ harts) (suc i) c rising e =
    later-IsNew k h c rising.0 (contexts-IsNew (suc h) harts i c rising.1 e)

-- The first contexts of a hart and those of the harts after it.
earlier :
    (h : ℕ) (m : Bool) (c d : Context)
    → some (new_context h m) ≡ some c
    → IsNew (suc h) d
    → Distinct c d
unfolding new_context
earlier h m c d e v =
    let same = ap (λ c. c.hart) (some-injective (new_context h m) c e) in
    inl (λ eq. absurd (omega (arith, same, eq, v.from)))

later :
    (h : ℕ) (m : Bool) (c d : Context)
    → some (new_context h m) ≡ some c
    → IsNew (suc h) d
    → Distinct d c
unfolding new_context
later h m c d e v =
    let same = ap (λ c. c.hart) (some-injective (new_context h m) c e) in
    inl (λ eq. absurd (omega (arith, same, eq, v.from)))

modes_differ :
    (h : ℕ) (m : Bool) (c d : Context)
    → some (new_context h m) ≡ some c
    → some (new_context h (not m)) ≡ some d
    → Distinct c d
unfolding new_context
modes_differ h m c d e f =
    let left = ap (λ c. c.mmode) (some-injective (new_context h m) c e) in
    let right = ap (λ c. c.mmode) (some-injective (new_context h (not m)) d f) in
    inr (λ eq. ground (arith, left, right, eq))

contexts-Distinct :
    (k : ℕ) (harts : List (ℕ × Bool)) (i j : ℕ) (c d : Context)
    → Rising k harts
    → get_elem? (make_contexts harts) i ≡ some c
    → get_elem? (make_contexts harts) j ≡ some d
    → i ≢ j
    → Distinct c d
unfolding make_contexts
contexts-Distinct k [] i j c d rising e f ne = absurd (ground (arith, e))
contexts-Distinct k ((h, s) ∷ harts) zero zero c d rising e f ne = absurd (ne refl)
contexts-Distinct k ((h, true) ∷ harts) zero (suc zero) c d rising e f ne =
    modes_differ h true c d e f
contexts-Distinct k ((h, true) ∷ harts) zero (suc (suc j)) c d rising e f ne =
    earlier h true c d e (contexts-IsNew (suc h) harts j d rising.1 f)
contexts-Distinct k ((h, true) ∷ harts) (suc zero) zero c d rising e f ne =
    modes_differ h false c d e f
contexts-Distinct k ((h, true) ∷ harts) (suc zero) (suc zero) c d rising e f ne = absurd (ne refl)
contexts-Distinct k ((h, true) ∷ harts) (suc zero) (suc (suc j)) c d rising e f ne =
    earlier h false c d e (contexts-IsNew (suc h) harts j d rising.1 f)
contexts-Distinct k ((h, true) ∷ harts) (suc (suc i)) zero c d rising e f ne =
    later h true d c f (contexts-IsNew (suc h) harts i c rising.1 e)
contexts-Distinct k ((h, true) ∷ harts) (suc (suc i)) (suc zero) c d rising e f ne =
    later h false d c f (contexts-IsNew (suc h) harts i c rising.1 e)
contexts-Distinct k ((h, true) ∷ harts) (suc (suc i)) (suc (suc j)) c d rising e f ne =
    contexts-Distinct (suc h) harts i j c d rising.1 e f (λ eq. ne (ap (λ n. suc (suc n)) eq))
contexts-Distinct k ((h, false) ∷ harts) zero (suc j) c d rising e f ne =
    earlier h true c d e (contexts-IsNew (suc h) harts j d rising.1 f)
contexts-Distinct k ((h, false) ∷ harts) (suc i) zero c d rising e f ne =
    later h true d c f (contexts-IsNew (suc h) harts i c rising.1 e)
contexts-Distinct k ((h, false) ∷ harts) (suc i) (suc j) c d rising e f ne =
    contexts-Distinct (suc h) harts i j c d rising.1 e f (λ eq. ne (ap suc eq))

-- No source asks where none is pending.
none_best :
    (p : Plic) (c : Context)
    → p.num_ids ≤ p.num_ids_word * 32
    → ((i : ℕ) → c.pending i ≡ 0)
    → context_best_pending p c ≡ 0
unfolding asks
none_best p c fits empty =
    let best = context_best_pending p c in
    let found = (context_best_pending_lem p c fits).0 in
    let off : bit (c.pending (best / 32)) (best % 32) ≡ false =
      ap (λ t. bit t (best % 32)) (empty (best / 32)) ∙ bit-zero (best % 32) in
    elim (Bool-cases (best == 0)) [
      | inl e ↦ ground (arith, e)
      | inr e ↦ absurd (ground (arith, found (ground (arith, e)), off))
    ]

pub make-IsSynced :
    (harts : List (ℕ × Bool)) (ndev : ℕ) (mip : ℕ → ℕ)
    → Rising 0 harts
    → ((hart : ℕ) → mip hart ≡ 0)
    → IsSynced (make harts ndev mip)
unfolding make
make-IsSynced harts ndev mip rising clear = record {
  distinct = λ i j c d e f ne. contexts-Distinct 0 harts i j c d rising e f ne;
  in_sync = λ i c e.
      let new = contexts-IsNew 0 harts i c rising e in
      let none : context_best_pending (make harts ndev mip) c ≡ 0 =
        none_best (make harts ndev mip) c (omega arith) new.empty in
      ap (λ t. bit t (mip_bit c)) (clear c.hart)
      ∙ bit-zero (mip_bit c)
      ∙ sym (ap (λ t. not (t == 0)) none);
}
