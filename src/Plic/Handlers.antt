-- ===== src/Plic/Handlers.antt =====
-- riscv/plic.cc: the handlers of registers and sources, and the lines of the harts.
use nnemu.Base.{
  ℕ, zero, suc, ◌+◌, ◌/◌, ◌%◌, ◌^◌, ◌≡◌, refl, ap, ◌∙◌, sym, arith, inl, inr, Bool, true, false,
  not, ◌&&◌, ◌||◌, ltb, leb, ◌==◌, truthy, if◌then◌else◌, Bool-cases, bit_and, bit_xor, update,
  some, List, [], ◌∷◌, get_elem?,
}
use nnemu.Plic.{Plic, Context, context_claim, context_best_pending, id_mask}
use nnemu.Plic.Registers.{
  priority_write, enable_step, enable_loop, enable_context, context_enable_write, context_read,
  context_write, set_level, notify, set_interrupt_level, enable_value, prio_field, level_context,
}
use nnemu.Base.Bits.{bit}
use nnemu.Plic.Sync.{mip_bit, IsSynced, write_back-IsSynced, best_ext}

pub if_IsSynced : (b : Bool) {p q : Plic} → IsSynced p → IsSynced q → IsSynced (if b then p else q)
if_IsSynced true v w = v
if_IsSynced false v w = w

module _ {B : Type 0} where
  pub pair_IsSynced :
      (b : Bool) (x y : Plic × B) → IsSynced x.0 → IsSynced y.0 → IsSynced (if b then x else y).0
  pair_IsSynced true x y v w = v
  pair_IsSynced false x y v w = w

-- The loop of `context_enable_write` leaves the identity of the context alone.
enable_step-line :
    (p : Plic) (w nv xv i : ℕ) (c : Context)
    → ((enable_step p w nv xv i c).hart ≡ c.hart) × ((enable_step p w nv xv i c).mmode ≡ c.mmode)
unfolding enable_step
enable_step-line p w nv xv i c = ground arith

enable_loop-line :
    (p : Plic) (w nv xv left i : ℕ) (c : Context)
    → ((enable_loop p w nv xv left i c).hart ≡ c.hart)
      × ((enable_loop p w nv xv left i c).mmode ≡ c.mmode)
unfolding enable_loop
enable_loop-line p w nv xv zero i c = (refl, refl)
enable_loop-line p w nv xv (suc left) i c =
    let rest = enable_loop-line p w nv xv left (i + 1) (enable_step p w nv xv i c) in
    let now = enable_step-line p w nv xv i c in (rest.0 ∙ now.0, rest.1 ∙ now.1)

enable_context-line :
    (p : Plic) (w val : ℕ) (c : Context)
    → ((enable_context p w val c).hart ≡ c.hart) × ((enable_context p w val c).mmode ≡ c.mmode)
unfolding enable_context
enable_context-line p w val c =
    enable_loop-line p w (enable_value w val) (bit_xor (c.enable w) (enable_value w val)) 32 0
      (record c { enable = update c.enable w (enable_value w val) })

-- Changes outside the contexts and their lines do not matter.
pub other-IsSynced :
    (p q : Plic)
    → q.contexts ≡ p.contexts
    → q.mip ≡ p.mip
    → p.num_ids ≡ q.num_ids
    → p.num_ids_word ≡ q.num_ids_word
    → IsSynced p
    → IsSynced q
other-IsSynced p q cs m ids words v = record {
  distinct = λ i j c d at_i at_j. v.distinct i j c d (before i at_i) (before j at_j);
  in_sync = λ i c at_i.
      ap (λ t. bit (t c.hart) (mip_bit c)) m
      ∙ v.in_sync i c (before i at_i)
      ∙ ap (λ t. not (t == 0)) (best_ext p q c ids words);
}
  where
    before :
        {c : Context} (i : ℕ) → get_elem? q.contexts i ≡ some c → get_elem? p.contexts i ≡ some c
    before i at_i = ap (λ t. get_elem? t i) (sym cs) ∙ at_i

pub priority_write-IsSynced :
    (p : Plic) (offset val : ℕ) → IsSynced p → IsSynced (priority_write p offset val)
unfolding priority_write
priority_write-IsSynced p offset val v =
    if_IsSynced (ltb 0 (offset / 2 ^ 2) && ltb (offset / 2 ^ 2) p.num_ids)
      (other-IsSynced p _ refl refl refl refl v) v

pub enable_write-IsSynced :
    (p : Plic) (n : ℕ) (c : Context) (offset val : ℕ)
    → get_elem? p.contexts n ≡ some c
    → IsSynced p
    → IsSynced (context_enable_write p n c offset val)
unfolding context_enable_write
enable_write-IsSynced p n c offset val at_n v =
    if_IsSynced (leb p.num_ids_word (offset / 2 ^ 2)) v (
      write_back-IsSynced p n c (enable_context p (offset / 2 ^ 2) val c) at_n
        (enable_context-line p (offset / 2 ^ 2) val c).0
        (enable_context-line p (offset / 2 ^ 2) val c).1 v)

pub claim-IsSynced :
    (p : Plic) (n : ℕ) (c : Context)
    → get_elem? p.contexts n ≡ some c
    → IsSynced p
    → IsSynced (context_claim p n c).0
unfolding context_claim
claim-IsSynced p n c at_n v = elim (Bool-cases (context_best_pending p c == 0)) [
  | inl idle ↦ rw idle (write_back-IsSynced p n c c at_n refl refl v)
  | inr found ↦ rw found (write_back-IsSynced p n c _ at_n refl refl v)
]

pub context_read-IsSynced :
    (p : Plic) (n : ℕ) (c : Context) (offset : ℕ)
    → get_elem? p.contexts n ≡ some c
    → IsSynced p
    → IsSynced (context_read p n c offset).0
unfolding context_read
context_read-IsSynced p n c offset at_n v = elim (Bool-cases (offset == 0)) [
  | inl threshold ↦ rw threshold v
  | inr other ↦ elim (Bool-cases (offset == 4)) [
    | inl claim ↦ rw (other, claim) (claim-IsSynced p n c at_n v)
    | inr none_such ↦ rw (other, none_such) v
  ]
]

pub context_write-IsSynced :
    (p : Plic) (n : ℕ) (c : Context) (offset val : ℕ)
    → get_elem? p.contexts n ≡ some c
    → IsSynced p
    → IsSynced (context_write p n c offset val).0
unfolding context_write
context_write-IsSynced p n c offset val at_n v = elim (Bool-cases (offset == 0)) [
  | inl threshold ↦ rw threshold (
      pair_IsSynced (leb (prio_field val) p.max_prio) _ _
        (write_back-IsSynced p n c _ at_n refl refl v) v)
  | inr other ↦ elim (Bool-cases (offset == 4)) [
    | inl complete ↦
        rw (other, complete)
          (pair_IsSynced
            (ltb val p.num_ids && truthy (bit_and (c.enable (val / 32)) (id_mask (val % 32)))) _ _
            (write_back-IsSynced p n c _ at_n refl refl v) v)
    | inr none_such ↦ rw (other, none_such) v
  ]
]

level_context-line :
    (p : Plic) (id : ℕ) (lvl : Bool) (c : Context)
    → ((level_context p id lvl c).hart ≡ c.hart) × ((level_context p id lvl c).mmode ≡ c.mmode)
level_context-line p id true c = (refl, refl)
level_context-line p id false c = (refl, refl)

pub notify-IsSynced :
    (id : ℕ) (lvl : Bool) (n : ℕ) (cs : List Context) (p : Plic)
    → ((i : ℕ) (c : Context) → get_elem? cs i ≡ some c → get_elem? p.contexts (n + i) ≡ some c)
    → IsSynced p
    → IsSynced (notify id lvl n cs p)
unfolding notify
notify-IsSynced id lvl n [] p suffix v = v
notify-IsSynced id lvl n (c ∷ cs) p suffix v =
    if_IsSynced (truthy (bit_and (c.enable (id / 32)) (id_mask (id % 32))))
      (write_back-IsSynced p n c (level_context p id lvl c)
        (ap (get_elem? p.contexts) (omega arith) ∙ suffix 0 c refl)
        (level_context-line p id lvl c).0 (level_context-line p id lvl c).1 v)
      (notify-IsSynced id lvl (n + 1) cs p
        (λ i d at_i. ap (get_elem? p.contexts) (omega arith) ∙ suffix (suc i) d at_i) v)

pub level-IsSynced :
    (id : ℕ) (lvl : Bool) (p : Plic) → IsSynced p → IsSynced (set_interrupt_level id lvl p)
unfolding set_interrupt_level set_level
level-IsSynced id lvl p v = if_IsSynced (leb id 0 || leb p.num_ids id) v (
    notify-IsSynced id lvl 0 _ _ (λ i c at_i. ap (get_elem? p.contexts) (omega arith) ∙ at_i)
      (other-IsSynced p _ refl refl refl refl v))
