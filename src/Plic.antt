-- ===== src/Plic.antt =====
-- riscv/plic.cc and the PLIC of riscv/devices.h: the platform-level interrupt controller.
-- The arrays of words and bytes are functions of the index. `mip` is the interrupt-pending register
-- of each hart, which the controller writes; a context names its hart by number.
pub mod Best
pub mod Examples
pub mod Sync
pub mod Registers
pub mod Access
pub mod Handlers
pub mod Fresh
pub mod Run
use nnemu.Base.{
  ℕ, zero, suc, ◌+◌, ◌-◌, ◌*◌, ◌/◌, ◌%◌, ◌^◌, Bool, true, false, not, ◌&&◌, ◌||◌, ltb, leb, ◌==◌,
  truthy, if◌then◌else◌, Option, none, some, List, [], ◌∷◌, ◌++◌, length, set, update, bit_and,
  bit_or, bit_xor,
}
use nnemu.Base.Bits.{bit_not}
use nnemu.Endian.{read_little_endian_reg, write_little_endian_reg}

pub record Context : Type 0 where
  pub hart : ℕ
  pub mmode : Bool
  pub priority_threshold : ℕ
  pub enable : ℕ → ℕ
  pub pending : ℕ → ℕ
  pub pending_priority : ℕ → ℕ
  pub claimed : ℕ → ℕ

pub record Plic : Type 0 where
  pub contexts : List Context
  pub num_ids : ℕ
  pub num_ids_word : ℕ
  pub max_prio : ℕ
  pub priority : ℕ → ℕ
  pub level : ℕ → ℕ
  pub mip : ℕ → ℕ

abbrev pub prio_bits : ℕ
prio_bits = 4

-- `1 << j` of a 32-bit word.
abbrev pub id_mask : ℕ → ℕ
id_mask j = 2 ^ j

-- The constructor; the harts come in the order of the map, each with its S extension or not.
new_context : ℕ → Bool → Context
new_context hart mmode = record {
  hart = hart;
  mmode = mmode;
  priority_threshold = 0;
  enable = λ _. 0;
  pending = λ _. 0;
  pending_priority = λ _. 0;
  claimed = λ _. 0;
}

make_contexts : List (ℕ × Bool) → List Context
unfolding new_context
make_contexts [] = []
make_contexts ((hart, has_s) ∷ harts) =
    let rest = make_contexts harts in
    new_context hart true ∷ (if has_s then new_context hart false ∷ rest else rest)

pub make : List (ℕ × Bool) → ℕ → (ℕ → ℕ) → Plic
unfolding make_contexts
make harts ndev mip = record {
  contexts = make_contexts harts;
  num_ids = ndev + 1;
  num_ids_word = (ndev + 1 + (32 - 1)) / 32;
  max_prio = 2 ^ prio_bits - 1;
  priority = λ _. 0;
  level = λ _. 0;
  mip = mip;
}

-- The best candidate so far, with its priority.
pub record Candidate : Type 0 where
  pub best_id : ℕ
  pub best_id_prio : ℕ

-- The body of the inner loop of `context_best_pending`.
pub best_step : ℕ → Context → ℕ → ℕ → Candidate → Candidate
best_step num_ids c i j b =
    let id = i * 32 + j in
    if leb num_ids id
      || not (truthy (bit_and (c.pending i) (id_mask j)))
      || truthy (bit_and (c.claimed i) (id_mask j))
    then b
    else if b.best_id == 0 || ltb b.best_id_prio (c.pending_priority id)
    then record { best_id = id; best_id_prio = c.pending_priority id }
    else b

-- `for (j = 32 - left; j < 32; j++)`.
pub best_in_word : ℕ → Context → ℕ → ℕ → ℕ → Candidate → Candidate
unfolding best_step
best_in_word num_ids c i zero j b = b
best_in_word num_ids c i (suc left) j b =
    best_in_word num_ids c i left (j + 1) (best_step num_ids c i j b)

pub best_in_words : ℕ → Context → ℕ → ℕ → Candidate → Candidate
unfolding best_in_word
best_in_words num_ids c zero i b = b
best_in_words num_ids c (suc left) i b =
    best_in_words num_ids c left (i + 1)
      (if c.pending i == 0 then b else best_in_word num_ids c i 32 0 b)

pub context_best_pending : Plic → Context → ℕ
unfolding best_in_words
context_best_pending p c =
    (best_in_words p.num_ids c p.num_ids_word 0 (record { best_id = 0; best_id_prio = 0 })).best_id

abbrev pub mip_meip : ℕ
mip_meip = 2 ^ 11

abbrev pub mip_seip : ℕ
mip_seip = 2 ^ 9

abbrev pub mip_mask : Context → ℕ
mip_mask c = if c.mmode then mip_meip else mip_seip

-- `mip_csr_t::backdoor_write_with_mask` of riscv/csrs.cc.
pub backdoor_write_with_mask : ℕ → ℕ → ℕ → ℕ
backdoor_write_with_mask old mask val = bit_or (bit_and old (bit_not 64 mask)) (bit_and val mask)

pub context_update : Plic → Context → Plic
unfolding backdoor_write_with_mask
context_update p c =
    let best_id = context_best_pending p c in
    let mask = mip_mask c in
    record p {
      mip =
          update p.mip c.hart
            (backdoor_write_with_mask (p.mip c.hart) mask (if best_id == 0 then 0 else mask));
    }

-- A handler works on the context at a position and puts it back.
abbrev pub set_context : ℕ → Context → Plic → Plic
set_context n c p = record p { contexts = set p.contexts n c }

pub context_claim : Plic → ℕ → Context → Plic × ℕ
unfolding context_update
context_claim p n c =
    let best_id = context_best_pending p c in
    let word = best_id / 32 in
    let mask = id_mask (best_id % 32) in
    let c' =
      if best_id == 0
      then c
      else record c { claimed = update c.claimed word (bit_or (c.claimed word) mask) } in
    (context_update (set_context n c' p) c', best_id)
