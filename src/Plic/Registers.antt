-- ===== src/Plic/Registers.antt =====
-- The registers of the PLIC: `priority_read` to `context_write`, and `set_interrupt_level`.
-- Each `bool` that the source returns with a value in `*val` is a pair or an option here.
use nnemu.Base.{
  ℕ, zero, suc, ◌+◌, ◌-◌, ◌*◌, ◌/◌, ◌%◌, ◌^◌, Bool, true, false, not, ◌&&◌, ◌||◌, ltb, leb, ◌==◌,
  truthy, if◌then◌else◌, List, [], ◌∷◌, update, bit_and, bit_or, bit_xor,
}
use nnemu.Base.Bits.{bit_not}
use nnemu.Plic.{Plic, Context, prio_bits, id_mask, context_update, set_context, context_claim}

-- `val & ((1 << PLIC_PRIO_BITS) - 1)`.
abbrev pub prio_field : ℕ → ℕ
prio_field val = bit_and val (2 ^ prio_bits - 1)

unfoldable pub priority_read : Plic → ℕ → ℕ
priority_read p offset =
    let id = offset / 2 ^ 2 in if ltb 0 id && ltb id p.num_ids then p.priority id else 0

unfoldable pub priority_write : Plic → ℕ → ℕ → Plic
priority_write p offset val =
    let id = offset / 2 ^ 2 in
    if ltb 0 id && ltb id p.num_ids
    then record p { priority = update p.priority id (prio_field val) }
    else p

unfoldable pub context_enable_read : Plic → Context → ℕ → ℕ
context_enable_read p c offset =
    let id_word = offset / 2 ^ 2 in if ltb id_word p.num_ids_word then c.enable id_word else 0

-- The source `id` of word `w` becomes pending at a priority, or is taken back.
abbrev pub raise_source : ℕ → ℕ → ℕ → ℕ → Context → Context
raise_source w j id prio c = record c {
  pending = update c.pending w (bit_or (c.pending w) (id_mask j));
  pending_priority = update c.pending_priority id prio;
}

abbrev pub lower_source : ℕ → ℕ → ℕ → Context → Context
lower_source w j id c = record c {
  pending = update c.pending w (bit_and (c.pending w) (bit_not 32 (id_mask j)));
  pending_priority = update c.pending_priority id 0;
  claimed = update c.claimed w (bit_and (c.claimed w) (bit_not 32 (id_mask j)));
}

-- The body of the loop of `context_enable_write`.
unfoldable pub enable_step : Plic → ℕ → ℕ → ℕ → ℕ → Context → Context
enable_step p id_word new_val xor_val i c =
    let id = id_word * 32 + i in
    if not (truthy (bit_and xor_val (id_mask i)))
    then c
    else if truthy (bit_and new_val (id_mask i)) && truthy (bit_and (p.level id_word) (id_mask i))
    then raise_source id_word i id (p.priority id) c
    else if not (truthy (bit_and new_val (id_mask i)))
    then lower_source id_word i id c
    else c

unfoldable pub enable_loop : Plic → ℕ → ℕ → ℕ → ℕ → ℕ → Context → Context
unfolding enable_step
enable_loop p id_word new_val xor_val zero i c = c
enable_loop p id_word new_val xor_val (suc left) i c =
    enable_loop p id_word new_val xor_val left (i + 1) (enable_step p id_word new_val xor_val i c)

-- Source 0 does not exist, so its bit is never enabled.
abbrev pub enable_value : ℕ → ℕ → ℕ
enable_value id_word val = if id_word == 0 then bit_and val (bit_not 32 1) else val

unfoldable pub enable_context : Plic → ℕ → ℕ → Context → Context
unfolding enable_loop
enable_context p id_word val c =
    let old_val = c.enable id_word in
    let new_val = enable_value id_word val in
    enable_loop p id_word new_val (bit_xor old_val new_val) 32 0
      (record c { enable = update c.enable id_word new_val })

unfoldable pub context_enable_write : Plic → ℕ → Context → ℕ → ℕ → Plic
unfolding enable_context
context_enable_write p n c offset val =
    let id_word = offset / 2 ^ 2 in
    if leb p.num_ids_word id_word
    then p
    else let c' = enable_context p id_word val c in context_update (set_context n c' p) c'

abbrev pub context_threshold : ℕ
context_threshold = 0

abbrev pub context_claim_offset : ℕ
context_claim_offset = 4

-- Any other offset reads as 0, the value that `load` starts with.
unfoldable pub context_read : Plic → ℕ → Context → ℕ → Plic × ℕ
context_read p n c offset =
    if offset == context_threshold
    then (p, c.priority_threshold)
    else if offset == context_claim_offset
    then context_claim p n c
    else (p, 0)

unfoldable pub context_write : Plic → ℕ → Context → ℕ → ℕ → Plic × Bool
context_write p n c offset val =
    if offset == context_threshold
    then (let v = prio_field val in
        let c' = record c { priority_threshold = v } in
        if leb v p.max_prio then (context_update (set_context n c' p) c', true) else (p, false))
    else if offset == context_claim_offset
    then (let w = val / 32 in
        let mask = id_mask (val % 32) in
        let c' = record c {
          claimed = update c.claimed w (bit_and (c.claimed w) (bit_not 32 mask));
        } in
        if ltb val p.num_ids && truthy (bit_and (c.enable w) mask)
        then (context_update (set_context n c' p) c', true)
        else (p, true))
    else (p, false)

-- The level of a source, then the first context that enables it.
unfoldable pub set_level : ℕ → Bool → Plic → Plic
set_level id lvl p =
    let w = id / 32 in
    let mask = id_mask (id % 32) in
    record p {
      level =
          update p.level w
            (if lvl then bit_or (p.level w) mask else bit_and (p.level w) (bit_not 32 mask));
    }

abbrev pub level_context : Plic → ℕ → Bool → Context → Context
level_context p id lvl c =
    if lvl
    then raise_source (id / 32) (id % 32) id (p.priority id) c
    else lower_source (id / 32) (id % 32) id c

unfoldable pub notify : ℕ → Bool → ℕ → List Context → Plic → Plic
notify id lvl n [] p = p
notify id lvl n (c ∷ rest) p =
    let c' = level_context p id lvl c in
    if truthy (bit_and (c.enable (id / 32)) (id_mask (id % 32)))
    then context_update (set_context n c' p) c'
    else notify id lvl (n + 1) rest p

unfoldable pub set_interrupt_level : ℕ → Bool → Plic → Plic
unfolding set_level notify
set_interrupt_level id lvl p =
    if leb id 0 || leb p.num_ids id
    then p
    else let q = set_level id lvl p in notify id lvl 0 q.contexts q
