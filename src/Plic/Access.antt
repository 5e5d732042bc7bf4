-- ===== src/Plic/Access.antt =====
-- `plic_t::load` and `plic_t::store`: the memory map of the controller.
use nnemu.Base.{
  ℕ, ◌+◌, ◌-◌, ◌*◌, ◌/◌, ◌%◌, ◌^◌, Bool, true, false, ltb, ◌==◌, if◌then◌else◌, Option, none, some,
  List, ◌++◌, length, get_elem?, take, drop,
}
use nnemu.Endian.{read_little_endian_reg, write_little_endian_reg}
use nnemu.Plic.{Plic}
use nnemu.Plic.Registers.{
  priority_read, priority_write, context_enable_read, context_enable_write, context_read,
  context_write,
}

abbrev pub enable_base : ℕ
enable_base = 0x2000

abbrev pub enable_per_hart : ℕ
enable_per_hart = 0x80

abbrev pub context_base : ℕ
context_base = 0x200000

abbrev pub context_per_hart : ℕ
context_per_hart = 0x1000

abbrev pub reg_size : ℕ
reg_size = 0x1000000

-- The context that an address of the second or the third range belongs to, with the offset in it;
-- the handlers below answer false where there is no such context.
abbrev pub enable_context_of : ℕ → ℕ
enable_context_of addr = (addr - enable_base) / enable_per_hart

abbrev pub enable_offset_of : ℕ → ℕ
enable_offset_of addr = addr - (enable_context_of addr * enable_per_hart + enable_base)

abbrev pub context_of : ℕ → ℕ
context_of addr = (addr - context_base) / context_per_hart

abbrev pub context_offset_of : ℕ → ℕ
context_offset_of addr = addr - (context_of addr * context_per_hart + context_base)

unfoldable pub load_enable_word : Plic → ℕ → Option ℕ
load_enable_word p addr = elim (get_elem? p.contexts (enable_context_of addr)) [
  | none ↦ none
  | some c ↦ some (context_enable_read p c (enable_offset_of addr))
]

unfoldable pub load_context_word : Plic → ℕ → Plic × Option ℕ
load_context_word p addr = elim (get_elem? p.contexts (context_of addr)) [
  | none ↦ (p, none)
  | some c ↦
      let (q, val) = context_read p (context_of addr) c (context_offset_of addr) in (q, some val)
]

-- A read of one word; `none` is the result false.
unfoldable pub load_word : Plic → ℕ → Plic × Option ℕ
unfolding load_enable_word load_context_word
load_word p addr =
    if ltb addr enable_base
    then (p, some (priority_read p addr))
    else if ltb addr context_base
    then (p, load_enable_word p addr)
    else if ltb addr reg_size
    then load_context_word p addr
    else (p, none)

unfoldable pub store_enable_word : Plic → ℕ → ℕ → Plic × Bool
store_enable_word p addr val = elim (get_elem? p.contexts (enable_context_of addr)) [
  | none ↦ (p, false)
  | some c ↦ (context_enable_write p (enable_context_of addr) c (enable_offset_of addr) val, true)
]

unfoldable pub store_context_word : Plic → ℕ → ℕ → Plic × Bool
store_context_word p addr val = elim (get_elem? p.contexts (context_of addr)) [
  | none ↦ (p, false)
  | some c ↦ context_write p (context_of addr) c (context_offset_of addr) val
]

unfoldable pub store_word : Plic → ℕ → ℕ → Plic × Bool
unfolding store_enable_word store_context_word
store_word p addr val =
    if ltb addr enable_base
    then (priority_write p addr val, true)
    else if ltb addr context_base
    then store_enable_word p addr val
    else if ltb addr reg_size
    then store_context_word p addr val
    else (p, false)

-- An access of four bytes.
unfoldable pub load_four : Plic → ℕ → Plic × Option (List ℕ)
unfolding load_word
load_four p addr =
    let (q, o) = load_word p addr in
    (q, elim o [ none ↦ none | some val ↦ some (read_little_endian_reg 4 val addr 4) ])

unfoldable pub store_four : Plic → ℕ → List ℕ → Plic × Bool
unfolding store_word
store_four p addr bytes = store_word p addr (write_little_endian_reg 4 0 addr bytes)

-- Double words are pairs of words.
unfoldable pub load_eight : Plic → ℕ → Plic × Option (List ℕ)
unfolding load_four
load_eight p addr =
    let (q, first) = load_four p addr in
    elim first [
      | none ↦ (q, none)
      | some low ↦
          let (r, second) = load_four q ((addr + 4) % 2 ^ 64) in
          (r, elim second [ none ↦ none | some high ↦ some (low ++ high) ])
    ]

unfoldable pub store_eight : Plic → ℕ → List ℕ → Plic × Bool
unfolding store_four
store_eight p addr bytes =
    let (q, ok_first) = store_four p addr (take 4 bytes) in
    if ok_first then store_four q ((addr + 4) % 2 ^ 64) (drop 4 bytes) else (q, false)

-- No other length is supported.
unfoldable pub load : Plic → ℕ → ℕ → Plic × Option (List ℕ)
unfolding load_eight
load p addr len =
    if len == 4 then load_four p addr else if len == 8 then load_eight p addr else (p, none)

unfoldable pub store : Plic → ℕ → List ℕ → Plic × Bool
unfolding store_eight
store p addr bytes =
    if length bytes == 4
    then store_four p addr bytes
    else if length bytes == 8
    then store_eight p addr bytes
    else (p, false)
