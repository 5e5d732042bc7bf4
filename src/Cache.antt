-- ===== src/Cache.antt =====
-- riscv/cachesim.h and riscv/cachesim.cc, `lfsr_t` and `cache_sim_t`: caches with random replacement.
-- A cache and its miss handlers are a list, the cache itself first. The tag array is a function of
-- the index; a null pointer is `none`, another pointer the index that it points to.
pub mod Replacement
pub mod Hits
pub mod Associative
pub mod Tracers
pub mod Examples
use nnemu.Base.{
  ℕ, zero, suc, ◌+◌, ◌-◌, ◌*◌, ◌/◌, ◌%◌, ◌^◌, Bool, true, false, not, ◌&&◌, ◌||◌, ltb, leb, ◌==◌,
  truthy, if◌then◌else◌, Option, none, some, List, [], ◌∷◌, length, update, bit_and, bit_or,
  bit_xor,
}
use nnemu.Base.Bits.{bit_not}

-- `lfsr_t::next`; the constructor sets the register to 1.
unfoldable pub lfsr_next : ℕ → ℕ
lfsr_next reg = bit_xor (reg / 2) (bit_and ((2 ^ 32 - bit_and reg 1) % 2 ^ 32) 0xd0000001)

pub record Cache : Type 0 where
  pub lfsr : ℕ
  pub sets : ℕ
  pub ways : ℕ
  pub linesz : ℕ
  pub idx_shift : ℕ
  pub tags : ℕ → ℕ
  pub read_accesses : ℕ
  pub read_misses : ℕ
  pub bytes_read : ℕ
  pub write_accesses : ℕ
  pub write_misses : ℕ
  pub bytes_written : ℕ
  pub writebacks : ℕ

abbrev pub tag_valid : ℕ
tag_valid = 2 ^ 63

abbrev pub tag_dirty : ℕ
tag_dirty = 2 ^ 62

-- `for (size_t x = linesz; x > 1; x >>= 1) idx_shift++`; 64 rounds are enough for 64 bits.
unfoldable pub count_shift : ℕ → ℕ → ℕ
count_shift zero x = 0
count_shift (suc fuel) x = let rest = count_shift fuel (x / 2) in if ltb 1 x then suc rest else 0

-- The constructor and `init`: `none` where `help` ends the program.
unfoldable pub make : ℕ → ℕ → ℕ → Option Cache
make sets ways linesz =
    if (sets == 0) || truthy (bit_and sets (sets - 1))
    then none
    else if ltb linesz 8 || truthy (bit_and linesz (linesz - 1))
    then none
    else some (record {
      lfsr = 1;
      sets = sets;
      ways = ways;
      linesz = linesz;
      idx_shift = count_shift 64 linesz;
      tags = λ _. 0;
      read_accesses = 0;
      read_misses = 0;
      bytes_read = 0;
      write_accesses = 0;
      write_misses = 0;
      bytes_written = 0;
      writebacks = 0;
    })

-- The number of the set, and the tag of an address.
abbrev pub set_of : Cache → ℕ → ℕ
set_of c addr = bit_and (addr / 2 ^ c.idx_shift) (c.sets - 1)

abbrev pub tag_of : Cache → ℕ → ℕ
tag_of c addr = bit_or (addr / 2 ^ c.idx_shift) tag_valid

abbrev pub is_tag : Cache → ℕ → ℕ → Bool
is_tag c tag i = tag == bit_and (c.tags i) (bit_not 64 tag_dirty)

-- `for (i = 0; i < ways; i++)` over the ways that are left, from index `i` of the array.
unfoldable pub find_way : Cache → ℕ → ℕ → ℕ → Option ℕ
find_way c tag zero i = none
find_way c tag (suc left) i =
    let rest = find_way c tag left (i + 1) in if is_tag c tag i then some i else rest

unfoldable pub check_tag : Cache → ℕ → Option ℕ
check_tag c addr = find_way c (tag_of c addr) c.ways (set_of c addr * c.ways)

unfoldable pub victimize : ℕ → Cache → Cache × ℕ
victimize addr c =
    let next = lfsr_next c.lfsr in
    let i = set_of c addr * c.ways + next % c.ways in
    (record c { lfsr = next; tags = update c.tags i (tag_of c addr) }, c.tags i)

-- `*hit_way |= DIRTY`.
unfoldable pub mark_dirty : Option ℕ → Cache → Cache
mark_dirty none c = c
mark_dirty (some i) c = record c { tags = update c.tags i (bit_or (c.tags i) tag_dirty) }

unfoldable pub count_access : ℕ → Bool → Cache → Cache
count_access bytes store c =
    if store
    then record c {
      write_accesses = (c.write_accesses + 1) % 2 ^ 64;
      bytes_written = (c.bytes_written + bytes) % 2 ^ 64;
    }
    else record c {
      read_accesses = (c.read_accesses + 1) % 2 ^ 64;
      bytes_read = (c.bytes_read + bytes) % 2 ^ 64;
    }

unfoldable pub count_miss : Bool → Cache → Cache
count_miss store c =
    if store
    then record c { write_misses = (c.write_misses + 1) % 2 ^ 64 }
    else record c { read_misses = (c.read_misses + 1) % 2 ^ 64 }

-- The victim is valid and dirty.
abbrev pub must_write_back : ℕ → Bool
must_write_back victim = bit_and victim (bit_or tag_valid tag_dirty) == bit_or tag_valid tag_dirty

abbrev pub dirty_addr : Cache → ℕ → ℕ
dirty_addr c victim =
    bit_and victim (bit_not 64 (bit_or tag_valid tag_dirty)) * 2 ^ c.idx_shift % 2 ^ 64

abbrev pub line_addr : Cache → ℕ → ℕ
line_addr c addr = bit_and addr (bit_not 64 (c.linesz - 1))

unfoldable pub count_writeback : ℕ → Cache → Cache
count_writeback victim c =
    if must_write_back victim then record c { writebacks = (c.writebacks + 1) % 2 ^ 64 } else c

-- What `access` leaves in the cache itself on a miss.
unfoldable pub refill : ℕ → Bool → Cache → Cache
refill addr store c =
    let c' = count_writeback (victimize addr c).1 (victimize addr c).0 in
    if store then mark_dirty (check_tag c' addr) c' else c'

unfoldable pub access_here : ℕ → ℕ → Bool → Cache → Cache
access_here addr bytes store c =
    let c' = count_access bytes store c in
    elim (check_tag c' addr) [
      | some i ↦ if store then mark_dirty (some i) c' else c'
      | none ↦ refill addr store (count_miss store c')
    ]

-- `access`: on a miss, the handler gets the dirty victim, then the request for the line. `depth` is
-- the number of caches, which bounds the chain of handlers.
unfoldable pub access_at : ℕ → ℕ → ℕ → Bool → List Cache → List Cache
access_at zero addr bytes store caches = caches
access_at (suc depth) addr bytes store [] = []
access_at (suc depth) addr bytes store (c ∷ handlers) =
    let victim = (victimize addr c).1 in
    let written = access_at depth (dirty_addr c victim) c.linesz true handlers in
    let handlers' = if must_write_back victim then written else handlers in
    let requested = access_at depth (line_addr c addr) c.linesz false handlers' in
    access_here addr bytes store c
    ∷ (elim (check_tag c addr) [ some i ↦ handlers | none ↦ requested ])

unfoldable pub access : ℕ → ℕ → Bool → List Cache → List Cache
access addr bytes store caches = access_at (length caches) addr bytes store caches

-- One round of the loop of `clean_invalidate`.
unfoldable pub clean_way : Bool → Bool → ℕ → Cache → Cache
clean_way clean inval i c =
    let c' =
      if clean && truthy (bit_and (c.tags i) tag_dirty)
      then record c {
        writebacks = (c.writebacks + 1) % 2 ^ 64;
        tags = update c.tags i (bit_and (c.tags i) (bit_not 64 tag_dirty));
      }
      else c in
    if inval
    then record c' { tags = update c'.tags i (bit_and (c'.tags i) (bit_not 64 tag_valid)) }
    else c'

-- The loop, from the address of a line; `lines` rounds are left.
unfoldable pub clean_lines : Bool → Bool → ℕ → ℕ → Cache → Cache
clean_lines clean inval zero cur_addr c = c
clean_lines clean inval (suc lines) cur_addr c =
    clean_lines clean inval lines (cur_addr + c.linesz)
      (elim (check_tag c cur_addr) [ none ↦ c | some i ↦ clean_way clean inval i c ])

unfoldable pub clean_invalidate : ℕ → ℕ → Bool → Bool → List Cache → List Cache
clean_invalidate addr bytes clean inval [] = []
clean_invalidate addr bytes clean inval (c ∷ handlers) =
    let start_addr = line_addr c addr in
    let end_addr = line_addr c ((addr + bytes + c.linesz - 1) % 2 ^ 64) in
    let lines = (end_addr - start_addr + c.linesz - 1) / c.linesz in
    clean_lines clean inval lines start_addr c ∷ clean_invalidate addr bytes clean inval handlers
