-- ===== src/Clint.antt =====
-- riscv/clint.cc and `clint_t` of riscv/devices.h: the timer and the software interrupts.
-- The harts are the list of their numbers; `mip` and `time` are the registers of each hart that the
-- device writes. In real time, `now` is what `gettimeofday` says in microseconds since the device was
-- made; it is an argument of the operations.
pub mod Timer
pub mod Examples
use nnemu.Base.{
  ℕ, zero, ◌+◌, ◌-◌, ◌*◌, ◌/◌, ◌%◌, ◌^◌, Bool, true, false, not, ◌&&◌, ◌||◌, ltb, leb, ◌==◌, truthy,
  if◌then◌else◌, Option, none, some, List, [], ◌∷◌, ◌++◌, length, replicate, take, drop, update,
  bit_and,
}
use nnemu.Endian.{read_little_endian_reg, write_little_endian_reg}
use nnemu.Plic.{backdoor_write_with_mask}

pub record Clint : Type 0 where
  pub harts : List ℕ
  pub freq_hz : ℕ
  pub real_time : Bool
  pub mtime : ℕ
  pub mtimecmp : ℕ → ℕ
  pub mip : ℕ → ℕ
  pub time : ℕ → ℕ

abbrev pub mip_msip : ℕ
mip_msip = 2 ^ 3

abbrev pub mip_mtip : ℕ
mip_mtip = 2 ^ 7

abbrev pub mtimecmp_base : ℕ
mtimecmp_base = 0x4000

abbrev pub mtime_base : ℕ
mtime_base = 0xbff8

abbrev pub clint_size : ℕ
clint_size = 0x10000

-- `sim->get_harts().count(hart_id)`.
unfoldable pub has_hart : List ℕ → ℕ → Bool
has_hart [] hart_id = false
has_hart (h ∷ harts) hart_id = (h == hart_id) || has_hart harts hart_id

-- The body of the loop of `increment`; with the extension Sstc, `sync` of the time register writes STIP
-- and VSTIP too, which is left out.
unfoldable pub sync_hart : ℕ → Clint → Clint
sync_hart hart_id c = record c {
  time = update c.time hart_id c.mtime;
  mip = update c.mip hart_id (
      backdoor_write_with_mask (c.mip hart_id) mip_mtip
        (if leb (c.mtimecmp hart_id) c.mtime then mip_mtip else 0));
}

unfoldable pub sync_harts : List ℕ → Clint → Clint
sync_harts [] c = c
sync_harts (h ∷ harts) c = sync_harts harts (sync_hart h c)

unfoldable pub increment : ℕ → ℕ → Clint → Clint
increment now inc c =
    let c' = record c {
      mtime = if c.real_time then now * c.freq_hz % 2 ^ 64 / 1000000 else (c.mtime + inc) % 2 ^ 64;
    } in
    sync_harts c'.harts c'

-- The constructor, over what the registers of the harts hold.
unfoldable pub make : ℕ → List ℕ → ℕ → Bool → (ℕ → ℕ) → (ℕ → ℕ) → Clint
make now harts freq_hz real_time mip time = increment now 0 (record {
  harts = harts;
  freq_hz = freq_hz;
  real_time = real_time;
  mtime = 0;
  mtimecmp = λ _. 0;
  mip = mip;
  time = time;
})

-- The word of `msip` of a hart.
unfoldable pub msip_word : ℕ → Clint → ℕ
msip_word hart_id c =
    if has_hart c.harts hart_id && truthy (bit_and (c.mip hart_id) mip_msip) then 1 else 0

-- One access of at most a word to `msip`, the first part of `load` and of `store`.
unfoldable pub load_msip : ℕ → ℕ → Clint → List ℕ
load_msip addr len c = read_little_endian_reg 4 (msip_word (addr / 4) c) addr len

unfoldable pub store_msip : ℕ → List ℕ → Clint → Clint
store_msip addr bytes c =
    let msip = write_little_endian_reg 4 0 addr bytes in
    let hart_id = addr / 4 in
    if (addr % 4 == 0) && has_hart c.harts hart_id
    then record c {
      mip = update c.mip hart_id (
          backdoor_write_with_mask (c.mip hart_id) mip_msip
            (if truthy (bit_and msip 1) then mip_msip else 0));
    }
    else c

-- The rest of `load` and of `store`, from `MTIMECMP_BASE` on.
unfoldable pub load_timer : ℕ → ℕ → Clint → Option (List ℕ)
load_timer addr len c =
    let hart_id = (addr - mtimecmp_base) / 8 in
    let res = if has_hart c.harts hart_id then c.mtimecmp hart_id else 0 in
    if ltb addr mtime_base
    then some (read_little_endian_reg 8 res addr len)
    else if ltb addr (mtime_base + 8)
    then some (read_little_endian_reg 8 c.mtime addr len)
    else if leb ((addr + len) % 2 ^ 64) clint_size
    then some (replicate len 0)
    else none

unfoldable pub store_timer : ℕ → List ℕ → Clint → Option Clint
store_timer addr bytes c =
    let hart_id = (addr - mtimecmp_base) / 8 in
    if ltb addr mtime_base
    then some (
        if has_hart c.harts hart_id
        then record c {
          mtimecmp =
              update c.mtimecmp hart_id (write_little_endian_reg 8 (c.mtimecmp hart_id) addr bytes);
        }
        else c)
    else if ltb addr (mtime_base + 8)
    then some (record c { mtime = write_little_endian_reg 8 c.mtime addr bytes })
    else if leb ((addr + length bytes) % 2 ^ 64) clint_size
    then some c
    else none

-- An access of at most 7 bytes, which is not split.
unfoldable pub load_part : ℕ → ℕ → ℕ → Clint → Clint × Option (List ℕ)
load_part now addr len c =
    let c' = increment now 0 c in
    if ltb addr mtimecmp_base
    then (c', some (load_msip addr len c'))
    else (c', load_timer addr len c')

unfoldable pub store_part : ℕ → ℕ → List ℕ → Clint → Clint × Bool
store_part now addr bytes c =
    if ltb addr mtimecmp_base
    then (increment now 0 (store_msip addr bytes c), true)
    else elim (store_timer addr bytes c) [
      | none ↦ (c, false)
      | some c' ↦ (increment now 0 c', true)
    ]

-- A doubleword of `msip` is a pair of words; the first always succeeds.
unfoldable pub load_both : ℕ → ℕ → Clint → Clint × Option (List ℕ)
load_both now addr c =
    let (low, got) = load_part now addr 4 (increment now 0 c) in
    let (high, more) = load_part now (addr + 4) 4 low in
    elim got [
      | none ↦ (low, none)
      | some bytes ↦ elim more [ none ↦ (high, none) | some rest ↦ (high, some (bytes ++ rest)) ]
    ]

unfoldable pub load : ℕ → ℕ → ℕ → Clint → Clint × Option (List ℕ)
load now addr len c =
    if ltb 8 len
    then (c, none)
    else if ltb addr mtimecmp_base && (len == 8)
    then load_both now addr c
    else load_part now addr len c

unfoldable pub store_both : ℕ → ℕ → List ℕ → Clint → Clint × Bool
store_both now addr bytes c =
    let (low, ok) = store_part now addr (take 4 bytes) c in
    if ok then store_part now (addr + 4) (drop 4 bytes) low else (low, false)

unfoldable pub store : ℕ → ℕ → List ℕ → Clint → Clint × Bool
store now addr bytes c =
    if ltb 8 (length bytes)
    then (c, false)
    else if ltb addr mtimecmp_base && (length bytes == 8)
    then store_both now addr bytes c
    else store_part now addr bytes c
