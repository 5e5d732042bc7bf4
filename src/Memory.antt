-- ===== src/Memory.antt =====
-- riscv/devices.cc, `mem_t`: a sparse memory of 4 KiB pages, allocated on first use, and the
-- interface of all devices (riscv/abstract_device.h).
pub mod Pages
pub mod Flat
pub mod Examples
use nnemu.Base.{
  ℕ, zero, suc, ◌+◌, ◌-◌, ◌*◌, ◌/◌, ◌%◌, ◌^◌, min, Bool, true, false, ◌&&◌, ◌||◌, not, ltb, leb,
  ◌==◌, if◌then◌else◌, Option, none, some, List, [], ◌∷◌, ◌++◌, take, drop, length, get_or, update,
}

abbrev pub page_shift : ℕ
page_shift = 12

abbrev pub page_size : ℕ
page_size = 4096

-- A page: its bytes by offset.
abbrev pub Page : Type 0
Page = ℕ → ℕ

pub record Mem : Type 0 where
  pub pages : ℕ → Option Page
  pub sz : ℕ

-- The constructor: `none` is the exception on a bad size.
pub make : ℕ → Option Mem
make size =
    if size == 0 || not (size % page_size == 0)
    then none
    else some (record { pages = λ _. none; sz = size })

-- `contents`: the page of an address, allocated with zeros if it is not there.
pub page_of : Mem → ℕ → Page
page_of m ppn = elim (m.pages ppn) [ none ↦ λ _. 0 | some p ↦ p ]

pub contents : ℕ → Mem → Mem × Page
unfolding page_of
contents addr m =
    let ppn = addr / 2 ^ page_shift in
    let p = page_of m ppn in (record m { pages = update m.pages ppn (some p) }, p)

-- `memcpy` into a page from offset `off`, and out of it.
pub copy_in : ℕ → List ℕ → Page → Page
copy_in off bytes p o =
    if leb off o && ltb o (off + length bytes) then get_or bytes (o - off) 0 else p o

pub copy_out : ℕ → ℕ → Page → List ℕ
copy_out off zero p = []
copy_out off (suc n) p = p off ∷ copy_out (off + 1) n p

-- The bytes that one round moves.
abbrev pub chunk : ℕ → ℕ → ℕ
chunk addr len = min (page_size - addr % page_size) len

-- `memcpy(this->contents(addr), bytes, n)`.
pub store_chunk : ℕ → List ℕ → Mem → Mem
unfolding contents copy_in
store_chunk addr bytes m =
    let (m', p) = contents addr m in
    record m' {
      pages = update m'.pages (addr / 2 ^ page_shift) (some (copy_in (addr % page_size) bytes p));
    }

-- The loop of `load_store`, each way. A round moves at least one byte, so `len` rounds suffice.
pub store_loop : ℕ → ℕ → List ℕ → Mem → Mem
unfolding store_chunk
store_loop zero addr bytes m = m
store_loop (suc fuel) addr [] m = m
store_loop (suc fuel) addr (b ∷ bytes) m =
    let n = chunk addr (length (b ∷ bytes)) in
    store_loop fuel (addr + n) (drop n (b ∷ bytes)) (store_chunk addr (take n (b ∷ bytes)) m)

pub load_loop : ℕ → ℕ → ℕ → Mem → Mem × List ℕ
unfolding contents copy_out
load_loop zero addr len m = (m, [])
load_loop (suc fuel) addr zero m = (m, [])
load_loop (suc fuel) addr (suc len) m =
    let n = chunk addr (suc len) in
    let (m', p) = contents addr m in
    let (m'', rest) = load_loop fuel (addr + n) (suc len - n) m' in
    (m'', copy_out (addr % page_size) n p ++ rest)

-- The range test, with the sum on 64 bits.
abbrev pub refused : ℕ → ℕ → Mem → Bool
refused addr len m = ltb ((addr + len) % 2 ^ 64) addr || ltb m.sz ((addr + len) % 2 ^ 64)

pub store : ℕ → List ℕ → Mem → Mem × Bool
unfolding store_loop
store addr bytes m =
    if refused addr (length bytes) m
    then (m, false)
    else (store_loop (length bytes) addr bytes m, true)

pub load : ℕ → ℕ → Mem → Mem × Option (List ℕ)
unfolding load_loop
load addr len m =
    let (m', bytes) = load_loop len addr len m in
    if refused addr len m then (m, none) else (m', some bytes)
