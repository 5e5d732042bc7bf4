-- ===== src/Pmp.antt =====
-- riscv/csrs.cc (`pmpaddr_csr_t`, `pmpcfg_csr_t`, `mseccfg_csr_t`) and riscv/mmu.cc (`pmp_ok`,
-- `pmp_homogeneous`): physical memory protection.
-- The entries are functions of the index. Flushing the TLB, which follows a write, is left out: the
-- model has no TLB. `abort` is `none`.
pub mod Locked
pub mod Napot
pub mod Decision
pub mod Examples
use nnemu.Base.{
  ℕ, zero, suc, ◌+◌, ◌-◌, ◌*◌, ◌/◌, ◌%◌, ◌^◌, Bool, true, false, not, ◌&&◌, ◌||◌, ltb, leb, ◌==◌,
  truthy, if◌then◌else◌, Option, none, some, update, bit_and, bit_or, bit_xor,
}
use nnemu.Base.Bits.{bit_not}
use nnemu.Memtracer.{AccessType, is_load, is_store, is_fetch}
use nnemu.Encoding.{
  pmp_r, pmp_w, pmp_x, pmp_a, pmp_l, pmp_shift, pmp_tor, pmp_na4, pmp_napot, mseccfg_mml,
  mseccfg_mmwp, mseccfg_rlb, prv_m,
}

pub record Pmp : Type 0 where
  pub cfg : ℕ → ℕ
  pub addr : ℕ → ℕ
  pub n_pmp : ℕ
  pub lg_pmp_granularity : ℕ
  pub mseccfg : ℕ
  pub xlen : ℕ

abbrev pub max_pmp : ℕ
max_pmp = 64

abbrev pub max_paddr_bits : ℕ
max_paddr_bits = 56

abbrev pub get_mml : Pmp → Bool
get_mml p = truthy (bit_and p.mseccfg mseccfg_mml)

abbrev pub get_mmwp : Pmp → Bool
get_mmwp p = truthy (bit_and p.mseccfg mseccfg_mmwp)

abbrev pub get_rlb : Pmp → Bool
get_rlb p = truthy (bit_and p.mseccfg mseccfg_rlb)

-- `-(reg_t(1) << (lg_pmp_granularity - PMP_SHIFT))`.
abbrev pub pmp_tor_mask : Pmp → ℕ
pmp_tor_mask p = (2 ^ 64 - 2 ^ (p.lg_pmp_granularity - pmp_shift)) % 2 ^ 64

-- The field `A` of an entry, and its lock.
abbrev pub mode_of : Pmp → ℕ → ℕ
mode_of p i = bit_and (p.cfg i) pmp_a

abbrev pub is_locked : Pmp → ℕ → Bool
is_locked p i = truthy (bit_and (p.cfg i) pmp_l)

unfoldable pub read_addr : Pmp → ℕ → ℕ
read_addr p i =
    if leb pmp_napot (mode_of p i)
    then bit_or (p.addr i) (bit_not 64 (pmp_tor_mask p) / 2)
    else bit_and (p.addr i) (pmp_tor_mask p)

unfoldable pub next_locked_and_tor : Pmp → ℕ → Bool
next_locked_and_tor p i =
    if leb max_pmp (i + 1)
    then false
    else (not (get_rlb p) && is_locked p (i + 1)) && (mode_of p (i + 1) == pmp_tor)

unfoldable pub write_addr : ℕ → ℕ → Pmp → Pmp × Bool
write_addr i val p =
    let locked = not (get_rlb p) && is_locked p i in
    if p.n_pmp == 0
    then (p, false)
    else if ltb i p.n_pmp && (not locked && not (next_locked_and_tor p i))
    then (
      record p { addr = update p.addr i (bit_and val (2 ^ (max_paddr_bits - pmp_shift) - 1)) },
      true,
    )
    else (p, false)

unfoldable pub tor_paddr : Pmp → ℕ → ℕ
tor_paddr p i = bit_and (p.addr i) (pmp_tor_mask p) * 2 ^ pmp_shift % 2 ^ 64

unfoldable pub tor_base_paddr : Pmp → ℕ → ℕ
tor_base_paddr p i = if i == 0 then 0 else tor_paddr p (i - 1)

unfoldable pub napot_mask : Pmp → ℕ → ℕ
napot_mask p i =
    let is_na4 = mode_of p i == pmp_na4 in
    let mask =
      bit_or (bit_or (p.addr i * 2 % 2 ^ 64) (if is_na4 then 0 else 1))
        (bit_not 64 (pmp_tor_mask p)) in
    bit_not 64 (bit_and mask (bit_not 64 ((mask + 1) % 2 ^ 64))) * 2 ^ pmp_shift % 2 ^ 64

unfoldable pub match4 : Pmp → ℕ → ℕ → Bool
match4 p i addr =
    if mode_of p i == 0
    then false
    else if mode_of p i == pmp_tor
    then leb (tor_base_paddr p i) addr && ltb addr (tor_paddr p i)
    else bit_and (bit_xor addr (tor_paddr p i)) (napot_mask p i) == 0

-- `-len` on 64 bits.
abbrev pub neg : ℕ → ℕ
neg len = (2 ^ 64 - len) % 2 ^ 64

unfoldable pub subset_match : Pmp → ℕ → ℕ → ℕ → Option Bool
subset_match p i addr len =
    let base = tor_base_paddr p i in
    let tor = tor_paddr p i in
    let begins_after_lower = leb base addr in
    let begins_after_upper = leb tor addr in
    let ends_before_lower = ltb (bit_and addr (neg len)) (bit_and base (neg len)) in
    let ends_before_upper = ltb (bit_and addr (neg len)) (bit_and tor (neg len)) in
    let tor_homogeneous =
      ends_before_lower || (begins_after_upper || (begins_after_lower && ends_before_upper)) in
    let mask_homogeneous = truthy (bit_and (bit_not 64 (napot_mask p i * 2 % 2 ^ 64)) len) in
    let napot_homogeneous = mask_homogeneous || not (bit_xor addr tor / len == 0) in
    if truthy (bit_and (bit_or addr len) ((len + 2 ^ 64 - 1) % 2 ^ 64))
    then none
    else if mode_of p i == 0
    then some false
    else some (not (if mode_of p i == pmp_tor then tor_homogeneous else napot_homogeneous))

-- `==` of two C++ `bool`s.
abbrev pub same_bool : Bool → Bool → Bool
same_bool true b = b
same_bool false b = not b

unfoldable pub access_ok : Pmp → ℕ → AccessType → ℕ → Bool
access_ok p i type mode =
    let cfgx = truthy (bit_and (p.cfg i) pmp_x) in
    let cfgw = truthy (bit_and (p.cfg i) pmp_w) in
    let cfgr = truthy (bit_and (p.cfg i) pmp_r) in
    let cfgl = is_locked p i in
    let prvm = mode == prv_m in
    let typer = is_load type in
    let typew = is_store type in
    let typex = is_fetch type in
    let normal_rwx = (typer && cfgr) || ((typew && cfgw) || (typex && cfgx)) in
    let mml_shared_region = not cfgr && cfgw in
    let mml_chk_normal = same_bool prvm cfgl && normal_rwx in
    let mml_chk_shared =
      (not cfgl && (cfgx && (typer || typew)))
      || ((not cfgl && (not cfgx && (typer || (typew && prvm))))
          || ((cfgl && typex) || (cfgl && (typer && (cfgx && prvm))))) in
    if get_mml p
    then (if cfgx && (cfgw && (cfgr && cfgl))
        then typer
        else if mml_shared_region
        then mml_chk_shared
        else mml_chk_normal)
    else (prvm && not cfgl) || normal_rwx

-- The byte that `unlogged_write` of `pmpcfg_csr_t` would put into entry `i`.
unfoldable pub legal_cfg : Pmp → ℕ → ℕ
legal_cfg p byte =
    let cfg = bit_and byte 0x9f in
    let cfg' =
      if get_mml p
      then cfg
      else bit_and cfg (if truthy (bit_and cfg pmp_r) then 0xff else bit_not 8 pmp_w) in
    if not (p.lg_pmp_granularity == pmp_shift) && (bit_and cfg' pmp_a == pmp_na4)
    then bit_or cfg' pmp_napot
    else cfg'

-- The rule that may not be added while `MML` is set.
unfoldable pub forbidden : Pmp → ℕ → Bool
forbidden p cfg =
    let cfgx = truthy (bit_and cfg pmp_x) in
    let cfgw = truthy (bit_and cfg pmp_w) in
    let cfgr = truthy (bit_and cfg pmp_r) in
    get_mml p
    && (truthy (bit_and cfg pmp_l)
        && (not (cfgx && (cfgw && cfgr)) && (cfgx || (cfgw && not cfgr))))

-- One round of the loop.
unfoldable pub write_cfg_entry : ℕ → ℕ → Pmp → Pmp
write_cfg_entry i byte p =
    let cfg = legal_cfg p byte in
    if ltb i p.n_pmp && ((get_rlb p || not (is_locked p i)) && (get_rlb p || not (forbidden p cfg)))
    then record p { cfg = update p.cfg i cfg }
    else p

unfoldable pub write_cfg_loop : ℕ → ℕ → ℕ → Pmp → Pmp
write_cfg_loop zero i val p = p
write_cfg_loop (suc left) i val p =
    write_cfg_loop left (i + 1) (val / 256) (write_cfg_entry i (val % 256) p)

-- `pmpcfg` number `n`; whether the write succeeded is whether it reached an implemented entry.
unfoldable pub write_cfg : ℕ → ℕ → Pmp → Pmp × Bool
write_cfg n val p =
    if p.n_pmp == 0
    then (p, false)
    else (write_cfg_loop (p.xlen / 8) (n * 4) val p, ltb (n * 4) p.n_pmp)

unfoldable pub read_cfg_loop : Pmp → ℕ → ℕ → ℕ
read_cfg_loop p zero i = 0
read_cfg_loop p (suc left) i =
    bit_or (if ltb i max_pmp then p.cfg i else 0) (256 * read_cfg_loop p left (i + 1))

unfoldable pub read_cfg : Pmp → ℕ → ℕ
read_cfg p n = read_cfg_loop p (p.xlen / 8) (n * 4)

-- `any_of` over the first `n` entries.
unfoldable pub any_locked : Pmp → ℕ → Bool
any_locked p zero = false
any_locked p (suc n) = is_locked p n || any_locked p n

unfoldable pub write_mseccfg : ℕ → Pmp → Pmp × Bool
write_mseccfg val p =
    let old = p.mseccfg in
    let with_rlb =
      if not (any_locked p p.n_pmp && not (get_rlb p))
      then bit_or (bit_and old (bit_not 64 mseccfg_rlb)) (bit_and val mseccfg_rlb)
      else old in
    if p.n_pmp == 0 then (p, false) else (
      record p {
        mseccfg = bit_or (bit_or with_rlb (bit_and val mseccfg_mmwp)) (bit_and val mseccfg_mml);
      },
      true,
    )

-- The loop over the 4-byte sectors of an access: whether some match, and whether all do.
unfoldable pub sectors : Pmp → ℕ → ℕ → ℕ → Bool × Bool
sectors p i addr zero = (false, true)
sectors p i addr (suc left) =
    let (any_match, all_match) = sectors p i (addr + 4) left in
    let hit = match4 p i (addr % 2 ^ 64) in (hit || any_match, hit && all_match)

-- The number of sectors: `offset` steps by 4 below `len`.
abbrev pub count_sectors : ℕ → ℕ
count_sectors len = (len + 3) / 4

unfoldable pub default_ok : Pmp → AccessType → ℕ → Bool
default_ok p type mode =
    (mode == prv_m) && (not (get_mmwp p) && (not (get_mml p) || (is_load type || is_store type)))

-- The loop over the entries; `left` of them remain, from `i` on.
unfoldable pub pmp_scan : Pmp → ℕ → ℕ → AccessType → ℕ → ℕ → ℕ → Bool
pmp_scan p addr len type mode zero i = default_ok p type mode
pmp_scan p addr len type mode (suc left) i =
    let (any_match, all_match) = sectors p i addr (count_sectors len) in
    let rest = pmp_scan p addr len type mode left (i + 1) in
    if any_match then (if all_match then access_ok p i type mode else false) else rest

unfoldable pub pmp_ok : Pmp → ℕ → ℕ → AccessType → ℕ → Bool
pmp_ok p addr len type mode = if p.n_pmp == 0 then true else pmp_scan p addr len type mode p.n_pmp 0

unfoldable pub homogeneous_scan : Pmp → ℕ → ℕ → ℕ → ℕ → Option Bool
homogeneous_scan p addr len zero i = some true
homogeneous_scan p addr len (suc left) i =
    let rest = homogeneous_scan p addr len left (i + 1) in
    elim (subset_match p i addr len) [
      | none ↦ none
      | some found ↦ if found then some false else rest
    ]

unfoldable pub pmp_homogeneous : Pmp → ℕ → ℕ → Option Bool
pmp_homogeneous p addr len =
    if truthy (bit_and (bit_or addr len) ((len + 2 ^ 64 - 1) % 2 ^ 64))
    then none
    else homogeneous_scan p addr len p.n_pmp 0
