-- ===== src/Triggers/Match.antt =====
-- riscv/triggers.cc: when a trigger matches. Every detection gives the trigger with its new state, and
-- the match where there is one.
use nnemu.Base.{
  ℕ, zero, suc, ◌+◌, ◌-◌, ◌*◌, ◌/◌, ◌%◌, ◌^◌, Bool, true, false, not, ◌&&◌, ◌||◌, ltb, leb, ◌==◌,
  truthy, if◌then◌else◌, Option, none, some, bit_and, bit_or,
}
use nnemu.Base.Bits.{bit, bit_not}
use nnemu.Arith.{cto}
use nnemu.Encoding.{prv_m, prv_s}
use nnemu.DebugDefines.{
  csr_textra32_mhvalue_length, csr_textra32_svalue_length, csr_textra64_mhvalue_length,
  csr_textra64_svalue_length,
}
use nnemu.Triggers.{
  Icount, Kind, MatchResult, Matching, Mcontrol, MhselectMode, Operation, Proc, TrapCommon, Trigger,
  int_shift, sselect_asid, sselect_scontext, timing_after, timing_before,
}
use nnemu.Triggers.Registers.{legalize_mhselect}

unfoldable pub mode_match : Proc → Trigger → Bool
mode_match p t =
    if p.prv == prv_m
    then t.m
    else if p.prv == prv_s
    then (if p.v then t.vs else t.s)
    else if p.v
    then t.vu
    else t.u

-- `table` of `interpret_mhselect`: the mode of a legal value, and `compare_val`.
unfoldable pub mhselect_mode : ℕ → MhselectMode
mhselect_mode legal =
    if (legal == 1) || ((legal == 4) || (legal == 5))
    then MhselectMode.mcontext
    else if (legal == 2) || (legal == 6)
    then MhselectMode.vmid
    else MhselectMode.ignore

unfoldable pub compare_val : ℕ → ℕ → ℕ
compare_val legal mhvalue =
    if legal == 4 then mhvalue else bit_or (mhvalue * 2 % 2 ^ 32) (legal / 4)

-- The loop over `sbytemask`, from byte `i` on.
unfoldable pub sbyte_loop : Proc → ℕ → ℕ → ℕ → ℕ → ℕ
sbyte_loop p zero i sbytemask mask = mask
sbyte_loop p (suc left) i sbytemask mask =
    sbyte_loop p left (i + 1) sbytemask
      (if bit sbytemask i then bit_and mask (int_shift p 0xff (i * 8)) else mask)

unfoldable pub scontext_mask : Proc → Trigger → ℕ
scontext_mask p t =
    sbyte_loop p 5 0 t.sbytemask
      (2 ^ (if p.xlen == 32 then csr_textra32_svalue_length else csr_textra64_svalue_length) - 1)

unfoldable pub scontext_match : Proc → Trigger → Bool
scontext_match p t =
    let mask = scontext_mask p t in
    let asid = if p.xlen == 32 then p.satp / 2 ^ 22 % 2 ^ 9 else p.satp / 2 ^ 44 % 2 ^ 16 in
    let asid_max = if p.xlen == 32 then 9 else 16 in
    if t.sselect == sselect_scontext
    then bit_and p.scontext mask == bit_and t.svalue mask
    else if t.sselect == sselect_asid
    then asid == t.svalue % 2 ^ asid_max
    else true

unfoldable pub mcontext_match : Proc → Trigger → Bool
mcontext_match p t =
    let legal = legalize_mhselect p.has_h t.mhselect in
    let mask_bits =
      (if p.xlen == 32 then csr_textra32_mhvalue_length else csr_textra64_mhvalue_length) + 1 in
    let vmid = if p.xlen == 32 then p.hgatp / 2 ^ 22 % 2 ^ 7 else p.hgatp / 2 ^ 44 % 2 ^ 14 in
    let vmid_max = if p.xlen == 32 then 7 else 14 in
    elim (mhselect_mode legal) [
      | MhselectMode.ignore ↦ true
      | MhselectMode.mcontext ↦ p.mcontext % 2 ^ mask_bits == compare_val legal t.mhvalue
      | MhselectMode.vmid ↦ vmid == compare_val legal t.mhvalue % 2 ^ vmid_max
    ]

unfoldable pub textra_match : Proc → Trigger → Bool
textra_match p t = scontext_match p t && mcontext_match p t

unfoldable pub common_match : Proc → Trigger → Bool
common_match p t = mode_match p t && textra_match p t

-- `mcontrol_common_t::simple_match`.
unfoldable pub value_match : Proc → Matching → ℕ → ℕ → Bool
value_match p Matching.equal tdata2 value = value == tdata2
value_match p Matching.napot tdata2 value =
    let mask = bit_not 64 ((int_shift p 1 (cto tdata2 + 1) + 2 ^ 64 - 1) % 2 ^ 64) in
    bit_and value mask == bit_and tdata2 mask
value_match p Matching.ge tdata2 value = leb tdata2 value
value_match p Matching.lt tdata2 value = ltb value tdata2
value_match p Matching.mask_low tdata2 value =
    let mask = tdata2 / 2 ^ (p.xlen / 2) in bit_and value mask == bit_and tdata2 mask
value_match p Matching.mask_high tdata2 value =
    let mask = tdata2 / 2 ^ (p.xlen / 2) in
    bit_and (value / 2 ^ (p.xlen / 2)) mask == bit_and tdata2 mask

-- Whether the trigger looks at this operation.
abbrev pub watches : Mcontrol → Operation → Bool
watches k Operation.execute = k.on_execute
watches k Operation.store = k.on_store
watches k Operation.load = k.on_load

-- `detect_memory_access_match` of `mcontrol_common_t`, up to the state: the match.
unfoldable pub mcontrol_match_of :
    Proc → Trigger → Mcontrol → Operation → ℕ → Option ℕ → Option MatchResult
mcontrol_match_of p t k operation address data' =
    let chosen = if k.select then data' else some address in
    elim chosen [
      | none ↦ none
      | some word ↦
          let value = if p.xlen == 32 then word % 2 ^ 32 else word in
          if watches k operation && (common_match p t && value_match p k.matching t.tdata2 value)
          then some (record { timing = k.timing; action = k.action })
          else none
    ]

abbrev pub is_some : {A : Type 0} → Option A → Bool
is_some none = false
is_some (some a) = true

-- The match sets `hit`.
abbrev pub hit_mcontrol : Option MatchResult → Mcontrol → Mcontrol
hit_mcontrol r k = record k { hit = is_some r || k.hit }

unfoldable pub kind_access :
    Proc → Trigger → Operation → ℕ → Option ℕ → Kind → Kind × Option MatchResult
kind_access p t operation address data' (Kind.mcontrol k) =
    let r = mcontrol_match_of p t k operation address data' in (Kind.mcontrol (hit_mcontrol r k), r)
kind_access p t operation address data' (Kind.mcontrol6 k) =
    let r = mcontrol_match_of p t k operation address data' in
    (Kind.mcontrol6 (hit_mcontrol r k), r)
kind_access p t operation address data' k = (k, none)

unfoldable pub trigger_access :
    Proc → Operation → ℕ → Option ℕ → Trigger → Trigger × Option MatchResult
trigger_access p operation address data' t =
    let (kind, r) = kind_access p t operation address data' t.kind in (record t { kind = kind }, r)

-- `icount_t::detect_icount_match`.
unfoldable pub icount_match : Icount → Icount × Option MatchResult
icount_match k =
    let r =
      if k.pending then some (record { timing = timing_before; action = k.action }) else none in
    let pending = if k.pending then false else k.pending in
    (
      record k {
        hit = k.pending || k.hit;
        pending = (k.count == 1) || pending;
        count = k.count - 1;
      },
      r,
    )

unfoldable pub kind_icount : Proc → Trigger → Kind → Kind × Option MatchResult
kind_icount p t (Kind.icount k) =
    let (k', r) = icount_match k in
    if common_match p t then (Kind.icount k', r) else (Kind.icount k, none)
kind_icount p t k = (k, none)

unfoldable pub trigger_icount : Proc → Trigger → Trigger × Option MatchResult
trigger_icount p t = let (kind, r) = kind_icount p t t.kind in (record t { kind = kind }, r)

unfoldable pub stash_read_values : Kind → Kind
stash_read_values (Kind.icount k) =
    Kind.icount (record k { count_read_value = k.count; pending_read_value = k.pending })
stash_read_values k = k

-- `simple_match` of `itrigger_t` and `etrigger_t`.
abbrev pub itrigger_match : ℕ → Bool → Bool → ℕ → Bool
itrigger_match tdata2 nmi interrupt i = interrupt && (((i == 0) && nmi) || bit tdata2 i)

abbrev pub etrigger_match : ℕ → Bool → ℕ → Bool
etrigger_match tdata2 interrupt i = not interrupt && bit tdata2 i

-- `trap_common_t::detect_trap_match`, where `matches` is the virtual `simple_match`.
unfoldable pub trap_match :
    Proc → Trigger → (Bool → ℕ → Bool) → ℕ → TrapCommon → TrapCommon × Option MatchResult
trap_match p t matches cause k =
    let interrupt = truthy (bit_and cause (2 ^ (p.xlen - 1))) in
    let i = bit_and cause (bit_not 64 (2 ^ (p.xlen - 1))) in
    if common_match p t && matches interrupt i
    then (record k { hit = true }, some (record { timing = timing_after; action = k.action }))
    else (k, none)

unfoldable pub kind_trap : Proc → Trigger → ℕ → Kind → Kind × Option MatchResult
kind_trap p t cause (Kind.itrigger k) =
    let (k', r) = trap_match p t (itrigger_match t.tdata2 k.nmi) cause k in (Kind.itrigger k', r)
kind_trap p t cause (Kind.etrigger k) =
    let (k', r) = trap_match p t (etrigger_match t.tdata2) cause k in (Kind.etrigger k', r)
kind_trap p t cause k = (k, none)

unfoldable pub trigger_trap : Proc → ℕ → Trigger → Trigger × Option MatchResult
trigger_trap p cause t = let (kind, r) = kind_trap p t cause t.kind in (record t { kind = kind }, r)
