-- ===== src/Triggers/Registers.antt =====
-- riscv/triggers.cc: reading and writing the registers tdata1, tdata2 and tdata3 of a trigger.
use nnemu.Base.{ℕ, ◌%◌, ◌^◌, Bool, false, ◌&&◌, ◌||◌, ltb, leb, ◌==◌, truthy, if◌then◌else◌}
use nnemu.Decode.{get_field, set_field}
use nnemu.DebugDefines.{
  csr_etrigger_action, csr_etrigger_dmode, csr_etrigger_hit, csr_etrigger_m, csr_etrigger_s,
  csr_etrigger_type, csr_etrigger_u, csr_etrigger_vs, csr_etrigger_vu, csr_icount_action,
  csr_icount_count, csr_icount_dmode, csr_icount_hit, csr_icount_m, csr_icount_pending,
  csr_icount_s, csr_icount_type, csr_icount_u, csr_icount_vs, csr_icount_vu, csr_itrigger_action,
  csr_itrigger_dmode, csr_itrigger_hit, csr_itrigger_m, csr_itrigger_nmi, csr_itrigger_s,
  csr_itrigger_type, csr_itrigger_u, csr_itrigger_vs, csr_itrigger_vu, csr_mcontrol6_action,
  csr_mcontrol6_chain, csr_mcontrol6_dmode, csr_mcontrol6_execute, csr_mcontrol6_hit,
  csr_mcontrol6_load, csr_mcontrol6_m, csr_mcontrol6_match, csr_mcontrol6_s, csr_mcontrol6_select,
  csr_mcontrol6_store, csr_mcontrol6_timing, csr_mcontrol6_type, csr_mcontrol6_u, csr_mcontrol6_vs,
  csr_mcontrol6_vu, csr_mcontrol_dmode, csr_mcontrol_hit, csr_mcontrol_s, csr_mcontrol_u,
  csr_tdata1_dmode, csr_tdata1_type, csr_tdata1_type_disabled, csr_tdata1_type_etrigger,
  csr_tdata1_type_icount, csr_tdata1_type_itrigger, csr_tdata1_type_mcontrol,
  csr_tdata1_type_mcontrol6, csr_textra32_mhselect, csr_textra32_mhvalue, csr_textra32_sbytemask,
  csr_textra32_sselect, csr_textra32_svalue, csr_textra64_mhselect, csr_textra64_mhvalue,
  csr_textra64_sbytemask, csr_textra64_sselect, csr_textra64_svalue, mcontrol_action,
  mcontrol_chain, mcontrol_execute, mcontrol_load, mcontrol_m, mcontrol_maskmax, mcontrol_match,
  mcontrol_match_equal, mcontrol_match_ge, mcontrol_match_lt, mcontrol_match_mask_high,
  mcontrol_match_mask_low, mcontrol_match_napot, mcontrol_s, mcontrol_select, mcontrol_store,
  mcontrol_timing, mcontrol_type, mcontrol_u,
}
use nnemu.Triggers.{
  Icount, Kind, Matching, Mcontrol, Proc, TrapCommon, Trigger, action_debug_exception,
  action_debug_mode, action_maxval, bool_number, sselect_ignore, sselect_maxval, timing_after,
  timing_before,
}

-- A field that is read as a `bool`.
abbrev pub flag : ℕ → ℕ → Bool
flag val mask = truthy (get_field val mask)

unfoldable pub legalize_action : ℕ → ℕ → ℕ → ℕ
legalize_action val action_mask dmode_mask =
    let act = get_field val action_mask in
    if ltb action_maxval act || ((act == action_debug_mode) && (get_field val dmode_mask == 0))
    then action_debug_exception
    else act

unfoldable pub legalize_match : ℕ → Matching
legalize_match val =
    if val == mcontrol_match_napot
    then Matching.napot
    else if val == mcontrol_match_ge
    then Matching.ge
    else if val == mcontrol_match_lt
    then Matching.lt
    else if val == mcontrol_match_mask_low
    then Matching.mask_low
    else if val == mcontrol_match_mask_high
    then Matching.mask_high
    else Matching.equal

-- The number of a `match_t`.
abbrev pub match_number : Matching → ℕ
match_number Matching.equal = mcontrol_match_equal
match_number Matching.napot = mcontrol_match_napot
match_number Matching.ge = mcontrol_match_ge
match_number Matching.lt = mcontrol_match_lt
match_number Matching.mask_low = mcontrol_match_mask_low
match_number Matching.mask_high = mcontrol_match_mask_high

unfoldable pub legalize_timing : ℕ → ℕ → ℕ → ℕ → ℕ → Bool
legalize_timing val timing_mask select_mask execute_mask load_mask =
    if flag val select_mask && flag val load_mask
    then timing_after
    else if flag val execute_mask
    then timing_before
    else flag val timing_mask

-- What `warlize_if_h` and `warlize_no_h` make of `mhselect`.
unfoldable pub legalize_mhselect : Bool → ℕ → ℕ
legalize_mhselect h_enabled mhselect =
    if h_enabled
    then (if mhselect == 3 then 0 else if mhselect == 7 then 4 else mhselect)
    else if ltb mhselect 4
    then 0
    else 4

-- The masks of tdata3, by the width.
abbrev pub textra : ℕ → ℕ → ℕ → ℕ
textra xlen mask32 mask64 = if xlen == 32 then mask32 else mask64

unfoldable pub tdata3_read : Proc → Trigger → ℕ
tdata3_read p t =
    let v = set_field 0 (textra p.xlen csr_textra32_mhvalue csr_textra64_mhvalue) t.mhvalue in
    let v =
      set_field v (textra p.xlen csr_textra32_mhselect csr_textra64_mhselect)
        (legalize_mhselect p.has_h t.mhselect) in
    let v = set_field v (textra p.xlen csr_textra32_sbytemask csr_textra64_sbytemask) t.sbytemask in
    let v = set_field v (textra p.xlen csr_textra32_svalue csr_textra64_svalue) t.svalue in
    set_field v (textra p.xlen csr_textra32_sselect csr_textra64_sselect) t.sselect

-- The members are 32-bit numbers.
unfoldable pub tdata3_write : Proc → ℕ → Trigger → Trigger
tdata3_write p val t =
    let sselect = get_field val (textra p.xlen csr_textra32_sselect csr_textra64_sselect) in
    record t {
      mhvalue = get_field val (textra p.xlen csr_textra32_mhvalue csr_textra64_mhvalue);
      mhselect = get_field val (textra p.xlen csr_textra32_mhselect csr_textra64_mhselect);
      sbytemask = get_field val (textra p.xlen csr_textra32_sbytemask csr_textra64_sbytemask);
      svalue =
          if p.has_s
          then get_field val (textra p.xlen csr_textra32_svalue csr_textra64_svalue) % 2 ^ 32
          else 0;
      sselect = if p.has_s && leb sselect sselect_maxval then sselect else sselect_ignore;
    }

-- `mcontrol_t`, `mcontrol6_t`.
unfoldable pub mcontrol_read : Proc → Trigger → Mcontrol → ℕ
mcontrol_read p t k =
    let v = set_field 0 (mcontrol_type p.xlen) csr_tdata1_type_mcontrol in
    let v = set_field v (csr_mcontrol_dmode p.xlen) (bool_number k.dmode) in
    let v = set_field v (mcontrol_maskmax p.xlen) 0 in
    let v = set_field v csr_mcontrol_hit (bool_number k.hit) in
    let v = set_field v mcontrol_select (bool_number k.select) in
    let v = set_field v mcontrol_timing (bool_number k.timing) in
    let v = set_field v mcontrol_action k.action in
    let v = set_field v mcontrol_chain (bool_number k.chain) in
    let v = set_field v mcontrol_match (match_number k.matching) in
    let v = set_field v mcontrol_m (bool_number t.m) in
    let v = set_field v mcontrol_s (bool_number t.s) in
    let v = set_field v mcontrol_u (bool_number t.u) in
    let v = set_field v mcontrol_execute (bool_number k.on_execute) in
    let v = set_field v mcontrol_store (bool_number k.on_store) in
    set_field v mcontrol_load (bool_number k.on_load)

unfoldable pub mcontrol_write : Proc → ℕ → Bool → Trigger → Trigger
mcontrol_write p val allow_chain t = record t {
  m = flag val mcontrol_m;
  s = p.has_s && flag val csr_mcontrol_s;
  u = p.has_u && flag val csr_mcontrol_u;
  kind = Kind.mcontrol (record {
    dmode = flag val (csr_mcontrol_dmode p.xlen);
    action = legalize_action val mcontrol_action (csr_mcontrol_dmode p.xlen);
    hit = flag val csr_mcontrol_hit;
    select = flag val mcontrol_select;
    timing = legalize_timing val mcontrol_timing mcontrol_select mcontrol_execute mcontrol_load;
    chain = allow_chain && flag val mcontrol_chain;
    matching = legalize_match (get_field val mcontrol_match);
    on_execute = flag val mcontrol_execute;
    on_store = flag val mcontrol_store;
    on_load = flag val mcontrol_load;
  });
}

unfoldable pub mcontrol6_read : Proc → Trigger → Mcontrol → ℕ
mcontrol6_read p t k =
    let v = set_field 0 (csr_mcontrol6_type p.const_xlen) csr_tdata1_type_mcontrol6 in
    let v = set_field v (csr_mcontrol6_dmode p.const_xlen) (bool_number k.dmode) in
    let v = set_field v csr_mcontrol6_vs (bool_number (p.has_h && t.vs)) in
    let v = set_field v csr_mcontrol6_vu (bool_number (p.has_h && t.vu)) in
    let v = set_field v csr_mcontrol6_hit (bool_number k.hit) in
    let v = set_field v csr_mcontrol6_select (bool_number k.select) in
    let v = set_field v csr_mcontrol6_timing (bool_number k.timing) in
    let v = set_field v csr_mcontrol6_action k.action in
    let v = set_field v csr_mcontrol6_chain (bool_number k.chain) in
    let v = set_field v csr_mcontrol6_match (match_number k.matching) in
    let v = set_field v csr_mcontrol6_m (bool_number t.m) in
    let v = set_field v csr_mcontrol6_s (bool_number t.s) in
    let v = set_field v csr_mcontrol6_u (bool_number t.u) in
    let v = set_field v csr_mcontrol6_execute (bool_number k.on_execute) in
    let v = set_field v csr_mcontrol6_store (bool_number k.on_store) in
    set_field v csr_mcontrol6_load (bool_number k.on_load)

unfoldable pub mcontrol6_write : Proc → ℕ → Bool → Trigger → Trigger
mcontrol6_write p val allow_chain t = record t {
  vs = flag val csr_mcontrol6_vs;
  vu = flag val csr_mcontrol6_vu;
  m = flag val csr_mcontrol6_m;
  s = p.has_s && flag val csr_mcontrol6_s;
  u = p.has_u && flag val csr_mcontrol6_u;
  kind = Kind.mcontrol6 (record {
    dmode = flag val (csr_mcontrol6_dmode p.const_xlen);
    action = legalize_action val csr_mcontrol6_action (csr_mcontrol6_dmode p.const_xlen);
    hit = flag val csr_mcontrol6_hit;
    select = flag val csr_mcontrol6_select;
    timing =
        legalize_timing val csr_mcontrol6_timing csr_mcontrol6_select csr_mcontrol6_execute
          csr_mcontrol6_load;
    chain = allow_chain && flag val csr_mcontrol6_chain;
    matching = legalize_match (get_field val csr_mcontrol6_match);
    on_execute = flag val csr_mcontrol6_execute;
    on_store = flag val csr_mcontrol6_store;
    on_load = flag val csr_mcontrol6_load;
  });
}

unfoldable pub icount_read : Proc → Trigger → Icount → ℕ
icount_read p t k =
    let v = set_field 0 (csr_icount_type p.xlen) csr_tdata1_type_icount in
    let v = set_field v (csr_icount_dmode p.xlen) (bool_number k.dmode) in
    let v = set_field v csr_icount_vs (bool_number (p.has_h && t.vs)) in
    let v = set_field v csr_icount_vu (bool_number (p.has_h && t.vu)) in
    let v = set_field v csr_icount_hit (bool_number k.hit) in
    let v = set_field v csr_icount_count k.count_read_value in
    let v = set_field v csr_icount_m (bool_number t.m) in
    let v = set_field v csr_icount_pending (bool_number k.pending_read_value) in
    let v = set_field v csr_icount_s (bool_number t.s) in
    let v = set_field v csr_icount_u (bool_number t.u) in set_field v csr_icount_action k.action

unfoldable pub icount_write : Proc → ℕ → Trigger → Trigger
icount_write p val t = record t {
  vs = flag val csr_icount_vs;
  vu = flag val csr_icount_vu;
  m = flag val csr_icount_m;
  s = p.has_s && flag val csr_icount_s;
  u = p.has_u && flag val csr_icount_u;
  kind = Kind.icount (record {
    dmode = p.debug_mode && flag val (csr_icount_dmode p.xlen);
    hit = flag val csr_icount_hit;
    count = get_field val csr_icount_count;
    count_read_value = get_field val csr_icount_count;
    pending = flag val csr_icount_pending;
    pending_read_value = flag val csr_icount_pending;
    action = legalize_action val csr_icount_action (csr_icount_dmode p.xlen);
  });
}

unfoldable pub itrigger_read : Proc → Trigger → TrapCommon → ℕ
itrigger_read p t k =
    let v = set_field 0 (csr_itrigger_type p.xlen) csr_tdata1_type_itrigger in
    let v = set_field v (csr_itrigger_dmode p.xlen) (bool_number k.dmode) in
    let v = set_field v (csr_itrigger_hit p.xlen) (bool_number k.hit) in
    let v = set_field v csr_itrigger_vs (bool_number (p.has_h && t.vs)) in
    let v = set_field v csr_itrigger_vu (bool_number (p.has_h && t.vu)) in
    let v = set_field v csr_itrigger_nmi (bool_number k.nmi) in
    let v = set_field v csr_itrigger_m (bool_number t.m) in
    let v = set_field v csr_itrigger_s (bool_number t.s) in
    let v = set_field v csr_itrigger_u (bool_number t.u) in set_field v csr_itrigger_action k.action

unfoldable pub itrigger_write : Proc → ℕ → Trigger → Trigger
itrigger_write p val t = record t {
  vs = flag val csr_itrigger_vs;
  vu = flag val csr_itrigger_vu;
  m = flag val csr_itrigger_m;
  s = p.has_s && flag val csr_itrigger_s;
  u = p.has_u && flag val csr_itrigger_u;
  kind = Kind.itrigger (record {
    dmode = flag val (csr_itrigger_dmode p.xlen);
    hit = flag val (csr_itrigger_hit p.xlen);
    action = legalize_action val csr_itrigger_action (csr_itrigger_dmode p.xlen);
    nmi = flag val csr_itrigger_nmi;
  });
}

unfoldable pub etrigger_read : Proc → Trigger → TrapCommon → ℕ
etrigger_read p t k =
    let v = set_field 0 (csr_etrigger_type p.xlen) csr_tdata1_type_etrigger in
    let v = set_field v (csr_etrigger_dmode p.xlen) (bool_number k.dmode) in
    let v = set_field v (csr_etrigger_hit p.xlen) (bool_number k.hit) in
    let v = set_field v csr_etrigger_vs (bool_number (p.has_h && t.vs)) in
    let v = set_field v csr_etrigger_vu (bool_number (p.has_h && t.vu)) in
    let v = set_field v csr_etrigger_m (bool_number t.m) in
    let v = set_field v csr_etrigger_s (bool_number t.s) in
    let v = set_field v csr_etrigger_u (bool_number t.u) in set_field v csr_etrigger_action k.action

unfoldable pub etrigger_write : Proc → ℕ → Trigger → Trigger
etrigger_write p val t = record t {
  vs = flag val csr_etrigger_vs;
  vu = flag val csr_etrigger_vu;
  m = flag val csr_etrigger_m;
  s = p.has_s && flag val csr_etrigger_s;
  u = p.has_u && flag val csr_etrigger_u;
  kind = Kind.etrigger (record {
    dmode = flag val (csr_etrigger_dmode p.xlen);
    hit = flag val (csr_etrigger_hit p.xlen);
    action = legalize_action val csr_etrigger_action (csr_etrigger_dmode p.xlen);
    nmi = false;
  });
}

unfoldable pub disabled_read : Proc → Bool → ℕ
disabled_read p dmode =
    set_field (set_field 0 (csr_tdata1_type p.xlen) csr_tdata1_type_disabled)
      (csr_tdata1_dmode p.xlen) (bool_number dmode)

unfoldable pub disabled_write : Proc → ℕ → Trigger → Trigger
disabled_write p val t = record t { kind = Kind.disabled (flag val (csr_tdata1_dmode p.xlen)) }

unfoldable pub tdata1_read_kind : Proc → Trigger → Kind → ℕ
tdata1_read_kind p t (Kind.disabled dmode) = disabled_read p dmode
tdata1_read_kind p t (Kind.itrigger k) = itrigger_read p t k
tdata1_read_kind p t (Kind.etrigger k) = etrigger_read p t k
tdata1_read_kind p t (Kind.mcontrol k) = mcontrol_read p t k
tdata1_read_kind p t (Kind.mcontrol6 k) = mcontrol6_read p t k
tdata1_read_kind p t (Kind.icount k) = icount_read p t k

-- The virtual call.
unfoldable pub trigger_tdata1_read : Proc → Trigger → ℕ
trigger_tdata1_read p t = tdata1_read_kind p t t.kind
