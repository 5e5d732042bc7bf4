-- ===== src/DebugModule/Busy.antt =====
-- riscv/debug_module.cc: writes of a debugger while an abstract command runs.
use nnemu.Base.{
  Bool, Option, arith, if_both, if_first, if_second, if_split, inl, inr, subst, sym, ◌⊎◌, ◌≤◌, ltb,
  none, not, refl, set, some, suc, true, zero, ℕ, ◌%◌, ◌&&◌, ◌*◌, ◌+◌, ◌==◌, ◌^◌, ◌||◌, ◌≡◌, ◌≢◌,
}
use nnemu.Base.Bits.{bit}
use nnemu.DebugModule.Fields.{
  dm_abstractauto, dm_abstractcs, dm_authdata, dm_command, dm_dmcontrol, dm_dmcs2,
  dm_dmcs2_grouptype, dm_dmcs2_hgwrite, dm_hawindow, dm_hawindowsel, dm_sbaddress0, dm_sbaddress1,
  dm_sbaddress2, dm_sbaddress3, dm_sbcs, dm_sbdata0, dm_sbdata1, dm_sbdata2, dm_sbdata3,
}
use nnemu.DebugModule.{Dm, Loaded, Sim, cmderr_busy, cmderr_none}
use nnemu.DebugModule.Commands.{
  fail, perform_abstract_command, sb_autoincrement, sb_fail, sb_loaded, sb_address, sb_read,
  sb_supported, sb_write,
}
use nnemu.DebugModule.Access.{StoresThrough}
use nnemu.DebugModule.Dmi.{advanced, answered, at_data, at_progbuf, autoexec, note_busy, settled}
use nnemu.DebugModule.Dmi.Write.{
  asks, dmi_write, registered, secret, write_authdata, write_dmcs2, write_hawindow, write_register,
  write_sbaddress0, write_sbcs, write_sbdata0,
}
use nnemu.Base.Bits.{bit}
use nnemu.Decode.{get_field}

-- The command still runs, its program and its data are as they were, and no flag of a hart is set again.
pub record IsKept (d e : Dm) : Type 0 where
  pub still_busy : e.abstractcs.busy ≡ true
  pub same_abstract : e.debug_abstract ≡ d.debug_abstract
  pub same_buffer : e.program_buffer ≡ d.program_buffer
  pub same_data : e.dmdata ≡ d.dmdata
  pub same_flags : e.debug_rom_flags ≡ d.debug_rom_flags

kept :
    {d e : Dm}
    → e.abstractcs.busy ≡ true
    → e.debug_abstract ≡ d.debug_abstract
    → e.program_buffer ≡ d.program_buffer
    → e.dmdata ≡ d.dmdata
    → e.debug_rom_flags ≡ d.debug_rom_flags
    → IsKept d e
kept busy a b c f = record {
  still_busy = busy;
  same_abstract = a;
  same_buffer = b;
  same_data = c;
  same_flags = f;
}

sb_autoincrement-IsKept : {d : Dm} (e : Dm) → IsKept d e → IsKept d (sb_autoincrement e)
unfolding sb_autoincrement
sb_autoincrement-IsKept {d} e h =
    if_both (IsKept d) (not e.sbcs.autoincrement || (e.config.max_sba_data_width == 0)) e _ h
      (kept h.still_busy h.same_abstract h.same_buffer h.same_data h.same_flags)

module _ {S : Type 0} (sim : Sim S) where
  -- A command that is written while one runs is not started.
  perform-IsKept : {d : Dm} (e : Dm) → IsKept d e → IsKept d (perform_abstract_command sim e)
  unfolding perform_abstract_command
  perform-IsKept {d} e h = if_both (IsKept d) (not (e.abstractcs.cmderr == cmderr_none)) e _ h (
      if_first (IsKept d) e.abstractcs.busy (fail cmderr_busy e) _ h.still_busy
        (kept h.still_busy h.same_abstract h.same_buffer h.same_data h.same_flags))

  -- What an access leaves; a trap leaves nothing.
  abbrev KeepsModule : Dm → Option Dm → Type 0
  KeepsModule d none = Unit
  KeepsModule d (some e) = IsKept d e

  abbrev KeepsPair : Dm → Option (Dm × S) → Type 0
  KeepsPair d none = Unit
  KeepsPair d (some r) = IsKept d r.0

  abbrev pub Keeps : Dm → Option (Dm × S × Bool) → Type 0
  Keeps d none = Unit
  Keeps d (some r) = IsKept d r.0

  sb_loaded-KeepsPair :
      {d : Dm} (e : Dm) (s : S) (r : Loaded) → IsKept d e → KeepsPair d (sb_loaded e s r)
  sb_loaded-KeepsPair e s (Loaded.loaded value) h =
      kept h.still_busy h.same_abstract h.same_buffer h.same_data h.same_flags
  sb_loaded-KeepsPair e s Loaded.access_fault h =
      kept h.still_busy h.same_abstract h.same_buffer h.same_data h.same_flags
  sb_loaded-KeepsPair e s Loaded.other_trap h = tt

  sb_read-KeepsPair : {d : Dm} (e : Dm) (s : S) → IsKept d e → KeepsPair d (sb_read sim e s)
  unfolding sb_read
  sb_read-KeepsPair {d} e s h =
      if_both (KeepsPair d) (not (sb_supported e)) (some (sb_fail 3 e, s)) _
        (kept h.still_busy h.same_abstract h.same_buffer h.same_data h.same_flags)
        (sb_loaded-KeepsPair e _ _ h)

  -- A store past the end of the module's addresses leaves the module as it is.
  stored-KeepsPair :
      {d : Dm} (len addr value : ℕ) (e : Dm) (s : S) (o : Option (Dm × S))
      → StoresThrough sim
      → 0x1000 ≤ addr
      → sim.store len addr value e s ≡ o
      → IsKept d e
      → KeepsPair d o
  stored-KeepsPair len addr value e s none through past got h = tt
  stored-KeepsPair {d} len addr value e s (some r) through past got h =
      elim (through len addr value e r.0 s r.1 got) [
        | inl same ↦ subst (IsKept d) (sym same) h
        | inr own ↦ absurd (omega (arith, own.0, past))
      ]

  sb_write-KeepsPair :
      {d : Dm} (e : Dm) (s : S)
      → StoresThrough sim
      → 0x1000 ≤ sb_address e
      → IsKept d e
      → KeepsPair d (sb_write sim e s)
  unfolding sb_write
  sb_write-KeepsPair {d} e s through past h =
      if_both (KeepsPair d) (not (sb_supported e)) (some (sb_fail 3 e, s)) _
        (kept h.still_busy h.same_abstract h.same_buffer h.same_data h.same_flags)
        (stored-KeepsPair _ _ _ e s _ through past refl h)

  advanced-KeepsPair : (d : Dm) (o : Option (Dm × S)) → KeepsPair d o → KeepsPair d (advanced o)
  advanced-KeepsPair d none h = tt
  advanced-KeepsPair d (some r) h = sb_autoincrement-IsKept r.0 h

  settled-KeepsPair : (d : Dm) (o : Option (Dm × S)) → KeepsPair d o → KeepsPair d (settled o)
  settled-KeepsPair d none h = tt
  settled-KeepsPair d (some r) h =
      if_both (IsKept d) (r.0.sbcs.error == 0) (sb_autoincrement r.0) r.0
        (sb_autoincrement-IsKept r.0 h) h

  answered-Keeps : (d : Dm) (o : Option (Dm × S)) → KeepsPair d o → Keeps d (answered true o)
  answered-Keeps d none h = tt
  answered-Keeps d (some r) h = h

  registered-Keeps :
      {d : Dm} (s : S) (o : Option Dm)
      → IsKept d d
      → KeepsModule d o
      → Keeps d (registered sim d s o)
  registered-Keeps s none h g = h
  registered-Keeps s (some e) h g = g

  write_hawindow-IsKept :
      {d : Dm} (value left i : ℕ) (e : Dm)
      → IsKept d e
      → IsKept d (write_hawindow sim value left i e)
  unfolding write_hawindow
  write_hawindow-IsKept value zero i e h = h
  write_hawindow-IsKept {d} value (suc left) i e h = write_hawindow-IsKept value left (i + 1) _ (
      if_both (IsKept d) (ltb (e.hawindowsel * 32 + i) sim.nprocs) _ e
        (kept h.still_busy h.same_abstract h.same_buffer h.same_data h.same_flags) h)

  write_authdata-IsKept :
      {d : Dm} (random value : ℕ) (e : Dm)
      → IsKept d e
      → IsKept d (write_authdata sim random value e)
  unfolding write_authdata
  write_authdata-IsKept {d} random value e h =
      if_both (IsKept d) (not e.config.require_authentication) e _ h (
        if_both (IsKept d) (value == (e.challenge + secret) % 2 ^ 32) _ _
          (kept h.still_busy h.same_abstract h.same_buffer h.same_data h.same_flags)
          (kept h.still_busy h.same_abstract h.same_buffer h.same_data h.same_flags))

  write_dmcs2-IsKept :
      {d : Dm} (value : ℕ) (e : Dm) → IsKept d e → IsKept d (write_dmcs2 sim value e)
  unfolding write_dmcs2
  write_dmcs2-IsKept {d} value e h =
      if_both (IsKept d)
        (e.config.support_haltgroups
          && (asks value dm_dmcs2_hgwrite && (get_field value dm_dmcs2_grouptype == 0)))
        _ e (kept h.still_busy h.same_abstract h.same_buffer h.same_data h.same_flags) h

  write_register-KeepsModule :
      (random address value : ℕ) (d : Dm)
      → IsKept d d
      → KeepsModule d (write_register sim random address value d)
  unfolding write_register write_sbcs
  write_register-KeepsModule random address value d h =
      let P = KeepsModule d in
      if_both P (address == dm_command) _ _
        (perform-IsKept (record d { command = value })
          (kept h.still_busy h.same_abstract h.same_buffer h.same_data h.same_flags))
        (if_both P (address == dm_hawindowsel) _ _
          (kept h.still_busy h.same_abstract h.same_buffer h.same_data h.same_flags)
          (if_both P (address == dm_hawindow) _ _ (write_hawindow-IsKept value 32 0 d h) (
            if_both P (address == dm_abstractcs) _ _
              (kept h.still_busy h.same_abstract h.same_buffer h.same_data h.same_flags)
              (if_both P (address == dm_abstractauto) _ _
                (kept h.still_busy h.same_abstract h.same_buffer h.same_data h.same_flags)
                (if_both P (address == dm_sbcs) _ _
                  (kept h.still_busy h.same_abstract h.same_buffer h.same_data h.same_flags)
                  (if_both P (address == dm_sbaddress1) _ _
                    (kept h.still_busy h.same_abstract h.same_buffer h.same_data h.same_flags)
                    (if_both P (address == dm_sbaddress2) _ _
                      (kept h.still_busy h.same_abstract h.same_buffer h.same_data h.same_flags)
                      (if_both P (address == dm_sbaddress3) _ _
                        (kept h.still_busy h.same_abstract h.same_buffer h.same_data h.same_flags)
                        (if_both P (address == dm_sbdata1) _ _
                          (kept h.still_busy h.same_abstract h.same_buffer h.same_data h.same_flags)
                          (if_both P (address == dm_sbdata2) _ _
                            (kept h.still_busy h.same_abstract h.same_buffer h.same_data
                              h.same_flags)
                            (if_both P (address == dm_sbdata3) _ _
                              (kept h.still_busy h.same_abstract h.same_buffer h.same_data
                                h.same_flags)
                              (if_both P (address == dm_authdata) _ _
                                (write_authdata-IsKept random value d h)
                                (if_both P (address == dm_dmcs2) _ _ (write_dmcs2-IsKept value d h)
                                  tt)))))))))))))

  write_sbaddress0-KeepsPair :
      (value : ℕ) (d : Dm) (s : S) → IsKept d d → KeepsPair d (write_sbaddress0 sim value d s)
  unfolding write_sbaddress0
  write_sbaddress0-KeepsPair value d s h =
      let e = record d { sbaddress = set d.sbaddress 0 value } in
      if_both (KeepsPair d) ((d.sbcs.error == 0) && d.sbcs.readonaddr) _ _
        (advanced-KeepsPair d (sb_read sim e s) (
          sb_read-KeepsPair e s
            (kept h.still_busy h.same_abstract h.same_buffer h.same_data h.same_flags)))
        (kept h.still_busy h.same_abstract h.same_buffer h.same_data h.same_flags)

  write_sbdata0-KeepsPair :
      (value : ℕ) (d : Dm) (s : S)
      → StoresThrough sim
      → 0x1000 ≤ sb_address d
      → IsKept d d
      → KeepsPair d (write_sbdata0 sim value d s)
  unfolding write_sbdata0
  write_sbdata0-KeepsPair value d s through past h =
      let e = record d { sbdata = set d.sbdata 0 value } in
      if_both (KeepsPair d) (d.sbcs.error == 0) _ _
        (settled-KeepsPair d (sb_write sim e s) (
          sb_write-KeepsPair e s through past
            (kept h.still_busy h.same_abstract h.same_buffer h.same_data h.same_flags)))
        (kept h.still_busy h.same_abstract h.same_buffer h.same_data h.same_flags)

  note_busy-IsKept : {d : Dm} (e : Dm) → IsKept d e → IsKept d (note_busy e)
  note_busy-IsKept {d} e h =
      if_both (IsKept d) (e.abstractcs.busy && (e.abstractcs.cmderr == cmderr_none)) _ e
        (kept h.still_busy h.same_abstract h.same_buffer h.same_data h.same_flags) h

  autoexec-IsKept :
      {d : Dm} (busy : Bool) (mask i : ℕ) (e : Dm)
      → busy ≡ true
      → IsKept d e
      → IsKept d (autoexec sim busy mask i e)
  autoexec-IsKept {d} busy mask i e b h =
      if_second (IsKept d) (not busy && bit mask i) _ e (ground (arith, b)) h

  -- While a command runs, no write to any register but dmcontrol, with any value, changes the program
  -- of the command, the program buffer, the data or the flags of the harts, or ends the command; but a
  -- write to sbdata0, which may store to the bus, only if the address of the system bus is past the
  -- module's own, from 0x1000 on, where a store of the bus does not reach the module.
  pub dmi_write-kept :
      (random address value : ℕ) (d : Dm) (s : S)
      → StoresThrough sim
      → d.abstractcs.busy ≡ true
      → address ≢ dm_dmcontrol
      → (address ≢ dm_sbdata0) ⊎ (0x1000 ≤ sb_address d)
      → Keeps d (dmi_write sim random address value d s)
  unfolding dmi_write
  dmi_write-kept random address value d s through busy other past =
      let h : IsKept d d = kept busy refl refl refl refl in
      let P = Keeps d in
      if_both P
        (not d.authenticated && (not (address == dm_authdata) && not (address == dm_dmcontrol))) _ _
        h
        (if_both P (at_data address) _ _
          (autoexec-IsKept d.abstractcs.busy _ _ _ busy
            (note_busy-IsKept _ (if_first (IsKept d) d.abstractcs.busy d _ busy h)))
          (if_both P (at_progbuf d address) _ _
            (autoexec-IsKept d.abstractcs.busy _ _ _ busy
              (if_first (IsKept d) d.abstractcs.busy d _ busy h))
            (if_second P (address == dm_dmcontrol) _ _ (ground (arith, other)) (
              if_both P (address == dm_sbaddress0) _ _
                (answered-Keeps d _ (write_sbaddress0-KeepsPair value d s h))
                (if_split P (address == dm_sbdata0) _ _
                  (λ at.
                    answered-Keeps d _
                      (write_sbdata0-KeepsPair value d s through (ground (arith, at, past)) h))
                  (λ out.
                    registered-Keeps s _ h
                      (write_register-KeepsModule random address value d h)))))))
