-- ===== src/DebugModule/Written.antt =====
-- riscv/debug_module.cc: what a write of the debugger leaves of the arrays.
use nnemu.Base.{
  Bool, List, Option, [], arith, bit_or, false, length, length-set, if_both, if_split,
  if◌then◌else◌, ltb, none, not, refl, set, some, suc, true, zero, ℕ, ◌%◌, ◌&&◌, ◌*◌, ◌+◌, ◌-◌,
  ◌==◌, ◌^◌, ◌||◌, ◌∙◌, ◌∷◌, ◌≡◌,
}
use nnemu.DebugModule.{Dm, Sim, flags_at, hart_at, hart_selected, proc_reset, reset, write32}
use nnemu.DebugModule.Dmi.{at_data, at_progbuf}
use nnemu.DebugModule.Program.{IsSized, perform-IsSized, write32-length}
use nnemu.DebugModule.Fields.{
  debug_rom_flag_resume, dm_abstractauto, dm_abstractcs, dm_authdata, dm_command, dm_data0,
  dm_dmcontrol, dm_dmcontrol_dmactive, dm_dmcontrol_ndmreset, dm_dmcs2, dm_dmcs2_grouptype,
  dm_dmcs2_hgwrite, dm_hawindow, dm_hawindowsel, dm_progbuf0, dm_sbaddress0, dm_sbaddress1,
  dm_sbaddress2, dm_sbaddress3, dm_sbcs, dm_sbdata0, dm_sbdata1, dm_sbdata2, dm_sbdata3,
}
use nnemu.DebugModule.Dmi.Write.{
  activated, asks, control_hart, control_harts, dmi_write, registered, reset_hart, reset_harts,
  secret, set_dmcontrol, write_authdata, write_dmcontrol, write_dmcs2, write_hawindow,
  write_register, write_sbaddress0, write_sbcs, write_sbdata0,
}
use nnemu.Decode.{get_field}
use nnemu.DebugModule.Access.{StoresThrough}
use nnemu.DebugModule.Stored.{Leaves, LeavesModule, LeavesPair, alike}
use nnemu.DebugModule.Sized.{
  advanced-LeavesPair, answered-Leaves, autoexec-IsSized, note_busy-IsSized, sb_read-LeavesPair,
  sb_write-LeavesPair, settled-LeavesPair,
}

pub proc_reset-IsSized : {n : ℕ} (id : ℕ) (d : Dm) → IsSized n d → IsSized n (proc_reset id d)
unfolding proc_reset
proc_reset-IsSized {n} id d v =
    alike v refl refl refl refl
      (length-set d.hart_state id
        (record (hart_at d id) { havereset = true; halted = false; haltgroup = 0 }))
      refl refl

module _ {S : Type 0} (sim : Sim S) where
  control_hart-IsSized :
      {n : ℕ} (value id : ℕ) (ds : Dm × S)
      → IsSized n ds.0
      → IsSized n (control_hart sim value id ds).0
  unfolding control_hart reset_hart
  control_hart-IsSized {n} value id ds v =
      if_both (λ (r : Dm × S). IsSized n r.0) ds.0.dmcontrol.hartreset _ _
        (proc_reset-IsSized id _ (alike v refl refl refl refl (length-set _ _ _) flags refl))
        (alike v refl refl refl refl (length-set _ _ _) flags refl)
    where
      flags :
          let f = ds.0.debug_rom_flags in
          length (
            if ds.0.dmcontrol.resumereq
            then set f id (bit_or (flags_at ds.0 id) (2 ^ debug_rom_flag_resume))
            else f)
          ≡ length f
      flags =
          let f = ds.0.debug_rom_flags in
          if_both (λ (l : List ℕ). length l ≡ length f) ds.0.dmcontrol.resumereq _ f
            (length-set f id (bit_or (flags_at ds.0 id) (2 ^ debug_rom_flag_resume))) refl

  control_harts-IsSized :
      {n : ℕ} (value : ℕ) (ids : List ℕ) (ds : Dm × S)
      → IsSized n ds.0
      → IsSized n (control_harts sim value ids ds).0
  unfolding control_harts
  control_harts-IsSized {n} value [] ds v = v
  control_harts-IsSized {n} value (id ∷ ids) ds v =
      control_harts-IsSized value ids
        (if hart_selected sim ds.0 id then control_hart sim value id ds else ds)
        (if_both (λ (r : Dm × S). IsSized n r.0) (hart_selected sim ds.0 id) _ ds
          (control_hart-IsSized value id ds v) v)

  reset_harts-IsSized :
      {n : ℕ} (ids : List ℕ) (ds : Dm × S) → IsSized n ds.0 → IsSized n (reset_harts sim ids ds).0
  unfolding reset_harts reset_hart
  reset_harts-IsSized {n} [] ds v = v
  reset_harts-IsSized {n} (id ∷ ids) ds v =
      reset_harts-IsSized ids (reset_hart sim id ds) (proc_reset-IsSized id ds.0 v)

  activated-IsSized :
      {n : ℕ} (random value : ℕ) (d : Dm) → IsSized n d → IsSized n (activated sim random value d)
  unfolding activated reset
  activated-IsSized {n} random value d v =
      let r =
        if_both (IsSized n) (not d.dmcontrol.dmactive && asks value dm_dmcontrol_dmactive)
          (reset sim random d) d (alike v refl refl refl refl refl refl refl) v in
      alike r refl refl refl refl refl refl refl

  write_dmcontrol-IsSized :
      {n : ℕ} (random value : ℕ) (d : Dm) (s : S)
      → IsSized n d
      → IsSized n (write_dmcontrol sim random value d s).0
  unfolding write_dmcontrol set_dmcontrol
  write_dmcontrol-IsSized {n} random value d s v =
      let e = activated sim random value d in
      let w = activated-IsSized random value d v in
      let controlled =
        control_harts-IsSized value sim.harts (set_dmcontrol sim value e, s)
          (alike w refl refl refl refl refl refl refl) in
      let P = λ (r : Dm × S). IsSized n r.0 in
      if_both P (not e.authenticated || not e.dmcontrol.dmactive) (e, s) _ w
        (if_both P (asks value dm_dmcontrol_ndmreset) _ _
          (reset_harts-IsSized sim.harts
            (control_harts sim value sim.harts (set_dmcontrol sim value e, s)) controlled)
          controlled)

  write_hawindow-IsSized :
      {n : ℕ} (value left i : ℕ) (d : Dm)
      → IsSized n d
      → IsSized n (write_hawindow sim value left i d)
  unfolding write_hawindow
  write_hawindow-IsSized {n} value zero i d v = v
  write_hawindow-IsSized {n} value (suc left) i d v = write_hawindow-IsSized value left (i + 1) _ (
      if_both (IsSized n) (ltb (d.hawindowsel * 32 + i) sim.nprocs) _ d
        (alike v refl refl refl refl refl refl (length-set _ _ _)) v)

  write_authdata-IsSized :
      {n : ℕ} (random value : ℕ) (d : Dm)
      → IsSized n d
      → IsSized n (write_authdata sim random value d)
  unfolding write_authdata
  write_authdata-IsSized {n} random value d v =
      if_both (IsSized n) (not d.config.require_authentication) d _ v (
        if_both (IsSized n) (value == (d.challenge + secret) % 2 ^ 32) _ _
          (alike v refl refl refl refl refl refl refl) (alike v refl refl refl refl refl refl refl))

  write_dmcs2-IsSized :
      {n : ℕ} (value : ℕ) (d : Dm) → IsSized n d → IsSized n (write_dmcs2 sim value d)
  unfolding write_dmcs2
  write_dmcs2-IsSized {n} value d v =
      if_both (IsSized n)
        (d.config.support_haltgroups
          && (asks value dm_dmcs2_hgwrite && (get_field value dm_dmcs2_grouptype == 0)))
        _ d (alike v refl refl refl refl (length-set _ _ _) refl refl) v

  write_register-LeavesModule :
      {n : ℕ} (random address value : ℕ) (d : Dm)
      → IsSized n d
      → LeavesModule n (write_register sim random address value d)
  unfolding write_register write_sbcs
  write_register-LeavesModule {n} random address value d v =
      let P = LeavesModule n in
      if_both P (address == dm_command) _ _
        (perform-IsSized sim (record d { command = value })
          (alike v refl refl refl refl refl refl refl))
        (if_both P (address == dm_hawindowsel) _ _ (alike v refl refl refl refl refl refl refl) (
          if_both P (address == dm_hawindow) _ _ (write_hawindow-IsSized value 32 0 d v) (
            if_both P (address == dm_abstractcs) _ _ (alike v refl refl refl refl refl refl refl) (
              if_both P (address == dm_abstractauto) _ _
                (alike v refl refl refl refl refl refl refl)
                (if_both P (address == dm_sbcs) _ _ (alike v refl refl refl refl refl refl refl) (
                  if_both P (address == dm_sbaddress1) _ _
                    (alike v refl refl refl refl refl refl refl)
                    (if_both P (address == dm_sbaddress2) _ _
                      (alike v refl refl refl refl refl refl refl)
                      (if_both P (address == dm_sbaddress3) _ _
                        (alike v refl refl refl refl refl refl refl)
                        (if_both P (address == dm_sbdata1) _ _
                          (alike v refl refl refl refl refl refl refl)
                          (if_both P (address == dm_sbdata2) _ _
                            (alike v refl refl refl refl refl refl refl)
                            (if_both P (address == dm_sbdata3) _ _
                              (alike v refl refl refl refl refl refl refl)
                              (if_both P (address == dm_authdata) _ _
                                (write_authdata-IsSized random value d v)
                                (if_both P (address == dm_dmcs2) _ _ (write_dmcs2-IsSized value d v)
                                  tt)))))))))))))

  write_sbaddress0-LeavesPair :
      {n : ℕ} (value : ℕ) (d : Dm) (s : S)
      → IsSized n d
      → LeavesPair n (write_sbaddress0 sim value d s)
  unfolding write_sbaddress0
  write_sbaddress0-LeavesPair {n} value d s v =
      if_both (LeavesPair n) ((d.sbcs.error == 0) && d.sbcs.readonaddr) _ _
        (advanced-LeavesPair _ _ (
          sb_read-LeavesPair sim (record d { sbaddress = set d.sbaddress 0 value }) s
            (alike v refl refl refl refl refl refl refl)))
        (alike v refl refl refl refl refl refl refl)

  write_sbdata0-LeavesPair :
      {n : ℕ} (value : ℕ) (d : Dm) (s : S)
      → StoresThrough sim
      → IsSized n d
      → LeavesPair n (write_sbdata0 sim value d s)
  unfolding write_sbdata0
  write_sbdata0-LeavesPair {n} value d s through v =
      if_both (LeavesPair n) (d.sbcs.error == 0) _ _
        (settled-LeavesPair _ _ (
          sb_write-LeavesPair sim (record d { sbdata = set d.sbdata 0 value }) s through
            (alike v refl refl refl refl refl refl refl)))
        (alike v refl refl refl refl refl refl refl)

  registered-Leaves :
      {n : ℕ} (d : Dm) (s : S) (o : Option Dm)
      → IsSized n d
      → LeavesModule n o
      → Leaves n (registered sim d s o)
  registered-Leaves {n} d s none v w = v
  registered-Leaves {n} d s (some e) v w = w

  data_stored :
      {n : ℕ} (address value : ℕ) (d : Dm)
      → at_data address ≡ true
      → IsSized n d
      → IsSized n (
          if d.abstractcs.busy
          then d
          else record d { dmdata = write32 d.dmdata (address - dm_data0) value })
  data_stored {n} address value d at v = if_both (IsSized n) d.abstractcs.busy d _ v (record {
    abstract_size = v.abstract_size;
    data_size =
        write32-length d.dmdata (address - dm_data0) value (ground (arith, at, v.data_size))
        ∙ v.data_size;
    buffer_size = v.buffer_size;
    states_size = v.states_size;
    flags_size = v.flags_size;
    mask_size = v.mask_size;
  })

  progbuf_stored :
      {n : ℕ} (address value : ℕ) (d : Dm)
      → at_progbuf d address ≡ true
      → IsSized n d
      → IsSized n (
          if d.abstractcs.busy
          then d
          else record d { program_buffer = write32 d.program_buffer (address - dm_progbuf0) value })
  progbuf_stored {n} address value d at v = if_both (IsSized n) d.abstractcs.busy d _ v (record {
    abstract_size = v.abstract_size;
    data_size = v.data_size;
    buffer_size =
        write32-length d.program_buffer (address - dm_progbuf0) value
          (ground (arith, at, v.buffer_size))
        ∙ v.buffer_size;
    states_size = v.states_size;
    flags_size = v.flags_size;
    mask_size = v.mask_size;
  })

  pub dmi_write-Leaves :
      {n : ℕ} (random address value : ℕ) (d : Dm) (s : S)
      → StoresThrough sim
      → IsSized n d
      → Leaves n (dmi_write sim random address value d s)
  unfolding dmi_write
  dmi_write-Leaves {n} random address value d s through v =
      let P = λ (r : Option (Dm × S × Bool)). Leaves n r in
      if_both P
        (not d.authenticated && (not (address == dm_authdata) && not (address == dm_dmcontrol))) _ _
        v
        (if_split P (at_data address) _ _
          (λ at.
            autoexec-IsSized sim d.abstractcs.busy _ _ _
              (note_busy-IsSized sim _ (data_stored address value d at v)))
          (λ below.
            if_split P (at_progbuf d address) _ _
              (λ at.
                autoexec-IsSized sim d.abstractcs.busy _ _ _ (progbuf_stored address value d at v))
              (λ above.
                if_both P (address == dm_dmcontrol) _ _ (write_dmcontrol-IsSized random value d s v)
                  (if_both P (address == dm_sbaddress0) _ _
                    (answered-Leaves sim _ true _ (write_sbaddress0-LeavesPair value d s v))
                    (if_both P (address == dm_sbdata0) _ _
                      (answered-Leaves sim _ true _ (write_sbdata0-LeavesPair value d s through v))
                      (registered-Leaves d s _ v
                        (write_register-LeavesModule random address value d v)))))))
