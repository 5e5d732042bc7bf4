-- ===== src/DebugModule/Dmi/Write.antt =====
-- riscv/debug_module.cc: dmi_write.
use nnemu.Base.{
  Bool, List, Option, [], bit_and, bit_or, false, if◌then◌else◌, ltb, min, none, not, set, some,
  suc, true, truthy, zero, ℕ, ◌%◌, ◌&&◌, ◌*◌, ◌+◌, ◌-◌, ◌==◌, ◌^◌, ◌||◌, ◌∷◌,
}
use nnemu.Base.Bits.{bit, bit_not}
use nnemu.Decode.{get_field}
use nnemu.DebugModule.{
  Dm, HaltRequest, Sim, field_width, flags_at, hart_at, hart_selected, proc_reset, put, reset,
  selected_hart_id, write32,
}
use nnemu.DebugModule.Fields.{
  debug_rom_flag_resume, dm_abstractauto, dm_abstractauto_autoexecdata,
  dm_abstractauto_autoexecprogbuf, dm_abstractcs, dm_abstractcs_cmderr, dm_authdata, dm_command,
  dm_data0, dm_dmcontrol, dm_dmcontrol_ackhavereset, dm_dmcontrol_dmactive, dm_dmcontrol_haltreq,
  dm_dmcontrol_hartreset, dm_dmcontrol_hartselhi, dm_dmcontrol_hartsello,
  dm_dmcontrol_hartsello_length, dm_dmcontrol_hasel, dm_dmcontrol_ndmreset, dm_dmcontrol_resumereq,
  dm_dmcs2, dm_dmcs2_group, dm_dmcs2_grouptype, dm_dmcs2_hgwrite, dm_hawindow, dm_hawindowsel,
  dm_progbuf0, dm_sbaddress0, dm_sbaddress1, dm_sbaddress2, dm_sbaddress3, dm_sbcs,
  dm_sbcs_sbaccess, dm_sbcs_sbautoincrement, dm_sbcs_sberror, dm_sbcs_sbreadonaddr,
  dm_sbcs_sbreadondata, dm_sbdata0, dm_sbdata1, dm_sbdata2, dm_sbdata3,
}
use nnemu.DebugModule.Commands.{fail, perform_abstract_command, sb_read, sb_write}
use nnemu.DebugModule.Dmi.{advanced, answered, at_data, at_progbuf, autoexec, note_busy, settled}

abbrev pub asks : ℕ → ℕ → Bool
asks value mask = truthy (get_field value mask)

abbrev pub secret : ℕ
secret = 1

module _ {S : Type 0} (sim : Sim S) where
  -- `reset` of a processor tells the module.
  unfoldable pub reset_hart : ℕ → Dm × S → Dm × S
  unfolding proc_reset
  reset_hart id ds = (proc_reset id ds.0, sim.reset_hart id ds.1)

  -- What a write to dmcontrol does to one selected hart.
  unfoldable pub control_hart : ℕ → ℕ → Dm × S → Dm × S
  unfolding reset_hart
  control_hart value id ds =
      let d = ds.0 in
      let h = hart_at d id in
      let h = if asks value dm_dmcontrol_ackhavereset then record h { havereset = false } else h in
      let resume = d.dmcontrol.resumereq in
      let request = if d.dmcontrol.haltreq then HaltRequest.hr_regular else HaltRequest.hr_none in
      let flags = bit_or (flags_at d id) (2 ^ debug_rom_flag_resume) in
      let d = record d {
        hart_state = set d.hart_state id (if resume then record h { resumeack = false } else h);
        halt_request = put d.halt_request id request;
        debug_rom_flags = if resume then set d.debug_rom_flags id flags else d.debug_rom_flags;
      } in
      if d.dmcontrol.hartreset then reset_hart id (d, ds.1) else (d, ds.1)

  unfoldable pub control_harts : ℕ → List ℕ → Dm × S → Dm × S
  unfolding control_hart
  control_harts value [] ds = ds
  control_harts value (id ∷ ids) ds =
      control_harts value ids (if hart_selected sim ds.0 id then control_hart value id ds else ds)

  unfoldable pub reset_harts : List ℕ → Dm × S → Dm × S
  reset_harts [] ds = ds
  reset_harts (id ∷ ids) ds = reset_harts ids (reset_hart id ds)

  -- The fields of dmcontrol; a hart that does not exist cannot be selected.
  unfoldable pub set_dmcontrol : ℕ → Dm → Dm
  set_dmcontrol value d = record d {
    dmcontrol = record {
      haltreq = asks value dm_dmcontrol_haltreq;
      resumereq = asks value dm_dmcontrol_resumereq;
      hasel = d.config.support_hasel && asks value dm_dmcontrol_hasel;
      hartsel =
          min
            (bit_or (get_field value dm_dmcontrol_hartselhi * 2 ^ dm_dmcontrol_hartsello_length)
              (get_field value dm_dmcontrol_hartsello))
            (sim.nprocs - 1);
      hartreset = asks value dm_dmcontrol_hartreset;
      dmactive = d.dmcontrol.dmactive;
      ndmreset = asks value dm_dmcontrol_ndmreset;
    };
  }

  -- The module is switched on or off by a write to dmcontrol; switching it on resets it.
  unfoldable pub activated : ℕ → ℕ → Dm → Dm
  unfolding reset
  activated random value d =
      let active = asks value dm_dmcontrol_dmactive in
      let d = if not d.dmcontrol.dmactive && active then reset sim random d else d in
      record d { dmcontrol = record (d.dmcontrol) { dmactive = active } }

  unfoldable pub write_dmcontrol : ℕ → ℕ → Dm → S → Dm × S
  unfolding activated set_dmcontrol control_harts reset_harts
  write_dmcontrol random value d s =
      let d = activated random value d in
      let ds = control_harts value sim.harts (set_dmcontrol value d, s) in
      if not d.authenticated || not d.dmcontrol.dmactive
      then (d, s)
      else if asks value dm_dmcontrol_ndmreset
      then reset_harts sim.harts ds
      else ds

  -- The loop over the window, from bit `i` on.
  unfoldable pub write_hawindow : ℕ → ℕ → ℕ → Dm → Dm
  write_hawindow value zero i d = d
  write_hawindow value (suc left) i d =
      let n = d.hawindowsel * 32 + i in
      write_hawindow value left (i + 1) (
        if ltb n sim.nprocs
        then record d { hart_array_mask = set d.hart_array_mask (sim.hartids n) (bit value i) }
        else d)

  unfoldable pub write_sbcs : ℕ → Dm → Dm
  write_sbcs value d = record d {
    sbcs = record {
      readonaddr = asks value dm_sbcs_sbreadonaddr;
      sbaccess = get_field value dm_sbcs_sbaccess;
      autoincrement = asks value dm_sbcs_sbautoincrement;
      readondata = asks value dm_sbcs_sbreadondata;
      error = bit_and d.sbcs.error (bit_not 32 (get_field value dm_sbcs_sberror));
    };
  }

  -- The address is advanced after a failed read too.
  unfoldable pub write_sbaddress0 : ℕ → Dm → S → Option (Dm × S)
  write_sbaddress0 value d s =
      let d = record d { sbaddress = set d.sbaddress 0 value } in
      if (d.sbcs.error == 0) && d.sbcs.readonaddr then advanced (sb_read sim d s) else some (d, s)

  unfoldable pub write_sbdata0 : ℕ → Dm → S → Option (Dm × S)
  write_sbdata0 value d s =
      let d = record d { sbdata = set d.sbdata 0 value } in
      if d.sbcs.error == 0 then settled (sb_write sim d s) else some (d, s)

  unfoldable pub write_authdata : ℕ → ℕ → Dm → Dm
  write_authdata random value d =
      if not d.config.require_authentication
      then d
      else if value == (d.challenge + secret) % 2 ^ 32
      then record d { authenticated = true }
      else record d { authenticated = false; challenge = random }

  unfoldable pub write_dmcs2 : ℕ → Dm → Dm
  write_dmcs2 value d =
      let id = selected_hart_id sim d in
      let h = record (hart_at d id) { haltgroup = get_field value dm_dmcs2_group } in
      if d.config.support_haltgroups
        && (asks value dm_dmcs2_hgwrite && (get_field value dm_dmcs2_grouptype == 0))
      then record d { hart_state = set d.hart_state id h }
      else d

  -- The registers whose writing changes the module only.
  unfoldable pub write_register : ℕ → ℕ → ℕ → Dm → Option Dm
  unfolding write_hawindow write_sbcs write_authdata write_dmcs2
  write_register random address value d =
      if address == dm_command
      then some (perform_abstract_command sim (record d { command = value }))
      else if address == dm_hawindowsel
      then some (record d { hawindowsel = value % 2 ^ field_width (sim.max_hartid + 1) })
      else if address == dm_hawindow
      then some (write_hawindow value 32 0 d)
      else if address == dm_abstractcs
      then some
          (fail (bit_and d.abstractcs.cmderr (bit_not 32 (get_field value dm_abstractcs_cmderr))) d)
      else if address == dm_abstractauto
      then some (record d {
        abstractauto = record {
          autoexecprogbuf = get_field value dm_abstractauto_autoexecprogbuf;
          autoexecdata = get_field value dm_abstractauto_autoexecdata;
        };
      })
      else if address == dm_sbcs
      then some (write_sbcs value d)
      else if address == dm_sbaddress1
      then some (record d { sbaddress = set d.sbaddress 1 value })
      else if address == dm_sbaddress2
      then some (record d { sbaddress = set d.sbaddress 2 value })
      else if address == dm_sbaddress3
      then some (record d { sbaddress = set d.sbaddress 3 value })
      else if address == dm_sbdata1
      then some (record d { sbdata = set d.sbdata 1 value })
      else if address == dm_sbdata2
      then some (record d { sbdata = set d.sbdata 2 value })
      else if address == dm_sbdata3
      then some (record d { sbdata = set d.sbdata 3 value })
      else if address == dm_authdata
      then some (write_authdata random value d)
      else if address == dm_dmcs2
      then some (write_dmcs2 value d)
      else none

  -- The answer of a write that changes the module only.
  abbrev pub registered : Dm → S → Option Dm → Option (Dm × S × Bool)
  registered d s none = some (d, s, false)
  registered d s (some d') = some (d', s, true)

  unfoldable pub dmi_write : ℕ → ℕ → ℕ → Dm → S → Option (Dm × S × Bool)
  unfolding write_register write_dmcontrol write_sbaddress0 write_sbdata0 write32
  dmi_write random address value d s =
      let busy = d.abstractcs.busy in
      let i = address - dm_data0 in
      let j = address - dm_progbuf0 in
      let stored = if busy then d else record d { dmdata = write32 d.dmdata i value } in
      let kept =
        if busy then d else record d { program_buffer = write32 d.program_buffer j value } in
      if not d.authenticated && (not (address == dm_authdata) && not (address == dm_dmcontrol))
      then some (d, s, false)
      else if at_data address
      then some (autoexec sim busy d.abstractauto.autoexecdata i (note_busy stored), s, true)
      else if at_progbuf d address
      then some (autoexec sim busy d.abstractauto.autoexecprogbuf j kept, s, true)
      else if address == dm_dmcontrol
      then answered true (some (write_dmcontrol random value d s))
      else if address == dm_sbaddress0
      then answered true (write_sbaddress0 value d s)
      else if address == dm_sbdata0
      then answered true (write_sbdata0 value d s)
      else registered d s (write_register random address value d)
