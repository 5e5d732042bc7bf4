-- ===== src/DebugModule/Dmi/Read.antt =====
-- riscv/debug_module.cc: dmi_read.
use nnemu.Base.{
  Bool, List, Option, [], bit_or, false, get_or, if◌then◌else◌, leb, ltb, none, not, some, suc,
  true, zero, ℕ, ◌&&◌, ◌*◌, ◌+◌, ◌-◌, ◌/◌, ◌==◌, ◌^◌, ◌||◌, ◌∷◌,
}
use nnemu.Decode.{set_field}
use nnemu.DebugModule.{
  Dm, HartState, Sim, datasize, debug_data_start, hart_at, hart_selected, read32,
  selected_hart_state,
}
use nnemu.DebugModule.Fields.{
  dm_abstractauto, dm_abstractauto_autoexecdata, dm_abstractauto_autoexecprogbuf, dm_abstractcs,
  dm_abstractcs_busy, dm_abstractcs_cmderr, dm_abstractcs_datacount, dm_abstractcs_progbufsize,
  dm_authdata, dm_command, dm_data0, dm_dmcontrol, dm_dmcontrol_dmactive, dm_dmcontrol_haltreq,
  dm_dmcontrol_hartreset, dm_dmcontrol_hartselhi, dm_dmcontrol_hartsello,
  dm_dmcontrol_hartsello_length, dm_dmcontrol_hasel, dm_dmcontrol_ndmreset, dm_dmcontrol_resumereq,
  dm_dmcs2, dm_dmcs2_group, dm_dmstatus, dm_dmstatus_allhalted, dm_dmstatus_allhavereset,
  dm_dmstatus_allnonexistent, dm_dmstatus_allresumeack, dm_dmstatus_allrunning,
  dm_dmstatus_allunavail, dm_dmstatus_anyhalted, dm_dmstatus_anyhavereset,
  dm_dmstatus_anynonexistent, dm_dmstatus_anyresumeack, dm_dmstatus_anyrunning,
  dm_dmstatus_anyunavail, dm_dmstatus_authbusy, dm_dmstatus_authenticated, dm_dmstatus_impebreak,
  dm_dmstatus_version, dm_hartinfo, dm_hartinfo_dataaccess, dm_hartinfo_dataaddr,
  dm_hartinfo_datasize, dm_hartinfo_nscratch, dm_hawindow, dm_hawindowsel, dm_progbuf0,
  dm_sbaddress0, dm_sbaddress1, dm_sbaddress2, dm_sbaddress3, dm_sbcs, dm_sbcs_sbaccess,
  dm_sbcs_sbaccess128, dm_sbcs_sbaccess16, dm_sbcs_sbaccess32, dm_sbcs_sbaccess64,
  dm_sbcs_sbaccess8, dm_sbcs_sbasize, dm_sbcs_sbautoincrement, dm_sbcs_sberror,
  dm_sbcs_sbreadonaddr, dm_sbcs_sbreadondata, dm_sbcs_sbversion, dm_sbdata0, dm_sbdata1, dm_sbdata2,
  dm_sbdata3,
}
use nnemu.DebugModule.Commands.{sb_read}
use nnemu.DebugModule.Dmi.{answered, at_data, at_progbuf, autoexec, incremented, note_busy, settled}

-- What dmstatus says of the selected harts.
pub record Summary : Type 0 where
  pub allhalted : Bool
  pub anyhalted : Bool
  pub allrunning : Bool
  pub anyrunning : Bool
  pub allnonexistant : Bool
  pub allresumeack : Bool
  pub anyresumeack : Bool

abbrev pub no_summary : Summary
no_summary = record {
  allhalted = true;
  anyhalted = false;
  allrunning = true;
  anyrunning = false;
  allnonexistant = true;
  allresumeack = true;
  anyresumeack = false;
}

abbrev pub add_hart : HartState → Summary → Summary
add_hart h r = record {
  allhalted = h.halted && r.allhalted;
  anyhalted = h.halted || r.anyhalted;
  allrunning = not h.halted && r.allrunning;
  anyrunning = not h.halted || r.anyrunning;
  allnonexistant = false;
  allresumeack = h.resumeack && r.allresumeack;
  anyresumeack = h.resumeack || r.anyresumeack;
}

abbrev pub flag_of : Bool → ℕ
flag_of b = if b then 1 else 0

module _ {S : Type 0} (sim : Sim S) where
  -- The loop over the harts.
  unfoldable pub summarise : Dm → List ℕ → Summary → Summary
  summarise d [] r = r
  summarise d (id ∷ ids) r =
      let added = summarise d ids (add_hart (hart_at d id) r) in
      let passed = summarise d ids r in if hart_selected sim d id then added else passed

  unfoldable pub anynonexistant : Dm → Bool
  anynonexistant d = leb sim.nprocs d.dmcontrol.hartsel

  unfoldable pub read_dmstatus : Dm → ℕ
  unfolding summarise anynonexistant
  read_dmstatus d =
      let r = summarise d sim.harts no_summary in
      let havereset = flag_of (selected_hart_state sim d).havereset in
      let v = set_field 0 dm_dmstatus_impebreak (flag_of d.config.support_impebreak) in
      let v = set_field v dm_dmstatus_allhavereset havereset in
      let v = set_field v dm_dmstatus_anyhavereset havereset in
      let v = set_field v dm_dmstatus_allnonexistent (flag_of r.allnonexistant) in
      let v = set_field v dm_dmstatus_allunavail 0 in
      let v = set_field v dm_dmstatus_allrunning (flag_of r.allrunning) in
      let v = set_field v dm_dmstatus_allhalted (flag_of r.allhalted) in
      let v = set_field v dm_dmstatus_allresumeack (flag_of r.allresumeack) in
      let v = set_field v dm_dmstatus_anynonexistent (flag_of (anynonexistant d)) in
      let v = set_field v dm_dmstatus_anyunavail 0 in
      let v = set_field v dm_dmstatus_anyrunning (flag_of r.anyrunning) in
      let v = set_field v dm_dmstatus_anyhalted (flag_of r.anyhalted) in
      let v = set_field v dm_dmstatus_anyresumeack (flag_of r.anyresumeack) in
      let v = set_field v dm_dmstatus_authenticated (flag_of d.authenticated) in
      let v = set_field v dm_dmstatus_authbusy 0 in set_field v dm_dmstatus_version 2

  -- The loop over the window, from bit `i` on.
  unfoldable pub read_hawindow : Dm → ℕ → ℕ → ℕ → ℕ
  read_hawindow d zero i result = result
  read_hawindow d (suc left) i result =
      let n = d.hawindowsel * 32 + i in
      read_hawindow d left (i + 1) (
        if ltb n sim.nprocs && get_or d.hart_array_mask (sim.hartids n) false
        then bit_or result (2 ^ i)
        else result)

  unfoldable pub read_dmcontrol : Dm → ℕ
  read_dmcontrol d =
      let c = d.dmcontrol in
      let v = set_field 0 dm_dmcontrol_haltreq (flag_of c.haltreq) in
      let v = set_field v dm_dmcontrol_resumereq (flag_of c.resumereq) in
      let v = set_field v dm_dmcontrol_hartselhi (c.hartsel / 2 ^ dm_dmcontrol_hartsello_length) in
      let v = set_field v dm_dmcontrol_hasel (flag_of c.hasel) in
      let v = set_field v dm_dmcontrol_hartsello c.hartsel in
      let v = set_field v dm_dmcontrol_hartreset (flag_of c.hartreset) in
      let v = set_field v dm_dmcontrol_ndmreset (flag_of c.ndmreset) in
      set_field v dm_dmcontrol_dmactive (flag_of c.dmactive)

  unfoldable pub read_sbcs : Dm → ℕ
  read_sbcs d =
      let c = d.sbcs in
      let width = d.config.max_sba_data_width in
      let v = set_field 0 dm_sbcs_sbversion (flag_of (ltb 0 width)) in
      let v = set_field v dm_sbcs_sbreadonaddr (flag_of c.readonaddr) in
      let v = set_field v dm_sbcs_sbaccess c.sbaccess in
      let v = set_field v dm_sbcs_sbautoincrement (flag_of c.autoincrement) in
      let v = set_field v dm_sbcs_sbreadondata (flag_of c.readondata) in
      let v = set_field v dm_sbcs_sberror c.error in
      let v = set_field v dm_sbcs_sbasize (if ltb 0 width then 64 else 0) in
      let v = set_field v dm_sbcs_sbaccess128 0 in
      let v = set_field v dm_sbcs_sbaccess64 (flag_of (leb 64 width)) in
      let v = set_field v dm_sbcs_sbaccess32 (flag_of (leb 32 width)) in
      let v = set_field v dm_sbcs_sbaccess16 (flag_of (leb 16 width)) in
      set_field v dm_sbcs_sbaccess8 (flag_of (leb 8 width))

  unfoldable pub read_abstractcs : Dm → ℕ
  read_abstractcs d =
      let v = set_field 0 dm_abstractcs_cmderr d.abstractcs.cmderr in
      let v = set_field v dm_abstractcs_busy (flag_of d.abstractcs.busy) in
      let v = set_field v dm_abstractcs_datacount datasize in
      set_field v dm_abstractcs_progbufsize d.config.progbufsize

  unfoldable pub read_hartinfo : ℕ
  read_hartinfo =
      let v = set_field 0 dm_hartinfo_nscratch 1 in
      let v = set_field v dm_hartinfo_dataaccess 1 in
      let v = set_field v dm_hartinfo_datasize datasize in
      set_field v dm_hartinfo_dataaddr debug_data_start

  -- The registers whose reading changes nothing.
  unfoldable pub read_register : ℕ → Dm → Option ℕ
  unfolding read_dmcontrol read_dmstatus read_hawindow read_sbcs read_abstractcs read_hartinfo
  read_register address d =
      if address == dm_dmcontrol
      then some (read_dmcontrol d)
      else if address == dm_dmstatus
      then some (read_dmstatus d)
      else if address == dm_abstractcs
      then some (read_abstractcs d)
      else if address == dm_abstractauto
      then some (
          set_field (set_field 0 dm_abstractauto_autoexecprogbuf d.abstractauto.autoexecprogbuf)
            dm_abstractauto_autoexecdata d.abstractauto.autoexecdata)
      else if address == dm_command
      then some 0
      else if address == dm_hartinfo
      then some read_hartinfo
      else if address == dm_hawindowsel
      then some d.hawindowsel
      else if address == dm_hawindow
      then some (read_hawindow d 32 0 0)
      else if address == dm_sbcs
      then some (read_sbcs d)
      else if address == dm_sbaddress0
      then some (get_or d.sbaddress 0 0)
      else if address == dm_sbaddress1
      then some (get_or d.sbaddress 1 0)
      else if address == dm_sbaddress2
      then some (get_or d.sbaddress 2 0)
      else if address == dm_sbaddress3
      then some (get_or d.sbaddress 3 0)
      else if address == dm_sbdata1
      then some (get_or d.sbdata 1 0)
      else if address == dm_sbdata2
      then some (get_or d.sbdata 2 0)
      else if address == dm_sbdata3
      then some (get_or d.sbdata 3 0)
      else if address == dm_authdata
      then some d.challenge
      else if address == dm_dmcs2
      then some (set_field 0 dm_dmcs2_group (selected_hart_state sim d).haltgroup)
      else none

  -- Reading sbdata0 may read the next word from the bus.
  unfoldable pub read_sbdata0 : Dm → S → Option (Dm × S)
  read_sbdata0 d s =
      if not (d.sbcs.error == 0)
      then some (d, s)
      else if d.sbcs.readondata
      then settled (sb_read sim d s)
      else some (incremented d, s)

  unfoldable pub dmi_read : ℕ → Dm → S → Option (Dm × S × Option ℕ)
  unfolding read_register read_sbdata0 read32
  dmi_read address d s =
      let busy = d.abstractcs.busy in
      let i = address - dm_data0 in
      let j = address - dm_progbuf0 in
      if at_data address
      then some (
        autoexec sim busy d.abstractauto.autoexecdata i (note_busy d),
        s,
        some (if busy then 2 ^ 32 - 1 else read32 d.dmdata i),
      )
      else if at_progbuf d address
      then some (
        autoexec sim busy d.abstractauto.autoexecprogbuf j d,
        s,
        some (if busy then 2 ^ 32 - 1 else read32 d.program_buffer j),
      )
      else if address == dm_sbdata0
      then answered (some (get_or d.sbdata 0 0)) (read_sbdata0 d s)
      else some (d, s, read_register address d)
