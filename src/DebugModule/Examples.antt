-- ===== src/DebugModule/Examples.antt =====
-- Two harts with the IDs 0 and 4, and a module that asks for authentication.
use mathlib.Core.Option.{some-injective}
use nnemu.Base.{
  ap, sym, inl, none, List, [], arith, false, refl, replicate, some, true, ℕ, ◌*◌, ◌+◌, ◌-◌, ◌/◌,
  ◌^◌, ◌∷◌, ◌≡◌, ◌≤◌,
}
use nnemu.DebugModule.Fields.{debug_rom_halted, dm_authdata, dm_command, dm_dmcontrol, dm_dmstatus}
use nnemu.DebugModule.Width.{field_width_lem}
use nnemu.DebugModule.{
  field_width, field_width_loop, read32, Config, Dm, HaltRequest, Loaded, Sim, no_control, no_hart,
}
use nnemu.DebugModule.Commands.{
  command_transfer, csr_transfer, is_fpu_reg, perform_abstract_command, register_transfer,
  sb_access_bits, sb_autoincrement, start,
}
use nnemu.DebugModule.Dmi.Read.{no_summary, summarise}
use nnemu.DebugModule.Dmi.Write.{dmi_write}
use nnemu.DebugModule.Busy.{Keeps, dmi_write-kept}
use nnemu.DebugModule.Status.{after, summarise_lem}
use nnemu.DebugModule.Increment.{number_of, sb_autoincrement-number_of}
use nnemu.DebugModule.Access.{StoresThrough, store}
use nnemu.DebugModule.Run.{Event}

-- The bus is one word, which every load gives and every store sets.
abbrev two_harts : Sim ℕ
two_harts = record {
  harts = 0 ∷ 4 ∷ [];
  nprocs = 2;
  hartids = λ n. 4 * n;
  max_hartid = 4;
  load = λ len addr d s. (s, Loaded.loaded s);
  store = λ len addr value d s. some (d, value);
  reset_hart = λ id s. s;
}

two_harts-StoresThrough : StoresThrough two_harts
two_harts-StoresThrough len addr value d e s t h =
    inl (sym (ap (λ r. r.0) (some-injective (d, value) (e, t) h)))

abbrev guarded : Config
guarded = record {
  progbufsize = 2;
  max_sba_data_width = 64;
  require_authentication = true;
  abstract_rti = 0;
  support_hasel = true;
  support_abstract_csr_access = true;
  support_abstract_fpr_access = true;
  support_haltgroups = true;
  support_impebreak = true;
}

abbrev blank : Dm
blank = record {
  config = guarded;
  custom_base = 0;
  debug_rom_whereto = replicate 4 0;
  debug_abstract = replicate 48 0;
  program_buffer = replicate 12 0;
  dmdata = replicate 8 0;
  hart_state = replicate 8 no_hart;
  debug_rom_flags = replicate 8 0;
  halt_request = λ id. HaltRequest.hr_none;
  dmcontrol = no_control;
  authenticated = false;
  abstractcs = record { busy = false; cmderr = 0 };
  abstractauto = record { autoexecprogbuf = 0; autoexecdata = 0 };
  command = 0;
  hawindowsel = 0;
  hart_array_mask = replicate 5 false;
  sbcs = record {
    readonaddr = false;
    sbaccess = 2;
    autoincrement = true;
    readondata = false;
    error = 0;
  };
  sbaddress = 0xfffffffc ∷ 1 ∷ 0 ∷ 0 ∷ [];
  sbdata = 0 ∷ 0 ∷ 0 ∷ 0 ∷ [];
  challenge = 0;
  abstract_command_completed = false;
  rti_remaining = 0;
}

abbrev running : Dm
running = record blank { authenticated = true; abstractcs = record { busy = true; cmderr = 0 } }

-- Hart 0 is halted, and the command writes a floating-point control register from the data.
abbrev commanded : Dm
commanded = record blank {
  command = 0x230001;
  hart_state =
      replicate 8 (record { halted = true; resumeack = false; havereset = false; haltgroup = 0 });
}

dmi_write-kept_example :
    Keeps two_harts running (dmi_write two_harts 9 dm_command 0x230001 running 7)
dmi_write-kept_example =
    dmi_write-kept two_harts 9 dm_command 0x230001 running 7 two_harts-StoresThrough refl
      (omega arith) (inl (omega arith))

-- A debugger authenticates itself and writes a command; hart 4 says that it halted.
abbrev session : List Event
session =
    Event.write 9 dm_dmcontrol 1
    ∷ Event.write 9 dm_authdata 10
    ∷ Event.write 9 dm_dmcontrol 0x80000001
    ∷ Event.store_bytes debug_rom_halted (4 ∷ 0 ∷ 0 ∷ 0 ∷ [])
    ∷ Event.write 9 dm_command 0x230001
    ∷ Event.read dm_dmstatus
    ∷ Event.idle
    ∷ []

-- A store that reports a hart past the end of the array is undefined.
out_of_bounds : store two_harts debug_rom_halted (0xff ∷ 0xff ∷ 0 ∷ 0 ∷ []) blank ≡ none
unfolding store read32
out_of_bounds = refl

-- The command was started: its program saves two registers and switches the unit on first.
started : (perform_abstract_command two_harts commanded).abstractcs.busy ≡ true
unfolding perform_abstract_command command_transfer start register_transfer csr_transfer is_fpu_reg
started = refl

summarise_lem_example :
    summarise two_harts commanded two_harts.harts no_summary
    ≡ after two_harts commanded two_harts.harts no_summary
summarise_lem_example = summarise_lem two_harts commanded

sb_autoincrement-number_of_example :
    number_of (sb_autoincrement blank).sbaddress
      + (0xfffffffc + 2 ^ blank.sbcs.sbaccess) / 2 ^ 32 * 2 ^ 32
    ≡ number_of blank.sbaddress + 2 ^ blank.sbcs.sbaccess
sb_autoincrement-number_of_example =
    sb_autoincrement-number_of blank 0xfffffffc (1 ∷ 0 ∷ 0 ∷ []) refl (omega arith) refl
      (omega arith)

-- The carry is lost: the word after 0x1fffffffc is 0x100000000.
lost_carry : (sb_autoincrement blank).sbaddress ≡ 0 ∷ 1 ∷ 0 ∷ 0 ∷ []
unfolding sb_autoincrement sb_access_bits
lost_carry = refl

field_width_lem_example :
    ((extra : ℕ) → field_width_loop (33 + extra) (5 - 1) 0 ≡ field_width 5)
    × (5 ≤ 2 ^ field_width 5)
    × ((w : ℕ) → 5 ≤ 2 ^ w → field_width 5 ≤ w)
field_width_lem_example = field_width_lem 5 (omega arith) (omega arith)

five_values : field_width 5 ≡ 3
unfolding field_width field_width_loop
five_values = refl
