-- ===== src/DebugModule.antt =====
-- riscv/debug_module.h, riscv/debug_module.cc: the state of the debug module.
-- What `reset` sets for good, the sizes of `abstractcs` and the widths of `sbcs` and `dmstatus`, is read
-- from the configuration.
pub mod Fields
pub mod Commands
pub mod Dmi
pub mod Access
pub mod Increment
pub mod Locked
pub mod Status
pub mod Busy
pub mod Program
pub mod Sized
pub mod Stored
pub mod Width
pub mod Written
pub mod Run
mod Examples
use nnemu.Base.{
  Bool, List, Option, [], drop, false, get_or, if◌then◌else◌, length, not, replicate, set, suc,
  take, true, truthy, zero, ℕ, ◌%◌, ◌&&◌, ◌*◌, ◌++◌, ◌+◌, ◌-◌, ◌/◌, ◌==◌, ◌^◌, ◌||◌, ◌∷◌,
}
use nnemu.Opcodes.{ebreak, jal, zero_reg}
use nnemu.DebugModule.Fields.{debug_rom_whereto}

pub record Config : Type 0 where
  pub progbufsize : ℕ
  pub max_sba_data_width : ℕ
  pub require_authentication : Bool
  pub abstract_rti : ℕ
  pub support_hasel : Bool
  pub support_abstract_csr_access : Bool
  pub support_abstract_fpr_access : Bool
  pub support_haltgroups : Bool
  pub support_impebreak : Bool

-- `halt_request` of processor_t.
pub data HaltRequest : Type 0 where
  hr_none hr_regular hr_group : HaltRequest

pub record HartState : Type 0 where
  pub halted : Bool
  pub resumeack : Bool
  pub havereset : Bool
  pub haltgroup : ℕ

pub record DmControl : Type 0 where
  pub haltreq : Bool
  pub resumereq : Bool
  pub hasel : Bool
  pub hartsel : ℕ
  pub hartreset : Bool
  pub dmactive : Bool
  pub ndmreset : Bool

pub record AbstractCs : Type 0 where
  pub busy : Bool
  pub cmderr : ℕ

pub record AbstractAuto : Type 0 where
  pub autoexecprogbuf : ℕ
  pub autoexecdata : ℕ

pub record SbCs : Type 0 where
  pub readonaddr : Bool
  pub sbaccess : ℕ
  pub autoincrement : Bool
  pub readondata : Bool
  pub error : ℕ

-- The first four lists hold bytes, and `sbaddress` and `sbdata` four words each. `hart_state`,
-- `debug_rom_flags` and `hart_array_mask` are indexed by the IDs of harts; `halt_request` is the field
-- that every hart has of its own.
pub record Dm : Type 0 where
  pub config : Config
  pub custom_base : ℕ
  pub debug_rom_whereto : List ℕ
  pub debug_abstract : List ℕ
  pub program_buffer : List ℕ
  pub dmdata : List ℕ
  pub hart_state : List HartState
  pub debug_rom_flags : List ℕ
  pub halt_request : ℕ → HaltRequest
  pub dmcontrol : DmControl
  pub authenticated : Bool
  pub abstractcs : AbstractCs
  pub abstractauto : AbstractAuto
  pub command : ℕ
  pub hawindowsel : ℕ
  pub hart_array_mask : List Bool
  pub sbcs : SbCs
  pub sbaddress : List ℕ
  pub sbdata : List ℕ
  pub challenge : ℕ
  pub abstract_command_completed : Bool
  pub rti_remaining : ℕ

-- A load of `debug_mmu`: its value, an access fault, or another trap.
pub data Loaded : Type 0 where
  loaded : ℕ → Loaded
  access_fault other_trap : Loaded

-- The simulator: the IDs of its harts in order, those by their number, and the loads and stores of
-- `debug_mmu` by their number of bytes. The module itself is on the bus: a load may read it, and a store
-- may change it; a store that traps gives none.
pub record Sim (S : Type 0) : Type 0 where
  pub harts : List ℕ
  pub nprocs : ℕ
  pub hartids : ℕ → ℕ
  pub max_hartid : ℕ
  pub load : ℕ → ℕ → Dm → S → S × Loaded
  pub store : ℕ → ℕ → ℕ → Dm → S → Option (Dm × S)
  pub reset_hart : ℕ → S → S

-- `cmderr_t`.
abbrev pub cmderr_none : ℕ
cmderr_none = 0

abbrev pub cmderr_busy : ℕ
cmderr_busy = 1

abbrev pub cmderr_notsup : ℕ
cmderr_notsup = 2

abbrev pub cmderr_exception : ℕ
cmderr_exception = 3

abbrev pub cmderr_haltresume : ℕ
cmderr_haltresume = 4

abbrev pub debug_data_start : ℕ
debug_data_start = 0x380

abbrev pub debug_abstract_size : ℕ
debug_abstract_size = 12

abbrev pub datasize : ℕ
datasize = 2

abbrev pub program_buffer_bytes : Config → ℕ
program_buffer_bytes c = (if c.support_impebreak then 4 else 0) + 4 * c.progbufsize

abbrev pub debug_progbuf_start : Config → ℕ
debug_progbuf_start c = (debug_data_start + 2 ^ 32 - program_buffer_bytes c) % 2 ^ 32

abbrev pub debug_abstract_start : Config → ℕ
debug_abstract_start c = (debug_progbuf_start c + 2 ^ 32 - debug_abstract_size * 4) % 2 ^ 32

-- The loop of `field_width`, with fuel: a 32-bit number is 0 after 32 halvings.
unfoldable pub field_width_loop : ℕ → ℕ → ℕ → ℕ
field_width_loop zero n i = i
field_width_loop (suc fuel) n i =
    let rest = field_width_loop fuel (n / 2) (i + 1) in if truthy n then rest else i

unfoldable pub field_width : ℕ → ℕ
unfolding field_width_loop
field_width n = field_width_loop 33 ((n + 2 ^ 32 - 1) % 2 ^ 32) 0

-- `memcpy` into an array.
abbrev pub splice : List ℕ → ℕ → List ℕ → List ℕ
splice memory offset bytes = take offset memory ++ bytes ++ drop (offset + length bytes) memory

abbrev pub bytes_of : ℕ → List ℕ
bytes_of value =
    value % 2 ^ 8 ∷ value / 2 ^ 8 % 2 ^ 8 ∷ value / 2 ^ 16 % 2 ^ 8 ∷ value / 2 ^ 24 % 2 ^ 8 ∷ []

unfoldable pub write32 : List ℕ → ℕ → ℕ → List ℕ
write32 memory index value = splice memory (index * 4) (bytes_of value)

unfoldable pub read32 : List ℕ → ℕ → ℕ
read32 memory index =
    let byte = λ (i : ℕ). get_or memory (index * 4 + i) 0 in
    byte 0 + byte 1 * 2 ^ 8 + byte 2 * 2 ^ 16 + byte 3 * 2 ^ 24

abbrev pub no_control : DmControl
no_control = record {
  haltreq = false;
  resumereq = false;
  hasel = false;
  hartsel = 0;
  hartreset = false;
  dmactive = false;
  ndmreset = false;
}

-- A field of the harts, written for one of them.
abbrev pub put : {A : Type 0} → (ℕ → A) → ℕ → A → ℕ → A
put f i a j = if j == i then a else f j

abbrev pub release_all : List ℕ → (ℕ → HaltRequest) → ℕ → HaltRequest
release_all [] f = f
release_all (id ∷ ids) f = release_all ids (put f id HaltRequest.hr_none)

-- The new challenge is random.
unfoldable pub reset : {S : Type 0} → Sim S → ℕ → Dm → Dm
reset sim random d = record d {
  halt_request = release_all sim.harts d.halt_request;
  dmcontrol = no_control;
  authenticated = not d.config.require_authentication;
  abstractcs = record { busy = false; cmderr = cmderr_none };
  abstractauto = record { autoexecprogbuf = 0; autoexecdata = 0 };
  sbcs = record {
    readonaddr = false;
    sbaccess = 0;
    autoincrement = false;
    readondata = false;
    error = 0;
  };
  challenge = random;
}

-- What a hart has at first.
abbrev pub no_hart : HartState
no_hart = record { halted = false; resumeack = false; havereset = false; haltgroup = 0 }

abbrev pub hart_at : Dm → ℕ → HartState
hart_at d id = get_or d.hart_state id no_hart

abbrev pub flags_at : Dm → ℕ → ℕ
flags_at d id = get_or d.debug_rom_flags id 0

-- The constructor; it ends the simulator if an ID is 1024 or more. `uninitialised` is what it leaves in the words that it does not set.
unfoldable pub make : {S : Type 0} → Sim S → Config → ℕ → Dm → Dm
unfolding reset write32 field_width
make sim config random uninitialised =
    let buffer = replicate (program_buffer_bytes config) 0 in
    reset sim random (record uninitialised {
      config = config;
      custom_base = 0;
      debug_rom_whereto =
          write32 (replicate 4 0) 0
            (jal zero_reg ((debug_abstract_start config + 2 ^ 32 - debug_rom_whereto) % 2 ^ 32));
      debug_abstract = replicate (debug_abstract_size * 4) 0;
      program_buffer =
          if config.support_impebreak then write32 buffer config.progbufsize ebreak else buffer;
      dmdata = replicate (datasize * 4) 0;
      hart_state = replicate (2 ^ field_width (sim.max_hartid + 1)) no_hart;
      debug_rom_flags = replicate 1024 0;
      hart_array_mask = replicate (sim.max_hartid + 1) false;
      rti_remaining = 0;
    })

abbrev pub selected_hart_id : {S : Type 0} → Sim S → Dm → ℕ
selected_hart_id sim d = sim.hartids d.dmcontrol.hartsel

abbrev pub hart_selected : {S : Type 0} → Sim S → Dm → ℕ → Bool
hart_selected sim d id =
    (id == selected_hart_id sim d) || (d.dmcontrol.hasel && get_or d.hart_array_mask id false)

abbrev pub selected_hart_state : {S : Type 0} → Sim S → Dm → HartState
selected_hart_state sim d = hart_at d (selected_hart_id sim d)

unfoldable pub proc_reset : ℕ → Dm → Dm
proc_reset id d = record d {
  hart_state =
      set d.hart_state id
        (record (hart_at d id) { havereset = true; halted = false; haltgroup = 0 });
}

unfoldable pub run_test_idle : Dm → Dm
run_test_idle d =
    let rti_remaining = d.rti_remaining - 1 in
    record d {
      rti_remaining = rti_remaining;
      abstractcs = record (d.abstractcs) {
        busy = d.abstractcs.busy && not ((rti_remaining == 0) && d.abstract_command_completed);
      };
    }
