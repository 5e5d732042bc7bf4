-- ===== src/Disk.antt =====
-- riscv/devices.cc and riscv/devices.h, `sync_disk_t`: a disk that does a transfer between its image
-- file and the memory while the hart writes the command register.
-- The bus and the file are parameters: `H` is what the bus reaches, `F` the file. A transfer is taken
-- not to reach the registers of the disk itself.
pub mod Commands
pub mod Transfers
pub mod Examples
use nnemu.Base.{
  ℕ, ◌+◌, ◌-◌, ◌*◌, ◌%◌, ◌^◌, Bool, true, false, not, ◌&&◌, ◌||◌, ltb, ◌==◌, if◌then◌else◌, Option,
  none, some, List, [], ◌∷◌, ◌++◌, ◌⊎◌, inl, inr, length, replicate, bit_and, bit_or,
}
use nnemu.Base.Bits.{bit_not}
use nnemu.Endian.{read_little_endian_reg, write_little_endian_reg}

abbrev pub cmd_none : ℕ
cmd_none = 0

abbrev pub cmd_read : ℕ
cmd_read = 1

abbrev pub cmd_write : ℕ
cmd_write = 2

abbrev pub status_idle : ℕ
status_idle = 0

abbrev pub status_done : ℕ
status_done = 1

abbrev pub status_error : ℕ
status_error = 2

abbrev pub sync_disk_size : ℕ
sync_disk_size = 0x1000

abbrev pub k_sector_size : ℕ
k_sector_size = 512

-- The error numbers of the host that the code names.
pub record Errors : Type 0 where
  pub einval : ℕ
  pub efault : ℕ
  pub eio : ℕ

-- The host's `pread` and `pwrite` at an offset, with `errno` on the left, and the accesses of the
-- bus. A `pread` gives at most the bytes asked for.
pub record Host (F H : Type 0) : Type 0 where
  pub pread : F → ℕ → ℕ → ℕ ⊎ List ℕ
  pub pwrite : F → List ℕ → ℕ → F × (ℕ ⊎ ℕ)
  pub bus_load : ℕ → ℕ → H → H × Option (List ℕ)
  pub bus_store : ℕ → List ℕ → H → H × Bool

pub record Disk : Type 0 where
  pub cmd : ℕ
  pub status : ℕ
  pub count : ℕ
  pub reserved : ℕ
  pub lba_low : ℕ
  pub lba_high : ℕ
  pub guest_pa_low : ℕ
  pub guest_pa_high : ℕ
  pub error_code : ℕ
  pub last_result_bytes : ℕ

abbrev pub make : Disk
make = record {
  cmd = cmd_none;
  status = status_idle;
  count = 0;
  reserved = 0;
  lba_low = 0;
  lba_high = 0;
  guest_pa_low = 0;
  guest_pa_high = 0;
  error_code = 0;
  last_result_bytes = 0;
}

-- `(uint64_t(high) << 32) | low`.
abbrev pub join : ℕ → ℕ → ℕ
join high low = bit_or (high * 2 ^ 32 % 2 ^ 64) low

abbrev pub lba : Disk → ℕ
lba d = join d.lba_high d.lba_low

abbrev pub guest_pa : Disk → ℕ
guest_pa d = join d.guest_pa_high d.guest_pa_low

abbrev pub refused : ℕ → ℕ → Bool
refused addr len = ltb ((addr + len) % 2 ^ 64) addr || ltb sync_disk_size ((addr + len) % 2 ^ 64)

-- `addr & ~reg_t(0x3)`.
abbrev pub register : ℕ → ℕ
register addr = bit_and addr (bit_not 64 3)

unfoldable pub register_value : Disk → ℕ → Option ℕ
register_value d r =
    if r == 0x00
    then some d.cmd
    else if r == 0x04
    then some d.status
    else if r == 0x08
    then some d.count
    else if r == 0x0c
    then some d.reserved
    else if r == 0x10
    then some d.lba_low
    else if r == 0x14
    then some d.lba_high
    else if r == 0x18
    then some d.guest_pa_low
    else if r == 0x1c
    then some d.guest_pa_high
    else if r == 0x20
    then some d.error_code
    else if r == 0x24
    then some d.last_result_bytes
    else none

unfoldable pub load : Disk → ℕ → ℕ → Option (List ℕ)
load d addr len = if refused addr len then none else elim (register_value d (register addr)) [
  | none ↦ none
  | some word ↦ some (read_little_endian_reg 4 word addr len)
]

-- The two ends of a command, which every path of `execute_command` takes one of.
abbrev pub failed : ℕ → Disk → Disk
failed e d = record d {
  status = status_error;
  error_code = e;
  last_result_bytes = 0;
  cmd = cmd_none;
}

abbrev pub done : ℕ → Disk → Disk
done bytes d = record d {
  status = status_done;
  error_code = 0;
  last_result_bytes = bytes;
  cmd = cmd_none;
}

-- `std::vector<uint8_t> buffer(total)` after the bytes that `pread` got.
abbrev pub padded : ℕ → List ℕ → List ℕ
padded total got = got ++ replicate (total - length got) 0

module _ {F H : Type 0} (errors : Errors) (host : Host F H) where
  -- `cmd == CMD_READ`, from the result of `pread` on, and from the result of `bus->store` on.
  unfoldable pub read_stored : Disk → F → ℕ → H × Bool → Disk × F × H × Bool
  read_stored d f total (h, true) = (done total d, f, h, true)
  read_stored d f total (h, false) = (failed errors.efault d, f, h, false)

  unfoldable pub read_got : Disk → F → H → ℕ → ℕ ⊎ List ℕ → Disk × F × H × Bool
  read_got d f h total (inl errno) = (failed errno d, f, h, false)
  read_got d f h total (inr got) =
      read_stored d f total (host.bus_store (guest_pa d) (padded total got) h)

  -- `cmd == CMD_WRITE`, from the result of `pwrite` on, and from the result of `bus->load` on.
  unfoldable pub write_wrote : Disk → H → ℕ → F × (ℕ ⊎ ℕ) → Disk × F × H × Bool
  write_wrote d h total (f, inl errno) = (failed errno d, f, h, false)
  write_wrote d h total (f, inr wrote) =
      if wrote == total then (done total d, f, h, true) else (failed errors.eio d, f, h, false)

  unfoldable pub write_loaded : Disk → F → ℕ → ℕ → H × Option (List ℕ) → Disk × F × H × Bool
  write_loaded d f total offset (h, none) = (failed errors.efault d, f, h, false)
  write_loaded d f total offset (h, some buffer) =
      write_wrote d h total (host.pwrite f buffer offset)

  unfoldable pub execute_command : Disk → F → H → Disk × F × H × Bool
  execute_command d f h =
      let total = d.count * k_sector_size in
      let offset = lba d * k_sector_size % 2 ^ 64 in
      if d.count == 0
      then (done 0 d, f, h, true)
      else if not (d.cmd == cmd_read) && not (d.cmd == cmd_write)
      then (failed errors.einval d, f, h, false)
      else if ltb (2 ^ 32 - 1) total
      then (failed errors.einval d, f, h, false)
      else if d.cmd == cmd_read
      then read_got d f h total (host.pread f total offset)
      else write_loaded d f total offset (host.bus_load (guest_pa d) total h)

  -- The first register: a command is run, `CMD_NONE` resets the status.
  unfoldable pub store_cmd : ℕ → Disk → F → H → Disk × F × H × Bool
  store_cmd word d f h =
      if word == cmd_none
      then (record d { cmd = word; status = status_idle; error_code = 0 }, f, h, true)
      else execute_command (record d { cmd = word }) f h

  unfoldable pub store_status : ℕ → Disk → Disk
  store_status word d =
      if word == status_idle
      then record d { status = word; error_code = 0 }
      else record d { status = word }

  unfoldable pub store : Disk → ℕ → List ℕ → F → H → Disk × F × H × Bool
  store d addr bytes f h =
      let r = register addr in
      let put : ℕ → ℕ = λ word. write_little_endian_reg 4 word addr bytes in
      if refused addr (length bytes)
      then (d, f, h, false)
      else if r == 0x00
      then store_cmd (put d.cmd) d f h
      else if r == 0x04
      then (store_status (put d.status) d, f, h, true)
      else if r == 0x08
      then (record d { count = put d.count }, f, h, true)
      else if r == 0x0c
      then (record d { reserved = put d.reserved }, f, h, true)
      else if r == 0x10
      then (record d { lba_low = put d.lba_low }, f, h, true)
      else if r == 0x14
      then (record d { lba_high = put d.lba_high }, f, h, true)
      else if r == 0x18
      then (record d { guest_pa_low = put d.guest_pa_low }, f, h, true)
      else if r == 0x1c
      then (record d { guest_pa_high = put d.guest_pa_high }, f, h, true)
      else (d, f, h, false)
