-- ===== src/Disk/Examples.antt =====
-- A disk over a file that fits one transfer, with a memory that reads as zeros and takes every store.
use nnemu.Base.{
  ℕ, zero, suc, sym, ◌∙◌, ◌*◌, ◌≡◌, ◌≢◌, refl, ap, arith, true, some, List, [], ◌∷◌, inr, length,
  replicate,
}
use mathlib.Core.Option.{some-injective}
use nnemu.Endian.{write_little_endian_reg}
use nnemu.Disk.{
  Disk, Host, Errors, make, execute_command, store, done, guest_pa, cmd_none, cmd_read, cmd_write,
  k_sector_size,
}
use nnemu.Disk.Commands.{IsLawful, Reports, store-Reports}
use nnemu.Disk.Transfers.{IsFile, write-read}

abbrev errors : Errors
errors = record { einval = 22; efault = 14; eio = 5 }

-- The file is what was last written; the memory is what was last stored.
abbrev host : Host (List ℕ) (List ℕ)
host = record {
  pread = λ f n o. inr f;
  pwrite = λ f bytes o. (bytes, inr (length bytes));
  bus_load = λ pa n h. (h, some (replicate n 0));
  bus_store = λ pa bytes h. (bytes, true);
}

abbrev zeros : ℕ → List ℕ
zeros n = replicate n 0

length-zeros : (n : ℕ) → length (zeros n) ≡ n
length-zeros zero = refl
length-zeros (suc n) = omega (arith, length-zeros n)

length_of : (n : ℕ) (bytes : List ℕ) → some (zeros n) ≡ some bytes → length bytes ≡ n
length_of n bytes e = ap length (sym (some-injective (zeros n) bytes e)) ∙ length-zeros n

host-IsLawful : IsLawful errors host
host-IsLawful = record {
  einval_pos = omega arith;
  efault_pos = omega arith;
  eio_pos = omega arith;
  pread_pos = λ f n o e is. ground (arith, is);
  pwrite_pos = λ f bytes o e is. ground (arith, is);
}

host-IsFile : IsFile host
host-IsFile = record {
  pread-pwrite = λ f bytes o wrote. refl;
  length-bus_load = λ pa n h bytes e. length_of n bytes e;
}

abbrev writing : Disk
writing = record make { cmd = cmd_write; count = 1; lba_low = 3 }

abbrev reading : Disk
reading = record make { cmd = cmd_read; count = 1; lba_low = 3; guest_pa_low = 0x80000000 }

abbrev command : List ℕ
command = 1 ∷ 0 ∷ 0 ∷ 0 ∷ []

abbrev idle : Disk
idle = record make { count = 1 }

runs : write_little_endian_reg 4 idle.cmd 0 command ≢ cmd_none
unfolding write_little_endian_reg
runs = ground arith

store-Reports_example : let r = store errors host idle 0 command [] [] in Reports idle.count r.0 r.3
store-Reports_example = store-Reports errors host idle 0 command [] [] host-IsLawful refl refl runs

write-read_example :
    let w = execute_command errors host writing [] [] in
    (w.3 ≡ true)
    × (execute_command errors host reading w.1 w.2 ≡ (
      done (writing.count * k_sector_size) reading,
      w.1,
      (host.bus_store (guest_pa reading) (zeros 512) w.2).0,
      true,
    ))
write-read_example =
    write-read errors host writing reading [] [] (zeros 512) host-IsFile refl refl refl refl
      (omega arith) (omega arith) refl (ap inr (length-zeros 512)) refl
