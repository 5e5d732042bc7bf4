-- ===== src/Disk/Transfers.antt =====
-- riscv/devices.cc, sync_disk_t: what a transfer moves.
use nnemu.Base.{
  ℕ, ◌-◌, ◌*◌, ◌%◌, ◌^◌, ◌<◌, ◌≡◌, ◌≢◌, refl, ap, ◌∙◌, sym, subst, arith, Bool, true, false, ltb,
  ◌==◌, Option, some, List, ◌++◌, ◌⊎◌, inr, length, replicate, ==_refl,
}
use mathlib.Core.List.{append-nil}
use nnemu.Disk.{
  Disk, Host, Errors, lba, guest_pa, read_stored, read_got, write_wrote, write_loaded,
  execute_command, done, cmd_read, cmd_write, k_sector_size, padded,
}

-- A file gives back what was written to it at the same place, and the bus the bytes asked for.
pub record IsFile {F H : Type 0} (host : Host F H) : Type 0 where
  pub pread-pwrite :
      (f : F) (bytes : List ℕ) (o : ℕ)
      → (host.pwrite f bytes o).1 ≡ inr (length bytes)
      → host.pread (host.pwrite f bytes o).0 (length bytes) o ≡ inr bytes
  pub length-bus_load :
      (pa n : ℕ) (h : H) (bytes : List ℕ) → (host.bus_load pa n h).1 ≡ some bytes → length bytes ≡ n

padded-full : (bytes : List ℕ) (total : ℕ) → length bytes ≡ total → padded total bytes ≡ bytes
padded-full bytes total e =
    ap (λ n. bytes ++ replicate n 0) {x = total - length bytes} {y = 0} (omega arith)
    ∙ append-nil bytes

module _ {F H : Type 0} (errors : Errors) (host : Host F H) where
  write_wrote-all :
      (d : Disk) (f : F) (h : H) (total : ℕ) (r : ℕ ⊎ ℕ)
      → r ≡ inr total
      → write_wrote errors host d h total (f, r) ≡ (done total d, f, h, true)
  unfolding write_wrote
  write_wrote-all d f h total r e = rw (e, ==_refl total) refl

  write_loaded-some :
      (d : Disk) (f : F) (h : H) (total o : ℕ) (bytes : List ℕ) (r : Option (List ℕ))
      → r ≡ some bytes
      → write_loaded errors host d f total o (h, r)
        ≡ write_wrote errors host d h total (host.pwrite f bytes o)
  unfolding write_loaded
  write_loaded-some d f h total o bytes r e = rw e refl

  read_got-all :
      (d : Disk) (f : F) (h : H) (total : ℕ) (bytes : List ℕ) (r : ℕ ⊎ List ℕ)
      → r ≡ inr bytes
      → length bytes ≡ total
      → read_got errors host d f h total r
        ≡ read_stored errors host d f total (host.bus_store (guest_pa d) bytes h)
  unfolding read_got
  read_got-all d f h total bytes r e n = rw (e, padded-full bytes total n) refl

  read_stored-true :
      (d : Disk) (f : F) (h : H) (total : ℕ) (ok : Bool)
      → ok ≡ true
      → read_stored errors host d f total (h, ok) ≡ (done total d, f, h, true)
  unfolding read_stored
  read_stored-true d f h total ok e = rw e refl

  write-command :
      (d : Disk) (f : F) (h : H) (bytes : List ℕ)
      → d.cmd ≡ cmd_write
      → d.count ≢ 0
      → d.count * k_sector_size < 2 ^ 32
      → let o = lba d * k_sector_size % 2 ^ 64 in
        let total = d.count * k_sector_size in
        (host.bus_load (guest_pa d) total h).1 ≡ some bytes
        → (host.pwrite f bytes o).1 ≡ inr total
        → execute_command errors host d f h
          ≡ (done total d, (host.pwrite f bytes o).0, (host.bus_load (guest_pa d) total h).0, true)
  unfolding execute_command
  write-command d f h bytes c n small loaded wrote =
      let total = d.count * 512 in
      let o = lba d * k_sector_size % 2 ^ 64 in
      let n' : (d.count == 0) ≡ false = ground (arith, n) in
      let s' : ltb (2 ^ 32 - 1) total ≡ false = ground arith in
      let wr : (d.cmd == cmd_write) ≡ true = ground (arith, c) in
      let rd : (d.cmd == cmd_read) ≡ false = ground (arith, c) in
      rw (n', s', wr, rd)
        (write_loaded-some d f (host.bus_load (guest_pa d) total h).0 total o bytes _ loaded
          ∙ write_wrote-all d (host.pwrite f bytes o).0 (host.bus_load (guest_pa d) total h).0 total
              _ wrote)

  read-command :
      (d : Disk) (f : F) (h : H) (bytes : List ℕ)
      → d.cmd ≡ cmd_read
      → d.count ≢ 0
      → d.count * k_sector_size < 2 ^ 32
      → length bytes ≡ d.count * k_sector_size
      → host.pread f (d.count * k_sector_size) (lba d * k_sector_size % 2 ^ 64) ≡ inr bytes
      → (host.bus_store (guest_pa d) bytes h).1 ≡ true
      → execute_command errors host d f h
        ≡ (done (d.count * k_sector_size) d, f, (host.bus_store (guest_pa d) bytes h).0, true)
  unfolding execute_command
  read-command d f h bytes c n small size got stored =
      let total = d.count * 512 in
      let n' : (d.count == 0) ≡ false = ground (arith, n) in
      let s' : ltb (2 ^ 32 - 1) total ≡ false = ground arith in
      let rd : (d.cmd == cmd_read) ≡ true = ground (arith, c) in
      rw (n', s', rd)
        (read_got-all d f h total bytes _ got size
          ∙ read_stored-true d f (host.bus_store (guest_pa d) bytes h).0 total _ stored)

-- If a write command moves `bytes` from memory to the image in full, then a read command over as
-- many sectors at the same block address, right after it, is accepted and stores exactly these bytes
-- at its own guest address, leaving the image as it is, provided the bus accepts the store. The file
-- gives back what was written to it, and the bus loads as many bytes as it is asked for.
pub write-read :
    {F H : Type 0} (errors : Errors) (host : Host F H) (d e : Disk) (f : F) (h : H) (bytes : List ℕ)
    → IsFile host
    → d.cmd ≡ cmd_write
    → e.cmd ≡ cmd_read
    → e.count ≡ d.count
    → lba e ≡ lba d
    → d.count ≢ 0
    → d.count * k_sector_size < 2 ^ 32
    → (host.bus_load (guest_pa d) (d.count * k_sector_size) h).1 ≡ some bytes
    → (host.pwrite f bytes (lba d * k_sector_size % 2 ^ 64)).1 ≡ inr (d.count * k_sector_size)
    → let w = execute_command errors host d f h in
      (host.bus_store (guest_pa e) bytes w.2).1 ≡ true
      → (w.3 ≡ true)
        × (execute_command errors host e w.1 w.2 ≡ (
          done (d.count * k_sector_size) e,
          w.1,
          (host.bus_store (guest_pa e) bytes w.2).0,
          true,
        ))
write-read errors host d e f h bytes file cw cr same_count same_lba n small loaded wrote stored =
    let total = d.count * 512 in
    let o = lba d * k_sector_size % 2 ^ 64 in
    let size = file.length-bus_load (guest_pa d) total h bytes loaded in
    let is = write-command errors host d f h bytes cw n small loaded wrote in
    let f' = (host.pwrite f bytes o).0 in
    let back : host.pread f' total o ≡ inr bytes =
      subst (λ k. host.pread f' k o ≡ inr bytes) size
        (file.pread-pwrite f bytes o (wrote ∙ ap inr (sym size))) in
    let w = execute_command errors host d f h in
    let seen : host.pread w.1 (e.count * 512) (lba e * k_sector_size % 2 ^ 64) ≡ inr bytes =
      rw (is, same_count, same_lba) back in
    (
      ap (λ r. r.3) is,
      subst
          (λ k.
            execute_command errors host e w.1 w.2
            ≡ (done (k * 512) e, w.1, (host.bus_store (guest_pa e) bytes w.2).0, true))
          same_count
          (read-command errors host e w.1 w.2 bytes cr (ground (arith, n)) (ground arith)
            (ground (arith, size)) seen stored),
    )
