-- ===== src/Disk/Commands.antt =====
-- riscv/devices.cc, sync_disk_t: the registers after a command.
use nnemu.Base.{
  ℕ, ◌-◌, ◌*◌, ◌≢◌, ◌%◌, ◌^◌, ◌≤◌, ◌<◌, ◌≡◌, refl, arith, Bool, true, false, not, ◌&&◌, ltb, ◌==◌,
  Bool-cases, Option, none, some, List, ◌⊎◌, inl, inr, length,
}
use nnemu.Endian.{write_little_endian_reg}
use nnemu.Disk.{
  Disk, Host, Errors, lba, read_stored, read_got, write_wrote, write_loaded, execute_command,
  store_cmd, store, done, failed, cmd_none, cmd_read, cmd_write, status_done, status_error,
  k_sector_size, refused, register,
}

-- Error numbers are positive.
pub record IsLawful {F H : Type 0} (errors : Errors) (host : Host F H) : Type 0 where
  pub einval_pos : 1 ≤ errors.einval
  pub efault_pos : 1 ≤ errors.efault
  pub eio_pos : 1 ≤ errors.eio
  pub pread_pos : (f : F) (n o e : ℕ) → host.pread f n o ≡ inl e → 1 ≤ e
  pub pwrite_pos : (f : F) (bytes : List ℕ) (o e : ℕ) → (host.pwrite f bytes o).1 ≡ inl e → 1 ≤ e

-- What the registers report of a command over `count` sectors: the command is over, and either all
-- its bytes are counted, in 32 bits, without an error, or none is counted and an error is named.
pub data Reports (count : ℕ) (d : Disk) : Bool → Type 0 where
  transferred :
      d.cmd ≡ cmd_none
      → d.status ≡ status_done
      → d.error_code ≡ 0
      → d.last_result_bytes ≡ count * k_sector_size
      → count * k_sector_size < 2 ^ 32
      → Reports count d true
  refused_with :
      d.cmd ≡ cmd_none
      → d.status ≡ status_error
      → 1 ≤ d.error_code
      → d.last_result_bytes ≡ 0
      → Reports count d false

module _ {F H : Type 0} (errors : Errors) (host : Host F H) (l : IsLawful errors host)
    (d : Disk) where
  Good : Disk × F × H × Bool → Type 0
  Good r = Reports d.count r.0 r.3

  failed-Good : (e : ℕ) (f : F) (h : H) → 1 ≤ e → Good (failed e d, f, h, false)
  unfolding Good
  failed-Good e f h pos = refused_with refl refl pos refl

  done-Good : (f : F) (h : H) → d.count * 512 < 2 ^ 32 → Good (done (d.count * 512) d, f, h, true)
  unfolding Good
  done-Good f h small = transferred refl refl refl refl small

  read_stored-Good :
      (f : F) (r : H × Bool)
      → d.count * 512 < 2 ^ 32
      → Good (read_stored errors host d f (d.count * 512) r)
  unfolding read_stored
  read_stored-Good f (h, true) small = done-Good f h small
  read_stored-Good f (h, false) small = failed-Good errors.efault f h l.efault_pos

  read_got-Good :
      (f : F) (h : H) (o : ℕ) (r : ℕ ⊎ List ℕ)
      → d.count * 512 < 2 ^ 32
      → host.pread f (d.count * 512) o ≡ r
      → Good (read_got errors host d f h (d.count * 512) r)
  unfolding read_got
  read_got-Good f h o (inl e) small is = failed-Good e f h (l.pread_pos f (d.count * 512) o e is)
  read_got-Good f h o (inr got) small is = read_stored-Good f _ small

  write_wrote-Good :
      (h : H) (f : F) (r : ℕ ⊎ ℕ)
      → d.count * 512 < 2 ^ 32
      → ((e : ℕ) → r ≡ inl e → 1 ≤ e)
      → Good (write_wrote errors host d h (d.count * 512) (f, r))
  unfolding write_wrote
  write_wrote-Good h f (inl e) small pos = failed-Good e f h (pos e refl)
  write_wrote-Good h f (inr wrote) small pos = elim (Bool-cases (wrote == d.count * 512)) [
    | inl e ↦ rw e (done-Good f h small)
    | inr e ↦ rw e (failed-Good errors.eio f h l.eio_pos)
  ]

  write_loaded-Good :
      (f : F) (o : ℕ) (r : H × Option (List ℕ))
      → d.count * 512 < 2 ^ 32
      → Good (write_loaded errors host d f (d.count * 512) o r)
  unfolding write_loaded
  write_loaded-Good f o (h, none) small = failed-Good errors.efault f h l.efault_pos
  write_loaded-Good f o (h, some buffer) small =
      write_wrote-Good h (host.pwrite f buffer o).0 (host.pwrite f buffer o).1 small
        (λ e is. l.pwrite_pos f buffer o e is)

  empty-Good : (f : F) (h : H) → d.count ≡ 0 → Good (done 0 d, f, h, true)
  unfolding Good
  empty-Good f h e = transferred refl refl refl (omega arith) (omega arith)

  command-Good : (f : F) (h : H) → Good (execute_command errors host d f h)
  unfolding execute_command
  command-Good f h =
      let total = d.count * 512 in
      let o = lba d * k_sector_size % 2 ^ 64 in
      let small : ltb (2 ^ 32 - 1) total ≡ false → total < 2 ^ 32 = λ e. ground (arith, e) in
      elim (Bool-cases (d.count == 0)) [
        | inl e ↦ rw e (empty-Good f h (ground (arith, e)))
        | inr e ↦ elim (Bool-cases (not (d.cmd == cmd_read) && not (d.cmd == cmd_write))) [
          | inl k ↦ rw (e, k) (failed-Good errors.einval f h l.einval_pos)
          | inr k ↦ elim (Bool-cases (ltb (2 ^ 32 - 1) total)) [
            | inl t ↦ rw (e, k, t) (failed-Good errors.einval f h l.einval_pos)
            | inr t ↦ elim (Bool-cases (d.cmd == cmd_read)) [
              | inl c ↦ rw (e, k, t, c) (read_got-Good f h o _ (small t) refl)
              | inr c ↦ rw (e, k, t, c) (write_loaded-Good f o _ (small t))
            ]
          ]
        ]
      ]

-- A store that leaves a command in the command register runs it, and afterwards the registers report
-- it as the store's result says: the command register is `CMD_NONE`; if the store was accepted, the
-- status is `STATUS_DONE` without an error and counts every byte, in 32 bits; if not, the status is
-- `STATUS_ERROR`, no byte is counted and the error number is positive. Error numbers of the host are
-- positive.
pub store-Reports :
    {F H : Type 0} (errors : Errors) (host : Host F H) (d : Disk) (addr : ℕ) (bytes : List ℕ)
    (f : F) (h : H)
    → IsLawful errors host
    → register addr ≡ 0
    → refused addr (length bytes) ≡ false
    → write_little_endian_reg 4 d.cmd addr bytes ≢ cmd_none
    → let r = store errors host d addr bytes f h in Reports d.count r.0 r.3
unfolding store store_cmd Good
store-Reports errors host d addr bytes f h l at_cmd accepted runs =
    let word = write_little_endian_reg 4 d.cmd addr bytes in
    let not_none : (word == cmd_none) ≡ false = ground (arith, runs) in
    rw (accepted, at_cmd, not_none) (command-Good errors host l (record d { cmd = word }) f h)
