-- ===== src/DebugModule/Sized.antt =====
-- riscv/debug_module.cc: the sizes of the arrays after the accesses to the system bus and the reads of a
-- debugger.
use nnemu.Base.{
  Bool, Option, arith, inl, inr, subst, if_both, none, not, refl, some, sym, ℕ, ◌&&◌, ◌==◌, ◌||◌,
  ◌≡◌,
}
use nnemu.Base.Bits.{bit}
use nnemu.DebugModule.{Dm, Loaded, Sim, cmderr_busy, cmderr_none}
use nnemu.DebugModule.Commands.{
  perform_abstract_command, sb_autoincrement, sb_fail, sb_loaded, sb_read, sb_supported, sb_write,
}
use nnemu.DebugModule.Dmi.{
  advanced, answered, at_data, at_progbuf, autoexec, incremented, note_busy, settled,
}
use nnemu.DebugModule.Program.{IsSized, failed-IsSized, perform-IsSized}
use nnemu.DebugModule.Fields.{dm_sbdata0}
use nnemu.DebugModule.Access.{StoresThrough}
use nnemu.DebugModule.Stored.{Leaves, LeavesPair, alike, store-LeavesPair}
use nnemu.DebugModule.Dmi.Read.{dmi_read, read_sbdata0}

sb_autoincrement-IsSized : {n : ℕ} (d : Dm) → IsSized n d → IsSized n (sb_autoincrement d)
unfolding sb_autoincrement
sb_autoincrement-IsSized {n} d v =
    if_both (IsSized n) (not d.sbcs.autoincrement || (d.config.max_sba_data_width == 0)) d _ v
      (alike v refl refl refl refl refl refl refl)

incremented-IsSized : {n : ℕ} (d : Dm) → IsSized n d → IsSized n (incremented d)
incremented-IsSized {n} d v =
    if_both (IsSized n) (d.sbcs.error == 0) (sb_autoincrement d) d (sb_autoincrement-IsSized d v) v

module _ {S : Type 0} where
  sb_loaded-LeavesPair :
      {n : ℕ} (d : Dm) (s : S) (r : Loaded) → IsSized n d → LeavesPair n (sb_loaded d s r)
  sb_loaded-LeavesPair {n} d s (Loaded.loaded value) v =
      (alike v refl refl refl refl refl refl refl)
  sb_loaded-LeavesPair {n} d s Loaded.access_fault v = (alike v refl refl refl refl refl refl refl)
  sb_loaded-LeavesPair {n} d s Loaded.other_trap v = tt

  pub advanced-LeavesPair :
      (n : ℕ) (o : Option (Dm × S)) → LeavesPair n o → LeavesPair n (advanced o)
  advanced-LeavesPair n none v = tt
  advanced-LeavesPair n (some r) v = sb_autoincrement-IsSized r.0 v

  pub settled-LeavesPair : (n : ℕ) (o : Option (Dm × S)) → LeavesPair n o → LeavesPair n (settled o)
  settled-LeavesPair n none v = tt
  settled-LeavesPair n (some r) v = incremented-IsSized r.0 v

module _ {S : Type 0} (sim : Sim S) where
  pub sb_read-LeavesPair : {n : ℕ} (d : Dm) (s : S) → IsSized n d → LeavesPair n (sb_read sim d s)
  unfolding sb_read
  sb_read-LeavesPair {n} d s v =
      if_both (LeavesPair n) (not (sb_supported d)) (some (sb_fail 3 d, s)) _
        (alike v refl refl refl refl refl refl refl) (sb_loaded-LeavesPair d _ _ v)

  stored-LeavesPair :
      {n : ℕ} (len addr value : ℕ) (d : Dm) (s : S) (o : Option (Dm × S))
      → StoresThrough sim
      → sim.store len addr value d s ≡ o
      → IsSized n d
      → LeavesPair n o
  stored-LeavesPair {n} len addr value d s none through got v = tt
  stored-LeavesPair {n} len addr value d s (some r) through got v =
      elim (through len addr value d r.0 s r.1 got) [
        | inl same ↦ subst (IsSized n) (sym same) v
        | inr (low, bytes, b, short, own) ↦
            subst (LeavesPair n) own
              (store-LeavesPair sim addr bytes d (omega (arith, low, short)) v)
      ]

  pub sb_write-LeavesPair :
      {n : ℕ} (d : Dm) (s : S) → StoresThrough sim → IsSized n d → LeavesPair n (sb_write sim d s)
  unfolding sb_write
  sb_write-LeavesPair {n} d s through v =
      if_both (LeavesPair n) (not (sb_supported d)) (some (sb_fail 3 d, s)) _
        (alike v refl refl refl refl refl refl refl) (stored-LeavesPair _ _ _ d s _ through refl v)

  pub note_busy-IsSized : {n : ℕ} (d : Dm) → IsSized n d → IsSized n (note_busy d)
  note_busy-IsSized {n} d v =
      if_both (IsSized n) (d.abstractcs.busy && (d.abstractcs.cmderr == cmderr_none)) _ d
        (failed-IsSized cmderr_busy d v) v

  pub autoexec-IsSized :
      {n : ℕ} (busy : Bool) (mask i : ℕ) (d : Dm)
      → IsSized n d
      → IsSized n (autoexec sim busy mask i d)
  autoexec-IsSized {n} busy mask i d v =
      if_both (IsSized n) (not busy && bit mask i) (perform_abstract_command sim d) d
        (perform-IsSized sim d v) v

  -- Reading.
  read_sbdata0-LeavesPair :
      {n : ℕ} (d : Dm) (s : S) → IsSized n d → LeavesPair n (read_sbdata0 sim d s)
  unfolding read_sbdata0
  read_sbdata0-LeavesPair {n} d s v =
      if_both (LeavesPair n) (not (d.sbcs.error == 0)) (some (d, s)) _ v (
        if_both (LeavesPair n) d.sbcs.readondata _ _
          (settled-LeavesPair _ _ (sb_read-LeavesPair d s v)) (incremented-IsSized d v))

  pub answered-Leaves :
      {A : Type 0} (n : ℕ) (a : A) (o : Option (Dm × S)) → LeavesPair n o → Leaves n (answered a o)
  answered-Leaves n a none v = tt
  answered-Leaves n a (some r) v = v

  pub dmi_read-Leaves :
      {n : ℕ} (address : ℕ) (d : Dm) (s : S) → IsSized n d → Leaves n (dmi_read sim address d s)
  unfolding dmi_read
  dmi_read-Leaves {n} address d s v =
      if_both (Leaves n) (at_data address) _ _
        (autoexec-IsSized d.abstractcs.busy _ _ _ (note_busy-IsSized d v))
        (if_both (Leaves n) (at_progbuf d address) _ _ (autoexec-IsSized d.abstractcs.busy _ _ d v)
          (if_both (Leaves n) (address == dm_sbdata0) _ _
            (answered-Leaves _ _ _ (read_sbdata0-LeavesPair d s v)) v))
