-- ===== src/DebugModule/Stored.antt =====
-- riscv/debug_module.cc: the sizes of the arrays after a store of a hart.
use nnemu.Base.{
  Bool, List, Option, [], ap, arith, bit_and, if_both, if_first, if_split, inl, inr, ◌⊎◌, ◌≤◌,
  false, if◌then◌else◌, length, length-set, none, not, refl, set, some, sym, ℕ, ◌&&◌, ◌*◌, ◌+◌, ◌-◌,
  ◌<◌, ◌==◌, ◌^◌, ◌∙◌, ◌∷◌, ◌≡◌, true,
}
use nnemu.Base.Bits.{bit, bit_not}
use nnemu.DebugModule.{
  Dm, Sim, cmderr_exception, cmderr_none, datasize, debug_data_start, debug_progbuf_start, flags_at,
  hart_at, program_buffer_bytes, read32, selected_hart_id, splice,
}
use nnemu.DebugModule.Width.{field_width_lem}
use nnemu.DebugModule.Fields.{
  debug_rom_exception, debug_rom_flag_go, debug_rom_flag_resume, debug_rom_going, debug_rom_halted,
  debug_rom_resuming,
}
use nnemu.DebugModule.Program.{IsSized, failed-IsSized, splice-length}
use nnemu.DebugModule.Access.{
  clear_flag, halt_group, has_flags, has_state, hart_halted, hart_resuming, inside, inside_word,
  named, raise_exception, store,
}

-- What an access leaves; a trap leaves nothing.
abbrev pub LeavesModule : ℕ → Option Dm → Type 0
LeavesModule n none = Unit
LeavesModule n (some d) = IsSized n d

abbrev pub LeavesPair : {S : Type 0} → ℕ → Option (Dm × S) → Type 0
LeavesPair n none = Unit
LeavesPair n (some r) = IsSized n r.0

abbrev pub Leaves : {S A : Type 0} → ℕ → Option (Dm × S × A) → Type 0
Leaves n none = Unit
Leaves n (some r) = IsSized n r.0

-- A module whose arrays have the lengths of those of a module of the right sizes.
pub alike :
    {n : ℕ} {d e : Dm}
    → IsSized n d
    → e.debug_abstract ≡ d.debug_abstract
    → e.dmdata ≡ d.dmdata
    → e.program_buffer ≡ d.program_buffer
    → e.config ≡ d.config
    → length e.hart_state ≡ length d.hart_state
    → length e.debug_rom_flags ≡ length d.debug_rom_flags
    → length e.hart_array_mask ≡ length d.hart_array_mask
    → IsSized n e
alike v a b c f p q r = record {
  abstract_size = ap length a ∙ v.abstract_size;
  data_size = ap length b ∙ v.data_size;
  buffer_size = ap length c ∙ v.buffer_size ∙ ap program_buffer_bytes (sym f);
  states_size = p ∙ v.states_size;
  flags_size = q ∙ v.flags_size;
  mask_size = r ∙ v.mask_size;
}

halt_group-IsSized :
    {n : ℕ} (group : ℕ) (ids : List ℕ) (d : Dm) → IsSized n d → IsSized n (halt_group group ids d)
unfolding halt_group
halt_group-IsSized {n} group [] d v = v
halt_group-IsSized {n} group (id ∷ ids) d v = halt_group-IsSized group ids _ (
    if_both (IsSized n) (not (hart_at d id).halted && ((hart_at d id).haltgroup == group)) _ d
      (alike v refl refl refl refl refl refl refl) v)

spliced :
    (base size addr : ℕ) (memory bytes : List ℕ)
    → length memory ≡ size
    → inside base size addr (length bytes) ≡ true
    → addr + length bytes < 2 ^ 64
    → length (splice memory (addr - base) bytes) ≡ size
spliced base size addr memory bytes e at h =
    splice-length memory (addr - base) bytes (ground (arith, e, at, h)) ∙ e

spliced_word :
    (base size addr : ℕ) (memory bytes : List ℕ)
    → length memory ≡ size
    → inside_word base size addr (length bytes) ≡ true
    → addr + length bytes < 2 ^ 64
    → length (splice memory (addr - base) bytes) ≡ size
spliced_word base size addr memory bytes e at h =
    splice-length memory (addr - base) bytes (ground (arith, e, at, h)) ∙ e

clear_flag-IsSized : {n : ℕ} (id b : ℕ) (d : Dm) → IsSized n d → IsSized n (clear_flag id b d)
clear_flag-IsSized id b d v =
    alike v refl refl refl refl refl
      (length-set d.debug_rom_flags id (bit_and (flags_at d id) (bit_not 8 (2 ^ b)))) refl

named-LeavesPair : {n : ℕ} (b : Bool) (d : Dm) → IsSized n d → LeavesPair n (named b d)
named-LeavesPair {n} b d v = if_both (LeavesPair n) b (some (d, true)) none v tt

-- A store to one of the addresses where a hart reports itself has the ID of a hart below `n`.
abbrev pub Names : ℕ → ℕ → List ℕ → Type 0
Names n addr bytes =
    (addr ≡ debug_rom_halted) ⊎ ((addr ≡ debug_rom_going) ⊎ (addr ≡ debug_rom_resuming))
    → (length bytes ≡ 4) × (read32 bytes 0 < n)

abbrev pub IsSome : {A : Type 0} → Option A → Type 0
IsSome none = ⊥
IsSome (some a) = Unit

module _ {S : Type 0} (sim : Sim S) where
  hart_halted-IsSized : {n : ℕ} (id : ℕ) (d : Dm) → IsSized n d → IsSized n (hart_halted sim id d)
  unfolding hart_halted
  hart_halted-IsSized {n} id d v =
      let h = hart_at d id in
      let stopped = record d { hart_state = set d.hart_state id (record h { halted = true }) } in
      let kept = length-set d.hart_state id (record h { halted = true }) in
      let halts : IsSized n stopped = alike v refl refl refl refl kept refl refl in
      let e =
        if h.halted
        then d
        else if h.haltgroup == 0
        then stopped
        else halt_group h.haltgroup sim.harts stopped in
      let w = if_both (IsSized n) h.halted d _ v (
        if_both (IsSized n) (h.haltgroup == 0) stopped _ halts
          (halt_group-IsSized h.haltgroup sim.harts stopped halts)) in
      if_both (IsSized n)
        ((selected_hart_id sim e == id) && not (bit (flags_at e id) debug_rom_flag_go)) _ e
        (alike w refl refl refl refl refl refl refl) w

  hart_resuming-IsSized :
      {n : ℕ} (id : ℕ) (d : Dm) → IsSized n d → IsSized n (hart_resuming sim id d)
  unfolding hart_resuming
  hart_resuming-IsSized {n} id d v =
      let h = record (hart_at d id) { halted = false; resumeack = true } in
      clear_flag-IsSized id debug_rom_flag_resume (record d { hart_state = set d.hart_state id h })
        (alike v refl refl refl refl (length-set d.hart_state id h) refl refl)

  raise_exception-IsSized : {n : ℕ} (d : Dm) → IsSized n d → IsSized n (raise_exception sim d)
  unfolding raise_exception
  raise_exception-IsSized {n} d v =
      if_both (IsSized n) (d.abstractcs.cmderr == cmderr_none) _ d
        (failed-IsSized cmderr_exception d v) v

  pub store-LeavesPair :
      {n : ℕ} (addr : ℕ) (bytes : List ℕ) (d : Dm)
      → addr + length bytes < 2 ^ 64
      → IsSized n d
      → LeavesPair n (store sim addr bytes d)
  unfolding store
  store-LeavesPair {n} addr bytes d h v =
      let P = λ (r : Option (Dm × Bool)). LeavesPair n r in
      let len = length bytes in
      let id = if len == 4 then read32 bytes 0 else 0 in
      if_split P (inside debug_data_start (datasize * 4) addr len) _ _
        (λ at. record {
          abstract_size = v.abstract_size;
          data_size = spliced debug_data_start (datasize * 4) addr d.dmdata bytes v.data_size at h;
          buffer_size = v.buffer_size;
          states_size = v.states_size;
          flags_size = v.flags_size;
          mask_size = v.mask_size;
        })
        (λ out.
          if_split P
            (inside_word (debug_progbuf_start d.config) (program_buffer_bytes d.config) addr len) _
            _
            (λ at. record {
              abstract_size = v.abstract_size;
              data_size = v.data_size;
              buffer_size =
                  spliced_word (debug_progbuf_start d.config) (program_buffer_bytes d.config) addr
                    d.program_buffer bytes v.buffer_size at h;
              states_size = v.states_size;
              flags_size = v.flags_size;
              mask_size = v.mask_size;
            })
            (λ out.
              if_both P (addr == debug_rom_halted) _ _
                (named-LeavesPair (has_state len id d) _ (hart_halted-IsSized id d v))
                (if_both P (addr == debug_rom_going) _ _
                  (named-LeavesPair (has_flags len id d) _
                    (clear_flag-IsSized id debug_rom_flag_go d v))
                  (if_both P (addr == debug_rom_resuming) _ _
                    (named-LeavesPair (has_state len id d && has_flags len id d) _
                      (hart_resuming-IsSized id d v))
                    (if_both P (addr == debug_rom_exception) _ _ (raise_exception-IsSized d v)
                      v)))))

  reported :
      {n : ℕ} (bytes : List ℕ) (d : Dm)
      → 1 ≤ n
      → n ≤ 1024
      → IsSized n d
      → (length bytes ≡ 4) × (read32 bytes 0 < n)
      → let id = if length bytes == 4 then read32 bytes 0 else 0 in
        (has_state (length bytes) id d ≡ true) × (has_flags (length bytes) id d ≡ true)
  reported {n} bytes d low high v own =
      let width = (field_width_lem n low (omega (arith, high))).1 in
      (ground (arith, own, width, v.states_size), ground (arith, own, high, v.flags_size))

  -- Such a store has a defined result.
  pub store-IsSome :
      {n : ℕ} (addr : ℕ) (bytes : List ℕ) (d : Dm)
      → 1 ≤ n
      → n ≤ 1024
      → IsSized n d
      → Names n addr bytes
      → IsSome (store sim addr bytes d)
  unfolding store
  store-IsSome {n} addr bytes d low high v names =
      let P = λ (r : Option (Dm × Bool)). IsSome r in
      let len = length bytes in
      let id = if len == 4 then read32 bytes 0 else 0 in
      let known = reported bytes d low high v in
      if_both P (inside debug_data_start (datasize * 4) addr (length bytes)) _ _ tt (
        if_both P
          (inside_word (debug_progbuf_start d.config) (program_buffer_bytes d.config) addr
            (length bytes))
          _ _ tt
          (if_split P (addr == debug_rom_halted) _ _
            (λ at. if_first P _ _ none (known (names (inl (ground (arith, at))))).0 tt)
            (λ out.
              if_split P (addr == debug_rom_going) _ _
                (λ at. if_first P _ _ none (known (names (inr (inl (ground (arith, at)))))).1 tt)
                (λ out.
                  if_split P (addr == debug_rom_resuming) _ _
                    (λ at.
                      let both = known (names (inr (inr (ground (arith, at))))) in
                      if_first P (has_state len id d && has_flags len id d) _ none
                        (ground (arith, both)) tt)
                    (λ out. if_both P (addr == debug_rom_exception) _ _ tt tt)))))
