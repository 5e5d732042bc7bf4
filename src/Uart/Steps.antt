-- ===== src/Uart/Steps.antt =====
-- riscv/ns16550.cc: loads, stores and ticks of the serial port in any order.
use nnemu.Base.{
  ℕ, ◌+◌, ◌%◌, ◌≤◌, ◌≡◌, refl, sym, arith, Bool, true, false, not, ◌&&◌, ◌||◌, ltb, leb, ◌==◌,
  truthy, inl, inr, if◌then◌else◌, Bool-cases, Option, none, some, List, [], ◌∷◌, ◌++◌, length,
  bit_and, bit_or, length-append,
}
use nnemu.Base.Bits.{bit, bit-or}
use nnemu.Uart.{
  Uart, make, update_interrupt, rx_byte, tx_byte, poll, tick, is_empty, lsr_dr, iir_type_bits,
  fcr_enable_fifo, mcr_loop, uart_queue_size, max_backoff,
}
use nnemu.Uart.Interrupt.{
  IsStocked, IsSettled, update_interrupt-IsSettled, cleared-bit, transmitted-ready,
}
use nnemu.Uart.Registers.{
  receive, read_register, load_register, load, transmit, store_ier, store_register, store, register,
  dlab,
}

rx_byte_from :
    (q : List ℕ) (u : Uart)
    → IsStocked (record u { rx_queue = q })
    → IsStocked (rx_byte (record u { rx_queue = q })).0
unfolding rx_byte bit
rx_byte_from [] u v = record { fits = v.fits; ready = ground (arith, cleared-bit 1 u.lsr 0) }
rx_byte_from (b ∷ []) u v = elim (Bool-cases (truthy (bit_and u.lsr 16))) [
  | inl e ↦ rw e (record { fits = v.fits; ready = ground (arith, cleared-bit 16 u.lsr 0, v.ready) })
  | inr e ↦ rw e (record { fits = omega arith; ready = ground (arith, cleared-bit 1 u.lsr 0) })
]
rx_byte_from (b ∷ c ∷ rest) u v = elim (Bool-cases (truthy (bit_and u.lsr 16))) [
  | inl e ↦ rw e (record { fits = v.fits; ready = ground (arith, cleared-bit 16 u.lsr 0, v.ready) })
  | inr e ↦ rw e (record { fits = omega (arith, v.fits); ready = v.ready })
]

rx_byte-IsStocked : (u : Uart) → IsStocked u → IsStocked (rx_byte u).0
rx_byte-IsStocked u v = rx_byte_from u.rx_queue u v

is_empty-append : (xs : List ℕ) (x : ℕ) → is_empty (xs ++ x ∷ []) ≡ false
is_empty-append [] x = refl
is_empty-append (y ∷ ys) x = refl

-- A byte comes in at the end of the queue.
push : Uart → ℕ → Uart
push u b = record u { rx_queue = u.rx_queue ++ b ∷ []; lsr = bit_or u.lsr lsr_dr }

push-IsStocked : (u : Uart) (b : ℕ) → length u.rx_queue + 1 ≤ 64 → IsStocked (push u b)
unfolding push bit
push-IsStocked u b h = record {
  fits = ground (arith, length-append u.rx_queue (b ∷ []));
  ready = ground (arith, bit-or u.lsr 1 0, is_empty-append u.rx_queue b);
}

transmit-IsStocked : (val : ℕ) (u : Uart) → IsStocked u → IsStocked (transmit val u)
unfolding transmit tx_byte push
transmit-IsStocked val u v = elim (Bool-cases (dlab u)) [
  | inl d ↦ rw d (record { fits = v.fits; ready = v.ready })
  | inr d ↦ elim (Bool-cases (truthy (bit_and u.mcr mcr_loop))) [
    | inr l ↦ rw (d, l) (record { fits = v.fits; ready = rw (transmitted-ready u.lsr) v.ready })
    | inl l ↦ elim (Bool-cases (ltb (length u.rx_queue) uart_queue_size)) [
      | inl f ↦ rw (d, l, f) (push-IsStocked u val (ground arith))
      | inr f ↦ rw (d, l, f) v
    ]
  ]
]

store_ier-IsStocked : (val : ℕ) (u : Uart) → IsStocked u → IsStocked (store_ier val u)
unfolding store_ier
store_ier-IsStocked val u v = elim (Bool-cases (dlab u)) [
  | inl d ↦ rw d (record { fits = v.fits; ready = v.ready })
  | inr d ↦ rw d (record { fits = v.fits; ready = v.ready })
]

receive-IsStocked : (u : Uart) → IsStocked u → IsStocked (receive u).0
unfolding receive
receive-IsStocked u v = elim (Bool-cases (dlab u)) [
  | inl d ↦ rw d v
  | inr d ↦ rw d (rx_byte-IsStocked u v)
]

module _ {B : Type 0} where
  pair_IsSettled :
      (b : Bool) (x y : Uart × B) → IsSettled x.0 → IsSettled y.0 → IsSettled (if b then x else y).0
  pair_IsSettled true x y v w = v
  pair_IsSettled false x y v w = w

if_IsSettled : (b : Bool) (x y : Uart) → IsSettled x → IsSettled y → IsSettled (if b then x else y)
if_IsSettled true x y v w = v
if_IsSettled false x y v w = w

-- A field outside the interrupt's sources.
store_scr-IsSettled : (val : ℕ) (u : Uart) → IsSettled u → IsSettled (record u { scr = val })
store_scr-IsSettled val u v = record {
  stocked = record { fits = v.stocked.fits; ready = v.stocked.ready };
  line_right = v.line_right;
  no_int_right = v.no_int_right;
  rdi_right = v.rdi_right;
  thri_right = v.thri_right;
  rcvr_done = v.rcvr_done;
  xmit_done = v.xmit_done;
}

backoff-IsSettled : (n : ℕ) (u : Uart) → IsSettled u → IsSettled (record u { backoff_counter = n })
backoff-IsSettled n u v = record {
  stocked = record { fits = v.stocked.fits; ready = v.stocked.ready };
  line_right = v.line_right;
  no_int_right = v.no_int_right;
  rdi_right = v.rdi_right;
  thri_right = v.thri_right;
  rcvr_done = v.rcvr_done;
  xmit_done = v.xmit_done;
}

load_register-IsSettled : (r : ℕ) (u : Uart) → IsSettled u → IsSettled (load_register r u).0
unfolding load_register
load_register-IsSettled r u v =
    let got = update_interrupt-IsSettled (receive u).0 (receive-IsStocked u v.stocked) in
    let idle = record u { thri_ip = false } in
    let acknowledged =
      update_interrupt-IsSettled idle (record { fits = v.stocked.fits; ready = v.stocked.ready }) in
    let after = if truthy (bit_and u.iir 2) then update_interrupt idle else u in
    pair_IsSettled (r == 0) (update_interrupt (receive u).0, some (receive u).1) _ got
      (pair_IsSettled (r == 2) (after, some (bit_or u.iir iir_type_bits)) (u, read_register r u)
        (if_IsSettled (truthy (bit_and u.iir 2)) (update_interrupt idle) u acknowledged v) v)

-- A register that no source reads, then `update_interrupt`.
updated :
    (u w : Uart)
    → u.rx_queue ≡ w.rx_queue
    → u.lsr ≡ w.lsr
    → IsStocked u
    → IsSettled (update_interrupt w)
updated u w q l v =
    update_interrupt-IsSettled w
      (record { fits = rw (sym q) v.fits; ready = rw (sym q, sym l) v.ready })

store_register-IsSettled :
    (r val : ℕ) (u : Uart) → IsSettled u → IsSettled (store_register r val u).0
unfolding store_register
store_register-IsSettled r val u v =
    let sent = update_interrupt-IsSettled _ (transmit-IsStocked val u v.stocked) in
    let enabled = update_interrupt-IsSettled _ (store_ier-IsStocked val u v.stocked) in
    let fcr' = record u { fcr = val } in
    let lcr' = record u { lcr = val } in
    let mcr' = record u { mcr = val } in
    pair_IsSettled (r == 0) (update_interrupt (transmit val u), true) _ sent
      (pair_IsSettled (r == 1) (update_interrupt (store_ier val u), true) _ enabled
        (pair_IsSettled (r == 2) (update_interrupt fcr', true) _
          (updated u fcr' refl refl v.stocked)
          (pair_IsSettled (r == 3) (update_interrupt lcr', true) _
            (updated u lcr' refl refl v.stocked)
            (pair_IsSettled (r == 4) (update_interrupt mcr', true) _
              (updated u mcr' refl refl v.stocked)
              (pair_IsSettled (r == 5) (u, true) _ v
                (pair_IsSettled (r == 6) (u, true) _ v
                  (pair_IsSettled (r == 7) (record u { scr = val }, true) (u, false)
                    (store_scr-IsSettled val u v) v)))))))

poll-IsSettled :
    (rc : Option ℕ) (u : Uart) → IsSettled u → length u.rx_queue + 1 ≤ 64 → IsSettled (poll rc u).0
unfolding poll push
poll-IsSettled none u v h = backoff-IsSettled 1 u v
poll-IsSettled (some c) u v h =
    let w = push-IsStocked u (c % 256) h in
    update_interrupt-IsSettled _ (record { fits = w.fits; ready = w.ready })

tick-IsSettled : (rc : Option ℕ) (u : Uart) → IsSettled u → IsSettled (tick rc u).0
unfolding tick
tick-IsSettled rc u v =
    let closed =
      not (truthy (bit_and u.fcr fcr_enable_fifo))
      || truthy (bit_and u.mcr mcr_loop)
      || leb uart_queue_size (length u.rx_queue) in
    let waits = ltb 0 u.backoff_counter && ltb u.backoff_counter max_backoff in
    elim (Bool-cases closed) [
      | inl e ↦ rw e v
      | inr e ↦ elim (Bool-cases waits) [
        | inl f ↦ rw (e, f) (backoff-IsSettled (u.backoff_counter + 1) u v)
        | inr f ↦ rw (e, f) (poll-IsSettled rc u v (ground (arith, e)))
      ]
    ]

-- What can happen to the port: an access over the bus, or a tick of the simulator.
pub data Event : Type 0 where
  loads : ℕ → ℕ → Event
  stores : ℕ → ℕ → ℕ → Event
  ticks : Option ℕ → Event

make-IsSettled : (dlm : ℕ) → IsSettled (make dlm)
unfolding bit
make-IsSettled dlm = record {
  stocked = record { fits = omega arith; ready = refl };
  line_right = refl;
  no_int_right = refl;
  rdi_right = refl;
  thri_right = refl;
  rcvr_done = refl;
  xmit_done = refl;
}

module _ (reg_io_width reg_shift : ℕ) where
  unfoldable pub step : Uart → Event → Uart
  step u (loads addr len) = (load reg_io_width reg_shift addr len u).0
  step u (stores addr len val) = (store reg_io_width reg_shift addr len val u).0
  step u (ticks rc) = (tick rc u).0

  unfoldable pub run : Uart → List Event → Uart
  run u [] = u
  run u (e ∷ es) = run (step u e) es

  step-IsSettled : (u : Uart) (e : Event) → IsSettled u → IsSettled (step u e)
  unfolding step load store
  step-IsSettled u (loads addr len) v =
      let r = register reg_shift addr in
      pair_IsSettled (reg_io_width == len) (load_register r u) (u, none)
        (load_register-IsSettled r u v) v
  step-IsSettled u (stores addr len val) v =
      let r = register reg_shift addr in
      pair_IsSettled (reg_io_width == len) (store_register r val u) (u, false)
        (store_register-IsSettled r val u v) v
  step-IsSettled u (ticks rc) v = tick-IsSettled rc u v

  run_from-IsSettled : (es : List Event) (u : Uart) → IsSettled u → IsSettled (run u es)
  unfolding run
  run_from-IsSettled [] u v = v
  run_from-IsSettled (e ∷ es) u v = run_from-IsSettled es (step u e) (step-IsSettled u e v)

  -- From the constructor on, after any loads, stores and ticks, whatever `dlm` held at first: the
  -- line to the interrupt controller and the bits of `iir` say which enabled source asks, `data
  -- ready` says whether the queue holds a byte, and the queue never holds more than 64.
  pub run-IsSettled : (es : List Event) (dlm : ℕ) → IsSettled (run (make dlm) es)
  run-IsSettled es dlm = run_from-IsSettled es (make dlm) (make-IsSettled dlm)
