-- ===== src/Uart/Queue.antt =====
-- riscv/ns16550.cc: the receive queue of the serial port seen from the bus.
use nnemu.Base.{
  ℕ, zero, suc, ◌+◌, ◌≤◌, ◌≡◌, refl, ap, arith, subst, ap₂, true, false, truthy, inl, inr, ==_refl,
  ltb, Bool-cases, Option, some, List, [], ◌∷◌, ◌++◌, map, length, bit_and, length-append,
}
use mathlib.Core.List.{append-nil, append_assoc}
use nnemu.Base.Bits.{bit, bit-or, truthy-and-pow}
use nnemu.Uart.{
  Uart, update_interrupt, clear_rx, clear_tx, set_line, interrupts, nothing_to_send, rx_byte,
  transmitted, mcr_loop, uart_queue_size,
}
use nnemu.Uart.Interrupt.{cleared-bit}
use nnemu.Uart.Registers.{
  receive, load_register, register, load, store, transmit, store_register, dlab,
}

-- The queue holds `q`, and nothing stands in the way of it: the divisor latch is not selected, no
-- break is pending, no clear is pending.
pub record IsOpen (m : ℕ) (q : List ℕ) (u : Uart) : Type 0 where
  pub queue : u.rx_queue ≡ q
  pub mode : u.mcr ≡ m
  pub latch : dlab u ≡ false
  pub no_break : bit u.lsr 4 ≡ false
  pub no_clear : bit u.fcr 1 ≡ false

transmitted-break : (x : ℕ) → bit (transmitted x) 4 ≡ bit x 4
unfolding bit
transmitted-break x = ground (arith, bit-or x 0x60 4)

module _ (m : ℕ) (q : List ℕ) where
  clear_rx-IsOpen : (u : Uart) → IsOpen m q u → IsOpen m q (clear_rx u)
  unfolding clear_rx
  clear_rx-IsOpen u v = rw (truthy-and-pow 1 u.fcr, v.no_clear) v

  clear_tx-IsOpen : (u : Uart) → IsOpen m q u → IsOpen m q (clear_tx u)
  unfolding clear_tx bit
  clear_tx-IsOpen u v = elim (Bool-cases (truthy (bit_and u.fcr 4))) [
    | inl e ↦ rw e (record {
      queue = v.queue;
      mode = v.mode;
      latch = v.latch;
      no_break = rw (transmitted-break u.lsr) v.no_break;
      no_clear = ground (arith, cleared-bit 4 u.fcr 1, v.no_clear);
    })
    | inr e ↦ rw e v
  ]

  set_line-IsOpen : (u : Uart) → IsOpen m q u → IsOpen m q (set_line u)
  unfolding set_line
  set_line-IsOpen u v = elim (Bool-cases (truthy (interrupts u))) [
    | inl e ↦ rw e (record {
      queue = v.queue;
      mode = v.mode;
      latch = v.latch;
      no_break = v.no_break;
      no_clear = v.no_clear;
    })
    | inr e ↦ rw e (record {
      queue = v.queue;
      mode = v.mode;
      latch = v.latch;
      no_break = v.no_break;
      no_clear = v.no_clear;
    })
  ]

  nothing_to_send-IsOpen : (u : Uart) → IsOpen m q u → IsOpen m q (nothing_to_send u)
  unfolding nothing_to_send
  nothing_to_send-IsOpen u v = elim (Bool-cases (truthy (bit_and u.ier 2))) [
    | inl e ↦ rw e v
    | inr e ↦ rw e (record {
      queue = v.queue;
      mode = v.mode;
      latch = v.latch;
      no_break = rw (transmitted-break u.lsr) v.no_break;
      no_clear = v.no_clear;
    })
  ]

  update_interrupt-IsOpen : (u : Uart) → IsOpen m q u → IsOpen m q (update_interrupt u)
  unfolding update_interrupt
  update_interrupt-IsOpen u v =
      nothing_to_send-IsOpen _ (set_line-IsOpen _ (clear_tx-IsOpen _ (clear_rx-IsOpen u v)))

rx_byte-head :
    (m b : ℕ) (rest : List ℕ) (u : Uart)
    → IsOpen m (b ∷ rest) u
    → IsOpen m rest (rx_byte u).0 × ((rx_byte u).1 ≡ b)
unfolding rx_byte bit
rx_byte-head m b [] u v =
    rw (v.queue, truthy-and-pow 4 u.lsr, v.no_break)
      (
        record {
          queue = refl;
          mode = v.mode;
          latch = v.latch;
          no_break = ground (arith, cleared-bit 1 u.lsr 4, v.no_break);
          no_clear = v.no_clear;
        },
        refl,
      )
rx_byte-head m b (c ∷ rest) u v =
    rw (v.queue, truthy-and-pow 4 u.lsr, v.no_break)
      (
        record {
          queue = refl;
          mode = v.mode;
          latch = v.latch;
          no_break = v.no_break;
          no_clear = v.no_clear;
        },
        refl,
      )

push-IsOpen :
    (m b : ℕ) (q : List ℕ) (u : Uart)
    → IsOpen m q u
    → truthy (bit_and m mcr_loop) ≡ true
    → length q + 1 ≤ 64
    → IsOpen m (q ++ b ∷ []) (transmit b u)
unfolding transmit bit
push-IsOpen m b q u v l h =
    let room : ltb (length q) uart_queue_size ≡ true = ground arith in
    rw (v.latch, v.mode, l, v.queue, room)
      (record {
        queue = refl;
        mode = refl;
        latch = v.latch;
        no_break = ground (arith, bit-or u.lsr 1 4, v.no_break);
        no_clear = v.no_clear;
      })

-- The data register, loaded and stored over the bus.
module _ (width reg_shift addr : ℕ) (at_data : register reg_shift addr ≡ 0) where
  load-head :
      (m b : ℕ) (rest : List ℕ) (u : Uart)
      → IsOpen m (b ∷ rest) u
      → IsOpen m rest (load width reg_shift addr width u).0
        × ((load width reg_shift addr width u).1 ≡ some b)
  unfolding load load_register receive
  load-head m b rest u v =
      let head = rx_byte-head m b rest u v in
      rw (==_refl width, at_data, v.latch)
        (update_interrupt-IsOpen m rest (rx_byte u).0 head.0, ap some head.1)

  store-push :
      (m b : ℕ) (q : List ℕ) (u : Uart)
      → IsOpen m q u
      → truthy (bit_and m mcr_loop) ≡ true
      → length q + 1 ≤ 64
      → IsOpen m (q ++ b ∷ []) (store width reg_shift addr width b u).0
  unfolding store store_register
  store-push m b q u v l h =
      rw (==_refl width, at_data)
        (update_interrupt-IsOpen m (q ++ b ∷ []) (transmit b u) (push-IsOpen m b q u v l h))

-- The same access, again and again.
module _ (width reg_shift addr : ℕ) where
  unfoldable pub loads : ℕ → Uart → List (Option ℕ)
  loads zero u = []
  loads (suc n) u = let (after, got) = load width reg_shift addr width u in got ∷ loads n after

  unfoldable pub stores : List ℕ → Uart → Uart
  stores [] u = u
  stores (b ∷ bytes) u = stores bytes (store width reg_shift addr width b u).0

-- As many loads of the data register as the queue holds bytes return the queue in order, whatever
-- the width, the register spacing and the other registers are, while the divisor latch is not
-- selected and no break or clear is pending.
pub loads-queue :
    (width reg_shift addr m : ℕ) (q : List ℕ) (u : Uart)
    → register reg_shift addr ≡ 0
    → IsOpen m q u
    → loads width reg_shift addr (length q) u ≡ map some q
unfolding loads
loads-queue width reg_shift addr m [] u at_data v = refl
loads-queue width reg_shift addr m (b ∷ rest) u at_data v =
    let head = load-head width reg_shift addr at_data m b rest u v in
    ap₂ (λ x xs. x ∷ xs) head.1 (loads-queue width reg_shift addr m rest _ at_data head.0)

stores-IsOpen :
    (width reg_shift addr m : ℕ) (bytes q : List ℕ) (u : Uart)
    → register reg_shift addr ≡ 0
    → truthy (bit_and m mcr_loop) ≡ true
    → length q + length bytes ≤ 64
    → IsOpen m q u
    → IsOpen m (q ++ bytes) (stores width reg_shift addr bytes u)
unfolding stores
stores-IsOpen width reg_shift addr m [] q u at_data l h v = rw (append-nil q) v
stores-IsOpen width reg_shift addr m (b ∷ bytes) q u at_data l h v =
    let fits : length (q ++ b ∷ []) + length bytes ≤ 64 = omega (arith, length-append q (b ∷ [])) in
    let one = store-push width reg_shift addr at_data m b q u v l (omega arith) in
    subst (λ t. IsOpen m t (stores width reg_shift addr (b ∷ bytes) u))
      (append_assoc q (b ∷ []) bytes)
      (stores-IsOpen width reg_shift addr m bytes (q ++ b ∷ []) _ at_data l fits one)

-- In loopback mode, with the divisor latch off and neither a break nor a clear of the queue pending,
-- bytes stored to the data register come back from it in order and none is lost, if the queue is empty
-- at first and they are at most 64.
pub loads-stores :
    (width reg_shift addr m : ℕ) (bytes : List ℕ) (u : Uart)
    → register reg_shift addr ≡ 0
    → truthy (bit_and m mcr_loop) ≡ true
    → length bytes ≤ 64
    → IsOpen m [] u
    → loads width reg_shift addr (length bytes) (stores width reg_shift addr bytes u)
      ≡ map some bytes
loads-stores width reg_shift addr m bytes u at_data l h v =
    loads-queue width reg_shift addr m bytes _ at_data
      (stores-IsOpen width reg_shift addr m bytes [] u at_data l (omega arith) v)
