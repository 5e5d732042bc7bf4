-- ===== src/Uart/Registers.antt =====
-- riscv/ns16550.cc: `load` and `store`, register by register.
use nnemu.Base.{
  ℕ, ◌/◌, ◌%◌, ◌^◌, Bool, true, false, not, ◌&&◌, ◌||◌, ltb, ◌==◌, truthy, if◌then◌else◌, Option,
  none, some, ◌++◌, [], ◌∷◌, length, bit_and, bit_or,
}
use nnemu.Uart.{
  Uart, update_interrupt, rx_byte, tx_byte, lcr_dlab, iir_type_bits, iir_thri, mcr_loop,
  uart_queue_size, lsr_dr, ier_thri,
}

-- The number of the register: `addr >>= reg_shift; addr &= 7`.
abbrev pub register : ℕ → ℕ → ℕ
register reg_shift addr = addr / 2 ^ reg_shift % 8

abbrev pub dlab : Uart → Bool
dlab u = truthy (bit_and u.lcr lcr_dlab)

-- What the case of `switch (addr)` leaves, before `update_interrupt`.
unfoldable pub receive : Uart → Uart × ℕ
receive u = if dlab u then (u, u.dll) else rx_byte u

-- The registers that a load leaves alone.
unfoldable pub read_register : ℕ → Uart → Option ℕ
read_register r u =
    if r == 1
    then some (if dlab u then u.dlm else u.ier)
    else if r == 3
    then some u.lcr
    else if r == 4
    then some u.mcr
    else if r == 5
    then some u.lsr
    else if r == 6
    then some u.msr
    else if r == 7
    then some u.scr
    else none

unfoldable pub load_register : ℕ → Uart → Uart × Option ℕ
load_register r u =
    if r == 0
    then (update_interrupt (receive u).0, some (receive u).1)
    else if r == 2
    then (
      if truthy (bit_and u.iir iir_thri)
          then update_interrupt (record u { thri_ip = false })
          else u,
      some (bit_or u.iir iir_type_bits),
    )
    else (u, read_register r u)

-- The byte, or `none` where `load` returns false.
unfoldable pub load : ℕ → ℕ → ℕ → ℕ → Uart → Uart × Option ℕ
load reg_io_width reg_shift addr len u =
    if reg_io_width == len then load_register (register reg_shift addr) u else (u, none)

unfoldable pub transmit : ℕ → Uart → Uart
transmit val u =
    if dlab u
    then record u { dll = val }
    else if truthy (bit_and u.mcr mcr_loop)
    then (if ltb (length u.rx_queue) uart_queue_size
        then record u { rx_queue = u.rx_queue ++ val ∷ []; lsr = bit_or u.lsr lsr_dr }
        else u)
    else tx_byte u val

unfoldable pub store_ier : ℕ → Uart → Uart
store_ier val u =
    if dlab u
    then record u { dlm = val }
    else (let ier' = bit_and val 0x0f in
        record u {
          ier = ier';
          thri_ip =
              (truthy (bit_and ier' ier_thri) && not (truthy (bit_and u.ier ier_thri)))
              || u.thri_ip;
        })

unfoldable pub store_register : ℕ → ℕ → Uart → Uart × Bool
store_register r val u =
    if r == 0
    then (update_interrupt (transmit val u), true)
    else if r == 1
    then (update_interrupt (store_ier val u), true)
    else if r == 2
    then (update_interrupt (record u { fcr = val }), true)
    else if r == 3
    then (update_interrupt (record u { lcr = val }), true)
    else if r == 4
    then (update_interrupt (record u { mcr = val }), true)
    else if r == 5
    then (u, true)
    else if r == 6
    then (u, true)
    else if r == 7
    then (record u { scr = val }, true)
    else (u, false)

-- `val` is `bytes[0]`.
unfoldable pub store : ℕ → ℕ → ℕ → ℕ → ℕ → Uart → Uart × Bool
store reg_io_width reg_shift addr len val u =
    if reg_io_width == len then store_register (register reg_shift addr) val u else (u, false)
