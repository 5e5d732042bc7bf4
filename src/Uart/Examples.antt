-- ===== src/Uart/Examples.antt =====
-- The serial port in loopback mode.
use nnemu.Base.{ℕ, ◌≡◌, refl, arith, some, List, [], ◌∷◌, map, length}
use nnemu.Base.Bits.{bit}
use nnemu.Uart.{Uart, make, mcr_loop}
use nnemu.Uart.Steps.{Event, run, run-IsSettled}
use nnemu.Uart.Interrupt.{IsSettled}
use nnemu.Uart.Queue.{IsOpen, loads, stores, loads-stores}

-- Interrupts on received data, loopback, a byte stored, a tick, and the byte loaded.
abbrev session : List Event
session =
    Event.stores 1 1 1
    ∷ Event.stores 4 1 0x10
    ∷ Event.stores 0 1 0x41
    ∷ Event.ticks (some 0x42)
    ∷ Event.loads 0 1
    ∷ []

run-IsSettled_example : IsSettled (run 1 0 (make 0) session)
run-IsSettled_example = run-IsSettled 1 0 session 0

abbrev looped : Uart
looped = record (make 0) { mcr = mcr_loop }

looped-IsOpen : IsOpen mcr_loop [] looped
unfolding bit
looped-IsOpen = record { queue = refl; mode = refl; latch = refl; no_break = refl; no_clear = refl }

abbrev two : List ℕ
two = 7 ∷ 8 ∷ []

abbrev filled : Uart
filled = record (make 0) { rx_queue = two; lsr = 0x61 }

filled-IsOpen : IsOpen 8 two filled
unfolding bit
filled-IsOpen = record { queue = refl; mode = refl; latch = refl; no_break = refl; no_clear = refl }

abbrev message : List ℕ
message = 0x68 ∷ 0x65 ∷ 0x6c ∷ []

loads-stores_example : loads 1 2 0 (length message) (stores 1 2 0 message looped) ≡ map some message
loads-stores_example =
    loads-stores 1 2 0 mcr_loop message looped refl refl (omega arith) looped-IsOpen
