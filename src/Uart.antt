-- ===== src/Uart.antt =====
-- riscv/ns16550.cc and `ns16550_t` of riscv/devices.h: the serial port.
-- `line` is the level last given to `set_interrupt_level`, `sent` the bytes given to `char_write_`,
-- the last one first. What `char_read_` would return is an argument of `tick`: `none` for a negative
-- result.
pub mod Registers
pub mod Interrupt
pub mod Steps
pub mod Queue
pub mod Examples
use nnemu.Base.{
  ℕ, ◌+◌, ◌%◌, Bool, true, false, not, ◌&&◌, ◌||◌, ltb, leb, truthy, if◌then◌else◌, Option, none,
  some, List, [], ◌∷◌, ◌++◌, length, bit_and, bit_or,
}
use nnemu.Base.Bits.{bit_not}

pub record Uart : Type 0 where
  pub rx_queue : List ℕ
  pub dll : ℕ
  pub dlm : ℕ
  pub iir : ℕ
  pub ier : ℕ
  pub fcr : ℕ
  pub lcr : ℕ
  pub mcr : ℕ
  pub lsr : ℕ
  pub msr : ℕ
  pub scr : ℕ
  pub thri_ip : Bool
  pub backoff_counter : ℕ
  pub line : Bool
  pub sent : List ℕ

abbrev pub uart_queue_size : ℕ
uart_queue_size = 64

abbrev pub ier_thri : ℕ
ier_thri = 0x02

abbrev pub ier_rdi : ℕ
ier_rdi = 0x01

abbrev pub iir_no_int : ℕ
iir_no_int = 0x01

abbrev pub iir_thri : ℕ
iir_thri = 0x02

abbrev pub iir_rdi : ℕ
iir_rdi = 0x04

abbrev pub iir_type_bits : ℕ
iir_type_bits = 0xc0

abbrev pub fcr_enable_fifo : ℕ
fcr_enable_fifo = 0x01

abbrev pub fcr_clear_rcvr : ℕ
fcr_clear_rcvr = 0x02

abbrev pub fcr_clear_xmit : ℕ
fcr_clear_xmit = 0x04

abbrev pub lcr_dlab : ℕ
lcr_dlab = 0x80

abbrev pub mcr_loop : ℕ
mcr_loop = 0x10

abbrev pub mcr_out2 : ℕ
mcr_out2 = 0x08

abbrev pub lsr_temt : ℕ
lsr_temt = 0x40

abbrev pub lsr_thre : ℕ
lsr_thre = 0x20

abbrev pub lsr_bi : ℕ
lsr_bi = 0x10

abbrev pub lsr_dr : ℕ
lsr_dr = 0x01

abbrev pub msr_dcd : ℕ
msr_dcd = 0x80

abbrev pub msr_dsr : ℕ
msr_dsr = 0x20

abbrev pub msr_cts : ℕ
msr_cts = 0x10

-- `TEMT | THRE` set, as transmission is instantaneous.
abbrev pub transmitted : ℕ → ℕ
transmitted lsr = bit_or lsr (bit_or lsr_temt lsr_thre)

abbrev pub is_empty : List ℕ → Bool
is_empty [] = true
is_empty (b ∷ bytes) = false

-- The constructor leaves `dlm` alone, so what it holds is an argument.
abbrev pub make : ℕ → Uart
make dlm = record {
  rx_queue = [];
  dll = 0x0c;
  dlm = dlm;
  iir = iir_no_int;
  ier = 0;
  fcr = 0;
  lcr = 0;
  mcr = mcr_out2;
  lsr = bit_or lsr_temt lsr_thre;
  msr = bit_or msr_dcd (bit_or msr_dsr msr_cts);
  scr = 0;
  thri_ip = false;
  backoff_counter = 0;
  line = false;
  sent = [];
}

-- The steps of `update_interrupt`, in their order.
unfoldable pub clear_rx : Uart → Uart
clear_rx u =
    if truthy (bit_and u.fcr fcr_clear_rcvr)
    then record u {
      fcr = bit_and u.fcr (bit_not 8 fcr_clear_rcvr);
      rx_queue = [];
      lsr = bit_and u.lsr (bit_not 8 lsr_dr);
    }
    else u

unfoldable pub clear_tx : Uart → Uart
clear_tx u =
    if truthy (bit_and u.fcr fcr_clear_xmit)
    then record u { fcr = bit_and u.fcr (bit_not 8 fcr_clear_xmit); lsr = transmitted u.lsr }
    else u

unfoldable pub interrupts : Uart → ℕ
interrupts u =
    bit_or (if truthy (bit_and u.ier ier_rdi) && truthy (bit_and u.lsr lsr_dr) then iir_rdi else 0)
      (if truthy (bit_and u.ier ier_thri) && (truthy (bit_and u.lsr lsr_temt) && u.thri_ip)
        then iir_thri
        else 0)

unfoldable pub set_line : Uart → Uart
set_line u =
    if truthy (interrupts u)
    then record u { iir = interrupts u; line = true }
    else record u { iir = iir_no_int; line = false }

unfoldable pub nothing_to_send : Uart → Uart
nothing_to_send u =
    if truthy (bit_and u.ier ier_thri) then u else record u { lsr = transmitted u.lsr }

unfoldable pub update_interrupt : Uart → Uart
update_interrupt u = nothing_to_send (set_line (clear_tx (clear_rx u)))

unfoldable pub rx_byte : Uart → Uart × ℕ
rx_byte u = elim u.rx_queue [
  | [] ↦ (record u { lsr = bit_and u.lsr (bit_not 8 lsr_dr) }, 0)
  | b ∷ rest ↦
      if truthy (bit_and u.lsr lsr_bi)
      then (record u { lsr = bit_and u.lsr (bit_not 8 lsr_bi) }, 0)
      else (
        record u {
          rx_queue = rest;
          lsr = if is_empty rest then bit_and u.lsr (bit_not 8 lsr_dr) else u.lsr;
        },
        b,
      )
]

unfoldable pub tx_byte : Uart → ℕ → Uart
tx_byte u val = record u { lsr = transmitted u.lsr; thri_ip = true; sent = val ∷ u.sent }

abbrev pub max_backoff : ℕ
max_backoff = 16

-- The call of `char_read_` and what follows it; the second component says that it was called.
unfoldable pub poll : Option ℕ → Uart → Uart × Bool
poll none u = (record u { backoff_counter = 1 }, true)
poll (some c) u = (
  update_interrupt (record u {
    backoff_counter = 0;
    rx_queue = u.rx_queue ++ c % 256 ∷ [];
    lsr = bit_or u.lsr lsr_dr;
  }),
  true,
)

unfoldable pub tick : Option ℕ → Uart → Uart × Bool
tick rc u =
    if not (truthy (bit_and u.fcr fcr_enable_fifo))
      || truthy (bit_and u.mcr mcr_loop)
      || leb uart_queue_size (length u.rx_queue)
    then (u, false)
    else if ltb 0 u.backoff_counter && ltb u.backoff_counter max_backoff
    then (record u { backoff_counter = u.backoff_counter + 1 }, false)
    else poll rc u
