-- ===== src/Uart/Interrupt.antt =====
-- riscv/ns16550.cc: the interrupt line and the registers that tell its source.
use nnemu.Base.{
  ℕ, ◌≤◌, ◌≡◌, refl, ap, ◌∙◌, arith, Bool, true, false, not, ◌&&◌, ◌||◌, truthy, inl, inr,
  if◌then◌else◌, Bool-cases, length, bit_and, bit_or,
}
use nnemu.Base.Bits.{bit, bit_not, bit-and, bit-or, bit-not, truthy-and-pow}
use nnemu.Uart.{
  Uart, clear_rx, clear_tx, interrupts, set_line, nothing_to_send, update_interrupt, is_empty,
  transmitted, iir_rdi, iir_thri,
}

-- The sources as the manual of the port describes them: received data, and an empty transmitter.
abbrev pub rx_wanted : Uart → Bool
rx_wanted u = bit u.ier 0 && bit u.lsr 0

abbrev pub tx_wanted : Uart → Bool
tx_wanted u = bit u.ier 1 && (bit u.lsr 6 && u.thri_ip)

-- The queue fits, and `data ready` says whether it holds something.
pub record IsStocked (u : Uart) : Type 0 where
  pub fits : length u.rx_queue ≤ 64
  pub ready : bit u.lsr 0 ≡ not (is_empty u.rx_queue)

pub record IsSettled (u : Uart) : Type 0 where
  pub stocked : IsStocked u
  pub line_right : u.line ≡ (rx_wanted u || tx_wanted u)
  pub no_int_right : bit u.iir 0 ≡ not u.line
  pub rdi_right : bit u.iir 2 ≡ rx_wanted u
  pub thri_right : bit u.iir 1 ≡ tx_wanted u
  pub rcvr_done : bit u.fcr 1 ≡ false
  pub xmit_done : bit u.fcr 2 ≡ false

transmitted-bit : (x i : ℕ) → bit (transmitted x) i ≡ (bit x i || bit 0x60 i)
transmitted-bit x i = bit-or x 0x60 i

pub transmitted-ready : (x : ℕ) → bit (transmitted x) 0 ≡ bit x 0
unfolding bit
transmitted-ready x = ground (arith, transmitted-bit x 0)

pub cleared-bit :
    (k x i : ℕ) → k ≤ 255 → i ≤ 7 → bit (bit_and x (bit_not 8 k)) i ≡ (bit x i && not (bit k i))
cleared-bit k x i hk hi =
    bit-and x (bit_not 8 k) i ∙ ap (λ t. bit x i && t) (bit-not 8 k i (omega arith) (omega arith))

interrupts_lem :
    (u : Uart)
    → interrupts u
      ≡ bit_or (if rx_wanted u then iir_rdi else 0) (if tx_wanted u then iir_thri else 0)
unfolding interrupts
interrupts_lem u =
    rw
      (
        truthy-and-pow 0 u.ier,
        truthy-and-pow 0 u.lsr,
        truthy-and-pow 1 u.ier,
        truthy-and-pow 6 u.lsr,
      )
      refl

-- The line and the register after `set_line`.
code_of : (r t : Bool) → ℕ
code_of r t = bit_or (if r then iir_rdi else 0) (if t then iir_thri else 0)

record LineFollows (r t : Bool) (s : Uart) : Type 0 where
  on : s.line ≡ (r || t)
  no_int : bit s.iir 0 ≡ not (r || t)
  rdi : bit s.iir 2 ≡ r
  thri : bit s.iir 1 ≡ t

with_code : ℕ → Uart → Uart
with_code n u =
    if truthy n then record u { iir = n; line = true } else record u { iir = 1; line = false }

with_code-LineFollows : (r t : Bool) (u : Uart) → LineFollows r t (with_code (code_of r t) u)
unfolding with_code code_of bit
with_code-LineFollows true true u = record { on = refl; no_int = refl; rdi = refl; thri = refl }
with_code-LineFollows true false u = record { on = refl; no_int = refl; rdi = refl; thri = refl }
with_code-LineFollows false true u = record { on = refl; no_int = refl; rdi = refl; thri = refl }
with_code-LineFollows false false u = record { on = refl; no_int = refl; rdi = refl; thri = refl }

set_line-with_code : (u : Uart) → set_line u ≡ with_code (code_of (rx_wanted u) (tx_wanted u)) u
unfolding set_line with_code code_of
set_line-with_code u = rw (interrupts_lem u) refl

set_line-LineFollows : (u : Uart) → LineFollows (rx_wanted u) (tx_wanted u) (set_line u)
set_line-LineFollows u =
    rw (set_line-with_code u) (with_code-LineFollows (rx_wanted u) (tx_wanted u) u)

-- What `set_line` leaves alone.
record SameState (u v : Uart) : Type 0 where
  queue : u.rx_queue ≡ v.rx_queue
  ier : u.ier ≡ v.ier
  fcr : u.fcr ≡ v.fcr
  lsr : u.lsr ≡ v.lsr
  thri_ip : u.thri_ip ≡ v.thri_ip

set_line-SameState : (u : Uart) → SameState (set_line u) u
unfolding set_line
set_line-SameState u = elim (Bool-cases (truthy (interrupts u))) [
  | inl e ↦ rw e (record { queue = refl; ier = refl; fcr = refl; lsr = refl; thri_ip = refl })
  | inr e ↦ rw e (record { queue = refl; ier = refl; fcr = refl; lsr = refl; thri_ip = refl })
]

settle_line :
    (u s : Uart)
    → IsStocked u
    → bit u.fcr 1 ≡ false
    → bit u.fcr 2 ≡ false
    → LineFollows (rx_wanted u) (tx_wanted u) s
    → SameState s u
    → IsSettled s
settle_line u s stock f1 f2 l e = record {
  stocked = record { fits = rw e.queue stock.fits; ready = rw (e.queue, e.lsr) stock.ready };
  line_right = rw (e.ier, e.lsr, e.thri_ip) l.on;
  no_int_right = rw l.on l.no_int;
  rdi_right = rw (e.ier, e.lsr) l.rdi;
  thri_right = rw (e.ier, e.lsr, e.thri_ip) l.thri;
  rcvr_done = rw e.fcr f1;
  xmit_done = rw e.fcr f2;
}

nothing_to_send-IsSettled : (u : Uart) → IsSettled u → IsSettled (nothing_to_send u)
unfolding nothing_to_send
nothing_to_send-IsSettled u v =
    let en = truthy-and-pow 1 u.ier in
    let same = transmitted-ready u.lsr in
    elim (Bool-cases (bit u.ier 1)) [
      | inl e ↦ rw (en, e) v
      | inr e ↦
          rw (en, e)
            (record {
              stocked = record { fits = v.stocked.fits; ready = rw same v.stocked.ready };
              line_right = ground (arith, v.line_right, same);
              no_int_right = v.no_int_right;
              rdi_right = rw same v.rdi_right;
              thri_right = ground (arith, v.thri_right);
              rcvr_done = v.rcvr_done;
              xmit_done = v.xmit_done;
            })
    ]

-- The two clearing steps.
clear_rx-done : (u : Uart) → bit (clear_rx u).fcr 1 ≡ false
unfolding clear_rx bit
clear_rx-done u = ground (arith, truthy-and-pow 1 u.fcr, cleared-bit 2 u.fcr 1)

clear_rx-IsStocked : (u : Uart) → IsStocked u → IsStocked (clear_rx u)
unfolding clear_rx bit
clear_rx-IsStocked u v = elim (Bool-cases (truthy (bit_and u.fcr 2))) [
  | inl e ↦ rw e (record { fits = omega arith; ready = ground (arith, cleared-bit 1 u.lsr 0) })
  | inr e ↦ rw e v
]

clear_tx-done : (u : Uart) → bit (clear_tx u).fcr 2 ≡ false
unfolding clear_tx bit
clear_tx-done u = ground (arith, truthy-and-pow 2 u.fcr, cleared-bit 4 u.fcr 2)

clear_tx-rcvr : (u : Uart) → bit u.fcr 1 ≡ false → bit (clear_tx u).fcr 1 ≡ false
unfolding clear_tx bit
clear_tx-rcvr u h = ground (arith, cleared-bit 4 u.fcr 1)

clear_tx-IsStocked : (u : Uart) → IsStocked u → IsStocked (clear_tx u)
unfolding clear_tx
clear_tx-IsStocked u v = elim (Bool-cases (truthy (bit_and u.fcr 4))) [
  | inl e ↦ rw e (record { fits = v.fits; ready = rw (transmitted-ready u.lsr) v.ready })
  | inr e ↦ rw e v
]

pub update_interrupt-IsSettled : (u : Uart) → IsStocked u → IsSettled (update_interrupt u)
unfolding update_interrupt
update_interrupt-IsSettled u v =
    let x = clear_tx (clear_rx u) in
    nothing_to_send-IsSettled (set_line x) (
      settle_line x (set_line x) (clear_tx-IsStocked (clear_rx u) (clear_rx-IsStocked u v))
        (clear_tx-rcvr (clear_rx u) (clear_rx-done u)) (clear_tx-done (clear_rx u))
        (set_line-LineFollows x) (set_line-SameState x))
