-- ===== src/Uart/History.antt =====
-- Whole histories of the serial port, and its interrupt and status registers.
use native.Mathlib.Decide.{dec_lt}
use tenclaw.Base.{
  ℕ, ◌+◌, ◌≡◌, sym, ap, ◌∙◌, ◌≢◌, ◌↔◌, ◌⊎◌, inl, inr, true, false, not, ◌&&◌, List, [], ◌∷◌, ◌++◌,
  arith, u8, test_bit,
}
use mathlib.Core.List.{append-nil, append_assoc}
use tenclaw.Uart.{
  Uart, has_input, is_dlab, pio_read, pio_write, read_iir, register_at, raise_irq_if_needed,
  write_ier,
}
use tenclaw.Uart.Fifo.{IsValid, waiting, slots, slots-nil}
use tenclaw.Uart.Ports.{Event, accepted, delivered, after, event-Streams}

abbrev pub run : Uart → List Event → Uart
run u [] = u
run u (e ∷ es) = run (after u e) es

abbrev pub all_accepted : Uart → List Event → List ℕ
all_accepted u [] = []
all_accepted u (e ∷ es) = accepted u e ++ all_accepted (after u e) es

abbrev pub all_delivered : Uart → List Event → List ℕ
all_delivered u [] = []
all_delivered u (e ∷ es) = delivered u e ++ all_delivered (after u e) es

-- Over any history of host input and of register reads and writes from a valid port, the bytes that
-- the guest got, then those that still wait, are the bytes that waited, then those that the FIFO took
-- in: none is lost, made up or reordered. The port stays valid.
pub run-stream :
    (u : Uart) (es : List Event)
    → IsValid u
    → IsValid (run u es)
      × (all_delivered u es ++ waiting (run u es) ≡ waiting u ++ all_accepted u es)
run-stream u [] i = (i, sym (append-nil (waiting u)))
run-stream u (e ∷ es) i =
    let s = event-Streams u e i in
    let (v, rest) = run-stream (after u e) es s.valid in
    (
      v,
      append_assoc (delivered u e) (all_delivered (after u e) es) (waiting (run (after u e) es))
          ∙ ap (λ t. delivered u e ++ t) rest
          ∙ sym (append_assoc (delivered u e) (waiting (after u e)) (all_accepted (after u e) es))
          ∙ ap (λ t. t ++ all_accepted (after u e) es) s.stream
          ∙ append_assoc (waiting u) (accepted u e) (all_accepted (after u e) es),
    )

-- IIR names received data whenever some waits and its interrupt is enabled, else an empty
-- transmitter if that is pending and enabled; naming the latter clears it, so it is named once.
pub read_iir_lem :
    (u : Uart)
    → (((read_iir u).0 ≡ 4) ↔ ((has_input u && test_bit u.ier 0) ≡ true))
      × (((read_iir u).0 ≡ 2) ↔ (
          (not (has_input u && test_bit u.ier 0) && (u.thre_pending && test_bit u.ier 1)) ≡ true))
      × (((read_iir u).0 ≡ 2) → (read_iir (read_iir u).1).0 ≡ 1)
unfolding read_iir
read_iir_lem u = (
  (λ h. ground arith, λ h. ground arith),
  (λ h. ground arith, λ h. ground arith),
  (λ h. ground arith),
)

-- The guest is interrupted whenever it enables an interrupt whose condition holds: on a write of IER
-- with the transmitter bit going up, or with received data waiting under its bit.
pub write_ier_interrupts :
    (u : Uart) (val : ℕ)
    → is_dlab u ≡ false
    → ((test_bit (u8 val) 1 ≡ true) × (test_bit u.ier 1 ≡ false))
      ⊎ ((test_bit (u8 val) 0 ≡ true) × (has_input u ≡ true))
    → ((pio_write u 1 val).irqs ≡ u.irqs + 1) × ((pio_write u 1 val).ier ≡ u8 val)
unfolding pio_write write_ier raise_irq_if_needed
write_ier_interrupts u val d (inl h) = ground arith
write_ier_interrupts u val d (inr h) = ground arith

-- LSR shows data ready exactly while a byte waits.
pub lsr_lem :
    (u : Uart)
    → is_dlab u ≡ false
    → IsValid u
    → (test_bit (pio_read u 5).0 0 ≡ true) ↔ (waiting u ≢ [])
unfolding pio_read register_at
lsr_lem u d i = (
  (λ h e. let idle = slots-nil u.rx_buf u.rx_head u.rx_count e in ground arith),
  (λ ne. elim (dec_lt 0 u.rx_count) [
    | yes h ↦ ground arith
    | no h ↦
        let idle : u.rx_count ≡ 0 = omega arith in
        absurd (ne (ap (λ n. slots u.rx_buf u.rx_head n) idle))
  ]),
)
