-- ===== src/Uart/Ports.antt =====
-- The port interface: what the guest reads, and the stream of received bytes over any history.
use native.Mathlib.Decide.{dec_lt}
use tenclaw.Base.{
  ℕ, zero, suc, ◌≡◌, refl, sym, ap, subst, ◌∙◌, ◌≢◌, ◌⊎◌, inl, inr, true, false, not, ◌&&◌, List,
  [], ◌∷◌, ◌++◌, arith, ltb, ◌==◌, if◌then◌else◌, Bool-cases, length,
}
use mathlib.Core.List.{append-nil}
use tenclaw.Uart.{
  Uart, push_input, pop_rx, has_input, is_dlab, raise_irq_if_needed, pio_read, pio_write, write_ier,
  read_iir, read_rbr,
}
use tenclaw.Uart.Fifo.{IsValid, waiting, push_input_lem, pop_rx_lem, slots, slots-nil, slots-pop}

-- What happens to the port: a byte comes from the host, the guest reads or writes a register.
pub data Event : Type 0 where
  input : ℕ → Event
  read : ℕ → Event
  write : ℕ → ℕ → Event

-- The bytes that the FIFO takes in at an event, and those that the guest gets from it.
abbrev pub accepted : Uart → Event → List ℕ
accepted u (input byte) = if ltb u.rx_count 256 then byte ∷ [] else []
accepted u (read offset) = []
accepted u (write offset value) = []

abbrev pub delivered : Uart → Event → List ℕ
delivered u (input byte) = []
delivered u (read offset) =
    if offset == 0 && not (is_dlab u) && has_input u then (pio_read u offset).0 ∷ [] else []
delivered u (write offset value) = []

abbrev pub after : Uart → Event → Uart
after u (input byte) = push_input u byte
after u (read offset) = (pio_read u offset).1
after u (write offset value) = pio_write u offset value

-- Registers that neither the FIFO nor an access to another register touches.
abbrev SameFifo : Uart → Uart → Type 0
SameFifo u v =
    (v.rx_buf ≡ u.rx_buf)
    × (v.rx_head ≡ u.rx_head)
    × (v.rx_tail ≡ u.rx_tail)
    × (v.rx_count ≡ u.rx_count)

SameFifo-IsValid : (u v : Uart) → SameFifo u v → IsValid u → IsValid v
SameFifo-IsValid u v s i = record {
  buf_len = ap length s.0 ∙ i.buf_len;
  head_in = omega (arith, s.1);
  count_in = omega (arith, s.3);
  tail_at = omega (arith, s.1, s.2, s.3, i.tail_at);
}

SameFifo-waiting : (u v : Uart) → SameFifo u v → waiting v ≡ waiting u
SameFifo-waiting u v s =
    ap (λ b. slots b v.rx_head v.rx_count) s.0
    ∙ ap (λ h. slots u.rx_buf h v.rx_count) s.1
    ∙ ap (λ n. slots u.rx_buf u.rx_head n) s.3

raise_irq-SameFifo : (u : Uart) → SameFifo u (raise_irq_if_needed u)
unfolding raise_irq_if_needed
raise_irq-SameFifo u = ground arith

pio_write-SameFifo : (u : Uart) (offset value : ℕ) → SameFifo u (pio_write u offset value)
unfolding pio_write write_ier raise_irq_if_needed
pio_write-SameFifo u offset value = ground arith

read_iir-SameFifo : (u : Uart) → SameFifo u (read_iir u).1
unfolding read_iir
read_iir-SameFifo u = ground arith

-- A read of another register, or of the divisor latch, leaves the FIFO alone.
pio_read_other :
    (u : Uart) (offset : ℕ) → (offset ≢ 0) ⊎ (is_dlab u ≡ true) → SameFifo u (pio_read u offset).1
unfolding pio_read
pio_read_other u offset (inl h) = ground (arith, read_iir-SameFifo u)
pio_read_other u offset (inr h) = ground (arith, read_iir-SameFifo u)

pio_read_rbr :
    (u : Uart) → is_dlab u ≡ false → pio_read u 0 ≡ ((pop_rx u).0, raise_irq_if_needed (pop_rx u).1)
unfolding pio_read read_rbr
pio_read_rbr u h = rw (h, pio_read)

-- One event: bytes delivered, then those that still wait, are those that waited, then the accepted.
pub record Streams (u : Uart) (e : Event) : Type 0 where
  pub valid : IsValid (after u e)
  pub stream : delivered u e ++ waiting (after u e) ≡ waiting u ++ accepted u e

same_streams : (u v : Uart) → IsValid u → SameFifo u v → IsValid v × (waiting v ≡ waiting u ++ [])
same_streams u v i s =
    (SameFifo-IsValid u v s i, SameFifo-waiting u v s ∙ sym (append-nil (waiting u)))

input-Streams : (u : Uart) (byte : ℕ) → IsValid u → Streams u (input byte)
input-Streams u byte i = elim (dec_lt u.rx_count 256) [
  | yes h ↦ record {
    valid = (push_input_lem u byte i).0;
    stream = (push_input_lem u byte i).1 h ∙ ap (λ t. waiting u ++ t) (ground arith);
  }
  | no h ↦
      let full : accepted u (input byte) ≡ [] = ground arith in
      record {
        valid = (push_input_lem u byte i).0;
        stream = rw (full, append-nil) (ap waiting ((push_input_lem u byte i).2 (omega arith)));
      }
]

rbr-Streams : (u : Uart) → IsValid u → is_dlab u ≡ false → Streams u (read 0)
rbr-Streams u i d = go (waiting u) refl
  where
    raised : SameFifo (pop_rx u).1 (after u (read 0))
    raised =
        subst (λ (t : ℕ × Uart). SameFifo (pop_rx u).1 t.1) (sym (pio_read_rbr u d))
          (raise_irq-SameFifo (pop_rx u).1)

    valid : IsValid (after u (read 0))
    valid = SameFifo-IsValid (pop_rx u).1 (after u (read 0)) raised (pop_rx_lem u i).0

    still : waiting (after u (read 0)) ≡ waiting (pop_rx u).1
    still = SameFifo-waiting (pop_rx u).1 (after u (read 0)) raised

    go : (ws : List ℕ) → waiting u ≡ ws → Streams u (read 0)
    go [] e = record {
      valid = valid;
      stream =
          let idle : u.rx_count ≡ 0 = slots-nil u.rx_buf u.rx_head u.rx_count e in
          let nothing : delivered u (read 0) ≡ [] = ground arith in
          rw nothing (
            still
            ∙ ap (λ (t : ℕ × Uart). waiting t.1) ((pop_rx_lem u i).1 e)
            ∙ sym (append-nil (waiting u)));
    }
    go (b ∷ bs) e = record {
      valid = valid;
      stream =
          let (busy, _, _) = slots-pop u.rx_buf u.rx_head u.rx_count b bs i.head_in e in
          let (first, rest) = (pop_rx_lem u i).2 b bs e in
          let one : delivered u (read 0) ≡ b ∷ [] =
            ground (arith, ap (λ (t : ℕ × Uart). t.0) (pio_read_rbr u d), first) in
          rw one (ap (λ t. b ∷ t) (still ∙ rest) ∙ sym e ∙ sym (append-nil (waiting u)));
    }

-- Whatever happens to a valid port, it stays valid and keeps the stream.
pub event-Streams : (u : Uart) (e : Event) → IsValid u → Streams u e
event-Streams u (input byte) i = input-Streams u byte i
event-Streams u (write offset value) i =
    let (v, w) = same_streams u (pio_write u offset value) i (pio_write-SameFifo u offset value) in
    record { valid = v; stream = w }
event-Streams u (read zero) i = elim (Bool-cases (is_dlab u)) [
  | inr d ↦ rbr-Streams u i d
  | inl d ↦
      let (v, w) = same_streams u (after u (read 0)) i (pio_read_other u 0 (inr d)) in
      record { valid = v; stream = rw d w }
]
event-Streams u (read (suc n)) i =
    let (v, w) =
      same_streams u (after u (read (suc n))) i (pio_read_other u (suc n) (inl (omega arith))) in
    let nothing : delivered u (read (suc n)) ≡ [] = ground arith in
    record { valid = v; stream = rw nothing w }
