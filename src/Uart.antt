-- ===== src/Uart.antt =====
-- core/device/serial/uart_16550.h and uart_16550.cpp: the 16550 serial port with its receive FIFO.
-- The callbacks are set when the machine is built: `irqs` counts the calls of the interrupt callback
-- and `sent` holds what the transmit callback was given, oldest first.
pub mod Fifo
pub mod Ports
pub mod History
mod Tests
use tenclaw.Base.{
  ℕ, zero, suc, ◌+◌, ◌-◌, ◌*◌, ◌/◌, ◌%◌, ◌^◌, ◌≤◌, ◌<◌, min, ◌≡◌, refl, sym, ap, ap₂, subst, ◌∙◌,
  ◌≢◌, ◌↔◌, ◌⊎◌, inl, inr, Bool, true, false, not, ◌&&◌, ◌||◌, Option, none, some, List, [], ◌∷◌,
  ◌++◌, arith, ltb, leb, ◌==◌, if◌then◌else◌, Bool-cases, Option-cases, length, get_or, set, take,
  drop, replicate, u8, u16, u32, u64, shr, shl, test_bit, set_bit, clear_bit, with_low32,
  with_high32, get_elem?, ==_iff, length-append, length-set, get_or-set_self, get_or-set_ne,
  length-take, length-drop, some_inj, All, modify, length-replicate, length-modify,
  get_or-modify_self, get_or-modify_ne,
}

pub record Uart : Type 0 where
  pub ier : ℕ
  pub lcr : ℕ
  pub mcr : ℕ
  pub scr : ℕ
  pub dll : ℕ
  pub dlh : ℕ
  pub thre_pending : Bool
  pub rx_buf : List ℕ
  pub rx_head : ℕ
  pub rx_tail : ℕ
  pub rx_count : ℕ
  pub irqs : ℕ
  pub sent : List ℕ

abbrev pub fifo_size : ℕ
fifo_size = 256

abbrev pub initial : Uart
initial = record {
  ier = 0;
  lcr = 0;
  mcr = 0;
  scr = 0;
  dll = 0;
  dlh = 0;
  thre_pending = false;
  rx_buf = replicate 256 0;
  rx_head = 0;
  rx_tail = 0;
  rx_count = 0;
  irqs = 0;
  sent = [];
}

unfoldable pub push_input : Uart → ℕ → Uart
push_input u byte =
    if ltb u.rx_count fifo_size
    then record u {
      rx_buf = set u.rx_buf u.rx_tail byte;
      rx_tail = (u.rx_tail + 1) % fifo_size;
      rx_count = u.rx_count + 1;
    }
    else u

abbrev pub has_input : Uart → Bool
has_input u = ltb 0 u.rx_count

-- The byte, and the port without it.
unfoldable pub pop_rx : Uart → ℕ × Uart
pop_rx u = if u.rx_count == 0 then (0, u) else (
  get_or u.rx_buf u.rx_head 0,
  record u { rx_head = (u.rx_head + 1) % fifo_size; rx_count = u.rx_count - 1 },
)

abbrev pub is_dlab : Uart → Bool
is_dlab u = test_bit u.lcr 7

abbrev pub need_irq : Uart → Bool
need_irq u = (test_bit u.ier 1 && u.thre_pending) || (test_bit u.ier 0 && has_input u)

unfoldable pub raise_irq_if_needed : Uart → Uart
raise_irq_if_needed u = if need_irq u then record u { irqs = u.irqs + 1 } else u

-- Reading IIR: received data before an empty transmitter; the latter is cleared by the reading.
unfoldable pub read_iir : Uart → ℕ × Uart
read_iir u =
    if has_input u && test_bit u.ier 0
    then (0x04, u)
    else if u.thre_pending && test_bit u.ier 1
    then (0x02, record u { thre_pending = false })
    else (0x01, u)

-- Reading LSR: the transmitter is always empty; bit 0 is data ready.
abbrev pub read_lsr : Uart → ℕ
read_lsr u = if has_input u then 0x61 else 0x60

-- Reading RBR
unfoldable pub read_rbr : Uart → ℕ × Uart
read_rbr u = let (byte, rest) = pop_rx u in (byte, raise_irq_if_needed rest)

-- The registers that a read does not change.
unfoldable pub register_at : Uart → ℕ → ℕ
register_at u offset =
    if offset == 1
    then u.ier
    else if offset == 3
    then u.lcr
    else if offset == 4
    then u.mcr
    else if offset == 5
    then read_lsr u
    else if offset == 6
    then 0
    else if offset == 7
    then u.scr
    else 0

unfoldable pub pio_read : Uart → ℕ → ℕ × Uart
pio_read u offset =
    if is_dlab u && leb offset 1
    then ((if offset == 0 then u.dll else u.dlh), u)
    else if offset == 0
    then read_rbr u
    else if offset == 2
    then read_iir u
    else (register_at u offset, u)

-- Writing IER arms the empty-transmitter interrupt when its enable bit goes up.
unfoldable pub write_ier : Uart → ℕ → Uart
unfolding raise_irq_if_needed
write_ier u val =
    let armed = if test_bit val 1 && not (test_bit u.ier 1) then true else u.thre_pending in
    raise_irq_if_needed (record u { ier = val; thre_pending = armed })

unfoldable pub pio_write : Uart → ℕ → ℕ → Uart
pio_write u offset value =
    let val = u8 value in
    if is_dlab u && leb offset 1
    then (if offset == 0 then record u { dll = val } else record u { dlh = val })
    else if offset == 0
    then raise_irq_if_needed (record u { sent = u.sent ++ (val ∷ []); thre_pending = true })
    else if offset == 1
    then write_ier u val
    else if offset == 3
    then record u { lcr = val }
    else if offset == 4
    then record u { mcr = val }
    else if offset == 7
    then record u { scr = val }
    else u
