-- ===== src/Acpi/Power.antt =====
-- When the guest powers off or resets the machine, and what it can rely on meanwhile.
use tenclaw.Base.{ℕ, ◌+◌, ◌-◌, ◌*◌, ◌/◌, ◌%◌, ◌^◌, ◌≤◌, ◌<◌, ◌≡◌, ◌↔◌, arith, u16}
use tenclaw.Base.Bits.{bit_and-two_bits}
use tenclaw.Acpi.{AcpiPm, pio_read, pio_write, write_cnt}

-- SCI_EN is set, no event is pending, and the registers are 16 bits wide.
pub record IsValid (a : AcpiPm) : Type 0 where
  pub sci_en : a.pm1_cnt % 2 ≡ 1
  pub no_event : a.pm1_sts ≡ 0
  pub en_fits : a.pm1_en < 2 ^ 16
  pub cnt_fits : a.pm1_cnt < 2 ^ 16

abbrev pub Write : Type 0
Write = record { offset : ℕ; size : ℕ; value : ℕ }

write_cnt-IsValid : (a : AcpiPm) (value : ℕ) → IsValid a → IsValid (write_cnt a value)
unfolding write_cnt
write_cnt-IsValid a value v = ground arith

-- No write takes the port out of ACPI mode or makes an event pending.
pub pio_write-IsValid :
    (a : AcpiPm) (offset size value : ℕ) → IsValid a → IsValid (pio_write a offset size value)
unfolding pio_write
pio_write-IsValid a offset size value v = ground (
  arith,
  write_cnt-IsValid a value v,
  bit_and-two_bits a.pm1_sts (2 ^ 16 - 1 - u16 value) (omega (arith, v.no_event)),
)

-- A write powers the machine off exactly when it is one of PM1_CNT with SLP_EN set and sleep type 5,
-- and resets it exactly when it is one of RESET_REG whose low byte is 1; never both.
pub pio_write_power :
    (a : AcpiPm) (offset size value : ℕ)
    → let b = pio_write a offset size value in
      ((b.shutdowns ≡ a.shutdowns + 1)
        ↔ ((offset ≡ 4) × (value / 2 ^ 13 % 2 ≡ 1) × (value / 2 ^ 10 % 8 ≡ 5)))
      × ((b.resets ≡ a.resets + 1) ↔ ((offset ≡ 8) × (value % 256 ≡ 1)))
      × (b.shutdowns + b.resets ≤ a.shutdowns + a.resets + 1)
unfolding pio_write write_cnt
pio_write_power a offset size value = (
  ((λ h. ground arith), (λ h. ground arith)),
  ((λ h. ground arith), (λ h. ground arith)),
  ground arith,
)

-- A 4-byte access moves the status and the enable register together.
pub enable_readback :
    (a : AcpiPm) (value : ℕ)
    → IsValid a
    → value < 2 ^ 32
    → let b = pio_write a 0 4 value in
      (pio_read b 2 2 ≡ value / 2 ^ 16) × (pio_read b 0 4 ≡ value / 2 ^ 16 * 2 ^ 16)
unfolding pio_write pio_read
enable_readback a value v h =
    ground (arith, bit_and-two_bits a.pm1_sts (2 ^ 16 - 1 - u16 value) (omega (arith, v.no_event)))
