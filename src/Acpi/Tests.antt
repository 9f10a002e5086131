-- ===== src/Acpi/Tests.antt =====
-- The PM1 registers on concrete writes.
use tenclaw.Base.{ℕ, ◌/◌, ◌%◌, ◌^◌, ◌≡◌, ◌↔◌, arith}
use tenclaw.Acpi.{initial, pio_write}
use tenclaw.Acpi.Power.{IsValid, pio_write_power}

initial-IsValid : IsValid initial
initial-IsValid = omega arith

pio_write_power_example :
    ((pio_write initial 4 2 0x3400).shutdowns ≡ 1)
    ↔ ((◌≡◌ {A = ℕ} 4 4) × (0x3400 / 2 ^ 13 % 2 ≡ 1) × (0x3400 / 2 ^ 10 % 8 ≡ 5))
pio_write_power_example = (pio_write_power initial 4 2 0x3400).0
