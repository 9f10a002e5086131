-- ===== src/Acpi.antt =====
-- core/device/acpi/acpi_pm.h and acpi_pm.cpp: the ACPI PM1 registers, power-off and reset.
-- The callbacks are set when the machine is built: `shutdowns` and `resets` count their calls.
pub mod Power
mod Tests
use Prim.Native.Nat.{bit_and}
use tenclaw.Base.{
  ℕ, zero, suc, ◌+◌, ◌-◌, ◌*◌, ◌/◌, ◌%◌, ◌^◌, ◌≤◌, ◌<◌, min, ◌≡◌, refl, sym, ap, ap₂, subst, ◌∙◌,
  ◌≢◌, ◌↔◌, ◌⊎◌, inl, inr, Bool, true, false, not, ◌&&◌, ◌||◌, Option, none, some, List, [], ◌∷◌,
  ◌++◌, arith, ltb, leb, ◌==◌, if◌then◌else◌, Bool-cases, Option-cases, length, get_or, set, take,
  drop, replicate, u8, u16, u32, u64, shr, shl, test_bit, set_bit, clear_bit, with_low32,
  with_high32, get_elem?, ==_iff, length-append, length-set, get_or-set_self, get_or-set_ne,
  length-take, length-drop, some_inj, cons_inj, All, modify, length-replicate, length-modify,
  get_or-modify_self, get_or-modify_ne,
}

pub record AcpiPm : Type 0 where
  pub pm1_sts : ℕ
  pub pm1_en : ℕ
  pub pm1_cnt : ℕ
  pub shutdowns : ℕ
  pub resets : ℕ

abbrev pub initial : AcpiPm
initial = record { pm1_sts = 0; pm1_en = 0; pm1_cnt = 1; shutdowns = 0; resets = 0 }

unfoldable pub pio_read : AcpiPm → ℕ → ℕ → ℕ
pio_read a offset size =
    if offset == 0
    then (if size == 4 then a.pm1_sts + shl a.pm1_en 16 else a.pm1_sts)
    else if offset == 2
    then a.pm1_en
    else if offset == 4
    then a.pm1_cnt
    else 0

-- `x & ~y` on 16 bits
abbrev pub and_not16 : ℕ → ℕ → ℕ
and_not16 x y = bit_and x (2 ^ 16 - 1 - y)

abbrev pub slp_typ : ℕ → ℕ
slp_typ value = shr value 10 % 2 ^ 3

-- A write of PM1_CNT: SCI_EN stays set; SLP_EN with the type of S5 powers off.
unfoldable pub write_cnt : AcpiPm → ℕ → AcpiPm
write_cnt a value =
    let a' : AcpiPm = record a { pm1_cnt = set_bit (u16 value) 0 } in
    if test_bit value 13
    then (if slp_typ value == 5 then record a' { shutdowns = a.shutdowns + 1 } else a')
    else a'

unfoldable pub pio_write : AcpiPm → ℕ → ℕ → ℕ → AcpiPm
pio_write a offset size value =
    if offset == 0
    then (let a' : AcpiPm = record a { pm1_sts = and_not16 a.pm1_sts (u16 value) } in
        if size == 4 then record a' { pm1_en = u16 (shr value 16) } else a')
    else if offset == 2
    then record a { pm1_en = u16 value }
    else if offset == 4
    then write_cnt a value
    else if offset == 8
    then (if u8 value == 1 then record a { resets = a.resets + 1 } else a)
    else a
