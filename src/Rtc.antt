-- ===== src/Rtc.antt =====
-- core/device/rtc/cmos_rtc.h and cmos_rtc.cpp: the clock behind ports 0x70 and 0x71.
-- The host's time in UTC, as the broken-down `struct tm` of the C library, is a parameter.
pub mod Clock
mod Tests
use tenclaw.Base.{
  ℕ, zero, suc, ◌+◌, ◌-◌, ◌*◌, ◌/◌, ◌%◌, ◌^◌, ◌≤◌, ◌<◌, min, ◌≡◌, refl, sym, ap, ap₂, subst, ◌∙◌,
  ◌≢◌, ◌↔◌, ◌⊎◌, inl, inr, Bool, true, false, not, ◌&&◌, ◌||◌, Option, none, some, List, [], ◌∷◌,
  ◌++◌, arith, ltb, leb, ◌==◌, if◌then◌else◌, Bool-cases, Option-cases, length, get_or, set, take,
  drop, replicate, u8, u16, u32, u64, shr, shl, test_bit, set_bit, clear_bit, with_low32,
  with_high32, get_elem?, ==_iff, length-append, length-set, get_or-set_self, get_or-set_ne,
  length-take, length-drop, some_inj, cons_inj, All, modify, length-replicate, length-modify,
  get_or-modify_self, get_or-modify_ne,
}

-- `struct tm`, as far as the device reads it.
pub record Time : Type 0 where
  pub sec : ℕ
  pub minute : ℕ
  pub hour : ℕ
  pub wday : ℕ
  pub mday : ℕ
  pub mon : ℕ
  pub year : ℕ

unfoldable pub to_bcd : ℕ → ℕ
to_bcd val = u8 (shl (val / 10) 4 + val % 10)

unfoldable pub read_register : Time → ℕ → ℕ
read_register t reg =
    if reg == 0x00
    then to_bcd t.sec
    else if reg == 0x02
    then to_bcd t.minute
    else if reg == 0x04
    then to_bcd t.hour
    else if reg == 0x06
    then to_bcd (t.wday + 1)
    else if reg == 0x07
    then to_bcd t.mday
    else if reg == 0x08
    then to_bcd (t.mon + 1)
    else if reg == 0x09
    then to_bcd ((t.year + 1900) % 100)
    else if reg == 0x32
    then to_bcd ((t.year + 1900) / 100)
    else if reg == 0x0a
    then 0x26
    else if reg == 0x0b
    then 0x02
    else if reg == 0x0d
    then 0x80
    else 0x00

-- The device's state is the selected register.
unfoldable pub pio_read : Time → ℕ → ℕ → ℕ
pio_read t index offset = if offset == 0 then index else read_register t index

unfoldable pub pio_write : ℕ → ℕ → ℕ → ℕ
pio_write index offset value = if offset == 0 then u8 value % 2 ^ 7 else index
