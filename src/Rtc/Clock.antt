-- ===== src/Rtc/Clock.antt =====
-- What a driver that reads the clock's registers gets.
use tenclaw.Base.{ℕ, ◌+◌, ◌*◌, ◌/◌, ◌%◌, ◌^◌, ◌≤◌, ◌<◌, ◌≡◌, ap, ◌∙◌, arith}
use tenclaw.Rtc.{Time, to_bcd, read_register, pio_read, pio_write}

-- The ranges of `gmtime`'s fields, a leap second counted in, for the years 1900 to 9999.
pub record IsTime (t : Time) : Type 0 where
  pub sec_fits : t.sec ≤ 60
  pub minute_fits : t.minute < 60
  pub hour_fits : t.hour < 24
  pub wday_fits : t.wday < 7
  pub mday_fits : t.mday ≤ 31
  pub mon_fits : t.mon < 12
  pub year_fits : t.year + 1900 < 10000

-- A driver's conversion of a byte in binary-coded decimal.
abbrev pub from_bcd : ℕ → ℕ
from_bcd b = 10 * (b / 2 ^ 4) + b % 2 ^ 4

-- A register selected through the first port, whatever was selected before, and read through the
-- second.
abbrev pub read_at : Time → ℕ → ℕ → ℕ
read_at t index reg = from_bcd (pio_read t (pio_write index 0 reg) 1)

from_bcd-to_bcd : (v : ℕ) → v < 100 → from_bcd (to_bcd v) ≡ v
unfolding to_bcd
from_bcd-to_bcd v h = omega arith

register_lem :
    (t : Time) (i reg : ℕ) → reg < 2 ^ 7 → pio_read t (pio_write i 0 reg) 1 ≡ read_register t reg
unfolding pio_read pio_write
register_lem t i reg h = ap (read_register t) (omega arith)

-- In the years 1900 to 9999 a driver that selects each time register in turn and converts what it
-- reads from binary-coded decimal gets the host's time, with the day of the week and the month
-- counted from 1 and the year split into its century and the rest.
pub read_time_lem :
    (t : Time) (i : ℕ)
    → IsTime t
    → (read_at t i 0x00 ≡ t.sec)
      × (read_at t i 0x02 ≡ t.minute)
      × (read_at t i 0x04 ≡ t.hour)
      × (read_at t i 0x06 ≡ t.wday + 1)
      × (read_at t i 0x07 ≡ t.mday)
      × (read_at t i 0x08 ≡ t.mon + 1)
      × (100 * read_at t i 0x32 + read_at t i 0x09 ≡ t.year + 1900)
unfolding read_register
read_time_lem t i v = (
  ap from_bcd (register_lem t i 0 (omega arith))
      ∙ from_bcd-to_bcd t.sec (omega (arith, v.sec_fits)),
  ap from_bcd (register_lem t i 2 (omega arith))
      ∙ from_bcd-to_bcd t.minute (omega (arith, v.minute_fits)),
  ap from_bcd (register_lem t i 4 (omega arith))
      ∙ from_bcd-to_bcd t.hour (omega (arith, v.hour_fits)),
  ap from_bcd (register_lem t i 6 (omega arith))
      ∙ from_bcd-to_bcd (t.wday + 1) (omega (arith, v.wday_fits)),
  ap from_bcd (register_lem t i 7 (omega arith))
      ∙ from_bcd-to_bcd t.mday (omega (arith, v.mday_fits)),
  ap from_bcd (register_lem t i 8 (omega arith))
      ∙ from_bcd-to_bcd (t.mon + 1) (omega (arith, v.mon_fits)),
  year,
)
  where
    century : read_at t i 0x32 ≡ (t.year + 1900) / 100
    century =
        ap from_bcd (register_lem t i 0x32 (omega arith))
        ∙ from_bcd-to_bcd ((t.year + 1900) / 100) (omega (arith, v.year_fits))

    rest : read_at t i 0x09 ≡ (t.year + 1900) % 100
    rest =
        ap from_bcd (register_lem t i 0x09 (omega arith))
        ∙ from_bcd-to_bcd ((t.year + 1900) % 100) (omega arith)

    year : 100 * read_at t i 0x32 + read_at t i 0x09 ≡ t.year + 1900
    year = rw (century, rest) (omega arith)
