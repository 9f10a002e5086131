-- ===== src/Rtc/Tests.antt =====
-- A leap day.
use tenclaw.Base.{◌+◌, ◌*◌, ◌≡◌, arith}
use tenclaw.Rtc.{Time}
use tenclaw.Rtc.Clock.{IsTime, read_at, read_time_lem}

abbrev leap_day : Time
leap_day = record { sec = 59; minute = 58; hour = 23; wday = 4; mday = 29; mon = 1; year = 124 }

leap_day-IsTime : IsTime leap_day
leap_day-IsTime = ground arith

read_time_lem_example :
    (read_at leap_day 7 0x00 ≡ 59)
    × (read_at leap_day 7 0x02 ≡ 58)
    × (read_at leap_day 7 0x04 ≡ 23)
    × (read_at leap_day 7 0x06 ≡ 5)
    × (read_at leap_day 7 0x07 ≡ 29)
    × (read_at leap_day 7 0x08 ≡ 2)
    × (100 * read_at leap_day 7 0x32 + read_at leap_day 7 0x09 ≡ 2024)
read_time_lem_example = read_time_lem leap_day 7 leap_day-IsTime
