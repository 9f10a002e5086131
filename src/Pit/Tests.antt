-- ===== src/Pit/Tests.antt =====
-- A channel that is programmed for mode 2 and counted down by a clock of one tick per cycle.
use tenclaw.Base.{ℕ, ◌-◌, ◌≡◌, true, arith, All}
use tenclaw.Pit.{Channel, idle, initial, control, write_channel}
use tenclaw.Pit.Programming.{IsValid, program_lem}

-- One tick per cycle since the start.
abbrev clock : ℕ → ℕ → ℕ
clock now start = now - start

abbrev counting : ℕ → Channel
counting m = record idle { reload = 1000; mode = m; access = 3; armed = true; start_tsc = 50 }

program_lem_example :
    let c = write_channel clock 9 4 (write_channel clock 8 210 (control clock 7 52 idle)) in
    (c.reload ≡ 1234)
    × (c.mode ≡ 2)
    × (c.armed ≡ true)
    × (c.start_tsc ≡ 9)
    × (c.write_lo_next ≡ true)
program_lem_example = program_lem clock 7 8 9 2 210 4 idle (omega arith) (omega arith) (omega arith)

initial-IsValid : All IsValid initial
initial-IsValid = ground arith
