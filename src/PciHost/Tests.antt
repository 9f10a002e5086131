-- ===== src/PciHost/Tests.antt =====
-- Linux looks for mechanism 1 with this write, and reads it back.
use tenclaw.Base.{◌≡◌, refl}
use tenclaw.PciHost.{pio_read, pio_write}

mechanism_1 : pio_read (pio_write 0 0 4 0x8000_0000) 0 4 ≡ 0x8000_0000
unfolding pio_read pio_write
mechanism_1 = refl
