-- ===== src/Ioapic/Tests.antt =====
-- The I/O APIC after reset.
use tenclaw.Base.{◌≡◌, refl, arith}
use tenclaw.Ioapic.{initial, mmio_write}
use tenclaw.Ioapic.Table.{IsValid, mmio_write-IsValid, put, get, put_entry}

initial-IsValid : IsValid initial
initial-IsValid = record { index_fits = omega arith; id_fits = omega arith; entries = refl }

written-IsValid : IsValid (mmio_write initial 0x10 0xffff_ffff)
written-IsValid = mmio_write-IsValid initial 0x10 0xffff_ffff initial-IsValid

put_entry_example : get (put (put initial 0x12 0x31) 0x13 0x0100_0000) 0x13 ≡ 0x0100_0000
put_entry_example =
    (put_entry initial 1 0x31 0x0100_0000 initial-IsValid (omega arith) (omega arith)
      (omega arith)).1
