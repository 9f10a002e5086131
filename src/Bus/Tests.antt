-- ===== src/Bus/Tests.antt =====
-- A bus with two windows.
use tenclaw.Base.{ℕ, ◌+◌, ◌*◌, ◌≡◌, refl, inr, true, [], ◌∷◌, arith}
use tenclaw.Bus.{Entry, AddressSpace, Devices, handle_port_in}
use tenclaw.Bus.Dispatch.{Windows, handle_access_lem}

abbrev serial : Entry ℕ
serial = record { base = 0x3f8; size = 8; device = 1 }

abbrev rtc : Entry ℕ
rtc = record { base = 0x70; size = 2; device = 2 }

abbrev screen : Entry ℕ
screen = record { base = 0xd000_0000; size = 4096; device = 3 }

abbrev space : AddressSpace ℕ
space = record { pio_devices = serial ∷ rtc ∷ []; mmio_devices = screen ∷ [] }

-- A device that answers with its number and the offset, and counts the reads.
abbrev echo : Devices ℕ ℕ
echo = record {
  pio_read = λ d offset size w. (d * 1000 + offset, w + 1);
  pio_write = λ d offset size value w. w;
  mmio_read = λ d offset size w. (0, w);
  mmio_write = λ d offset size value w. w;
}

space-Windows : Windows space.pio_devices
space-Windows = ((inr (omega arith), tt), (tt, tt))

handle_access_lem_example : handle_port_in echo space 0x71 1 5 ≡ (true, 2001, 6)
handle_access_lem_example =
    ((handle_access_lem echo space 0x71 1 0 5 space-Windows (tt, tt) (omega arith, tt)).0.0 1 rtc
      (refl, omega arith)).0
