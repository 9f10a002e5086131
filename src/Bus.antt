-- ===== src/Bus.antt =====
-- core/vmm/address_space.h and address_space.cpp: which device answers a port or an MMIO address.
-- A device is a name `D`; what it does is the interface `Devices`, after core/device/device.h, over
-- one state `W` of all devices. The mutex makes each access one step.
pub mod Dispatch
mod Tests
use tenclaw.Base.{
  ℕ, zero, suc, ◌+◌, ◌-◌, ◌*◌, ◌/◌, ◌%◌, ◌^◌, ◌≤◌, ◌<◌, min, ◌≡◌, refl, sym, ap, ap₂, subst, ◌∙◌,
  ◌≢◌, ◌↔◌, ◌⊎◌, inl, inr, Bool, true, false, not, ◌&&◌, ◌||◌, Option, none, some, List, [], ◌∷◌,
  ◌++◌, arith, ltb, leb, ◌==◌, if◌then◌else◌, Bool-cases, Option-cases, length, get_or, set, take,
  drop, replicate, u8, u16, u32, u64, shr, shl, test_bit, set_bit, clear_bit, with_low32,
  with_high32, get_elem?, ==_iff, length-append, length-set, get_or-set_self, get_or-set_ne,
  length-take, length-drop, some_inj, cons_inj, All, modify, length-replicate, length-modify,
  get_or-modify_self, get_or-modify_ne,
}

-- `PioEntry` and `MmioEntry`
pub record Entry (D : Type 0) : Type 0 where
  pub base : ℕ
  pub size : ℕ
  pub device : D

pub record AddressSpace (D : Type 0) : Type 0 where
  pub pio_devices : List (Entry D)
  pub mmio_devices : List (Entry D)

-- `Device`: reads may change a device.
pub record Devices (D W : Type 0) : Type 0 where
  pub pio_read : D → ℕ → ℕ → W → ℕ × W
  pub pio_write : D → ℕ → ℕ → ℕ → W → W
  pub mmio_read : D → ℕ → ℕ → W → ℕ × W
  pub mmio_write : D → ℕ → ℕ → ℕ → W → W

module _ {D : Type 0} where
  unfoldable pub add_pio_device : AddressSpace D → ℕ → ℕ → D → AddressSpace D
  add_pio_device s base size d = record s {
    pio_devices = s.pio_devices ++ (record { base = base; size = size; device = d } ∷ []);
  }

  unfoldable pub add_mmio_device : AddressSpace D → ℕ → ℕ → D → AddressSpace D
  add_mmio_device s base size d = record s {
    mmio_devices = s.mmio_devices ++ (record { base = base; size = size; device = d } ∷ []);
  }

  -- The 16-bit bounds are added as `int`, which does not wrap.
  abbrev pub covers_pio : Entry D → ℕ → Bool
  covers_pio e port = leb e.base port && ltb port (e.base + e.size)

  -- The 64-bit sum wraps.
  abbrev pub covers_mmio : Entry D → ℕ → Bool
  covers_mmio e addr = leb e.base addr && ltb addr (u64 (e.base + e.size))

  -- `FindPioDevice` and `FindMmioDevice`: the device and the offset in its window.
  unfoldable pub find_device : (Entry D → ℕ → Bool) → List (Entry D) → ℕ → Option (D × ℕ)
  find_device covers [] addr = none
  find_device covers (e ∷ es) addr =
      if covers e addr then some (e.device, addr - e.base) else find_device covers es addr

  module _ {W : Type 0} (devices : Devices D W) where
    -- Whether the access was handled, the value, and the devices.
    unfoldable pub handle_port_in : AddressSpace D → ℕ → ℕ → W → Bool × ℕ × W
    handle_port_in s port size w = elim (find_device covers_pio s.pio_devices port) [
      | none ↦ (false, 0xffff_ffff, w)
      | some (d, offset) ↦ let (v, w') = devices.pio_read d offset size w in (true, v, w')
    ]

    unfoldable pub handle_port_out : AddressSpace D → ℕ → ℕ → ℕ → W → Bool × W
    handle_port_out s port size value w = elim (find_device covers_pio s.pio_devices port) [
      | none ↦ (false, w)
      | some (d, offset) ↦ (true, devices.pio_write d offset size value w)
    ]

    unfoldable pub handle_mmio_read : AddressSpace D → ℕ → ℕ → W → Bool × ℕ × W
    handle_mmio_read s addr size w = elim (find_device covers_mmio s.mmio_devices addr) [
      | none ↦ (false, 0, w)
      | some (d, offset) ↦ let (v, w') = devices.mmio_read d offset size w in (true, v, w')
    ]

    unfoldable pub handle_mmio_write : AddressSpace D → ℕ → ℕ → ℕ → W → Bool × W
    handle_mmio_write s addr size value w = elim (find_device covers_mmio s.mmio_devices addr) [
      | none ↦ (false, w)
      | some (d, offset) ↦ (true, devices.mmio_write d offset size value w)
    ]
