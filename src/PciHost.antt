-- ===== src/PciHost.antt =====
-- core/device/pci/pci_host.h: the configuration ports of a PCI bus with no device on it.
mod Tests
use tenclaw.Base.{
  ℕ, zero, suc, ◌+◌, ◌-◌, ◌*◌, ◌/◌, ◌%◌, ◌^◌, ◌≤◌, ◌<◌, min, ◌≡◌, refl, sym, ap, ap₂, subst, ◌∙◌,
  ◌≢◌, ◌↔◌, ◌⊎◌, inl, inr, Bool, true, false, not, ◌&&◌, ◌||◌, Option, none, some, List, [], ◌∷◌,
  ◌++◌, arith, ltb, leb, ◌==◌, if◌then◌else◌, Bool-cases, Option-cases, length, get_or, set, take,
  drop, replicate, u8, u16, u32, u64, shr, shl, test_bit, set_bit, clear_bit, with_low32,
  with_high32, get_elem?, ==_iff, length-append, length-set, get_or-set_self, get_or-set_ne,
  length-take, length-drop, some_inj, cons_inj, All, modify, length-replicate, length-modify,
  get_or-modify_self, get_or-modify_ne,
}

-- The state is the address register.
unfoldable pub pio_read : ℕ → ℕ → ℕ → ℕ
pio_read config_addr offset size = if (offset == 0) && (size == 4) then config_addr else 0xffff_ffff

unfoldable pub pio_write : ℕ → ℕ → ℕ → ℕ → ℕ
pio_write config_addr offset size value =
    if (offset == 0) && (size == 4) then value else config_addr

-- A driver's probes. A 32-bit write to the address register reads back (mechanism 1 is there); a
-- narrower one leaves the register as it was and reads as all ones (mechanism 2 is not); and whatever
-- address is selected, the data register reads as all ones: no device is present.
pub probe_lem :
    (config value size offset : ℕ)
    → (pio_read (pio_write config 0 4 value) 0 4 ≡ value)
      × (size ≢ 4
          → (pio_write config offset size value ≡ config)
            × (pio_read config offset size ≡ 0xffff_ffff))
      × (0 < offset → pio_read (pio_write config 0 4 value) offset size ≡ 0xffff_ffff)
unfolding pio_read pio_write
probe_lem config value size offset = ground arith
