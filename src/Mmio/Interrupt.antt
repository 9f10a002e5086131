-- ===== src/Mmio/Interrupt.antt =====
-- The interrupt status: raised by the device, acknowledged by the driver, bit by bit.
use tenclaw.Base.{ℕ, ◌+◌, ◌-◌, ◌^◌, ◌<◌, ◌≡◌, refl, Bool, true, not, ◌&&◌, arith, u32, test_bit}
use tenclaw.Base.Bits.{bit_and-two_bits}
use tenclaw.Mmio.{
  DeviceOps, World, Mmio, notify_used_buffer, notify_config_change, write_plain, mmio_write,
}

abbrev pub vring_pending : Mmio → Bool
vring_pending m = test_bit m.interrupt_status 0

abbrev pub config_pending : Mmio → Bool
config_pending m = test_bit m.interrupt_status 1

-- Each notification raises its own bit, leaves the other, and calls the interrupt callback once.
pub notify_lem :
    (m : Mmio)
    → m.interrupt_status < 4
    → let u = notify_used_buffer m in
      let c = notify_config_change m in
      (vring_pending u ≡ true)
      × (config_pending u ≡ config_pending m)
      × (u.irqs ≡ m.irqs + 1)
      × (config_pending c ≡ true)
      × (vring_pending c ≡ vring_pending m)
      × (c.irqs ≡ m.irqs + 1)
unfolding notify_used_buffer notify_config_change
notify_lem m h =
    (ground arith, ground arith, ground arith, ground arith, ground arith, ground arith)

module _ {D : Type 0} (ops : DeviceOps D) where
  -- A write to `InterruptACK` clears exactly the pending bits that it names, and touches nothing
  -- else.
  pub acknowledge_lem :
      (w : World D) (size val : ℕ)
      → w.mmio.interrupt_status < 4
      → let w' = mmio_write ops w 0x064 size val in
        (vring_pending w'.mmio ≡ (vring_pending w.mmio && not (test_bit val 0)))
        × (config_pending w'.mmio ≡ (config_pending w.mmio && not (test_bit val 1)))
        × (w' ≡ record w { mmio = record w.mmio { interrupt_status = w'.mmio.interrupt_status } })
  unfolding mmio_write write_plain
  acknowledge_lem w size val h =
      let cleared = bit_and-two_bits w.mmio.interrupt_status (2 ^ 32 - 1 - u32 val) h in
      (ground (arith, cleared), ground (arith, cleared), refl)
