-- ===== src/Mmio.antt =====
-- core/device/virtio/virtio_mmio.h and virtio_mmio.cpp: the virtio MMIO transport.
-- The device behind it is the interface `VirtioDeviceOps`; a call of it returns the new state of
-- the device, and whether it called `NotifyUsedBuffer`.
pub mod Registers
pub mod Queues
pub mod Interrupt
mod Tests
use Prim.Native.Nat.{bit_and}
use mathlib.Core.List.{map}
use tenclaw.Base.{
  ℕ, zero, suc, ◌+◌, ◌-◌, ◌*◌, ◌/◌, ◌%◌, ◌^◌, ◌≤◌, ◌<◌, min, ◌≡◌, refl, sym, ap, ap₂, subst, ◌∙◌,
  ◌≢◌, ◌↔◌, ◌⊎◌, inl, inr, Bool, true, false, not, ◌&&◌, ◌||◌, Option, none, some, List, [], ◌∷◌,
  ◌++◌, arith, ltb, leb, ◌==◌, if◌then◌else◌, Bool-cases, Option-cases, length, get_or, set, take,
  drop, replicate, u8, u16, u32, u64, shr, shl, test_bit, set_bit, clear_bit, with_low32,
  with_high32, get_elem?, ==_iff, length-append, length-set, get_or-set_self, get_or-set_ne,
  length-take, length-drop, some_inj, All, modify,
}
use tenclaw.Memory.{Ram, GuestMemMap}
use tenclaw.Virtqueue.{VirtQueue}
use tenclaw.Virtqueue

-- What `OnQueueNotify` leaves behind.
pub record Served (D : Type 0) : Type 0 where
  pub device : D
  pub ram : Ram
  pub queue : VirtQueue
  pub notified : Bool

-- `VirtioDeviceOps`, for a device with state `D`.
pub record DeviceOps (D : Type 0) : Type 0 where
  pub device_id : D → ℕ
  pub device_features : D → ℕ
  pub num_queues : D → ℕ
  pub queue_max_size : D → ℕ → ℕ
  pub on_queue_notify : D → Ram → ℕ → VirtQueue → Served D
  pub read_config : D → ℕ → ℕ → ℕ
  pub write_config : D → ℕ → ℕ → ℕ → D
  pub on_status_change : D → ℕ → D

-- Addresses staged for a queue before `QueueReady`.
pub record QueueConfig : Type 0 where
  pub num : ℕ
  pub desc_addr : ℕ
  pub driver_addr : ℕ
  pub device_addr : ℕ

abbrev pub no_config : QueueConfig
no_config = record { num = 0; desc_addr = 0; driver_addr = 0; device_addr = 0 }

-- `irqs` counts the calls of the interrupt callback.
pub record Mmio : Type 0 where
  pub mem : GuestMemMap
  pub status : ℕ
  pub device_features_sel : ℕ
  pub driver_features_sel : ℕ
  pub driver_features : ℕ
  pub queue_sel : ℕ
  pub interrupt_status : ℕ
  pub config_generation : ℕ
  pub queues : List VirtQueue
  pub queue_configs : List QueueConfig
  pub shm_sel : ℕ
  pub irqs : ℕ

-- The transport, the device behind it and the guest's memory.
pub record World (D : Type 0) : Type 0 where
  pub mmio : Mmio
  pub device : D
  pub ram : Ram

-- A queue as its class declares it.
abbrev pub blank_queue : GuestMemMap → VirtQueue
blank_queue m = record {
  queue_size = 0;
  mem = m;
  desc_gpa = 0;
  driver_gpa = 0;
  device_gpa = 0;
  last_avail_idx = 0;
  ready = false;
}

abbrev pub queue_at : Mmio → ℕ → VirtQueue
queue_at m i = get_or m.queues i (blank_queue m.mem)

abbrev pub config_at : Mmio → ℕ → QueueConfig
config_at m i = get_or m.queue_configs i no_config

-- `interrupt_status_.fetch_or(1)` and the callback
unfoldable pub notify_used_buffer : Mmio → Mmio
notify_used_buffer m = record m {
  interrupt_status = set_bit m.interrupt_status 0;
  irqs = m.irqs + 1;
}

unfoldable pub notify_config_change : Mmio → Mmio
notify_config_change m = record m {
  config_generation = u32 (m.config_generation + 1);
  interrupt_status = set_bit m.interrupt_status 1;
  irqs = m.irqs + 1;
}

unfoldable pub do_reset : Mmio → Mmio
unfolding Virtqueue.reset
do_reset m = record m {
  status = 0;
  device_features_sel = 0;
  driver_features_sel = 0;
  driver_features = 0;
  queue_sel = 0;
  shm_sel = 0;
  interrupt_status = 0;
  queues = map Virtqueue.reset m.queues;
  queue_configs = map (λ _. no_config) m.queue_configs;
}

-- `x >> n` on 64 bits. The count is taken modulo 64, as the host's shift instruction does; C++
-- leaves a count from 64 on undefined.
abbrev pub shr64 : ℕ → ℕ → ℕ
shr64 x n = shr x (n % 64)

-- `QueueReady` written with 1
unfoldable pub start_queue : ℕ → GuestMemMap → QueueConfig → VirtQueue → VirtQueue
unfolding Virtqueue.setup Virtqueue.set_desc_addr Virtqueue.set_driver_addr
    Virtqueue.set_device_addr Virtqueue.set_ready
start_queue max_size mem c q =
    let size = if c.num == 0 then max_size else c.num in
    Virtqueue.set_ready true (
      Virtqueue.set_device_addr c.device_addr (
        Virtqueue.set_driver_addr c.driver_addr
          (Virtqueue.set_desc_addr c.desc_addr (Virtqueue.setup size mem q))))

-- `~val & x` on 32 bits
abbrev pub and_not32 : ℕ → ℕ → ℕ
and_not32 x val = bit_and x (2 ^ 32 - 1 - val)

abbrev pub stage : Mmio → (QueueConfig → QueueConfig) → Mmio
stage m f = record m { queue_configs = modify m.queue_configs m.queue_sel f }

-- `DriverFeatures`
abbrev pub write_driver_features : Mmio → ℕ → Mmio
write_driver_features m val =
    if m.driver_features_sel == 0
    then record m { driver_features = with_low32 m.driver_features val }
    else if m.driver_features_sel == 1
    then record m { driver_features = with_high32 m.driver_features val }
    else m

-- The registers that touch the transport's own state only.
unfoldable pub write_plain : Mmio → ℕ → ℕ → Mmio
write_plain m offset val =
    if offset == 0x014
    then record m { device_features_sel = val }
    else if offset == 0x020
    then write_driver_features m val
    else if offset == 0x024
    then record m { driver_features_sel = val }
    else if offset == 0x030
    then record m { queue_sel = val }
    else if offset == 0x038
    then stage m (λ c. record c { num = val })
    else if offset == 0x064
    then record m { interrupt_status = and_not32 m.interrupt_status val }
    else if offset == 0x080
    then stage m (λ c. record c { desc_addr = with_low32 c.desc_addr val })
    else if offset == 0x084
    then stage m (λ c. record c { desc_addr = with_high32 c.desc_addr val })
    else if offset == 0x090
    then stage m (λ c. record c { driver_addr = with_low32 c.driver_addr val })
    else if offset == 0x094
    then stage m (λ c. record c { driver_addr = with_high32 c.driver_addr val })
    else if offset == 0x0a0
    then stage m (λ c. record c { device_addr = with_low32 c.device_addr val })
    else if offset == 0x0a4
    then stage m (λ c. record c { device_addr = with_high32 c.device_addr val })
    else if offset == 0x0ac
    then record m { shm_sel = val }
    else m

-- The transport when `OnQueueNotify` has returned.
unfoldable pub after_notify : {D : Type 0} → Mmio → ℕ → Served D → World D
unfolding notify_used_buffer
after_notify m i s =
    let m' = record m { queues = modify m.queues i (λ _. s.queue) } in
    record {
      mmio = if s.notified then notify_used_buffer m' else m';
      device = s.device;
      ram = s.ram;
    }

module _ {D : Type 0} (ops : DeviceOps D) where
  -- `Init`, of a transport that has no queue yet
  unfoldable pub init_queues : D → GuestMemMap → ℕ → ℕ → List VirtQueue
  init_queues d mem i zero = []
  init_queues d mem i (suc n) =
      Virtqueue.setup (ops.queue_max_size d i) mem (blank_queue mem) ∷ init_queues d mem (i + 1) n

  unfoldable pub init : D → GuestMemMap → Mmio
  unfolding init_queues Virtqueue.setup
  init d mem = record {
    mem = mem;
    status = 0;
    device_features_sel = 0;
    driver_features_sel = 0;
    driver_features = 0;
    queue_sel = 0;
    interrupt_status = 0;
    config_generation = 0;
    queues = init_queues d mem 0 (ops.num_queues d);
    queue_configs = replicate (ops.num_queues d) no_config;
    shm_sel = 0;
    irqs = 0;
  }

  unfoldable pub mmio_read : World D → ℕ → ℕ → ℕ
  mmio_read w offset size =
      let m = w.mmio in
      if leb 0x100 offset
      then ops.read_config w.device (u32 (offset - 0x100)) size
      else if offset == 0x000
      then 0x7472_6976
      else if offset == 0x004
      then 2
      else if offset == 0x008
      then ops.device_id w.device
      else if offset == 0x00c
      then 0x554d_4551
      else if offset == 0x010
      then u32 (shr64 (ops.device_features w.device) (u32 (m.device_features_sel * 32)))
      else if offset == 0x034
      then if ltb m.queue_sel (length m.queues) then ops.queue_max_size w.device m.queue_sel else 0
      else if offset == 0x044
      then if ltb m.queue_sel (length m.queues)
        then (if (queue_at m m.queue_sel).ready then 1 else 0)
        else 0
      else if offset == 0x060
      then m.interrupt_status
      else if offset == 0x070
      then m.status
      else if offset == 0x0fc
      then m.config_generation
      else if offset == 0x0b0
      then 0xffff_ffff
      else if offset == 0x0b4
      then 0xffff_ffff
      else if offset == 0x0b8
      then 0xffff_ffff
      else if offset == 0x0bc
      then 0xffff_ffff
      else 0

  -- `QueueReady`
  unfoldable pub write_queue_ready : World D → ℕ → World D
  unfolding start_queue Virtqueue.set_ready
  write_queue_ready w val =
      let m = w.mmio in
      let i = m.queue_sel in
      if not (ltb i (length m.queues))
      then w
      else if val == 1
      then record w {
        mmio = record m {
          queues =
              modify m.queues i (start_queue (ops.queue_max_size w.device i) m.mem (config_at m i));
        };
      }
      else record w { mmio = record m { queues = modify m.queues i (Virtqueue.set_ready false) } }

  -- `QueueNotify`
  unfoldable pub write_queue_notify : World D → ℕ → World D
  unfolding after_notify
  write_queue_notify w i =
      let m = w.mmio in
      if ltb i (length m.queues) && (queue_at m i).ready
      then after_notify m i (ops.on_queue_notify w.device w.ram i (queue_at m i))
      else w

  -- `Status`
  unfoldable pub write_status : World D → ℕ → World D
  unfolding do_reset
  write_status w val =
      if val == 0
      then record w { mmio = do_reset w.mmio; device = ops.on_status_change w.device 0 }
      else record w {
        mmio = record w.mmio { status = val };
        device = ops.on_status_change w.device val;
      }

  unfoldable pub mmio_write : World D → ℕ → ℕ → ℕ → World D
  mmio_write w offset size value =
      let val = u32 value in
      if leb 0x100 offset
      then record w { device = ops.write_config w.device (u32 (offset - 0x100)) size val }
      else if offset == 0x044
      then write_queue_ready w val
      else if offset == 0x050
      then write_queue_notify w val
      else if offset == 0x070
      then write_status w val
      else record w { mmio = write_plain w.mmio offset val }
