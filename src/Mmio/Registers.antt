-- ===== src/Mmio/Registers.antt =====
-- The register interface as the driver uses it: the transport's invariant, the 64-bit feature words
-- that go through 32-bit windows, and the reset.
use tenclaw.Base.Bits.{bit_and-two_bits}
use tenclaw.Base.{
  ℕ, zero, suc, ◌+◌, ◌-◌, ◌*◌, ◌^◌, ◌<◌, ◌≡◌, refl, ap, false, List, [], ◌∷◌, arith, length, get_or,
  u32, length-replicate, length-modify,
}
use mathlib.Core.List.{map}
use tenclaw.Memory.{GuestMemMap}
use tenclaw.Virtqueue.{VirtQueue}
use tenclaw.Virtqueue
use tenclaw.Mmio.{
  DeviceOps, Served, World, Mmio, QueueConfig, no_config, blank_queue, queue_at, config_at,
  notify_used_buffer, notify_config_change, do_reset, write_plain, mmio_read, mmio_write,
  write_queue_ready, write_queue_notify, write_status, init, and_not32, after_notify, init_queues,
}

length-map {ℓ κ} :
    {A : Type ℓ} {B : Type κ} (f : A → B) (xs : List A) → length (map f xs) ≡ length xs
length-map f [] = refl
length-map f (x ∷ xs) = ap suc (length-map f xs)

-- The transport has one staging record for each of its `n` queues, and every register it keeps fits
-- the width that the source declares.
pub record IsValid (n : ℕ) (m : Mmio) : Type 0 where
  pub queues_len : length m.queues ≡ n
  pub configs_len : length m.queue_configs ≡ n
  pub status_fits : m.status < 2 ^ 32
  pub sel_fits : m.queue_sel < 2 ^ 32
  pub device_sel_fits : m.device_features_sel < 2 ^ 32
  pub driver_sel_fits : m.driver_features_sel < 2 ^ 32
  pub features_fit : m.driver_features < 2 ^ 64
  pub interrupts_fit : m.interrupt_status < 4

and_not32-lt : (x v : ℕ) → x < 4 → and_not32 x v < 4
and_not32-lt x v h = omega (arith, bit_and-two_bits x (2 ^ 32 - 1 - v) h)

write_plain-IsValid :
    (n : ℕ) (m : Mmio) (offset val : ℕ)
    → val < 2 ^ 32
    → IsValid n m
    → IsValid n (write_plain m offset val)
unfolding write_plain
write_plain-IsValid n m offset val h v =
    grind (arith, length-modify, and_not32-lt m.interrupt_status val v.interrupts_fit)

notify_used_buffer-IsValid : (n : ℕ) (m : Mmio) → IsValid n m → IsValid n (notify_used_buffer m)
unfolding notify_used_buffer
notify_used_buffer-IsValid n m v = ground arith

notify_config_change-IsValid : (n : ℕ) (m : Mmio) → IsValid n m → IsValid n (notify_config_change m)
unfolding notify_config_change
notify_config_change-IsValid n m v = ground arith

do_reset-IsValid : (n : ℕ) (m : Mmio) → IsValid n m → IsValid n (do_reset m)
unfolding do_reset
do_reset-IsValid n m v = grind (
  arith,
  length-map Virtqueue.reset m.queues,
  length-map (λ (_ : QueueConfig). no_config) m.queue_configs,
)

after_notify-IsValid :
    {D : Type 0} (n : ℕ) (m : Mmio) (i : ℕ) (s : Served D)
    → IsValid n m
    → IsValid n (after_notify m i s).mmio
unfolding after_notify
after_notify-IsValid n m i s v =
    ground (arith, length-modify m.queues i (λ (_ : VirtQueue). s.queue))

module _ {D : Type 0} (ops : DeviceOps D) where
  write_queue_ready-IsValid :
      (n : ℕ) (w : World D) (val : ℕ)
      → IsValid n w.mmio
      → IsValid n (write_queue_ready ops w val).mmio
  unfolding write_queue_ready
  write_queue_ready-IsValid n w val v = grind (arith, length-modify)

  write_queue_notify-IsValid :
      (n : ℕ) (w : World D) (i : ℕ) → IsValid n w.mmio → IsValid n (write_queue_notify ops w i).mmio
  unfolding write_queue_notify
  write_queue_notify-IsValid n w i v = ground (
    arith,
    after_notify-IsValid n w.mmio i (ops.on_queue_notify w.device w.ram i (queue_at w.mmio i)) v,
  )

  write_status-IsValid :
      (n : ℕ) (w : World D) (val : ℕ)
      → val < 2 ^ 32
      → IsValid n w.mmio
      → IsValid n (write_status ops w val).mmio
  unfolding write_status
  write_status-IsValid n w val h v = ground (arith, do_reset-IsValid n w.mmio v)

  -- No write to any register, whatever its offset and value, breaks a valid transport's invariant.
  pub mmio_write-IsValid :
      (n : ℕ) (w : World D) (offset size value : ℕ)
      → IsValid n w.mmio
      → IsValid n (mmio_write ops w offset size value).mmio
  unfolding mmio_write
  mmio_write-IsValid n w offset size value v = ground (
    arith,
    write_queue_ready-IsValid n w (u32 value) v,
    write_queue_notify-IsValid n w (u32 value) v,
    write_status-IsValid n w (u32 value) (omega arith) v,
    write_plain-IsValid n w.mmio offset (u32 value) (omega arith) v,
  )

  length-init_queues :
      (d : D) (mem : GuestMemMap) (i n : ℕ) → length (init_queues ops d mem i n) ≡ n
  unfolding init_queues
  length-init_queues d mem i zero = refl
  length-init_queues d mem i (suc n) = ap suc (length-init_queues d mem (i + 1) n)

  -- `Init` gives a valid transport.
  pub init-IsValid : (d : D) (mem : GuestMemMap) → IsValid (ops.num_queues d) (init ops d mem)
  unfolding init
  init-IsValid d mem = record {
    queues_len = length-init_queues d mem 0 (ops.num_queues d);
    configs_len = length-replicate (ops.num_queues d) no_config;
    status_fits = omega arith;
    sel_fits = omega arith;
    device_sel_fits = omega arith;
    driver_sel_fits = omega arith;
    features_fit = omega arith;
    interrupts_fit = omega arith;
  }

  ready-reset :
      (qs : List VirtQueue) (i : ℕ) (mem : GuestMemMap)
      → (get_or (map Virtqueue.reset qs) i (blank_queue mem)).ready ≡ false
  unfolding Virtqueue.reset
  ready-reset [] i mem = refl
  ready-reset (q ∷ qs) zero mem = refl
  ready-reset (q ∷ qs) (suc i) mem = ready-reset qs i mem

  no_config-map :
      (cs : List QueueConfig) (i : ℕ) → get_or (map (λ _. no_config) cs) i no_config ≡ no_config
  no_config-map [] i = refl
  no_config-map (c ∷ cs) zero = refl
  no_config-map (c ∷ cs) (suc i) = no_config-map cs i

  last_avail-reset :
      (qs : List VirtQueue) (i : ℕ) (mem : GuestMemMap)
      → (get_or (map Virtqueue.reset qs) i (blank_queue mem)).last_avail_idx ≡ 0
  unfolding Virtqueue.reset
  last_avail-reset [] i mem = refl
  last_avail-reset (q ∷ qs) zero mem = refl
  last_avail-reset (q ∷ qs) (suc i) mem = last_avail-reset qs i mem

  -- After a status write of 0 the driver finds a fresh device, whichever queue it then selects: the
  -- status and the pending interrupts read as 0, no queue is ready or remembers how far it had come,
  -- no feature of the driver and nothing staged for the queue is left; and the selectors are back, so
  -- that queue 0 is selected, the features read are the low half and the features written go there.
  -- The device is told of the reset.
  pub reset_reads_fresh :
      (w : World D) (sel size size' lo : ℕ)
      → let fresh = mmio_write ops w 0x070 size 0 in
        let w' = mmio_write ops fresh 0x030 size' sel in
        (mmio_read ops w' 0x070 4 ≡ 0)
        × (mmio_read ops w' 0x060 4 ≡ 0)
        × (mmio_read ops w' 0x044 4 ≡ 0)
        × (w'.mmio.driver_features ≡ 0)
        × (config_at w'.mmio (u32 sel) ≡ no_config)
        × (w'.device ≡ ops.on_status_change w.device 0)
        × ((queue_at w'.mmio (u32 sel)).last_avail_idx ≡ 0)
        × (fresh.mmio.queue_sel ≡ 0)
        × (mmio_read ops fresh 0x010 4 ≡ u32 (ops.device_features fresh.device))
        × ((mmio_write ops fresh 0x020 4 lo).mmio.driver_features ≡ u32 lo)
  unfolding mmio_write mmio_read write_plain write_status do_reset
  reset_reads_fresh w sel size size' lo = (
    refl,
    refl,
    ground (arith, ready-reset w.mmio.queues (u32 sel) w.mmio.mem),
    refl,
    no_config-map w.mmio.queue_configs (u32 sel),
    refl,
    last_avail-reset w.mmio.queues (u32 sel) w.mmio.mem,
    refl,
    omega arith,
    omega arith,
  )

  -- The two halves of the device's feature word, read through the 32-bit window, make it up.
  pub device_features_windows :
      (w : World D) (size : ℕ)
      → ops.device_features w.device < 2 ^ 64
      → let read = λ (sel : ℕ). mmio_read ops (mmio_write ops w 0x014 size sel) 0x010 size in
        read 0 + 2 ^ 32 * read 1 ≡ ops.device_features w.device
  unfolding mmio_write mmio_read write_plain
  device_features_windows w size h = omega arith

  -- Both halves of the driver's feature word, written in either order, are kept as one 64-bit word;
  -- a write under any other selector changes nothing.
  pub driver_features_windows :
      (w : World D) (size lo hi sel junk : ℕ)
      → lo < 2 ^ 32
      → hi < 2 ^ 32
      → 1 < sel
      → sel < 2 ^ 32
      → let put = λ (v : World D) (s : ℕ) (x : ℕ).
        mmio_write ops (mmio_write ops v 0x024 size s) 0x020 size x in
        ((put (put w 0 lo) 1 hi).mmio.driver_features ≡ hi * 2 ^ 32 + lo)
        × ((put (put w 1 hi) 0 lo).mmio.driver_features ≡ hi * 2 ^ 32 + lo)
        × ((put w sel junk).mmio.driver_features ≡ w.mmio.driver_features)
  unfolding mmio_write write_plain
  driver_features_windows w size lo hi sel junk p q r s = (ground arith, ground arith, ground arith)
