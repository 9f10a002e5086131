-- ===== src/Mmio/Tests.antt =====
-- The transport in front of a device with no state and one queue.
use tenclaw.Base.{◌+◌, ◌^◌, ◌≡◌, ap, true, [], ◌∷◌, ◌++◌, arith}
use tenclaw.Memory.{GuestMemMap}
use tenclaw.Virtqueue.{VirtQueue}
use tenclaw.Mmio.{
  DeviceOps, World, init, mmio_read, mmio_write, notify_used_buffer, queue_at, init_queues,
}
use tenclaw.Mmio.Registers.{reset_reads_fresh}
use tenclaw.Mmio.Queues.{Setup, Fits, write_all, staging, bring_up_lem}

abbrev plain : DeviceOps (Unit {0})
plain = record {
  device_id = λ d. 2;
  device_features = λ d. 2 ^ 32 + 5;
  num_queues = λ d. 2;
  queue_max_size = λ d i. 128;
  on_queue_notify = λ d ram i q. record { device = d; ram = ram; queue = q; notified = true };
  read_config = λ d offset size. 7;
  write_config = λ d offset size value. d;
  on_status_change = λ d status. d;
}

abbrev small_map : GuestMemMap
small_map = record {
  base = 0x10000;
  alloc_size = 0x1000;
  low_size = 0x1000;
  high_base = 0x1_0000_0000;
  high_size = 0;
}

world : World (Unit {0})
unfolding init
world = record { mmio = init plain tt small_map; device = tt; ram = λ x. 0 }

abbrev second : Setup
second = record { index = 1; num = 16; desc = 0x1_0000_2000; driver = 0x3000; device = 0x4000 }

second-Fits : Fits second world.mmio
unfolding world init_queues
second-Fits = omega arith

bring_up_lem_example :
    (queue_at (write_all plain world (staging second ++ ((0x044, 1) ∷ []))).mmio 1).desc_gpa
    ≡ 0x1_0000_2000
bring_up_lem_example =
    ap (λ (q : VirtQueue). q.desc_gpa) (bring_up_lem plain world second second-Fits).0

-- The second queue is ready and an interrupt is pending.
busy : World (Unit {0})
unfolding world notify_used_buffer
busy =
    let started = write_all plain world (staging second ++ ((0x044, 1) ∷ [])) in
    record started { mmio = notify_used_buffer started.mmio }

reset_reads_fresh_example :
    mmio_read plain (mmio_write plain (mmio_write plain busy 0x070 4 0) 0x030 4 1) 0x044 4 ≡ 0
reset_reads_fresh_example = (reset_reads_fresh plain busy 1 4 4 0).2
