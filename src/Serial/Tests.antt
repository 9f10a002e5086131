-- ===== src/Serial/Tests.antt =====
-- A control message out, and some in.
use tenclaw.Base.{ℕ, ◌≡◌, refl, true, false, some, List, [], ◌∷◌, arith, set, take}
use tenclaw.Memory.{GuestMemMap, Ram, gpa_to_hva, store16, store32}
use tenclaw.Virtqueue.{
  VirtQueue, VirtqChainElem, desc_at, walk_chain, walk_from, push_used, pop_avail, has_available,
}
use tenclaw.Mmio.{Mmio}
use tenclaw.Blk.Transfer.{gather, Outside}
use tenclaw.Serial.{
  Serial, Work, Control, new_serial, set_port_open_callback, is_port_connected, put_control,
  control_bytes, notify,
}
use tenclaw.Serial.Events.{handle_events, handle_events_lem}
use tenclaw.Serial.Deliver.{put_control_lem}

abbrev small_map : GuestMemMap
small_map = record {
  base = 0x10000;
  alloc_size = 0x1000;
  low_size = 0x1000;
  high_base = 0x1_0000_0000;
  high_size = 0;
}

abbrev queue_after : ℕ → VirtQueue
queue_after index = record {
  queue_size = 4;
  mem = small_map;
  desc_gpa = 0x100;
  driver_gpa = 0x200;
  device_gpa = 0x300;
  last_avail_idx = index;
  ready = true;
}

-- Descriptor 2 is a buffer of 16 bytes at 0x400 for the device to write, and the one buffer available.
abbrev published : Ram
published =
    store16
      (store16 (store16 (store32 (store16 (λ x. 0) 0x10120 0x400) 0x10128 16) 0x1012c 2) 0x10202 1)
      0x10204 2

abbrev buffer : List VirtqChainElem
buffer = record { addr = 0x10400; len = 16; writable = true } ∷ []

abbrev transport : Mmio
transport = record {
  mem = small_map;
  status = 15;
  device_features_sel = 0;
  driver_features_sel = 0;
  driver_features = 0;
  queue_sel = 0;
  interrupt_status = 0;
  config_generation = 0;
  queues = queue_after 0 ∷ queue_after 0 ∷ queue_after 0 ∷ queue_after 0 ∷ [];
  queue_configs = [];
  shm_sel = 0;
  irqs = 0;
}

abbrev two_ports : Serial
two_ports = set_port_open_callback (new_serial 2)

abbrev idle : Work
idle = record { serial = two_ports; mmio = transport; ram = published }

abbrev add_message : List ℕ
add_message = control_bytes (record { id = 1; event = 1; value = 1 })

popped : pop_avail (queue_after 0) published ≡ some (2, queue_after 1)
unfolding pop_avail has_available gpa_to_hva
popped = refl

walks : walk_chain (queue_after 1) published 2 ≡ some buffer
unfolding walk_chain walk_from desc_at gpa_to_hva
walks = refl

put_control_lem_example :
    (r : Ram) × (put_control add_message idle
      ≡ notify (record idle {
        mmio = record transport { queues = set transport.queues 2 (queue_after 1) };
        ram = push_used (queue_after 1) r 2 8;
      }))
    × (take 8 (gather true buffer r) ≡ take 16 add_message)
    × ((x : ℕ) → Outside x buffer → r x ≡ published x)
put_control_lem_example =
    put_control_lem add_message idle (queue_after 0) (queue_after 1) 2 buffer refl refl popped walks
      (ground arith) (ground arith) (tt, tt)

-- The guest opens port 1, closes it and opens it again.
abbrev talk : List Control
talk =
    record { id = 1; event = 6; value = 1 }
    ∷ record { id = 1; event = 6; value = 0 }
    ∷ record { id = 5; event = 6; value = 1 }
    ∷ record { id = 1; event = 6; value = 1 }
    ∷ []

handle_events_lem_example :
    (is_port_connected (handle_events talk idle).serial 1 ≡ true)
    × ((handle_events talk idle).serial.notices ≡ (1, true) ∷ (1, false) ∷ (1, true) ∷ [])
handle_events_lem_example = handle_events_lem talk idle 1 (ground arith) refl
