-- ===== src/Input/Tests.antt =====
-- An injection into a queue with nothing pending, and a selection of the keyboard's key bits.
use tenclaw.Base.{ℕ, List, [], ◌∷◌, ◌%◌, ◌≡◌, refl, true}
use tenclaw.Memory.{GuestMemMap, Ram}
use tenclaw.Virtqueue.{VirtQueue}
use tenclaw.Mmio.{Mmio}
use tenclaw.Input.{inject_event}
use tenclaw.Input.Config.{
  keyboard, new_config, write_config, update_config_data, answer, event_bits,
}
use tenclaw.Input.Answers.{run}
use tenclaw.Input.Inject.{inject_event_notifies}

abbrev blank : Ram
blank x = 0

abbrev small_map : GuestMemMap
small_map = record {
  base = 0x10000;
  alloc_size = 0x1000;
  low_size = 0x1000;
  high_base = 0x1_0000_0000;
  high_size = 0;
}

abbrev queue : VirtQueue
queue = record {
  queue_size = 4;
  mem = small_map;
  desc_gpa = 0x100;
  driver_gpa = 0x200;
  device_gpa = 0x300;
  last_avail_idx = 0;
  ready = true;
}

abbrev transport : Mmio
transport = record {
  mem = small_map;
  status = 15;
  device_features_sel = 0;
  driver_features_sel = 0;
  driver_features = 0;
  queue_sel = 0;
  interrupt_status = 0;
  config_generation = 0;
  queues = queue ∷ [];
  queue_configs = [];
  shm_sel = 0;
  irqs = 0;
}

inject_event_notifies_example :
    ((inject_event 1 30 1 true transport blank).0.irqs ≡ 1)
    × ((inject_event 1 30 1 true transport blank).0.interrupt_status % 2 ≡ 1)
inject_event_notifies_example =
    (inject_event_notifies 1 30 1 true transport queue blank refl).0 refl refl

-- The keyboard's key bits, selected one byte at a time.
abbrev selects : List (ℕ × ℕ × ℕ)
selects = (0, 1, 0x11) ∷ (1, 1, 1) ∷ []

reports_keys : (run selects (new_config keyboard)).size ≡ 32
unfolding write_config update_config_data answer event_bits
reports_keys = refl
