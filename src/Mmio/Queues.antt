-- ===== src/Mmio/Queues.antt =====
-- How the driver brings up a queue: the registers that it writes, and the queue that results.
use tenclaw.Base.{
  ℕ, zero, suc, ◌/◌, ◌%◌, ◌^◌, ◌<◌, ◌≡◌, refl, ap, ◌≢◌, true, List, [], ◌∷◌, ◌++◌, arith, ◌==◌,
  if◌then◌else◌, length, modify, get_or-modify_self, get_or-modify_ne,
}
use mathlib.Core.Path.{fun_ext}
use tenclaw.Mmio.{
  DeviceOps, World, Mmio, QueueConfig, no_config, blank_queue, queue_at, start_queue, write_plain,
  mmio_write, write_queue_ready,
}

-- What the driver wants of a queue.
pub record Setup : Type 0 where
  pub index : ℕ
  pub num : ℕ
  pub desc : ℕ
  pub driver : ℕ
  pub device : ℕ

-- Everything fits its register, and the queue exists.
pub record Fits (s : Setup) (m : Mmio) : Type 0 where
  pub index_in : s.index < length m.queues
  pub staged : s.index < length m.queue_configs
  pub narrow : s.index < 2 ^ 32
  pub num_fits : s.num < 2 ^ 32
  pub desc_fits : s.desc < 2 ^ 64
  pub driver_fits : s.driver < 2 ^ 64
  pub device_fits : s.device < 2 ^ 64

-- The staging registers, low and high halves, in the order of the register map.
abbrev pub staging : Setup → List (ℕ × ℕ)
staging s =
    (0x030, s.index)
    ∷ (0x038, s.num)
    ∷ (0x080, s.desc % 2 ^ 32)
    ∷ (0x084, s.desc / 2 ^ 32)
    ∷ (0x090, s.driver % 2 ^ 32)
    ∷ (0x094, s.driver / 2 ^ 32)
    ∷ (0x0a0, s.device % 2 ^ 32)
    ∷ (0x0a4, s.device / 2 ^ 32)
    ∷ []

modify-modify :
    (cs : List QueueConfig) (i : ℕ) (f g : QueueConfig → QueueConfig)
    → modify (modify cs i f) i g ≡ modify cs i (λ c. g (f c))
modify-modify [] i f g = refl
modify-modify (c ∷ cs) zero f g = refl
modify-modify (c ∷ cs) (suc i) f g = ap (λ t. c ∷ t) (modify-modify cs i f g)

-- The staging record that the driver's eight writes leave, whatever was there.
abbrev wanted : Setup → QueueConfig
wanted s = record {
  num = s.num;
  desc_addr = s.desc;
  driver_addr = s.driver;
  device_addr = s.device;
}

abbrev staged : Setup → Mmio → Mmio
staged s m = record m {
  queue_sel = s.index;
  queue_configs = modify m.queue_configs s.index (λ _. wanted s);
}

module _ {D : Type 0} (ops : DeviceOps D) where
  abbrev pub write_all : World D → List (ℕ × ℕ) → World D
  write_all w [] = w
  write_all w ((offset, val) ∷ rest) = write_all (mmio_write ops w offset 4 val) rest

  staging_lem :
      (w : World D) (s : Setup)
      → Fits s w.mmio
      → write_all w (staging s) ≡ record w { mmio = staged s w.mmio }
  unfolding mmio_write write_plain
  staging_lem w s f =
      let narrow : s.index % 2 ^ 32 ≡ s.index = omega arith in
      rw (narrow) (
        simp (modify-modify) (
          ap
            (λ (g : QueueConfig → QueueConfig). record w {
              mmio = record w.mmio {
                queue_sel = s.index;
                queue_configs = modify w.mmio.queue_configs s.index g;
              };
            })
            (fun_ext (λ c. ground arith))))

  ready_lem :
      (w : World D) (s : Setup)
      → Fits s w.mmio
      → (mmio_write ops (record w { mmio = staged s w.mmio }) 0x044 4 1).mmio
        ≡ record (staged s w.mmio) {
          queues =
              modify w.mmio.queues s.index
                (start_queue (ops.queue_max_size w.device s.index) w.mmio.mem (wanted s));
        }
  unfolding mmio_write write_queue_ready
  ready_lem w s f =
      ground
        (arith, get_or-modify_self w.mmio.queue_configs s.index (λ _. wanted s) no_config f.staged)

  -- For a queue that the device has, whatever was staged before, the eight staging writes and
  -- `QueueReady` leave the queue ready at the three 64-bit addresses, with the driver's size (or
  -- the device's maximum for 0), its index rewound, and every other queue as it was.
  pub bring_up_lem :
      (w : World D) (s : Setup)
      → Fits s w.mmio
      → let w' = write_all w (staging s ++ ((0x044, 1) ∷ [])) in
        (queue_at w'.mmio s.index ≡ record {
          queue_size = if s.num == 0 then ops.queue_max_size w.device s.index else s.num;
          mem = w.mmio.mem;
          desc_gpa = s.desc;
          driver_gpa = s.driver;
          device_gpa = s.device;
          last_avail_idx = 0;
          ready = true;
        })
        × ((j : ℕ) → s.index ≢ j → queue_at w'.mmio j ≡ queue_at w.mmio j)
  unfolding start_queue
  bring_up_lem w s f =
      let start = start_queue (ops.queue_max_size w.device s.index) w.mmio.mem (wanted s) in
      rw (staging_lem w s f, ready_lem w s f)
        (
          get_or-modify_self w.mmio.queues s.index start (blank_queue w.mmio.mem) f.index_in,
          λ j ne. get_or-modify_ne w.mmio.queues s.index j start (blank_queue w.mmio.mem) ne,
        )
