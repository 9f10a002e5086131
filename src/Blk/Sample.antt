-- ===== src/Blk/Sample.antt =====
-- A queue and a header, for the examples.
use tenclaw.Base.{ℕ, ◌+◌, ◌≡◌, refl, inr, true, false, some, arith}
use tenclaw.Memory.{Ram, GuestMemMap, gpa_to_hva, store16, store32}
use tenclaw.Virtqueue.{VirtQueue, VirtqChainElem, used}
use tenclaw.RawImage.Sample.{memory_file, memory_laws, image}
use tenclaw.RawImage.Laws.{IsOpen}
use tenclaw.Blk.Request.{OffRing}

abbrev pub small_map : GuestMemMap
small_map = record {
  base = 0x10000;
  alloc_size = 0x1000;
  low_size = 0x1000;
  high_base = 0x1_0000_0000;
  high_size = 0;
}

abbrev pub queue : VirtQueue
queue = record {
  queue_size = 4;
  mem = small_map;
  desc_gpa = 0x100;
  driver_gpa = 0x200;
  device_gpa = 0x300;
  last_avail_idx = 65535;
  ready = true;
}

-- A descriptor at `d`: a buffer at guest address `a`.
abbrev pub put_desc : Ram → ℕ → ℕ → ℕ → ℕ → ℕ → Ram
put_desc r d a len flags next =
    store16 (store16 (store32 (store32 r d a) (d + 8) len) (d + 12) flags) (d + 14) next

abbrev pub hdr_elem : VirtqChainElem
hdr_elem = record { addr = 0x10500; len = 16; writable = false }

abbrev pub status_elem : VirtqChainElem
status_elem = record { addr = 0x10700; len = 1; writable = true }

pub used-queue : used queue ≡ some 0x10300
unfolding gpa_to_hva
used-queue = refl

pub off_ring : OffRing queue 0x10300 0x10700
off_ring = inr (omega arith)

pub image-IsOpen : IsOpen memory_file memory_laws 1024 image
unfolding memory_laws
image-IsOpen = record { sound = λ x. omega arith; sized = refl; backed = refl }
