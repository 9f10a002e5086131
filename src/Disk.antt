-- ===== src/Disk.antt =====
-- core/device/virtio/disk_image.h: what a disk image offers the block device.
use tenclaw.Base.{ℕ, ◌+◌, ◌^◌, ◌≤◌, ◌<◌, ◌≡◌, Bool, true, List, length}
use tenclaw.Memory.{load_bytes, store_bytes}

-- `DiskImage`, for an image with state `S`. A read returns whether it succeeded and the bytes that it
-- put into the caller's buffer, which a failed read may have filled in part.
pub record DiskOps (S : Type 0) : Type 0 where
  pub get_size : S → ℕ
  pub read : S → ℕ → ℕ → S × Bool × List ℕ
  pub write : S → ℕ → List ℕ → S × Bool
  pub flush : S → S × Bool

-- What the block device may rely on: while an image is `Valid` it holds `size` bytes, a read inside
-- them succeeds and delivers them, a write inside them succeeds and changes them alone.
pub record Contract {S : Type 0} (ops : DiskOps S) : Type 1 where
  pub Valid : S → Type 0
  pub size : ℕ
  pub content : S → ℕ → ℕ
  pub size_fits : size < 2 ^ 63
  pub content_bytes : (d : S) (x : ℕ) → Valid d → content d x < 2 ^ 8
  pub read_lem :
      (d : S) (offset len : ℕ)
      → Valid d
      → offset + len ≤ size
      → (Valid (ops.read d offset len).0
          × ((ops.read d offset len).1 ≡ true)
          × ((ops.read d offset len).2 ≡ load_bytes (content d) offset len)
          × ((x : ℕ) → content (ops.read d offset len).0 x ≡ content d x))
  pub write_lem :
      (d : S) (offset : ℕ) (bytes : List ℕ)
      → Valid d
      → offset + length bytes ≤ size
      → (Valid (ops.write d offset bytes).0
          × ((ops.write d offset bytes).1 ≡ true)
          × ((x : ℕ)
              → x < size
              → content (ops.write d offset bytes).0 x ≡ store_bytes (content d) offset bytes x))
