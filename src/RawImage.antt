-- ===== src/RawImage.antt =====
-- core/device/virtio/raw_image.h and raw_image.cpp: a disk image that is the file itself.
-- The C library's file is a parameter, with what `fseek`, `fread`, `fwrite` and `fflush` document.
pub mod Laws
pub mod Sample
mod Tests
use tenclaw.Base.{
  ℕ, zero, suc, ◌+◌, ◌-◌, ◌*◌, ◌/◌, ◌%◌, ◌^◌, ◌≤◌, ◌<◌, min, ◌≡◌, refl, sym, ap, ap₂, subst, ◌∙◌,
  ◌≢◌, ◌↔◌, ◌⊎◌, inl, inr, Bool, true, false, not, ◌&&◌, ◌||◌, Option, none, some, List, [], ◌∷◌,
  ◌++◌, arith, ltb, leb, ◌==◌, if◌then◌else◌, Bool-cases, Option-cases, length, get_or, set, take,
  drop, replicate, u8, u16, u32, u64, shr, shl, test_bit, set_bit, clear_bit, with_low32,
  with_high32, get_elem?, ==_iff, length-append, length-set, get_or-set_self, get_or-set_ne,
  length-take, length-drop, some_inj, All, modify, length-replicate, length-modify,
  get_or-modify_self, get_or-modify_ne,
}
use tenclaw.Disk.{DiskOps}

-- A file opened for update, with state `F`. The 64-bit offset is a signed one, so from 2 ^ 63 on it
-- is negative.
pub record FileOps (F : Type 0) : Type 0 where
  pub length_of : F → ℕ
  pub seek : F → ℕ → Bool
  pub fread : F → ℕ → ℕ → List ℕ
  pub fwrite : F → ℕ → List ℕ → F × ℕ
  pub fflush : F → F × Bool

pub record RawImage (F : Type 0) : Type 0 where
  pub file : F
  pub disk_size : ℕ

module _ {F : Type 0} (ops : FileOps F) where
  -- `Open`, once `fopen` has succeeded
  unfoldable pub open_raw : F → Option (RawImage F)
  open_raw f =
      if ltb (ops.length_of f) 512
      then none
      else some (record { file = f; disk_size = ops.length_of f })

  -- Whether the read succeeded, and what it put into the buffer.
  unfoldable pub read : RawImage F → ℕ → ℕ → RawImage F × Bool × List ℕ
  read img offset len =
      let bytes = ops.fread img.file offset len in
      if ltb img.disk_size (u64 (offset + len))
      then (img, false, [])
      else if not (ops.seek img.file offset)
      then (img, false, [])
      else (img, length bytes == len, bytes)

  unfoldable pub write : RawImage F → ℕ → List ℕ → RawImage F × Bool
  write img offset bytes =
      let put = ops.fwrite img.file offset bytes in
      if ltb img.disk_size (u64 (offset + length bytes))
      then (img, false)
      else if not (ops.seek img.file offset)
      then (img, false)
      else (record img { file = put.0 }, put.1 == length bytes)

  unfoldable pub flush : RawImage F → RawImage F × Bool
  flush img = let done = ops.fflush img.file in (record img { file = done.0 }, done.1)

  abbrev pub raw_disk : DiskOps (RawImage F)
  raw_disk = record { get_size = λ img. img.disk_size; read = read; write = write; flush = flush }
