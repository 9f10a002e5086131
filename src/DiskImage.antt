-- ===== src/DiskImage.antt =====
-- core/device/virtio/disk_image.cpp: the format of a disk image, by the first bytes of the file.
pub mod Format
use tenclaw.Base.{
  ℕ, zero, suc, ◌+◌, ◌-◌, ◌*◌, ◌/◌, ◌%◌, ◌^◌, ◌≤◌, ◌<◌, min, ◌≡◌, refl, sym, ap, ap₂, subst, ◌∙◌,
  ◌≢◌, ◌↔◌, ◌⊎◌, inl, inr, Bool, true, false, not, ◌&&◌, ◌||◌, Option, none, some, List, [], ◌∷◌,
  ◌++◌, arith, ltb, leb, ◌==◌, if◌then◌else◌, Bool-cases, Option-cases, length, get_or, set, take,
  drop, replicate, u8, u16, u32, u64, shr, shl, test_bit, set_bit, clear_bit, with_low32,
  with_high32, get_elem?, ==_iff, length-append, length-set, get_or-set_self, get_or-set_ne,
  length-take, length-drop, some_inj, cons_inj, All, modify, length-replicate, length-modify,
  get_or-modify_self, get_or-modify_ne,
}
use tenclaw.RawImage.{FileOps, RawImage, open_raw}
use tenclaw.Qcow2.{Qcow2, be_value}
use tenclaw.Qcow2.Header.{
  qcow2_magic, open_qcow2, read_header, read_l1_table, read_compression_type, field,
}
use tenclaw.Qcow2.{decode_table}
use tenclaw.Memory.{load_bytes}
use tenclaw.Qcow2.Sample.{grow_file, image}

-- The two kinds of `DiskImage`.
pub data DiskImage (F : Type 0) : Type 0 where
  raw : RawImage F → DiskImage F
  qcow2 : Qcow2 F → DiskImage F

-- `Create`, once `fopen` has succeeded. The four bytes are read as a number and turned round, which
-- is their value with the highest first.
unfoldable pub create : {F : Type 0} → FileOps F → F → Option (DiskImage F)
create ops file =
    let magic = ops.fread file 0 4 in
    if not (length magic == 4)
    then none
    else if be_value magic == qcow2_magic
    then (elim (open_qcow2 ops file) [ none ↦ none | some q ↦ some (qcow2 q) ])
    else (elim (open_raw ops file) [ none ↦ none | some img ↦ some (raw img) ])
