-- ===== src/Blk/Open.antt =====
-- `Open`: the device over an image of either kind, and its calls of the image.
use tenclaw.Base.{ℕ, ◌+◌, ◌^◌, ◌≤◌, ◌<◌, ◌≡◌, Bool, true, Option, none, some, List, arith, length}
use tenclaw.Memory.{load_bytes, store_bytes}
use tenclaw.Disk.{DiskOps, Contract}
use tenclaw.RawImage.{FileOps, raw_disk}
use tenclaw.Qcow2.{Codecs}
use tenclaw.Qcow2.Transfer.{qcow2_disk}
use tenclaw.DiskImage.{DiskImage, raw, qcow2, create}

module _ {F : Type 0} (ops : FileOps F) (codecs : Codecs) where
  -- The virtual calls of a `DiskImage`.
  unfoldable pub image_size : DiskImage F → ℕ
  image_size (raw i) = (raw_disk ops).get_size i
  image_size (qcow2 q) = (qcow2_disk ops codecs).get_size q

  unfoldable pub image_read : DiskImage F → ℕ → ℕ → DiskImage F × Bool × List ℕ
  image_read (raw i) offset len =
      let got = (raw_disk ops).read i offset len in (raw got.0, got.1, got.2)
  image_read (qcow2 q) offset len =
      let got = (qcow2_disk ops codecs).read q offset len in (qcow2 got.0, got.1, got.2)

  unfoldable pub image_write : DiskImage F → ℕ → List ℕ → DiskImage F × Bool
  image_write (raw i) offset bytes =
      let put = (raw_disk ops).write i offset bytes in (raw put.0, put.1)
  image_write (qcow2 q) offset bytes =
      let put = (qcow2_disk ops codecs).write q offset bytes in (qcow2 put.0, put.1)

  unfoldable pub image_flush : DiskImage F → DiskImage F × Bool
  image_flush (raw i) = let done = (raw_disk ops).flush i in (raw done.0, done.1)
  image_flush (qcow2 q) = let done = (qcow2_disk ops codecs).flush q in (qcow2 done.0, done.1)

  abbrev pub image_disk : DiskOps (DiskImage F)
  image_disk = record {
    get_size = image_size;
    read = image_read;
    write = image_write;
    flush = image_flush;
  }

  -- `Open`, once `fopen` has succeeded: the image, and its size, from which the configuration is made.
  unfoldable pub open_blk : F → Option (DiskImage F × ℕ)
  open_blk file = elim (create ops file) [ none ↦ none | some d ↦ some (d, image_size d) ]

  module _ (k : Contract (raw_disk ops)) (m : Contract (qcow2_disk ops codecs))
      (same : m.size ≡ k.size) where
    abbrev pub ImageValid : DiskImage F → Type 0
    ImageValid (raw i) = k.Valid i
    ImageValid (qcow2 q) = m.Valid q

    abbrev pub image_content : DiskImage F → ℕ → ℕ
    image_content (raw i) = k.content i
    image_content (qcow2 q) = m.content q

    -- An image of either kind is what the block device relies on.
    unfoldable pub image_contract : Contract image_disk
    unfolding image_read image_write
    image_contract = record {
      Valid = ImageValid;
      size = k.size;
      content = image_content;
      size_fits = k.size_fits;
      content_bytes = bytes;
      read_lem = reads;
      write_lem = writes;
    }
      where
        bytes : (d : DiskImage F) (x : ℕ) → ImageValid d → image_content d x < 2 ^ 8
        bytes (raw i) x v = k.content_bytes i x v
        bytes (qcow2 q) x v = m.content_bytes q x v

        reads :
            (d : DiskImage F) (offset len : ℕ)
            → ImageValid d
            → offset + len ≤ k.size
            → (ImageValid (image_read d offset len).0
                × ((image_read d offset len).1 ≡ true)
                × ((image_read d offset len).2 ≡ load_bytes (image_content d) offset len)
                × ((x : ℕ) → image_content (image_read d offset len).0 x ≡ image_content d x))
        reads (raw i) offset len v h = k.read_lem i offset len v h
        reads (qcow2 q) offset len v h = m.read_lem q offset len v (omega (arith, same))

        writes :
            (d : DiskImage F) (offset : ℕ) (bytes : List ℕ)
            → ImageValid d
            → offset + length bytes ≤ k.size
            → (ImageValid (image_write d offset bytes).0
                × ((image_write d offset bytes).1 ≡ true)
                × ((x : ℕ)
                    → x < k.size
                    → image_content (image_write d offset bytes).0 x
                      ≡ store_bytes (image_content d) offset bytes x))
        writes (raw i) offset bytes v h = k.write_lem i offset bytes v h
        writes (qcow2 q) offset bytes v h =
            let put = m.write_lem q offset bytes v (omega (arith, same)) in
            (put.0, put.1, λ x lt. put.2 x (omega (arith, same)))
