-- ===== src/Blk/WriteTests.antt =====
-- Write requests over the raw image and over the qcow2 image.
use tenclaw.Base.{ℕ, ◌≡◌, ◌<◌, refl, true, false, some, [], ◌∷◌, arith}
use tenclaw.Memory.{Ram, gpa_to_hva, store8, store_bytes, load_bytes}
use tenclaw.Virtqueue.{VirtqChainElem, desc_at, walk_chain, walk_from}
use tenclaw.RawImage.{RawImage, raw_disk}
use tenclaw.RawImage.Laws.{raw_contract}
use tenclaw.RawImage.Sample.{File, memory_file, memory_laws, image as raw_image}
use tenclaw.Qcow2.{Qcow2}
use tenclaw.Qcow2.Transfer.{flush, qcow2_disk}
use tenclaw.Qcow2.Image.{disk, disk_byte}
use tenclaw.Qcow2.Sample.{GrowFile, grow_file, grow_laws, no_codecs, image}
use tenclaw.Qcow2.SampleRoom.{image-Roomy}
use tenclaw.Blk.{Work, process_request}
use tenclaw.Blk.Request.{IsRequest}
use tenclaw.Blk.Write.{write_request_lem}
use tenclaw.Blk.Durable.{flush-write_request}
use tenclaw.Blk.Sample.{queue, put_desc, hdr_elem, status_elem, used-queue, off_ring, image-IsOpen}

-- A write of four bytes to sector 1.
abbrev request : Ram
request =
    store8
      (store8
        (put_desc (put_desc (put_desc (λ x. 0) 0x10100 0x500 16 1 1) 0x10110 0x600 4 1 2) 0x10120
          0x700 1 2 0)
        0x10500 1)
      0x10508 1

abbrev data_elem : VirtqChainElem
data_elem = record { addr = 0x10600; len = 4; writable = false }

walks : walk_chain queue request 0 ≡ some (hdr_elem ∷ data_elem ∷ status_elem ∷ [])
unfolding walk_chain walk_from desc_at gpa_to_hva
walks = refl

complete : IsRequest hdr_elem (data_elem ∷ status_elem ∷ [])
complete = record {
  two = omega arith;
  header = omega arith;
  status_writable = refl;
  status_len = omega arith;
}

abbrev raw_work : Work (RawImage File)
raw_work = record { disk = raw_image; ram = request }

write_request_lem_example :
    (process_request (raw_disk memory_file) queue 0 raw_work).ram 0x10700 ≡ 0
unfolding raw_contract
write_request_lem_example =
    (write_request_lem (raw_disk memory_file)
      (raw_contract memory_file memory_laws 1024 (omega arith)) queue 0x10300 0 hdr_elem
      (data_elem ∷ status_elem ∷ []) raw_work walks complete used-queue (omega arith) (omega arith)
      off_ring refl image-IsOpen (omega arith)).0

-- The second sector is in a cluster that the image does not have yet.
abbrev work : Work (Qcow2 GrowFile)
work = record { disk = image; ram = request }

flush-write_request_example :
    (d : Qcow2 GrowFile) × (flush grow_file
        (process_request (qcow2_disk grow_file no_codecs) queue 0 work).disk
      ≡ (d, true))
    × (d.virtual_size ≡ 1024)
    × ((x : ℕ)
        → x < 1024
        → disk_byte grow_file grow_laws d d.file [] x
          ≡ store_bytes (disk grow_file grow_laws image) 512 (0 ∷ 0 ∷ 0 ∷ 0 ∷ []) x)
unfolding load_bytes
flush-write_request_example =
    flush-write_request grow_file grow_laws no_codecs queue 0x10300 0 hdr_elem
      (data_elem ∷ status_elem ∷ []) work walks complete used-queue (omega arith) (omega arith)
      off_ring refl image-Roomy (omega arith)
