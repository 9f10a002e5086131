-- ===== src/Blk/Tests.antt =====
-- A read and a flush of one sector's bytes over a concrete queue.
use tenclaw.Base.{ℕ, ◌≡◌, refl, inr, true, false, some, [], ◌∷◌, arith}
use tenclaw.Memory.{Ram, gpa_to_hva, load32, store8}
use tenclaw.Virtqueue.{VirtqChainElem, desc_at, walk_chain, walk_from}
use tenclaw.RawImage.{RawImage, raw_disk}
use tenclaw.RawImage.Laws.{raw_contract}
use tenclaw.RawImage.Sample.{File, memory_file, memory_laws, image}
use tenclaw.Blk.{Work, process_request}
use tenclaw.Blk.Request.{IsRequest}
use tenclaw.Blk.Read.{read_request_lem, Clear}
use tenclaw.Blk.Sample.{queue, put_desc, hdr_elem, status_elem, used-queue, off_ring, image-IsOpen}

-- Descriptors 0, 1, 2: the header, four bytes for the device to write, the status byte.
abbrev described : Ram
described =
    put_desc (put_desc (put_desc (λ x. 0) 0x10100 0x500 16 1 1) 0x10110 0x600 4 3 2) 0x10120 0x700 1
      2 0

-- A request of this type for sector 1.
abbrev request : ℕ → Ram
request kind = store8 (store8 described 0x10500 kind) 0x10508 1

abbrev data_elem : VirtqChainElem
data_elem = record { addr = 0x10600; len = 4; writable = true }

abbrev work : ℕ → Work (RawImage File)
work kind = record { disk = image; ram = request kind }

reads : walk_chain queue (request 0) 0 ≡ some (hdr_elem ∷ data_elem ∷ status_elem ∷ [])
unfolding walk_chain walk_from desc_at gpa_to_hva
reads = refl

flushes : walk_chain queue (request 4) 0 ≡ some (hdr_elem ∷ data_elem ∷ status_elem ∷ [])
unfolding walk_chain walk_from desc_at gpa_to_hva
flushes = refl

accepted : IsRequest hdr_elem (data_elem ∷ status_elem ∷ [])
accepted = record {
  two = omega arith;
  header = omega arith;
  status_writable = refl;
  status_len = omega arith;
}

clear : Clear queue 0x10300 0x10700 (data_elem ∷ [])
clear = ((λ x lo hi. (inr (omega arith), omega arith)), tt)

read_request_lem_example :
    load32 (process_request (raw_disk memory_file) queue 0 (work 0)).ram 0x10308 ≡ 5
unfolding raw_contract
read_request_lem_example =
    (read_request_lem (raw_disk memory_file)
      (raw_contract memory_file memory_laws 1024 (omega arith)) queue 0x10300 0 hdr_elem
      (data_elem ∷ status_elem ∷ []) (work 0) reads accepted used-queue (omega arith) (omega arith)
      off_ring refl image-IsOpen (omega arith) (tt, tt) clear).2

-- Head 3 is an empty descriptor, whose chain has one element only.
lonely :
    walk_chain queue (request 0) 3
    ≡ some (record { addr = 0x10000; len = 0; writable = false } ∷ [])
unfolding walk_chain walk_from desc_at gpa_to_hva
lonely = refl
