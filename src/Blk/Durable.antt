-- ===== src/Blk/Durable.antt =====
-- A write request over a qcow2 image, and a flush: what the file then holds.
use tenclaw.Base.{
  ℕ, ◌+◌, ◌*◌, ◌^◌, ◌≤◌, ◌<◌, ◌≡◌, refl, sym, ap, ◌∙◌, true, false, some, List, [], ◌∷◌, arith,
}
use tenclaw.Memory.{store_bytes}
use tenclaw.Memory.Bytes.{store_bytes_agree}
use tenclaw.Virtqueue.{VirtQueue, VirtqChainElem, walk_chain, used}
use tenclaw.RawImage.{FileOps}
use tenclaw.Qcow2.{Qcow2, Codecs}
use tenclaw.Qcow2.Transfer.{flush, qcow2_disk}
use tenclaw.Qcow2.Laws.{GrowLaws}
use tenclaw.Qcow2.Image.{disk, disk_byte}
use tenclaw.Qcow2.Flushing.{flush_lem}
use tenclaw.Qcow2.Growing.{Roomy}
use tenclaw.Qcow2.Contract.{qcow2_contract, disk_to_within}
use tenclaw.Blk.{Work, process_request, last_of, but_last, type_out}
use tenclaw.Blk.Transfer.{total_len, gather}
use tenclaw.Blk.Request.{IsRequest, OffRing, kind_of, sector_of}
use tenclaw.Blk.Write.{write_request_lem}

module _ {F : Type 0} (ops : FileOps F) (l : GrowLaws ops) (codecs : Codecs) where
  flush_size : (q : Qcow2 F) → (flush ops q).0.virtual_size ≡ q.virtual_size
  unfolding flush
  flush_size q = refl

  -- Over a sound qcow2 image with room to grow, a flush after a write request for sectors that exist
  -- succeeds, and the file alone then holds the disk with the driver's bytes at the sectors and every
  -- other byte as it was before the request.
  pub flush-write_request :
      (q : VirtQueue) (u head : ℕ) (hdr : VirtqChainElem) (es : List VirtqChainElem)
      (w : Work (Qcow2 F))
      → walk_chain q w.ram head ≡ some (hdr ∷ es)
      → IsRequest hdr es
      → used q ≡ some u
      → 0 < q.queue_size
      → head < 2 ^ 16
      → OffRing q u (last_of hdr es).addr
      → kind_of w.ram hdr ≡ type_out
      → Roomy ops l codecs w.disk
      → sector_of w.ram hdr * 512 + total_len false (but_last es) ≤ w.disk.virtual_size
      → (d : Qcow2 F) × (flush ops (process_request (qcow2_disk ops codecs) q head w).disk
          ≡ (d, true))
        × (d.virtual_size ≡ w.disk.virtual_size)
        × ((x : ℕ)
            → x < w.disk.virtual_size
            → disk_byte ops l d d.file [] x
              ≡ store_bytes
                  (disk ops l w.disk)
                  (sector_of w.ram hdr * 512)
                  (gather false (but_last es) w.ram)
                  x)
  unfolding qcow2_contract
  flush-write_request q u head hdr es w walk v hu hq hh off kind y fits =
      let size = w.disk.virtual_size in
      let k = qcow2_contract ops l codecs size y.valid.size_fits in
      let (_, later, stored, _) =
        write_request_lem (qcow2_disk ops codecs) k q u head hdr es w walk v hu hq hh off kind
          (y, refl) fits in
      let now = (process_request (qcow2_disk ops codecs) q head w).disk in
      let (d, eq, sound, _, _, alone) = flush_lem ops l now later.0.valid in
      let same : d.virtual_size ≡ size =
        ap (λ t. t.0.virtual_size) (sym eq) ∙ flush_size now ∙ later.1 in
      (
        d,
        eq,
        same,
        λ x lt.
            alone x (omega (arith, later.1))
            ∙ sym (disk_to_within ops l codecs size now x lt)
            ∙ stored x lt
            ∙ store_bytes_agree size (sector_of w.ram hdr * 512) (gather false (but_last es) w.ram)
                _ _ (λ z zt. disk_to_within ops l codecs size w.disk z zt) x lt,
      )
