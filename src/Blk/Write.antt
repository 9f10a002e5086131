-- ===== src/Blk/Write.antt =====
-- A write request from the driver's side: the status and what the disk then holds.
use tenclaw.Base.{
  ℕ, ◌+◌, ◌*◌, ◌^◌, ◌≤◌, ◌<◌, ◌≡◌, sym, ap, subst, ◌∙◌, ◌≢◌, false, some, List, ◌∷◌, arith, u64,
}
use tenclaw.Disk.{DiskOps, Contract}
use tenclaw.Memory.{store_bytes}
use tenclaw.Virtqueue.{VirtQueue, VirtqChainElem, walk_chain, used}
use tenclaw.Blk.{Work, write_from, execute, process_request, last_of, but_last, status_ok, type_out}
use tenclaw.Blk.Transfer.{total_len, gather}
use tenclaw.Blk.Writeback.{Gathered, write_from-Gathered}
use tenclaw.Blk.Request.{IsRequest, OffRing, kind_of, sector_of, process_request-Answered}

execute_out :
    {S : Type 0} (ops : DiskOps S) (kind sector : ℕ) (es : List VirtqChainElem) (w : Work S)
    → kind ≡ type_out
    → u64 (sector * 512) ≡ sector * 512
    → write_from ops es (sector * 512) 0 w ≡ execute ops kind sector es w
unfolding execute
execute_out ops kind sector es w e narrow = rw (e, execute, narrow)

module _ {S : Type 0} (ops : DiskOps S) (k : Contract ops) where
  -- A write request for sectors that exist is answered with OK, puts the contents of the driver's
  -- buffers, end to end, at the sectors and changes no other byte of the disk, which stays valid; in
  -- memory it changes nothing but the status byte and the used ring.
  pub write_request_lem :
      (q : VirtQueue) (u head : ℕ) (hdr : VirtqChainElem) (es : List VirtqChainElem) (w : Work S)
      → walk_chain q w.ram head ≡ some (hdr ∷ es)
      → IsRequest hdr es
      → used q ≡ some u
      → 0 < q.queue_size
      → head < 2 ^ 16
      → OffRing q u (last_of hdr es).addr
      → kind_of w.ram hdr ≡ type_out
      → k.Valid w.disk
      → sector_of w.ram hdr * 512 + total_len false (but_last es) ≤ k.size
      → let w' = process_request ops q head w in
        (w'.ram (last_of hdr es).addr ≡ status_ok)
        × k.Valid w'.disk
        × ((x : ℕ)
            → x < k.size
            → k.content w'.disk x
              ≡ store_bytes
                  (k.content w.disk)
                  (sector_of w.ram hdr * 512)
                  (gather false (but_last es) w.ram)
                  x)
        × ((x : ℕ) → OffRing q u x → x ≢ (last_of hdr es).addr → w'.ram x ≡ w.ram x)
  write_request_lem q u head hdr es w walk v hu hq hh off kind valid fits =
      let start = sector_of w.ram hdr * 512 in
      let p = execute ops (kind_of w.ram hdr) (sector_of w.ram hdr) (but_last es) w in
      let a = process_request-Answered ops q u head hdr es w walk v hu hq hh off in
      let narrow : u64 start ≡ start = omega (arith, k.size_fits) in
      let s : Gathered ops k (but_last es) start 0 w p =
        subst (Gathered ops k (but_last es) start 0 w)
          (execute_out ops (kind_of w.ram hdr) (sector_of w.ram hdr) (but_last es) w kind narrow)
          (write_from-Gathered ops k (but_last es) start 0 w valid fits (omega arith)) in
      (
        a.status_byte ∙ s.good,
        subst k.Valid (sym a.disk) s.valid,
        (λ x lt. ap (λ t. k.content t x) a.disk ∙ s.stored x lt),
        (λ x o ne. a.frame x o ne ∙ ap (λ r. r x) s.ram_kept),
      )
