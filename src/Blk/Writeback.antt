-- ===== src/Blk/Writeback.antt =====
-- A write request puts the driver's buffers, end to end, onto the disk.
use tenclaw.Base.{
  ℕ, ◌+◌, ◌^◌, ◌≤◌, ◌<◌, ◌≡◌, refl, sym, ap, subst, ◌∙◌, inl, inr, true, false, List, [], ◌∷◌,
  arith, Bool-cases, length, u32, u64,
}
use tenclaw.Disk.{DiskOps, Contract}
use tenclaw.Memory.{Ram, store_bytes, load_bytes}
use tenclaw.Memory.Bytes.{length-load_bytes, store_bytes-append, store_bytes_agree}
use tenclaw.Virtqueue.{VirtqChainElem}
use tenclaw.Blk.{Work, Progress, write_from, status_ok}
use tenclaw.Blk.Transfer.{total_len, gather}

module _ {S : Type 0} (ops : DiskOps S) (k : Contract ops) where
  open k use {Valid, size, content, size_fits, write_lem}

  -- What a write request has done when its loop ends.
  pub record Gathered (es : List VirtqChainElem) (offset total : ℕ) (w : Work S) (p : Progress S)
      : Type 0 where
    pub valid : Valid p.work.disk
    pub good : p.status ≡ status_ok
    pub counted : p.total ≡ u32 (total + total_len false es)
    pub ram_kept : p.work.ram ≡ w.ram
    pub stored :
        (x : ℕ)
        → x < size
        → content p.work.disk x ≡ store_bytes (content w.disk) offset (gather false es w.ram) x

  abbrev chunk : VirtqChainElem → Work S → List ℕ
  chunk e w = load_bytes w.ram e.addr e.len

  abbrev after_write : VirtqChainElem → ℕ → Work S → Work S
  after_write e offset w = record w { disk = (ops.write w.disk offset (chunk e w)).0 }

  write_from-take :
      (e : VirtqChainElem) (es : List VirtqChainElem) (offset total : ℕ) (w : Work S)
      → e.writable ≡ false
      → (ops.write w.disk offset (chunk e w)).1 ≡ true
      → write_from ops es (u64 (offset + e.len)) (u32 (total + e.len)) (after_write e offset w)
        ≡ write_from ops (e ∷ es) offset total w
  unfolding write_from
  write_from-take e es offset total w y good = ground arith

  write_from-skip :
      (e : VirtqChainElem) (es : List VirtqChainElem) (offset total : ℕ) (w : Work S)
      → e.writable ≡ true
      → write_from ops es offset total w ≡ write_from ops (e ∷ es) offset total w
  unfolding write_from
  write_from-skip e es offset total w n = ground arith

  skip_lem :
      (e : VirtqChainElem) (es : List VirtqChainElem) (offset total : ℕ) (w : Work S)
      (p : Progress S)
      → e.writable ≡ true
      → Gathered es offset total w p
      → Gathered (e ∷ es) offset total w p
  skip_lem e es offset total w p n s = record {
    valid = s.valid;
    good = s.good;
    counted = rw n s.counted;
    ram_kept = s.ram_kept;
    stored = rw n s.stored;
  }

  take_lem :
      (e : VirtqChainElem) (es : List VirtqChainElem) (offset total : ℕ) (w : Work S)
      (p : Progress S)
      → e.writable ≡ false
      → Valid w.disk
      → offset + (e.len + total_len false es) ≤ size
      → Gathered es (u64 (offset + e.len)) (u32 (total + e.len)) (after_write e offset w) p
      → Gathered (e ∷ es) offset total w p
  take_lem e es offset total w p y v h s =
      let len = length-load_bytes w.ram e.addr e.len in
      let (_, _, put) = write_lem w.disk offset (chunk e w) v (omega (arith, len)) in
      let narrow : u64 (offset + e.len) ≡ offset + length (chunk e w) =
        omega (arith, size_fits, len) in
      record {
        valid = s.valid;
        good = s.good;
        counted = rw y (omega (arith, s.counted));
        ram_kept = s.ram_kept;
        stored = rw y (λ x lt.
            s.stored x lt
            ∙ ap
                (λ o.
                  store_bytes (content (after_write e offset w).disk) o (gather false es w.ram) x)
                narrow
            ∙ store_bytes_agree size (offset + length (chunk e w)) (gather false es w.ram)
                (content (after_write e offset w).disk)
                (store_bytes (content w.disk) offset (chunk e w)) put x lt
            ∙ ap (λ (c : Ram). c x)
                (sym (
                  store_bytes-append (content w.disk) offset (chunk e w) (gather false es w.ram))));
      }

  -- A write inside the disk succeeds, counts every byte of the driver's buffers, leaves memory as it
  -- was, and puts their contents end to end onto the disk at the offset, changing nothing else there.
  pub write_from-Gathered :
      (es : List VirtqChainElem) (offset total : ℕ) (w : Work S)
      → Valid w.disk
      → offset + total_len false es ≤ size
      → total < 2 ^ 32
      → Gathered es offset total w (write_from ops es offset total w)
  unfolding write_from store_bytes
  write_from-Gathered [] offset total w v h t = record {
    valid = v;
    good = refl;
    counted = omega arith;
    ram_kept = refl;
    stored = λ x lt. refl;
  }
  write_from-Gathered (e ∷ es) offset total w v h t = elim (Bool-cases e.writable) [
    | inr y ↦
        let h' : offset + (e.len + total_len false es) ≤ size = rw y at h in
        let len = length-load_bytes w.ram e.addr e.len in
        let (v', good, _) = write_lem w.disk offset (chunk e w) v (omega (arith, len)) in
        subst (Gathered (e ∷ es) offset total w) (write_from-take e es offset total w y good) (
          take_lem e es offset total w _ y v h' (
            write_from-Gathered es (u64 (offset + e.len)) (u32 (total + e.len))
              (after_write e offset w) v' (omega (arith, size_fits)) (omega arith)))
    | inl n ↦
        let h' : offset + total_len false es ≤ size = rw n at h in
        subst (Gathered (e ∷ es) offset total w) (write_from-skip e es offset total w n)
          (skip_lem e es offset total w _ n (write_from-Gathered es offset total w v h' t))
  ]
