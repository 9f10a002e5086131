-- ===== src/Blk/Once.antt =====
-- A request's answer, against memory as it was before the request.
use tenclaw.Base.{
  ℕ, ◌+◌, ◌*◌, ◌≤◌, ◌<◌, ◌≡◌, refl, ap, ◌∙◌, ◌≢◌, ◌⊎◌, true, List, arith, length, u16, u32, All,
}
use tenclaw.Disk.{DiskOps}
use tenclaw.Memory.{Ram, load16, load32}
use tenclaw.Virtqueue.{VirtQueue, VirtqChainElem}
use tenclaw.Virtqueue.Used.{used_slot}
use tenclaw.Blk.{Work, Progress}
use tenclaw.Blk.Transfer.{Outside}
use tenclaw.Blk.Request.{OffRing, Answered}

-- A read puts no more bytes into the buffer than were asked for, also when it fails.
abbrev pub Bounded : {S : Type 0} → DiskOps S → Type 0
Bounded {S} ops = (d : S) (offset len : ℕ) → length (ops.read d offset len).2 ≤ len

-- The buffers that the device writes keep clear of the used ring.
abbrev pub RingClear : VirtQueue → ℕ → List VirtqChainElem → Type 0
RingClear q u es =
    All
      (λ (e : VirtqChainElem).
        (e.writable ≡ true) → (e.addr + e.len ≤ u + 2) ⊎ (u + 4 + 8 * q.queue_size ≤ e.addr))
      es

module _ {S : Type 0} (ops : DiskOps S) where
  -- What the driver finds when the device has answered, against memory `r` from before the request:
  -- the status byte, one more entry in the used ring with the head of the chain and the length, and
  -- nothing else changed but the buffers that the device may write.
  pub record Once (q : VirtQueue) (u head sa : ℕ) (es : List VirtqChainElem) (r : Ram)
      (p : Progress S) (w' : Work S) : Type 0 where
    pub status_byte : w'.ram sa ≡ p.status
    pub status_known : p.status ≤ 2
    pub entry_id : load32 w'.ram (used_slot q r u) ≡ head
    pub entry_len : load32 w'.ram (used_slot q r u + 4) ≡ u32 (p.total + 1)
    pub index : load16 w'.ram (u + 2) ≡ u16 (load16 r (u + 2) + 1)
    pub disk : w'.disk ≡ p.work.disk
    pub frame : (x : ℕ) → OffRing q u x → x ≢ sa → Outside x es → w'.ram x ≡ r x

  -- An answer to work that left the ring's index and entries alone.
  pub Answered-Once :
      (q : VirtQueue) (u head sa : ℕ) (es : List VirtqChainElem) (r : Ram) (p : Progress S)
      (w' : Work S)
      → ((x : ℕ) → u + 2 ≤ x → x < u + 4 + 8 * q.queue_size → p.work.ram x ≡ r x)
      → ((x : ℕ) → Outside x es → p.work.ram x ≡ r x)
      → Answered ops q u head sa p w'
      → Once q u head sa es r p w'
  Answered-Once q u head sa es r p w' ring kept a =
      let low = ring (u + 2) (omega arith) (omega arith) in
      let high = ring (u + 2 + 1) (omega arith) (omega arith) in
      let same : load16 p.work.ram (u + 2) ≡ load16 r (u + 2) = rw (low, high) refl in
      record {
        status_byte = a.status_byte;
        status_known = a.status_known;
        entry_id = rw same at a.entry_id;
        entry_len = rw same at a.entry_len;
        index = a.index ∙ ap (λ t. u16 (t + 1)) same;
        disk = a.disk;
        frame = λ x o ne out. a.frame x o ne ∙ kept x out;
      }
