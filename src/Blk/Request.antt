-- ===== src/Blk/Request.antt =====
-- `ProcessRequest` as the driver sees it: what completes a request, and what is dropped.
use tenclaw.Base.{
  ℕ, ◌+◌, ◌*◌, ◌^◌, ◌≤◌, ◌<◌, min, ◌≡◌, refl, sym, ap, subst, ◌∙◌, ◌≢◌, ◌⊎◌, inl, inr, true, false,
  not, ◌||◌, none, some, List, [], ◌∷◌, arith, ltb, Bool-cases, length, take, replicate, u16, u32,
  u64,
}
use tenclaw.Disk.{DiskOps}
use tenclaw.Memory.{Ram, load16, load32, load64, store8, store_bytes, load_bytes}
use tenclaw.Virtqueue.{VirtQueue, VirtqChainElem, walk_chain, used}
use tenclaw.Virtqueue.Used.{used_slot, push_used_lem}
use tenclaw.Blk.{
  Work, Progress, read_into, write_from, put_id, execute, complete, run_chain, process_request,
  last_of, but_last, status_ok, type_flush, id_bytes,
}

-- The chain of a request that the device accepts: a header, and a status byte that it may write.
pub record IsRequest (hdr : VirtqChainElem) (es : List VirtqChainElem) : Type 0 where
  pub two : 1 ≤ length es
  pub header : 16 ≤ hdr.len
  pub status_writable : (last_of hdr es).writable ≡ true
  pub status_len : 1 ≤ (last_of hdr es).len

-- The address lies outside the index and the entries of the used ring at `u`.
abbrev pub OffRing : VirtQueue → ℕ → ℕ → Type 0
OffRing q u x = (x < u + 2) ⊎ (u + 4 + 8 * q.queue_size ≤ x)

abbrev pub kind_of : Ram → VirtqChainElem → ℕ
kind_of r hdr = load32 r hdr.addr

abbrev pub sector_of : Ram → VirtqChainElem → ℕ
sector_of r hdr = load64 r (hdr.addr + 8)

module _ {S : Type 0} (ops : DiskOps S) where
  read_into_status :
      (es : List VirtqChainElem) (o t : ℕ) (w : Work S) → (read_into ops es o t w).status ≤ 2
  unfolding read_into
  read_into_status [] o t w = omega arith
  read_into_status (e ∷ es) o t w =
      let got = ops.read w.disk o e.len in
      ground (
        arith,
        read_into_status es o t w,
        read_into_status es (u64 (o + e.len)) (u32 (t + e.len))
            (record { disk = got.0; ram = store_bytes w.ram e.addr got.2 }),
      )

  write_from_status :
      (es : List VirtqChainElem) (o t : ℕ) (w : Work S) → (write_from ops es o t w).status ≤ 2
  unfolding write_from
  write_from_status [] o t w = omega arith
  write_from_status (e ∷ es) o t w =
      let put = ops.write w.disk o (load_bytes w.ram e.addr e.len) in
      ground (
        arith,
        write_from_status es o t w,
        write_from_status es (u64 (o + e.len)) (u32 (t + e.len)) (record w { disk = put.0 }),
      )

  put_id_status : (es : List VirtqChainElem) (t : ℕ) (w : Work S) → (put_id ops es t w).status ≤ 2
  unfolding put_id
  put_id_status [] t w = omega arith
  put_id_status (e ∷ es) t w =
      let cleared = store_bytes w.ram e.addr (replicate e.len 0) in
      let named =
        store_bytes cleared e.addr (take (min (min e.len 20) (length id_bytes)) id_bytes) in
      ground
        (arith, put_id_status es t w, put_id_status es (u32 (t + e.len)) (record w { ram = named }))

  execute_status :
      (kind sector : ℕ) (es : List VirtqChainElem) (w : Work S)
      → (execute ops kind sector es w).status ≤ 2
  unfolding execute
  execute_status kind sector es w = ground (
    arith,
    read_into_status es (u64 (sector * 512)) 0 w,
    write_from_status es (u64 (sector * 512)) 0 w,
    put_id_status es 0 w,
  )

  -- What the driver finds when the device has answered: the status byte, and one more entry in the
  -- used ring, with the head of the chain and the length.
  pub record Answered (q : VirtQueue) (u head sa : ℕ) (p : Progress S) (w' : Work S) : Type 0 where
    pub status_byte : w'.ram sa ≡ p.status
    pub status_known : p.status ≤ 2
    pub entry_id : load32 w'.ram (used_slot q p.work.ram u) ≡ head
    pub entry_len : load32 w'.ram (used_slot q p.work.ram u + 4) ≡ u32 (p.total + 1)
    pub index : load16 w'.ram (u + 2) ≡ u16 (load16 p.work.ram (u + 2) + 1)
    pub disk : w'.disk ≡ p.work.disk
    pub frame : (x : ℕ) → OffRing q u x → x ≢ sa → w'.ram x ≡ p.work.ram x

  complete-Answered :
      (q : VirtQueue) (u head : ℕ) (e : VirtqChainElem) (p : Progress S)
      → used q ≡ some u
      → 0 < q.queue_size
      → head < 2 ^ 16
      → OffRing q u e.addr
      → p.status ≤ 2
      → Answered q u head e.addr p (complete ops q head e p)
  unfolding complete
  complete-Answered q u head e p hu hq hh off st =
      let r = store8 p.work.ram e.addr p.status in
      let (id, len, idx, inside, frame) =
        push_used_lem q r u head (u32 (p.total + 1)) hu hq (omega arith) (omega arith) in
      let same : load16 r (u + 2) ≡ load16 p.work.ram (u + 2) = ground arith in
      record {
        status_byte = frame e.addr (ground arith) (ground arith) ∙ ground arith;
        status_known = st;
        entry_id = rw same at id;
        entry_len = rw same at len;
        index = idx ∙ ap (λ t. u16 (t + 1)) same;
        disk = refl;
        frame = λ x o ne. frame x (ground arith) (ground arith) ∙ ground arith;
      }

  run_chain-IsRequest :
      (q : VirtQueue) (head : ℕ) (hdr : VirtqChainElem) (es : List VirtqChainElem) (w : Work S)
      → IsRequest hdr es
      → run_chain ops q head (hdr ∷ es) w
        ≡ complete ops q head
            (last_of hdr es)
            (execute ops (kind_of w.ram hdr) (sector_of w.ram hdr) (but_last es) w)
  unfolding run_chain
  run_chain-IsRequest q head hdr es w v = ground arith

  run_chain_refused :
      (q : VirtQueue) (head : ℕ) (hdr : VirtqChainElem) (es : List VirtqChainElem) (w : Work S)
      → ¬ (IsRequest hdr es)
      → run_chain ops q head (hdr ∷ es) w ≡ w
  unfolding run_chain
  run_chain_refused q head hdr es w bad = elim (Bool-cases (ltb (length (hdr ∷ es)) 2)) [
    | inl short ↦ ground arith
    | inr two ↦ elim (Bool-cases (ltb hdr.len 16)) [
      | inl small ↦ ground arith
      | inr header ↦
          elim (Bool-cases (not (last_of hdr es).writable || ltb (last_of hdr es).len 1)) [
            | inl no_status ↦ ground arith
            | inr status ↦ absurd (
                bad (record {
                  two = ground arith;
                  header = ground arith;
                  status_writable = ground arith;
                  status_len = ground arith;
                }))
          ]
    ]
  ]

  -- Every request with a header and a writable status byte is answered, whatever its type and whether
  -- or not the disk succeeds: the status byte holds OK, IOERR or UNSUPP, and the used ring that the
  -- execution of the request leaves gains one entry with the request's head. The used ring is mapped,
  -- has room for an entry, and does not cover the status byte.
  pub process_request-Answered :
      (q : VirtQueue) (u head : ℕ) (hdr : VirtqChainElem) (es : List VirtqChainElem) (w : Work S)
      → walk_chain q w.ram head ≡ some (hdr ∷ es)
      → IsRequest hdr es
      → used q ≡ some u
      → 0 < q.queue_size
      → head < 2 ^ 16
      → OffRing q u (last_of hdr es).addr
      → Answered q u head
          (last_of hdr es).addr
          (execute ops (kind_of w.ram hdr) (sector_of w.ram hdr) (but_last es) w)
          (process_request ops q head w)
  unfolding process_request run_chain
  process_request-Answered q u head hdr es w walk v hu hq hh off =
      let p = execute ops (kind_of w.ram hdr) (sector_of w.ram hdr) (but_last es) w in
      subst (Answered q u head (last_of hdr es).addr p) accepted (
        complete-Answered q u head (last_of hdr es) p hu hq hh off
          (execute_status (kind_of w.ram hdr) (sector_of w.ram hdr) (but_last es) w))
    where
      accepted :
          complete ops q head
            (last_of hdr es)
            (execute ops (kind_of w.ram hdr) (sector_of w.ram hdr) (but_last es) w)
          ≡ process_request ops q head w
      accepted = rw (walk, process_request) (sym (run_chain-IsRequest q head hdr es w v))

  -- A chain that does not walk, or that lacks a full header or a writable status byte, is dropped:
  -- neither the disk nor memory changes, so its head never reaches the used ring.
  pub process_request_dropped :
      (q : VirtQueue) (head : ℕ) (w : Work S)
      → (walk_chain q w.ram head ≡ none)
        ⊎ ((hdr : VirtqChainElem) × (es : List VirtqChainElem) × (walk_chain q w.ram head
              ≡ some (hdr ∷ es))
            × ¬ (IsRequest hdr es))
      → process_request ops q head w ≡ w
  unfolding process_request run_chain
  process_request_dropped q head w (inl e) = rw (e, process_request)
  process_request_dropped q head w (inr (hdr, es, e, bad)) =
      rw (e, process_request) (run_chain_refused q head hdr es w bad)

  -- A flush is answered with OK also when the disk failed to flush.
  pub flush_hides_failure :
      (q : VirtQueue) (u head : ℕ) (hdr : VirtqChainElem) (es : List VirtqChainElem) (w : Work S)
      → walk_chain q w.ram head ≡ some (hdr ∷ es)
      → IsRequest hdr es
      → used q ≡ some u
      → 0 < q.queue_size
      → head < 2 ^ 16
      → OffRing q u (last_of hdr es).addr
      → kind_of w.ram hdr ≡ type_flush
      → (ops.flush w.disk).1 ≡ false
      → ((process_request ops q head w).ram (last_of hdr es).addr ≡ status_ok)
        × ((process_request ops q head w).disk ≡ (ops.flush w.disk).0)
  unfolding execute
  flush_hides_failure q u head hdr es w walk v hu hq hh off kind failed =
      let a = process_request-Answered q u head hdr es w walk v hu hq hh off in
      (a.status_byte ∙ rw (kind, execute), a.disk ∙ rw (kind, execute))
