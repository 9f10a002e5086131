-- ===== src/Blk/Read.antt =====
-- A read request from the driver's side: the status, the entry of the used ring and the bytes that it
-- finds.
use tenclaw.Base.{
  ℕ, ◌+◌, ◌*◌, ◌^◌, ◌≤◌, ◌<◌, ◌≡◌, refl, ap, subst, ◌∙◌, ◌≢◌, inl, inr, true, some, List, [], ◌∷◌,
  arith, leb, ltb, Bool-cases, u16, u32, u64, All,
}
use tenclaw.Disk.{DiskOps, Contract}
use tenclaw.Memory.{Ram, load16, load32, load_bytes}
use tenclaw.Memory.Bytes.{load_bytes_agree}
use tenclaw.Virtqueue.{VirtQueue, VirtqChainElem, walk_chain, used}
use tenclaw.Virtqueue.Used.{used_slot}
use tenclaw.Blk.{Work, read_into, execute, process_request, last_of, but_last, status_ok, type_in}
use tenclaw.Blk.Transfer.{total_len, gather, Disjoint, Outside, Scattered, read_into-Scattered}
use tenclaw.Blk.Request.{IsRequest, OffRing, kind_of, sector_of, process_request-Answered}
use tenclaw.Blk.Once.{Answered-Once}

-- The buffers keep clear of the status byte and of the used ring.
abbrev pub Clear : VirtQueue → ℕ → ℕ → List VirtqChainElem → Type 0
Clear q u sa es =
    All
      (λ (e : VirtqChainElem). (x : ℕ) → e.addr ≤ x → x < e.addr + e.len → OffRing q u x × (x ≢ sa))
      es

gather-Clear :
    (q : VirtQueue) (u sa : ℕ) (es : List VirtqChainElem) (r s : Ram)
    → Clear q u sa es
    → ((x : ℕ) → OffRing q u x → x ≢ sa → r x ≡ s x)
    → gather true es r ≡ gather true es s
gather-Clear q u sa [] r s c h = refl
gather-Clear q u sa (e ∷ es) r s c h =
    let here = load_bytes_agree r s e.addr e.len (λ x lo hi. h x (c.0 x lo hi).0 (c.0 x lo hi).1) in
    let rest = gather-Clear q u sa es r s c.1 h in
    elim (Bool-cases e.writable) [ inl y ↦ rw (y, here, rest) | inr n ↦ rw (n, rest) ]

execute_in :
    {S : Type 0} (ops : DiskOps S) (kind sector : ℕ) (es : List VirtqChainElem) (w : Work S)
    → kind ≡ type_in
    → u64 (sector * 512) ≡ sector * 512
    → read_into ops es (sector * 512) 0 w ≡ execute ops kind sector es w
unfolding execute
execute_in ops kind sector es w e narrow = rw (e, execute, narrow)

-- What keeps clear byte by byte keeps clear of the ring as a whole.
Clear-Outside :
    (q : VirtQueue) (u sa x : ℕ) (es : List VirtqChainElem)
    → Clear q u sa es
    → u + 2 ≤ x
    → x < u + 4 + 8 * q.queue_size
    → Outside x es
Clear-Outside q u sa x [] c lo hi = tt
Clear-Outside q u sa x (e ∷ es) c lo hi = (
  λ _. elim (Bool-cases (leb e.addr x)) [
    | inr before ↦ inl (ground arith)
    | inl from ↦ elim (Bool-cases (ltb x (e.addr + e.len))) [
      | inr past ↦ inr (ground arith)
      | inl inside ↦ absurd (elim (c.0 x (ground arith) (ground arith)).0 [
        | inl a ↦ omega arith
        | inr b ↦ omega arith
      ])
    ]
  ],
  Clear-Outside q u sa x es c.1 lo hi,
)

module _ {S : Type 0} (ops : DiskOps S) (k : Contract ops) where
  -- A read request for sectors that exist is answered with OK: the used ring that was there before
  -- gains one entry, with the request's head and, modulo 2 ^ 32, the number of bytes read plus one for
  -- the status. The disk's contents stay as they are, the driver finds the sectors' bytes, end to end,
  -- in its buffers, and no other memory changes. The buffers overlap neither one another nor what the
  -- device writes to answer; the used ring is mapped, has room for an entry, and does not cover the
  -- status byte.
  pub read_request_lem :
      (q : VirtQueue) (u head : ℕ) (hdr : VirtqChainElem) (es : List VirtqChainElem) (w : Work S)
      → walk_chain q w.ram head ≡ some (hdr ∷ es)
      → IsRequest hdr es
      → used q ≡ some u
      → 0 < q.queue_size
      → head < 2 ^ 16
      → OffRing q u (last_of hdr es).addr
      → kind_of w.ram hdr ≡ type_in
      → k.Valid w.disk
      → sector_of w.ram hdr * 512 + total_len true (but_last es) ≤ k.size
      → Disjoint (but_last es)
      → Clear q u (last_of hdr es).addr (but_last es)
      → let w' = process_request ops q head w in
        let sa = (last_of hdr es).addr in
        let count = total_len true (but_last es) in
        (w'.ram sa ≡ status_ok)
        × (load32 w'.ram (used_slot q w.ram u) ≡ head)
        × (load32 w'.ram (used_slot q w.ram u + 4) ≡ u32 (count + 1))
        × (load16 w'.ram (u + 2) ≡ u16 (load16 w.ram (u + 2) + 1))
        × (gather true (but_last es) w'.ram
            ≡ load_bytes (k.content w.disk) (sector_of w.ram hdr * 512) count)
        × ((x : ℕ) → k.content w'.disk x ≡ k.content w.disk x)
        × ((x : ℕ) → OffRing q u x → x ≢ sa → Outside x (but_last es) → w'.ram x ≡ w.ram x)
  read_request_lem q u head hdr es w walk v hu hq hh off kind valid fits d c =
      let start = sector_of w.ram hdr * 512 in
      let p = execute ops (kind_of w.ram hdr) (sector_of w.ram hdr) (but_last es) w in
      let a = process_request-Answered ops q u head hdr es w walk v hu hq hh off in
      let narrow : u64 start ≡ start = omega (arith, k.size_fits) in
      let s : Scattered ops k (but_last es) start 0 w p =
        subst (Scattered ops k (but_last es) start 0 w)
          (execute_in ops (kind_of w.ram hdr) (sector_of w.ram hdr) (but_last es) w kind narrow)
          (read_into-Scattered ops k (but_last es) start 0 w valid fits (omega arith)) in
      let o =
        Answered-Once ops q u head (last_of hdr es).addr (but_last es) w.ram p
          (process_request ops q head w)
          (λ x lo hi. s.frame x (Clear-Outside q u (last_of hdr es).addr x (but_last es) c lo hi))
          s.frame a in
      (
        a.status_byte ∙ s.good,
        o.entry_id,
        o.entry_len ∙ omega (arith, s.counted),
        o.index,
        gather-Clear q u (last_of hdr es).addr (but_last es) _ _ c a.frame ∙ s.delivered d,
        (λ x. ap (λ t. k.content t x) a.disk ∙ s.kept x),
        o.frame,
      )
