-- ===== src/Serial/Deliver.antt =====
-- What arrives in the driver's buffers when a control message is sent to the guest.
use tenclaw.Base.{
  ℕ, ◌+◌, ◌-◌, ◌^◌, ◌≤◌, ◌<◌, min, ◌≡◌, refl, sym, ap, ◌∙◌, inl, inr, true, false, not, ◌||◌, some,
  List, [], ◌∷◌, arith, leb, Bool-cases, length, set, take, drop, get_elem?, All,
}
use tenclaw.Memory.{Ram, store_bytes}
use tenclaw.Virtqueue.{VirtQueue, VirtqChainElem, pop_avail, walk_chain, push_used}
use tenclaw.Blk.Transfer.{total_len, gather, Disjoint, Outside}
use tenclaw.Net.{copy_packet}
use tenclaw.Net.Receive.{copy_packet_lem, copy_packet-gather, copy_packet-Outside}
use tenclaw.Serial.{Work, fill_chain, put_control, notify}

copy_done :
    (total : ℕ) (msg : List ℕ) (es : List VirtqChainElem) (written : ℕ) (r : Ram)
    → total ≤ written
    → copy_packet total msg es written r ≡ (written, r)
unfolding copy_packet
copy_done total msg [] written r h = refl
copy_done total msg (e ∷ es) written r h =
    let y : (not e.writable || leb total written) ≡ true = ground arith in
    rw y (copy_done total msg es written r h)

-- Both devices fill a chain in the same way.
pub fill_chain-copy_packet :
    (msg : List ℕ) (es : List VirtqChainElem) (written : ℕ) (r : Ram)
    → written < length msg
    → fill_chain msg es written r ≡ copy_packet (length msg) msg es written r
unfolding fill_chain copy_packet
fill_chain-copy_packet msg [] written r h = refl
fill_chain-copy_packet msg (e ∷ es) written r h =
    let more : leb (length msg) written ≡ false = ground arith in
    let n = min e.len (length msg - written) in
    let r' = store_bytes r e.addr (take n (drop written msg)) in
    elim (Bool-cases e.writable) [
      | inr c ↦ rw c (fill_chain-copy_packet msg es written r h)
      | inl o ↦ elim (Bool-cases (leb (length msg) (written + n))) [
        | inl y ↦
            rw (o, more, y) (sym (copy_done (length msg) msg es (written + n) r' (ground arith)))
        | inr m ↦ rw (o, more, m) (fill_chain-copy_packet msg es (written + n) r' (ground arith))
      ]
    ]

-- With a ready control queue, a buffer on it and a chain that walks, a message to the guest goes into
-- the chain: the buffers that the device may write hold it, end to end, as far as they reach, if they
-- do not overlap; nothing outside them changes but the used ring, where the head is put with the
-- number of bytes written; and the guest is notified.
pub put_control_lem :
    (msg : List ℕ) (w : Work) (q q' : VirtQueue) (head : ℕ) (chain : List VirtqChainElem)
    → get_elem? w.mmio.queues 2 ≡ some q
    → q.ready ≡ true
    → pop_avail q w.ram ≡ some (head, q')
    → walk_chain q' w.ram head ≡ some chain
    → 0 < length msg
    → All (λ b. b < 2 ^ 8) msg
    → Disjoint chain
    → (r : Ram) × (put_control msg w
        ≡ notify (record w {
          mmio = record w.mmio { queues = set w.mmio.queues 2 q' };
          ram = push_used q' r head (min (length msg) (total_len true chain));
        }))
      × (take (length msg) (gather true chain r) ≡ take (total_len true chain) msg)
      × ((x : ℕ) → Outside x chain → r x ≡ w.ram x)
unfolding put_control
put_control_lem msg w q q' head chain here ready pop walk some_ bytes apart =
    let got = copy_packet (length msg) msg chain 0 w.ram in
    let same = fill_chain-copy_packet msg chain 0 w.ram some_ in
    let count : got.0 ≡ min (length msg) (total_len true chain) =
      copy_packet_lem (length msg) msg chain 0 w.ram (omega arith) ∙ omega arith in
    let full : length msg - 0 ≡ length msg = omega arith in
    let done : ℕ × Ram → Work = λ t. notify (record w {
      mmio = record w.mmio { queues = set w.mmio.queues 2 q' };
      ram = push_used q' t.1 head t.0;
    }) in
    (
      got.1,
      rw (put_control, here, pop, ready, walk) (ap done same ∙ ap (λ n. done (n, got.1)) count),
      ap (λ n. take n (gather true chain got.1)) (sym full)
          ∙ copy_packet-gather msg chain 0 w.ram bytes apart (omega arith),
      λ x out. copy_packet-Outside (length msg) msg chain 0 w.ram x out,
    )
