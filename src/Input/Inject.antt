-- ===== src/Input/Inject.antt =====
-- Which injections interrupt the guest, and how much of an event arrives.
use tenclaw.Base.{
  ℕ, ◌+◌, ◌-◌, ◌%◌, ◌≤◌, min, ◌≡◌, Bool, true, false, some, List, [], ◌∷◌, arith, if◌then◌else◌,
  take, drop, get_elem?,
}
use tenclaw.Memory.{Ram, store_bytes}
use tenclaw.Virtqueue.{VirtQueue, VirtqChainElem}
use tenclaw.Mmio.{Mmio, notify_used_buffer}
use tenclaw.Input.{copy_event, notify_if, inject_event}

-- The bytes that the device may write, over a chain.
abbrev pub room : List VirtqChainElem → ℕ
room [] = 0
room (e ∷ es) = if e.writable then e.len + room es else room es

-- However the chain is cut into buffers, the event is written whole if the buffers that the
-- device may write have room for it, and otherwise as far as they reach.
pub copy_event_lem :
    (ev : List ℕ) (es : List VirtqChainElem) (written : ℕ) (r : Ram)
    → written ≤ 8
    → (copy_event ev es written r).0 ≡ min 8 (written + room es)
unfolding copy_event
copy_event_lem ev [] written r h = omega arith
copy_event_lem ev (e ∷ es) written r h =
    let to_copy = min e.len (8 - written) in
    let skipped = copy_event_lem ev es written r h in
    let copied =
      copy_event_lem ev es (written + to_copy)
        (store_bytes r e.addr (take to_copy (drop written ev))) (omega arith) in
    ground (arith, skipped, copied)

-- An injection into a ready queue interrupts the guest exactly once if it is to notify, also when
-- no buffer was left or the chain was bad, and never otherwise; without a ready queue nothing
-- changes.
pub inject_event_notifies :
    (kind code value : ℕ) (notify : Bool) (m : Mmio) (q : VirtQueue) (r : Ram)
    → get_elem? m.queues 0 ≡ some q
    → let m' = (inject_event kind code value notify m r).0 in
      ((q.ready ≡ true) → (notify ≡ true) → (m'.irqs ≡ m.irqs + 1) × (m'.interrupt_status % 2 ≡ 1))
      × ((notify ≡ false) → (m'.irqs ≡ m.irqs) × (m'.interrupt_status ≡ m.interrupt_status))
      × ((q.ready ≡ false) → inject_event kind code value notify m r ≡ (m, r))
unfolding inject_event notify_if notify_used_buffer
inject_event_notifies kind code value notify m q r e =
    rw (e, inject_event) ((λ h k. ground arith), (λ k. ground arith), (λ h. ground arith))
