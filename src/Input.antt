-- ===== src/Input.antt =====
-- core/device/virtio/virtio_input.h and virtio_input.cpp: the injection of an event into the event
-- queue, with the transport attached.
pub mod Inject
pub mod Config
pub mod Answers
mod Tests
use tenclaw.Memory.{Ram, store_bytes}
use tenclaw.Virtqueue.{VirtQueue, VirtqChainElem, pop_avail, walk_chain, push_used}
use tenclaw.Mmio.{Mmio, notify_used_buffer}
use tenclaw.Blk.{le_bytes}
use tenclaw.Base.{
  ℕ, zero, suc, ◌+◌, ◌-◌, ◌*◌, ◌/◌, ◌%◌, ◌^◌, ◌≤◌, ◌<◌, min, ◌≡◌, refl, sym, ap, ap₂, subst, ◌∙◌,
  ◌≢◌, ◌↔◌, ◌⊎◌, inl, inr, Bool, true, false, not, ◌&&◌, ◌||◌, Option, none, some, List, [], ◌∷◌,
  ◌++◌, arith, ltb, leb, ◌==◌, if◌then◌else◌, Bool-cases, Option-cases, length, get_or, set, take,
  drop, replicate, u8, u16, u32, u64, shr, shl, test_bit, set_bit, clear_bit, with_low32,
  with_high32, get_elem?, ==_iff, length-append, length-set, get_or-set_self, get_or-set_ne,
  length-take, length-drop, some_inj, cons_inj, All, modify, length-replicate, length-modify,
  get_or-modify_self, get_or-modify_ne,
}

-- `VirtioInputEvent`, as it lies in memory.
unfoldable pub event_bytes : ℕ → ℕ → ℕ → List ℕ
event_bytes kind code value = le_bytes 2 kind ++ (le_bytes 2 code ++ le_bytes 4 value)

-- The loop over the chain: how much of the event is written, and memory.
unfoldable pub copy_event : List ℕ → List VirtqChainElem → ℕ → Ram → ℕ × Ram
copy_event ev [] written r = (written, r)
copy_event ev (e ∷ es) written r = elim e.writable [
  | false ↦ copy_event ev es written r
  | true ↦
      let to_copy = min e.len (8 - written) in
      let r' = store_bytes r e.addr (take to_copy (drop written ev)) in
      elim (leb 8 (written + to_copy)) [
        | true ↦ (written + to_copy, r')
        | false ↦ copy_event ev es (written + to_copy) r'
      ]
]

unfoldable pub notify_if : Bool → Mmio → Mmio
notify_if notify m = if notify then notify_used_buffer m else m

-- A head that was popped: its chain filled, and put on the used ring.
unfoldable pub fill : VirtQueue → ℕ → List ℕ → Ram → Ram
fill q head ev r = elim (walk_chain q r head) [
  | none ↦ push_used q r head 0
  | some chain ↦ let (written, r') = copy_event ev chain 0 r in push_used q r' head written
]

unfoldable pub inject_event : ℕ → ℕ → ℕ → Bool → Mmio → Ram → Mmio × Ram
inject_event kind code value notify m r = elim (get_elem? m.queues 0) [
  | none ↦ (m, r)
  | some q ↦ if not q.ready then (m, r) else elim (pop_avail q r) [
    | none ↦ (notify_if notify m, r)
    | some popped ↦ (
      notify_if notify (record m { queues = set m.queues 0 popped.1 }),
      fill popped.1 popped.0 (event_bytes kind code value) r,
    )
  ]
]
