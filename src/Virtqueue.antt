-- ===== src/Virtqueue.antt =====
-- core/device/virtio/virtqueue.h and virtqueue.cpp: the device side of a split virtqueue.
-- The rings lie in guest memory, which is passed beside the queue. A `VirtqDesc*` is the host
-- address of the descriptor.
pub mod Avail
pub mod Drain
pub mod Used
pub mod Chain
pub mod Table
pub mod Descriptors
mod Tests
use tenclaw.Base.{
  ℕ, zero, suc, ◌+◌, ◌-◌, ◌*◌, ◌%◌, ◌^◌, Bool, true, false, not, Option, none, some, List, [], ◌∷◌,
  ◌++◌, leb, ◌==◌, if◌then◌else◌, u16, test_bit,
}
use tenclaw.Memory.{GuestMemMap, gpa_to_hva, Ram, load16, load32, load64, store16, store32}

-- One element of a descriptor chain, already translated to a host address.
pub record VirtqChainElem : Type 0 where
  pub addr : ℕ
  pub len : ℕ
  pub writable : Bool

pub record VirtQueue : Type 0 where
  pub queue_size : ℕ
  pub mem : GuestMemMap
  pub desc_gpa : ℕ
  pub driver_gpa : ℕ
  pub device_gpa : ℕ
  pub last_avail_idx : ℕ
  pub ready : Bool

unfoldable pub setup : ℕ → GuestMemMap → VirtQueue → VirtQueue
setup size m q = record q { queue_size = size; mem = m; last_avail_idx = 0 }

unfoldable pub set_desc_addr : ℕ → VirtQueue → VirtQueue
set_desc_addr gpa q = record q { desc_gpa = gpa }

unfoldable pub set_driver_addr : ℕ → VirtQueue → VirtQueue
set_driver_addr gpa q = record q { driver_gpa = gpa }

unfoldable pub set_device_addr : ℕ → VirtQueue → VirtQueue
set_device_addr gpa q = record q { device_gpa = gpa }

unfoldable pub set_ready : Bool → VirtQueue → VirtQueue
set_ready b q = record q { ready = b }

unfoldable pub reset : VirtQueue → VirtQueue
reset q = record q {
  desc_gpa = 0;
  driver_gpa = 0;
  device_gpa = 0;
  last_avail_idx = 0;
  ready = false;
}

-- `DescAt`: descriptors are 16 bytes.
unfoldable pub desc_at : VirtQueue → ℕ → Option ℕ
desc_at q idx =
    if leb q.queue_size idx
    then none
    else elim (gpa_to_hva q.mem q.desc_gpa) [ none ↦ none | some b ↦ some (b + 16 * idx) ]

-- `Avail` and `Used`: both headers are a flags word and an index word, 4 bytes.
abbrev pub avail : VirtQueue → Option ℕ
avail q = gpa_to_hva q.mem q.driver_gpa

abbrev pub avail_ring : VirtQueue → Option ℕ
avail_ring q = elim (avail q) [ none ↦ none | some a ↦ some (a + 4) ]

abbrev pub used : VirtQueue → Option ℕ
used q = gpa_to_hva q.mem q.device_gpa

abbrev pub used_ring : VirtQueue → Option ℕ
used_ring q = elim (used q) [ none ↦ none | some a ↦ some (a + 4) ]

unfoldable pub has_available : VirtQueue → Ram → Bool
has_available q r =
    if not q.ready
    then false
    else elim (avail q) [ none ↦ false | some a ↦ not (q.last_avail_idx == load16 r (a + 2)) ]

-- The chain head, and the queue with its index moved on.
unfoldable pub pop_avail : VirtQueue → Ram → Option (ℕ × VirtQueue)
unfolding has_available
pop_avail q r = if not (has_available q r) then none else elim (avail_ring q) [
  | none ↦ none
  | some ring ↦ some (
    load16 r (ring + 2 * (q.last_avail_idx % q.queue_size)),
    record q { last_avail_idx = u16 (q.last_avail_idx + 1) },
  )
]

-- The fields of the descriptor at a host address
abbrev pub desc_addr : Ram → ℕ → ℕ
desc_addr r d = load64 r d

abbrev pub desc_len : Ram → ℕ → ℕ
desc_len r d = load32 r (d + 8)

abbrev pub desc_flags : Ram → ℕ → ℕ
desc_flags r d = load16 r (d + 12)

abbrev pub desc_next : Ram → ℕ → ℕ
desc_next r d = load16 r (d + 14)

-- `VIRTQ_DESC_F_NEXT` is bit 0 and `VIRTQ_DESC_F_WRITE` bit 1 of the flags.
abbrev pub has_next : Ram → ℕ → Bool
has_next r d = test_bit (desc_flags r d) 0

abbrev pub elem_of : Ram → ℕ → ℕ → VirtqChainElem
elem_of r d hva = record { addr = hva; len = desc_len r d; writable = test_bit (desc_flags r d) 1 }

-- The loop of `WalkChain`, over the rounds that `count < queue_size` leaves. `none` is `return
-- false`; the list is what `chain` holds when the loop ends.
unfoldable pub walk_from :
    VirtQueue → Ram → ℕ → ℕ → List VirtqChainElem → Option (List VirtqChainElem)
walk_from q r zero idx chain = some chain
walk_from q r (suc rounds) idx chain = elim (desc_at q idx) [
  | none ↦ none
  | some d ↦ elim (gpa_to_hva q.mem (desc_addr r d)) [
    | none ↦ none
    | some hva ↦ elim (has_next r d) [
      | false ↦ some (chain ++ (elem_of r d hva ∷ []))
      | true ↦ walk_from q r rounds (desc_next r d) (chain ++ (elem_of r d hva ∷ []))
    ]
  ]
]

-- `return !chain->empty()`
abbrev pub nonempty : Option (List VirtqChainElem) → Option (List VirtqChainElem)
nonempty none = none
nonempty (some []) = none
nonempty (some (e ∷ es)) = some (e ∷ es)

unfoldable pub walk_chain : VirtQueue → Ram → ℕ → Option (List VirtqChainElem)
walk_chain q r head = nonempty (walk_from q r q.queue_size head [])

unfoldable pub push_used : VirtQueue → Ram → ℕ → ℕ → Ram
push_used q r head total = elim (used q) [
  | none ↦ r
  | some u ↦
      let slot = u + 4 + 8 * (load16 r (u + 2) % q.queue_size) in
      let r' = store32 (store32 r slot head) (slot + 4) total in
      store16 r' (u + 2) (u16 (load16 r' (u + 2) + 1))
]
