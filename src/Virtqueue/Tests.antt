-- ===== src/Virtqueue/Tests.antt =====
-- Concrete queues: four descriptors, one request published.
use tenclaw.Base.{ℕ, ◌+◌, ◌^◌, ◌<◌, ◌≡◌, refl, ◌↔◌, ◌⊎◌, inl, true, none, some, [], ◌∷◌, arith, u16}
use tenclaw.Memory.{Ram, IsBytes, GuestMemMap, gpa_to_hva, load16, store16, store32}
use tenclaw.Memory.Map.{IsLayout}
use tenclaw.Virtqueue.{
  VirtQueue, VirtqChainElem, desc_at, used, pop_avail, walk_chain, walk_from, push_used,
}
use tenclaw.Virtqueue.Avail.{IsLive, pending, advance, pop_avail_lem, drain}
use tenclaw.Virtqueue.Drain.{drain_lem}
use tenclaw.Virtqueue.Used.{push_used_lem, push_used-IsBytes}
use tenclaw.Virtqueue.Descriptors.{walk_chain_iff}
use tenclaw.Virtqueue.Table.{Lists}

abbrev small_map : GuestMemMap
small_map = record {
  base = 0x10000;
  alloc_size = 0x1000;
  low_size = 0x1000;
  high_base = 0x1_0000_0000;
  high_size = 0;
}

abbrev queue : VirtQueue
queue = record {
  queue_size = 4;
  mem = small_map;
  desc_gpa = 0x100;
  driver_gpa = 0x200;
  device_gpa = 0x300;
  last_avail_idx = 65535;
  ready = true;
}

abbrev blank : Ram
blank = λ x. 0

-- Head 2 in slot 65535 % 4; descriptor 2 is a writable buffer at 0x400, longer than all of RAM.
abbrev published : Ram
published =
    store16 (store32 (store16 (store16 blank 0x1020a 2) 0x10120 0x400) 0x10128 0x2000) 0x1012c 2

abbrev big_buffer : VirtqChainElem
big_buffer = record { addr = 0x10400; len = 0x2000; writable = true }

blank-IsBytes : IsBytes blank
blank-IsBytes x = omega arith

published-IsBytes : IsBytes published
published-IsBytes x = ground arith

queue-IsLive : IsLive queue 0x10200
unfolding gpa_to_hva
queue-IsLive = record {
  is_ready = refl;
  mapped = refl;
  index_fits = omega arith;
  nonempty_ring = omega arith;
}

small_map-IsLayout : IsLayout small_map
small_map-IsLayout = omega arith

pops_head : pop_avail queue published ≡ some (2, record queue { last_avail_idx = 0 })
unfolding pop_avail gpa_to_hva
pops_head = refl

walks : walk_chain queue published 2 ≡ some (big_buffer ∷ [])
unfolding walk_chain walk_from desc_at gpa_to_hva
walks = refl

pop_avail_lem_example :
    ((pending queue published 0x10200 ≡ 0) × (pop_avail queue published ≡ none))
    ⊎ ((0 < pending queue published 0x10200)
        × (pop_avail queue published ≡ some (2, advance queue))
        × (pending (advance queue) published 0x10200 + 1 ≡ pending queue published 0x10200))
pop_avail_lem_example = pop_avail_lem queue published 0x10200 published-IsBytes queue-IsLive

-- A handler that completes each request with one byte.
abbrev complete_one : VirtQueue → ℕ → Ram → Ram
complete_one _ head r = push_used queue r (u16 head) 1

used-queue : used queue ≡ some 0x10300
unfolding gpa_to_hva
used-queue = refl

drain_lem_example :
    drain (λ (r : Ram). r) complete_one (2 ^ 16) queue published
    ≡ some (advance queue, complete_one (advance queue) 2 published)
drain_lem_example =
    drain_lem (λ (r : Ram). r) complete_one queue published 0x10200 published-IsBytes queue-IsLive
      (
        push_used-IsBytes queue published 2 1 published-IsBytes,
        (λ x lo hi.
            (push_used_lem queue published 0x10300 2 1 used-queue (omega arith) (omega arith)
                (omega arith)).4
              x (inl (omega arith)) (inl (omega arith))),
        tt,
      )

push_used_lem_example : load16 (push_used queue published 2 1) 0x10302 ≡ 1
push_used_lem_example =
    (push_used_lem queue published 0x10300 2 1 used-queue (omega arith) (omega arith)
      (omega arith)).2

walk_chain_iff_example :
    (walk_chain queue published 2 ≡ some (big_buffer ∷ []))
    ↔ Lists queue published 2 (big_buffer ∷ [])
walk_chain_iff_example = walk_chain_iff queue published 2 (big_buffer ∷ [])
