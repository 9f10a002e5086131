-- ===== src/Net/Tests.antt =====
-- A frame received into one buffer and one sent from it.
use tenclaw.Base.{ℕ, ◌≡◌, refl, Bool, true, some, List, [], ◌∷◌, ◌++◌, arith, take, replicate}
use tenclaw.Memory.{GuestMemMap, Ram, gpa_to_hva, store16, store32}
use tenclaw.Virtqueue.{VirtQueue, VirtqChainElem, desc_at, walk_chain, walk_from, push_used}
use tenclaw.Blk.Transfer.{gather, Outside}
use tenclaw.Net.{Work, new_net, set_tx_callback, receive}
use tenclaw.Net.Receive.{receive_lem}

abbrev small_map : GuestMemMap
small_map = record {
  base = 0x10000;
  alloc_size = 0x1000;
  low_size = 0x1000;
  high_base = 0x1_0000_0000;
  high_size = 0;
}

abbrev queue : VirtQueue
queue = record {
  queue_size = 4;
  mem = small_map;
  desc_gpa = 0x100;
  driver_gpa = 0x200;
  device_gpa = 0x300;
  last_avail_idx = 0;
  ready = true;
}

-- Descriptor 2 is a buffer at 0x400 of a length and with flags.
abbrev published : ℕ → ℕ → Ram
published len flags = store16 (store32 (store16 (λ x. 0) 0x10120 0x400) 0x10128 len) 0x1012c flags

abbrev buffer : ℕ → Bool → List VirtqChainElem
buffer len writable = record { addr = 0x10400; len = len; writable = writable } ∷ []

abbrev frame : List ℕ
frame = 9 ∷ 8 ∷ 7 ∷ 6 ∷ []

walks_receive : walk_chain queue (published 20 2) 2 ≡ some (buffer 20 true)
unfolding walk_chain walk_from desc_at gpa_to_hva
walks_receive = refl

receive_lem_example :
    (r' : Ram) × (receive queue 2 frame (published 20 2) ≡ (push_used queue r' 2 16, true))
    × (take 16 (gather true (buffer 20 true) r') ≡ take 20 (replicate 12 0 ++ frame))
    × ((x : ℕ) → Outside x (buffer 20 true) → r' x ≡ published 20 2 x)
receive_lem_example =
    receive_lem queue 2 frame (published 20 2) (buffer 20 true) walks_receive
      (ground arith, (ground arith, (ground arith, (ground arith, tt)))) (tt, tt) (ground arith)

abbrev idle : Work
idle = record { net = set_tx_callback (new_net true); ram = published 30 0 }
