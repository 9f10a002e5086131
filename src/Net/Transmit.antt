-- ===== src/Net/Transmit.antt =====
-- What the transmit queue sends.
use tenclaw.Base.{ℕ, ◌+◌, ◌≡◌, true, List, [], ◌∷◌}
use tenclaw.Memory.{IsBytes}
use tenclaw.Virtqueue.{VirtQueue, VirtqChainElem}
use tenclaw.Virtqueue.Avail.{pending, IsLive, heads, advance_by, handle_all}
use tenclaw.Virtqueue.Drain.{KeepsRing, drain_lem}
use tenclaw.Net.{Net, Work, transmit, on_queue_notify}

-- The bytes of a chain's buffers, uncut.
abbrev pub bytes_in : List VirtqChainElem → ℕ
bytes_in [] = 0
bytes_in (e ∷ es) = e.len + bytes_in es

-- The handler of the transmit queue returns: each published chain is handled once, in the order of
-- the ring, and the used-buffer notification follows. It relies on chains whose used-ring entries do
-- not lie in the available ring.
pub transmit-drain :
    (q : VirtQueue) (w : Work) (a : ℕ)
    → IsBytes w.ram
    → IsLive q a
    → KeepsRing (λ (v : Work). v.ram) transmit a (pending q w.ram a) q w
    → on_queue_notify q 1 w ≡ (
      advance_by (pending q w.ram a) q,
      handle_all (λ (v : Work). v.ram) transmit q (heads q w.ram a (pending q w.ram a)) w,
      true,
    )
unfolding on_queue_notify
transmit-drain q w a b l k =
    rw (drain_lem (λ (v : Work). v.ram) transmit q w a b l k, on_queue_notify)
