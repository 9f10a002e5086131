-- ===== src/Blk/Notify.antt =====
-- `OnQueueNotify`: one notification serves every published request.
use tenclaw.Base.{ℕ, ◌≡◌, true}
use tenclaw.Disk.{DiskOps}
use tenclaw.Memory.{IsBytes}
use tenclaw.Virtqueue.{VirtQueue}
use tenclaw.Virtqueue.Avail.{pending, IsLive, heads, advance_by, handle_all}
use tenclaw.Virtqueue.Drain.{KeepsRing, drain_lem}
use tenclaw.Blk.{Work, process_request, on_queue_notify}

module _ {S : Type 0} (ops : DiskOps S) where
  -- The handler returns: it processes each published request once, in the order of the ring, and
  -- then raises the used-buffer notification. It relies on requests that do not overwrite the
  -- available ring that they came from.
  pub on_queue_notify_lem :
      (q : VirtQueue) (w : Work S) (a : ℕ)
      → IsBytes w.ram
      → IsLive q a
      → let n = pending q w.ram a in
        KeepsRing (λ (v : Work S). v.ram) (process_request ops) a n q w
        → (on_queue_notify ops q 0 w ≡ (
          advance_by n q,
          handle_all (λ (v : Work S). v.ram) (process_request ops) q (heads q w.ram a n) w,
          true,
        ))
  unfolding on_queue_notify
  on_queue_notify_lem q w a b l k =
      rw (drain_lem (λ (v : Work S). v.ram) (process_request ops) q w a b l k, on_queue_notify)
