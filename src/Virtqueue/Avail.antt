-- ===== src/Virtqueue/Avail.antt =====
-- The available ring as the device drains it: `HasAvailable`, `PopAvail`, and the loop
-- `while (vq.PopAvail(&head)) handle(vq, head)` that the virtio devices share.
use native.Mathlib.Decide.{ℕ_discrete}
use tenclaw.Base.{
  ℕ, zero, suc, ◌+◌, ◌-◌, ◌*◌, ◌%◌, ◌^◌, ◌<◌, ◌≡◌, ◌⊎◌, inl, inr, true, false, Option, none, some,
  List, [], ◌∷◌, arith, u16,
}
use tenclaw.Memory.{Ram, IsBytes, load16}
use tenclaw.Memory.Words.{load16-lt}
use tenclaw.Virtqueue.{VirtQueue, avail, pop_avail}

-- How many heads the driver has published that the device has not taken, for an available ring
-- at host address `a`. Both indices run modulo 2 ^ 16.
abbrev pub pending : VirtQueue → Ram → ℕ → ℕ
pending q r a = u16 (load16 r (a + 2) + 2 ^ 16 - q.last_avail_idx)

abbrev pub advance : VirtQueue → VirtQueue
advance q = record q { last_avail_idx = u16 (q.last_avail_idx + 1) }

abbrev pub next_head : VirtQueue → Ram → ℕ → ℕ
next_head q r a = load16 r (a + 4 + 2 * (q.last_avail_idx % q.queue_size))

-- A ready queue whose available ring is mapped, and whose index is a 16-bit number.
pub record IsLive (q : VirtQueue) (a : ℕ) : Type 0 where
  pub is_ready : q.ready ≡ true
  pub mapped : avail q ≡ some a
  pub index_fits : q.last_avail_idx < 2 ^ 16
  pub nonempty_ring : 0 < q.queue_size

-- A queue that is not ready, or whose available ring is not mapped, yields no head.
pub pop_avail_idle :
    (q : VirtQueue) (r : Ram) → (q.ready ≡ false) ⊎ (avail q ≡ none) → pop_avail q r ≡ none
unfolding pop_avail
pop_avail_idle q r (inl e) = ground arith
pop_avail_idle q r (inr e) = ground arith

-- On a ready queue of some size whose available ring is mapped, `PopAvail` refuses exactly when
-- nothing is pending; otherwise it returns the entry of the ring at the current index, moves the
-- index on by one, and one entry fewer is pending.
pub pop_avail_lem :
    (q : VirtQueue) (r : Ram) (a : ℕ)
    → IsBytes r
    → IsLive q a
    → ((pending q r a ≡ 0) × (pop_avail q r ≡ none))
      ⊎ ((0 < pending q r a)
          × (pop_avail q r ≡ some (next_head q r a, advance q))
          × (pending (advance q) r a + 1 ≡ pending q r a))
unfolding pop_avail
pop_avail_lem q r a b l = elim (ℕ_discrete q.last_avail_idx (load16 r (a + 2))) [
  | yes e ↦ inl (omega (arith, load16-lt r (a + 2) b), ground arith)
  | no ne ↦
      inr (omega (arith, load16-lt r (a + 2) b), ground arith, omega (arith, load16-lt r (a + 2) b))
]

-- The heads that a device takes, in the order of the ring, if nothing else changes the ring.
abbrev pub heads : VirtQueue → Ram → ℕ → ℕ → List ℕ
heads q r a zero = []
heads q r a (suc n) = next_head q r a ∷ heads (advance q) r a n

abbrev pub advance_by : ℕ → VirtQueue → VirtQueue
advance_by zero q = q
advance_by (suc n) q = advance_by n (advance q)

module _ {ℓ} {W : Type ℓ} (ram : W → Ram) (handle : VirtQueue → ℕ → W → W) where
  -- The loop, on fuel; `none` means that the fuel ran out.
  unfoldable pub drain : ℕ → VirtQueue → W → Option (VirtQueue × W)
  drain zero q w = none
  drain (suc fuel) q w = elim (pop_avail q (ram w)) [
    | none ↦ some (q, w)
    | some (head, q') ↦ drain fuel q' (handle q' head w)
  ]

  -- The requests handled one after another.
  abbrev pub handle_all : VirtQueue → List ℕ → W → W
  handle_all q [] w = w
  handle_all q (h ∷ hs) w = handle_all (advance q) hs (handle (advance q) h w)
