-- ===== src/Virtqueue/Used.antt =====
-- `PushUsed`: the used ring as the driver sees it.
use tenclaw.Base.{
  ℕ, ◌+◌, ◌*◌, ◌%◌, ◌^◌, ◌≤◌, ◌<◌, ◌≡◌, ◌⊎◌, inl, inr, none, some, arith, Option-cases, u16,
}
use native.Mathlib.Nat.{mod-lt}
use tenclaw.Memory.{Ram, IsBytes, load16, load32, store16, store32}
use tenclaw.Memory.Words.{store16-IsBytes, store32-IsBytes, load32-store32}
use tenclaw.Virtqueue.{VirtQueue, used, push_used}

-- The address of the entry that the next `PushUsed` fills, for a used ring at `u`.
abbrev pub used_slot : VirtQueue → Ram → ℕ → ℕ
used_slot q r u = u + 4 + 8 * (load16 r (u + 2) % q.queue_size)

-- The three stores of `PushUsed`, for an entry at `s` behind the header at `u`.
abbrev fill_entry : Ram → ℕ → ℕ → ℕ → ℕ → ℕ → Ram
fill_entry r u s head total v = store16 (store32 (store32 r s head) (s + 4) total) (u + 2) v

module _ (r : Ram) (u s head total v : ℕ) (behind : u + 4 ≤ s) where
  entry_same : (x : ℕ) → s ≤ x → x < s + 4 → fill_entry r u s head total v x ≡ store32 r s head x
  entry_same x lo hi = ground arith

  entry_id : head < 2 ^ 32 → load32 (fill_entry r u s head total v) s ≡ head
  entry_id h = omega (
    arith,
    entry_same s (omega arith) (omega arith),
    entry_same (s + 1) (omega arith) (omega arith),
    entry_same (s + 2) (omega arith) (omega arith),
    entry_same (s + 2 + 1) (omega arith) (omega arith),
    load32-store32 r s head h,
  )

  entry_len : total < 2 ^ 32 → load32 (fill_entry r u s head total v) (s + 4) ≡ total
  entry_len h = ground arith

  entry_idx : v < 2 ^ 16 → load16 (fill_entry r u s head total v) (u + 2) ≡ v
  entry_idx h = ground arith

  entry_header : load16 (store32 (store32 r s head) (s + 4) total) (u + 2) ≡ load16 r (u + 2)
  entry_header = ground arith

  entry_frame :
      (x : ℕ)
      → (x < u + 2) ⊎ (u + 4 ≤ x)
      → (x < s) ⊎ (s + 8 ≤ x)
      → fill_entry r u s head total v x ≡ r x
  entry_frame x h k = ground arith

-- On a queue of some size whose used ring is mapped, `PushUsed` writes the head and the length
-- into the next entry of the used ring, moves the ring's index on by one modulo 2 ^ 16, and
-- leaves the rest of memory as it was; the entry lies in the ring.
pub push_used_lem :
    (q : VirtQueue) (r : Ram) (u head total : ℕ)
    → used q ≡ some u
    → 0 < q.queue_size
    → head < 2 ^ 32
    → total < 2 ^ 32
    → let r' = push_used q r head total in
      (load32 r' (used_slot q r u) ≡ head)
      × (load32 r' (used_slot q r u + 4) ≡ total)
      × (load16 r' (u + 2) ≡ u16 (load16 r (u + 2) + 1))
      × (used_slot q r u + 8 ≤ u + 4 + 8 * q.queue_size)
      × ((x : ℕ)
          → (x < u + 2) ⊎ (u + 4 ≤ x)
          → (x < used_slot q r u) ⊎ (used_slot q r u + 8 ≤ x)
          → r' x ≡ r x)
unfolding push_used
push_used_lem q r u head total e p hh ht =
    let s = used_slot q r u in
    let behind : u + 4 ≤ s = omega arith in
    rw (e, push_used, entry_header r u s head total 0 behind)
      (
        entry_id r u s head total _ behind hh,
        entry_len r u s head total _ behind ht,
        entry_idx r u s head total _ behind (omega arith),
        omega (arith, mod-lt (load16 r (u + 2)) p),
        entry_frame r u s head total _ behind,
      )

-- A queue whose used ring is not mapped completes nothing.
pub push_used_unmapped :
    (q : VirtQueue) (r : Ram) (head total : ℕ) → used q ≡ none → push_used q r head total ≡ r
unfolding push_used
push_used_unmapped q r head total e = ground arith

pub push_used-IsBytes :
    (q : VirtQueue) (r : Ram) (head total : ℕ) → IsBytes r → IsBytes (push_used q r head total)
unfolding push_used
push_used-IsBytes q r head total b = elim (Option-cases (used q)) [
  | inl e ↦ rw (e, push_used) b
  | inr (u, e) ↦
      let s = used_slot q r u in
      rw (e, push_used)
        (store16-IsBytes _ (u + 2) _ (store32-IsBytes _ (s + 4) total (store32-IsBytes r s head b)))
]
