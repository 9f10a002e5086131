-- ===== src/Virtqueue/Drain.antt =====
-- The request loop of the devices terminates, and serves what was published.
use tenclaw.Base.{
  ℕ, zero, suc, ◌+◌, ◌*◌, ◌%◌, ◌^◌, ◌≤◌, ◌<◌, ◌≡◌, refl, ap, ap₂, ◌∙◌, inl, inr, some, ◌∷◌, arith,
}
use native.Mathlib.Nat.{mod-lt}
use tenclaw.Memory.{Ram, IsBytes}
use tenclaw.Virtqueue.{VirtQueue}
use tenclaw.Virtqueue.Avail.{
  pending, advance, next_head, IsLive, pop_avail_lem, heads, advance_by, drain, handle_all,
}

-- Two memories that agree on the available ring at `a`: its flags, its index and its entries.
abbrev pub SameRing : ℕ → ℕ → Ram → Ram → Type 0
SameRing a size r r' = (x : ℕ) → a ≤ x → x < a + 4 + 2 * size → r' x ≡ r x

advance-IsLive : {q : VirtQueue} {a : ℕ} → IsLive q a → IsLive (advance q) a
advance-IsLive l = record {
  is_ready = l.is_ready;
  mapped = l.mapped;
  index_fits = omega arith;
  nonempty_ring = l.nonempty_ring;
}

pending-SameRing :
    (q : VirtQueue) (a : ℕ) {r r' : Ram}
    → 0 < q.queue_size
    → SameRing a q.queue_size r r'
    → pending q r' a ≡ pending q r a
pending-SameRing q a n s =
    omega (arith, s (a + 2) (omega arith) (omega arith), s (a + 2 + 1) (omega arith) (omega arith))

heads-SameRing :
    (n : ℕ) (q : VirtQueue) (a : ℕ) {r r' : Ram}
    → 0 < q.queue_size
    → SameRing a q.queue_size r r'
    → heads q r' a n ≡ heads q r a n
heads-SameRing zero q a p s = refl
heads-SameRing (suc n) q a {r} {r'} p s =
    let slot = q.last_avail_idx % q.queue_size in
    let inside : slot < q.queue_size = mod-lt q.last_avail_idx p in
    ap₂ ◌∷◌
      (omega (
        arith,
        s (a + 4 + 2 * slot) (omega arith) (omega arith),
        s (a + 4 + 2 * slot + 1) (omega arith) (omega arith),
      ))
      (heads-SameRing n (advance q) a p s)

module _ {ℓ} {W : Type ℓ} (ram : W → Ram) (handle : VirtQueue → ℕ → W → W) where
  -- What the loop relies on for `n` requests in a row: handling each one leaves bytes in memory, and
  -- the driver did not put a device-writable buffer over its own available ring.
  abbrev pub KeepsRing : ℕ → ℕ → VirtQueue → W → Type 0
  KeepsRing a zero q w = Unit {0}
  KeepsRing a (suc n) q w =
      let w' = handle (advance q) (next_head q (ram w) a) w in
      IsBytes (ram w') × SameRing a q.queue_size (ram w) (ram w') × KeepsRing a n (advance q) w'

  drain_from :
      (n fuel : ℕ) (q : VirtQueue) (w : W) (a : ℕ)
      → IsBytes (ram w)
      → IsLive q a
      → KeepsRing a n q w
      → pending q (ram w) a ≡ n
      → n < fuel
      → (drain ram handle fuel q w
          ≡ some (advance_by n q, handle_all ram handle q (heads q (ram w) a n) w))
  unfolding drain
  drain_from n zero q w a b l k e h = absurd (omega arith)
  drain_from zero (suc fuel) q w a b l k e h = elim (pop_avail_lem q (ram w) a b l) [
    | inl (_, idle) ↦ rw (idle, drain)
    | inr (some_left, _, _) ↦ absurd (omega arith)
  ]
  drain_from (suc n) (suc fuel) q w a b l k e h = elim (pop_avail_lem q (ram w) a b l) [
    | inl (none_left, _) ↦ absurd (omega arith)
    | inr (_, popped, one_less) ↦
        let w' = handle (advance q) (next_head q (ram w) a) w in
        let p : 0 < q.queue_size = l.nonempty_ring in
        rw (popped, drain)
          (drain_from n fuel (advance q) w' a k.0 (advance-IsLive l) k.2
              (pending-SameRing (advance q) a p k.1 ∙ omega arith) (omega arith)
            ∙ ap (λ hs. some (advance_by n (advance q), handle_all ram handle (advance q) hs w'))
                (heads-SameRing n (advance q) a p k.1))
  ]

  -- On a live queue whose ring the requests leave alone, fuel 2 ^ 16 is always enough: the loop ends
  -- after exactly the pending heads, having handled each one once, in the order of the ring.
  pub drain_lem :
      (q : VirtQueue) (w : W) (a : ℕ)
      → IsBytes (ram w)
      → IsLive q a
      → let n = pending q (ram w) a in
        KeepsRing a n q w
        → (drain ram handle (2 ^ 16) q w
            ≡ some (advance_by n q, handle_all ram handle q (heads q (ram w) a n) w))
  drain_lem q w a b l k = drain_from (pending q (ram w) a) (2 ^ 16) q w a b l k refl (omega arith)
