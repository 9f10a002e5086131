-- ===== src/Virtqueue/Descriptors.antt =====
-- `WalkChain` against the table of descriptors as the driver lays it out.
use tenclaw.Base.{
  ℕ, zero, suc, ◌+◌, ◌*◌, ◌≡◌, refl, subst, ◌≢◌, ◌↔◌, inl, inr, some, List, [], ◌∷◌, arith,
  Bool-cases, some_inj,
}
use tenclaw.Memory.{Ram, gpa_to_hva, load64}
use tenclaw.Virtqueue.{VirtQueue, VirtqChainElem, desc_at, has_next, elem_of, walk_chain}
use tenclaw.Virtqueue.Chain.{Linked, cut, last, next, walk_chain-Linked}
use tenclaw.Virtqueue.Table.{
  IsChain, Lists, desc_at_iff, desc_at-table, elem_of-same, Linked-IsChain,
}

module _ (q : VirtQueue) (r : Ram) (t : ℕ) (m : gpa_to_hva q.mem q.desc_gpa ≡ some t) where
  -- The head of a chain, in the words of `WalkChain`.
  head_at :
      (n i : ℕ) (e : VirtqChainElem) (es : List VirtqChainElem) (ids : List ℕ)
      → IsChain q r t n i (e ∷ es) (i ∷ ids)
      → (desc_at q i ≡ some (t + 16 * i))
        × (gpa_to_hva q.mem (load64 r (t + 16 * i)) ≡ some e.addr)
        × (elem_of r (t + 16 * i) e.addr ≡ e)
  head_at n i e es ids c =
      let b = c.buffers 0 i e refl refl in
      (
        (desc_at_iff q t i (t + 16 * i) m).1 (b.in_table, refl),
        b.address,
        elem_of-same r (t + 16 * i) e b.size b.direction,
      )

  IsChain-rest :
      (n i j : ℕ) (e f : VirtqChainElem) (es : List VirtqChainElem) (ids : List ℕ)
      → IsChain q r t (suc n) i (e ∷ f ∷ es) (i ∷ j ∷ ids)
      → IsChain q r t n j (f ∷ es) (j ∷ ids)
  IsChain-rest n i j e f es ids c = record {
    same_length = omega (arith, c.same_length);
    first = refl;
    short = omega (arith, c.short);
    buffers = λ k. c.buffers (suc k);
    links = λ k. c.links (suc k);
    ended = λ k x h s l. c.ended (suc k) x h (omega arith) (omega arith);
  }

  heads-Linked :
      (n i : ℕ) (e : VirtqChainElem) (es : List VirtqChainElem) (ids : List ℕ)
      → IsChain q r t (suc n) i (e ∷ es) (i ∷ ids)
      → Linked q r (suc n) i (e ∷ es)
  heads-Linked n i e [] (j ∷ ids) c = absurd (omega (arith, c.same_length))
  heads-Linked n i e (f ∷ es) [] c = absurd (omega (arith, c.same_length))
  heads-Linked zero i e (f ∷ es) (j ∷ ids) c = absurd (omega (arith, c.short))
  heads-Linked zero i e [] [] c =
      let (hd, ha, same) = head_at 1 i e [] [] c in
      subst (λ b. Linked q r 1 i (b ∷ [])) same
        (elim (Bool-cases (has_next r (t + 16 * i))) [
          | inl more ↦ next hd ha more cut
          | inr stop ↦ last hd ha stop
        ])
  heads-Linked (suc n) i e [] [] c =
      let (hd, ha, same) = head_at (suc (suc n)) i e [] [] c in
      subst (λ b. Linked q r (suc (suc n)) i (b ∷ [])) same
        (elim (Bool-cases (has_next r (t + 16 * i))) [
          | inl more ↦ absurd (c.ended 0 i refl refl (omega arith) more)
          | inr stop ↦ last hd ha stop
        ])
  heads-Linked (suc n) i e (f ∷ es) (j ∷ ids) c =
      let (hd, ha, same) = head_at (suc (suc n)) i e (f ∷ es) (j ∷ ids) c in
      let (more, at) = c.links 0 i j refl refl in
      let rest = heads-Linked n j f es ids (IsChain-rest (suc n) i j e f es ids c) in
      subst (λ b. Linked q r (suc (suc n)) i (b ∷ f ∷ es)) same
        (next hd ha more (subst (λ y. Linked q r (suc n) y (f ∷ es)) at rest))

  IsChain-Linked :
      (n i : ℕ) (es : List VirtqChainElem) (ids : List ℕ)
      → IsChain q r t n i es ids
      → (es ≢ []) × Linked q r n i es
  IsChain-Linked n i [] [] c = absurd (let h = c.first in cc)
  IsChain-Linked n i [] (x ∷ ids) c = absurd (omega (arith, c.same_length))
  IsChain-Linked n i (e ∷ es) [] c = absurd (omega (arith, c.same_length))
  IsChain-Linked zero i (e ∷ es) (x ∷ ids) c = absurd (omega (arith, c.short))
  IsChain-Linked (suc n) i (e ∷ es) (x ∷ ids) c =
      let same : x ≡ i = some_inj c.first in
      (
        λ h. ground arith,
        heads-Linked n i e es ids (subst (λ y. IsChain q r t (suc n) i (e ∷ es) (y ∷ ids)) same c),
      )

-- A chain that is not empty has a table.
Linked-table :
    (q : VirtQueue) (r : Ram) (n i : ℕ) (es : List VirtqChainElem)
    → es ≢ []
    → Linked q r n i es
    → (t : ℕ) × (gpa_to_hva q.mem q.desc_gpa ≡ some t)
Linked-table q r n i es ne cut = absurd (ne refl)
Linked-table q r n i es ne (last {d} hd ha hn) = desc_at-table q i d hd
Linked-table q r n i es ne (next {d} hd ha hn l) = desc_at-table q i d hd

-- `WalkChain` succeeds with `es` exactly when the table of descriptors is mapped and the driver's
-- descriptors from the head on make a chain with these buffers: their indices lie below
-- `queue_size`, their addresses are translated, each but the last has the flag for a next one and
-- names it, there are at least one and at most `queue_size` of them, and the last has the flag only if
-- there are exactly `queue_size`.
pub walk_chain_iff :
    (q : VirtQueue) (r : Ram) (head : ℕ) (es : List VirtqChainElem)
    → (walk_chain q r head ≡ some es) ↔ Lists q r head es
walk_chain_iff q r head es = (sound, complete)
  where
    sound : walk_chain q r head ≡ some es → Lists q r head es
    sound h =
        let (l, ne) = (walk_chain-Linked q r head es).0 h in
        let (t, m) = Linked-table q r q.queue_size head es ne l in
        let (ids, c) = Linked-IsChain q r t m q.queue_size head es ne l in (t, ids, m, c)

    complete : Lists q r head es → walk_chain q r head ≡ some es
    complete (t, ids, m, c) =
        let (ne, l) = IsChain-Linked q r t m q.queue_size head es ids c in
        (walk_chain-Linked q r head es).1 (l, ne)
