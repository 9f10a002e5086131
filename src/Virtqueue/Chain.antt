-- ===== src/Virtqueue/Chain.antt =====
-- `WalkChain` against the linked descriptors that it is meant to collect.
use tenclaw.Base.{
  ℕ, zero, suc, ◌+◌, ◌≤◌, ◌<◌, ◌≡◌, refl, sym, ap, subst, ◌∙◌, ◌≢◌, ◌↔◌, inl, inr, true, false,
  Option, none, some, List, [], ◌∷◌, ◌++◌, arith, Bool-cases, Option-cases, length, some_inj, All,
}
use mathlib.Core.List.{append_assoc, append-nil}
use tenclaw.Memory.{Ram, GuestMemMap, gpa_to_hva}
use tenclaw.Memory.Map.{IsLayout, gpa_to_hva-InBounds}
use tenclaw.Virtqueue.{
  VirtQueue, VirtqChainElem, desc_at, desc_addr, desc_len, desc_next, has_next, elem_of, walk_from,
  nonempty, walk_chain,
}

-- `Linked q r n i es`: from descriptor `i`, following `next` while the flag says so and for at most
-- `n` descriptors, the translated buffers are `es`.
pub data Linked (q : VirtQueue) (r : Ram) : ℕ → ℕ → List VirtqChainElem → Type 0 where
  cut : {i : ℕ} → Linked q r zero i []
  last :
      {n i d hva : ℕ}
      → desc_at q i ≡ some d
      → gpa_to_hva q.mem (desc_addr r d) ≡ some hva
      → has_next r d ≡ false
      → Linked q r (suc n) i (elem_of r d hva ∷ [])
  next :
      {n i d hva : ℕ} {es : List VirtqChainElem}
      → desc_at q i ≡ some d
      → gpa_to_hva q.mem (desc_addr r d) ≡ some hva
      → has_next r d ≡ true
      → Linked q r n (desc_next r d) es
      → Linked q r (suc n) i (elem_of r d hva ∷ es)

walk_from-Linked :
    (q : VirtQueue) (r : Ram) {n i : ℕ} {es : List VirtqChainElem} (acc : List VirtqChainElem)
    → Linked q r n i es
    → walk_from q r n i acc ≡ some (acc ++ es)
unfolding walk_from
walk_from-Linked q r acc cut = rw append-nil
walk_from-Linked q r acc (last hd ha hn) = rw (hd, walk_from, ha, hn)
walk_from-Linked q r acc (next {d} {hva} {es} hd ha hn rest) =
    rw (hd, walk_from, ha, hn)
      (walk_from-Linked q r (acc ++ (elem_of r d hva ∷ [])) rest
        ∙ ap some (append_assoc acc (elem_of r d hva ∷ []) es))

Linked-walk_from :
    (q : VirtQueue) (r : Ram) (n i : ℕ) (acc out : List VirtqChainElem)
    → walk_from q r n i acc ≡ some out
    → (es : List VirtqChainElem) × (out ≡ acc ++ es) × Linked q r n i es
unfolding walk_from
Linked-walk_from q r zero i acc out h = ([], sym (some_inj h) ∙ sym (append-nil acc), cut)
Linked-walk_from q r (suc n) i acc out h = elim (Option-cases (desc_at q i)) [
  | inl e ↦ absurd (ground arith)
  | inr (d, hd) ↦ elim (Option-cases (gpa_to_hva q.mem (desc_addr r d))) [
    | inl e ↦ absurd (ground arith)
    | inr (hva, ha) ↦ elim (Bool-cases (has_next r d)) [
      | inl more ↦
          let (es, split, rest) =
            Linked-walk_from q r n (desc_next r d) (acc ++ (elem_of r d hva ∷ [])) out
              (rw (hd, walk_from, ha, more) at h) in
          (
            elem_of r d hva ∷ es,
            split ∙ append_assoc acc (elem_of r d hva ∷ []) es,
            next hd ha more rest,
          )
      | inr stop ↦ (
        elem_of r d hva ∷ [],
        sym (some_inj (rw (hd, walk_from, ha, stop) at h)),
        last hd ha stop,
      )
    ]
  ]
]

nonempty-some :
    (o : Option (List VirtqChainElem)) (es : List VirtqChainElem)
    → nonempty o ≡ some es
    → (o ≡ some es) × (es ≢ [])
nonempty-some none es h = cc
nonempty-some (some []) es h = cc
nonempty-some (some (x ∷ xs)) es h = (h, λ e. ground arith)

some-nonempty : (es : List VirtqChainElem) → es ≢ [] → nonempty (some es) ≡ some es
some-nonempty [] h = absurd (h refl)
some-nonempty (x ∷ xs) h = refl

-- `WalkChain` succeeds with `es` exactly when `es` is the non-empty list of linked buffers from the
-- head, cut off after `queue_size` descriptors.
pub walk_chain-Linked :
    (q : VirtQueue) (r : Ram) (head : ℕ) (es : List VirtqChainElem)
    → (walk_chain q r head ≡ some es) ↔ (Linked q r q.queue_size head es × (es ≢ []))
unfolding walk_chain
walk_chain-Linked q r head es = (sound, complete)
  where
    sound : walk_chain q r head ≡ some es → Linked q r q.queue_size head es × (es ≢ [])
    sound h =
        let (walked, ne) = nonempty-some (walk_from q r q.queue_size head []) es h in
        let (es', split, l) = Linked-walk_from q r q.queue_size head [] es walked in
        (subst (Linked q r q.queue_size head) (sym split) l, ne)

    complete : Linked q r q.queue_size head es × (es ≢ []) → walk_chain q r head ≡ some es
    complete (l, ne) = rw (walk_from-Linked q r [] l) (some-nonempty es ne)

length-Linked :
    {q : VirtQueue} {r : Ram} {n i : ℕ} {es : List VirtqChainElem}
    → Linked q r n i es
    → length es ≤ n
length-Linked cut = omega arith
length-Linked (last hd ha hn) = omega arith
length-Linked (next hd ha hn rest) = omega (arith, length-Linked rest)

-- The buffer starts inside the host allocation.
abbrev pub StartsIn : GuestMemMap → VirtqChainElem → Type 0
StartsIn m e = (m.base ≤ e.addr) × (e.addr < m.base + m.alloc_size)

starts_in :
    (m : GuestMemMap) (gpa hva : ℕ)
    → IsLayout m
    → gpa_to_hva m gpa ≡ some hva
    → (m.base ≤ hva) × (hva < m.base + m.alloc_size)
starts_in m gpa hva l h = let (lo, hi, _) = gpa_to_hva-InBounds l gpa gpa hva hva h h in (lo, hi)

Linked-StartsIn :
    {q : VirtQueue} {r : Ram} {n i : ℕ} {es : List VirtqChainElem}
    → IsLayout q.mem
    → Linked q r n i es
    → All (StartsIn q.mem) es
Linked-StartsIn l cut = tt
Linked-StartsIn {q} {r} l (last {d} {hva} hd ha hn) = (starts_in q.mem (desc_addr r d) hva l ha, tt)
Linked-StartsIn {q} {r} l (next {d} {hva} hd ha hn rest) =
    (starts_in q.mem (desc_addr r d) hva l ha, Linked-StartsIn l rest)

-- Under a layout a walk that succeeds, even over a looped chain, ends with at least one and at
-- most `queue_size` buffers, each of which starts inside the host allocation.
pub walk_chain_bounds :
    (q : VirtQueue) (r : Ram) (head : ℕ) (es : List VirtqChainElem)
    → IsLayout q.mem
    → walk_chain q r head ≡ some es
    → (1 ≤ length es) × (length es ≤ q.queue_size) × All (StartsIn q.mem) es
walk_chain_bounds q r head es l h =
    let (linked, ne) = (walk_chain-Linked q r head es).0 h in
    (grind arith, length-Linked linked, Linked-StartsIn l linked)

desc_at_room : (q : VirtQueue) (i d : ℕ) → desc_at q i ≡ some d → 0 < q.queue_size
unfolding desc_at
desc_at_room q i d e = ground arith

-- The length of a buffer is not checked: a single descriptor whose buffer runs past the end of the
-- host allocation is handed to the device as it is.
pub walk_chain_overrun :
    (q : VirtQueue) (r : Ram) (head d hva : ℕ)
    → desc_at q head ≡ some d
    → gpa_to_hva q.mem (desc_addr r d) ≡ some hva
    → has_next r d ≡ false
    → q.mem.base + q.mem.alloc_size < hva + desc_len r d
    → (e : VirtqChainElem) × (walk_chain q r head ≡ some (e ∷ []))
      × (q.mem.base + q.mem.alloc_size < e.addr + e.len)
walk_chain_overrun q r head d hva hd ha hn over = (
  elem_of r d hva,
  (walk_chain-Linked q r head (elem_of r d hva ∷ [])).1
      (one q.queue_size (desc_at_room q head d hd), λ e. ground arith),
  over,
)
  where
    one : (n : ℕ) → 0 < n → Linked q r n head (elem_of r d hva ∷ [])
    one zero p = elim p [ ]
    one (suc n) p = last hd ha hn
