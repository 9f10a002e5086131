-- ===== src/Virtqueue/Table.antt =====
-- The table of descriptors as the driver lays it out: a list of indices, each of which names 16 bytes of
-- guest memory, and what `WalkChain` walks is such a list.
use tenclaw.Base.{
  ℕ, zero, suc, ◌+◌, ◌*◌, ◌≤◌, ◌<◌, ◌≡◌, refl, sym, ap, ap₂, subst, ◌∙◌, ◌≢◌, ◌↔◌, ◌⊎◌, inl, inr,
  true, some, List, [], ◌∷◌, arith, Option-cases, length, get_elem?, some_inj, test_bit,
}
use tenclaw.Memory.{Ram, gpa_to_hva, load16, load32, load64}
use tenclaw.Virtqueue.{VirtQueue, VirtqChainElem, desc_at, desc_next, elem_of}
use tenclaw.Virtqueue.Chain.{Linked, cut, last, next}

-- The table at host address `t` has room for descriptor `i`, whose 64-bit address, 32-bit length and
-- second flag are those of the buffer.
pub record IsBuffer (q : VirtQueue) (r : Ram) (t i : ℕ) (e : VirtqChainElem) : Type 0 where
  pub in_table : i < q.queue_size
  pub address : gpa_to_hva q.mem (load64 r (t + 16 * i)) ≡ some e.addr
  pub size : e.len ≡ load32 r (t + 16 * i + 8)
  pub direction : e.writable ≡ test_bit (load16 r (t + 16 * i + 12)) 1

-- The flag that another descriptor follows.
abbrev pub Follows : Ram → ℕ → ℕ → Type 0
Follows r t i = test_bit (load16 r (t + 16 * i + 12)) 0 ≡ true

-- `ids` are the indices of a chain with these buffers from `head` on: each but the last has the flag
-- and names the one after it, and the last has it only where the chain is cut off after `n`.
pub record IsChain (q : VirtQueue) (r : Ram) (t n head : ℕ) (es : List VirtqChainElem)
    (ids : List ℕ) : Type 0 where
  pub same_length : length ids ≡ length es
  pub first : get_elem? ids 0 ≡ some head
  pub short : length es ≤ n
  pub buffers :
      (k i : ℕ) (e : VirtqChainElem)
      → get_elem? ids k ≡ some i
      → get_elem? es k ≡ some e
      → IsBuffer q r t i e
  pub links :
      (k i j : ℕ)
      → get_elem? ids k ≡ some i
      → get_elem? ids (suc k) ≡ some j
      → Follows r t i × (j ≡ load16 r (t + 16 * i + 14))
  pub ended :
      (k i : ℕ) → get_elem? ids k ≡ some i → suc k ≡ length es → length es < n → ¬ (Follows r t i)

-- The buffers `es` are those of the chain from `head`, in a table that is mapped.
abbrev pub Lists : VirtQueue → Ram → ℕ → List VirtqChainElem → Type 0
Lists q r head es =
    (t : ℕ) × (ids : List ℕ) × (gpa_to_hva q.mem q.desc_gpa ≡ some t)
    × IsChain q r t q.queue_size head es ids

pub desc_at_iff :
    (q : VirtQueue) (t i d : ℕ)
    → gpa_to_hva q.mem q.desc_gpa ≡ some t
    → (desc_at q i ≡ some d) ↔ ((i < q.queue_size) × (d ≡ t + 16 * i))
unfolding desc_at
desc_at_iff q t i d m = ((λ h. ground arith), (λ h. ground arith))

Linked-nil : (q : VirtQueue) (r : Ram) (n i : ℕ) → Linked q r n i [] → n ≡ 0
Linked-nil q r n i cut = refl

pub desc_at-table :
    (q : VirtQueue) (i d : ℕ)
    → desc_at q i ≡ some d
    → (t : ℕ) × (gpa_to_hva q.mem q.desc_gpa ≡ some t)
unfolding desc_at
desc_at-table q i d h = elim (Option-cases (gpa_to_hva q.mem q.desc_gpa)) [
  | inl e ↦ absurd (ground arith)
  | inr (t, e) ↦ (t, e)
]

List-cases : (es : List VirtqChainElem) → (es ≡ []) ⊎ (es ≢ [])
List-cases [] = inl refl
List-cases (e ∷ es) = inr (λ h. ground arith)

pub elem_of-same :
    (r : Ram) (d : ℕ) (e : VirtqChainElem)
    → e.len ≡ load32 r (d + 8)
    → e.writable ≡ test_bit (load16 r (d + 12)) 1
    → elem_of r d e.addr ≡ e
elem_of-same r d e l w =
    ap₂ (λ x y. record { addr = e.addr; len = x; writable = y }) (sym l) (sym w)

module _ (q : VirtQueue) (r : Ram) (t : ℕ) (m : gpa_to_hva q.mem q.desc_gpa ≡ some t) where
  one-IsBuffer :
      (i d hva : ℕ)
      → desc_at q i ≡ some d
      → gpa_to_hva q.mem (load64 r d) ≡ some hva
      → IsBuffer q r t i (elem_of r d hva)
  one-IsBuffer i d hva h a =
      let (lo, at) = (desc_at_iff q t i d m).0 h in
      record {
        in_table = lo;
        address = subst (λ x. gpa_to_hva q.mem (load64 r x) ≡ some hva) at a;
        size = ap (λ x. load32 r (x + 8)) at;
        direction = ap (λ x. test_bit (load16 r (x + 12)) 1) at;
      }

  IsChain-one :
      (n i : ℕ) (e : VirtqChainElem)
      → IsBuffer q r t i e
      → ((1 < suc n) → ¬ (Follows r t i))
      → IsChain q r t (suc n) i (e ∷ []) (i ∷ [])
  IsChain-one n i e b stop = record {
    same_length = refl;
    first = refl;
    short = omega arith;
    buffers = buffers;
    links = links;
    ended = ended;
  }
    where
      buffers :
          (k i' : ℕ) (e' : VirtqChainElem)
          → get_elem? (i ∷ []) k ≡ some i'
          → get_elem? (e ∷ []) k ≡ some e'
          → IsBuffer q r t i' e'
      buffers zero i' e' h g =
          subst (λ x. IsBuffer q r t x e') (some_inj h) (subst (IsBuffer q r t i) (some_inj g) b)
      buffers (suc k) i' e' h g = absurd (cc)

      links :
          (k i' j : ℕ)
          → get_elem? (i ∷ []) k ≡ some i'
          → get_elem? (i ∷ []) (suc k) ≡ some j
          → Follows r t i' × (j ≡ load16 r (t + 16 * i' + 14))
      links k i' j h g = absurd (cc)

      ended :
          (k i' : ℕ) → get_elem? (i ∷ []) k ≡ some i' → suc k ≡ 1 → 1 < suc n → ¬ (Follows r t i')
      ended zero i' h s l = subst (λ x. ¬ (Follows r t x)) (some_inj h) (stop l)
      ended (suc k) i' h s l = absurd (cc)

  IsChain-more :
      (n i j : ℕ) (e : VirtqChainElem) (es : List VirtqChainElem) (ids : List ℕ)
      → IsBuffer q r t i e
      → Follows r t i
      → j ≡ load16 r (t + 16 * i + 14)
      → IsChain q r t n j es ids
      → IsChain q r t (suc n) i (e ∷ es) (i ∷ ids)
  IsChain-more n i j e es ids b f at c = record {
    same_length = ap suc c.same_length;
    first = refl;
    short = omega (arith, c.short);
    buffers = buffers;
    links = links;
    ended = ended;
  }
    where
      buffers :
          (k i' : ℕ) (e' : VirtqChainElem)
          → get_elem? (i ∷ ids) k ≡ some i'
          → get_elem? (e ∷ es) k ≡ some e'
          → IsBuffer q r t i' e'
      buffers zero i' e' h g =
          subst (λ x. IsBuffer q r t x e') (some_inj h) (subst (IsBuffer q r t i) (some_inj g) b)
      buffers (suc k) i' e' h g = c.buffers k i' e' h g

      links :
          (k i' j' : ℕ)
          → get_elem? (i ∷ ids) k ≡ some i'
          → get_elem? (i ∷ ids) (suc k) ≡ some j'
          → Follows r t i' × (j' ≡ load16 r (t + 16 * i' + 14))
      links zero i' j' h g =
          let same : j ≡ j' = some_inj (sym c.first ∙ g) in
          subst (λ x. Follows r t x × (j' ≡ load16 r (t + 16 * x + 14))) (some_inj h)
            (f, sym same ∙ at)
      links (suc k) i' j' h g = c.links k i' j' h g

      ended :
          (k i' : ℕ)
          → get_elem? (i ∷ ids) k ≡ some i'
          → suc k ≡ suc (length es)
          → suc (length es) < suc n
          → ¬ (Follows r t i')
      ended zero i' h s l = absurd (no_end es ids (omega arith) c.same_length c.first)
        where
          no_end :
              (es : List VirtqChainElem) (ids : List ℕ)
              → length es ≡ 0
              → length ids ≡ length es
              → get_elem? ids 0 ≡ some j
              → ⊥
          no_end es [] z s h = cc
          no_end es (x ∷ xs) z s h = omega arith
      ended (suc k) i' h s l = c.ended k i' h (omega arith) (omega arith)

  pub Linked-IsChain :
      (n i : ℕ) (es : List VirtqChainElem)
      → es ≢ []
      → Linked q r n i es
      → (ids : List ℕ) × IsChain q r t n i es ids
  Linked-IsChain n i es ne cut = absurd (ne refl)
  Linked-IsChain n i es ne (last {n = n'} {d} {hva} hd ha hn) =
      let at = ((desc_at_iff q t i d m).0 hd).1 in
      (
        i ∷ [],
        IsChain-one n' i (elem_of r d hva) (one-IsBuffer i d hva hd ha) (λ _ f.
            let g : test_bit (load16 r (d + 12)) 0 ≡ true =
              ap (λ x. test_bit (load16 r (x + 12)) 0) at ∙ f in
            cc),
      )
  Linked-IsChain n i es ne (next {n = n'} {d} {hva} {es = rest} hd ha hn l) =
      let at = ((desc_at_iff q t i d m).0 hd).1 in
      let b = one-IsBuffer i d hva hd ha in
      let f : Follows r t i = ap (λ x. test_bit (load16 r (x + 12)) 0) (sym at) ∙ hn in
      elim (List-cases rest) [
        | inl empty ↦
            let z =
              Linked-nil q r n' (desc_next r d) (subst (Linked q r n' (desc_next r d)) empty l) in
            (
              i ∷ [],
              subst (λ es. IsChain q r t (suc n') i (elem_of r d hva ∷ es) (i ∷ [])) (sym empty)
                  (IsChain-one n' i (elem_of r d hva) b (λ lt. absurd (omega arith))),
            )
        | inr full ↦
            let (ids, c) = Linked-IsChain n' (desc_next r d) rest full l in
            (
              i ∷ ids,
              IsChain-more n' i (desc_next r d) (elem_of r d hva) rest ids b f
                  (ap (λ x. load16 r (x + 14)) at) c,
            )
      ]
