-- ===== src/Memory/Bytes.antt =====
-- Buffers in memory: `memcpy` out of, into and across ranges.
use tenclaw.Base.{
  ℕ, zero, suc, ◌+◌, ◌^◌, ◌≤◌, ◌<◌, ◌≡◌, refl, ap, ap₂, ◌∙◌, inl, List, [], ◌∷◌, ◌++◌, arith,
  length, All, sym, replicate,
}
use tenclaw.Memory.{Ram, IsBytes, store8, store_bytes, load_bytes}
use tenclaw.Memory.Words.{store_bytes_frame}

pub length-load_bytes : (r : Ram) (a n : ℕ) → length (load_bytes r a n) ≡ n
unfolding load_bytes
length-load_bytes r a zero = refl
length-load_bytes r a (suc n) = ap suc (length-load_bytes r (a + 1) n)

pub load_bytes_agree :
    (r s : Ram) (a n : ℕ)
    → ((x : ℕ) → a ≤ x → x < a + n → r x ≡ s x)
    → load_bytes r a n ≡ load_bytes s a n
unfolding load_bytes
load_bytes_agree r s a zero h = refl
load_bytes_agree r s a (suc n) h =
    ap₂ ◌∷◌ (h a (omega arith) (omega arith))
      (load_bytes_agree r s (a + 1) n (λ x lo hi. h x (omega arith) (omega arith)))

pub load_bytes-add :
    (r : Ram) (a m n : ℕ) → load_bytes r a (m + n) ≡ load_bytes r a m ++ load_bytes r (a + m) n
unfolding load_bytes
load_bytes-add r a zero n =
    let e : zero + n ≡ n = omega arith in let f : a + zero ≡ a = omega arith in rw (e, f)
load_bytes-add r a (suc m) n =
    let e : suc m + n ≡ suc (m + n) = omega arith in
    let f : a + suc m ≡ a + 1 + m = omega arith in
    rw (e, f) (ap (λ t. r a ∷ t) (load_bytes-add r (a + 1) m n))

-- What was copied in is read back.
pub load_bytes-store_bytes :
    (r : Ram) (a : ℕ) (bs : List ℕ)
    → All (λ b. b < 2 ^ 8) bs
    → load_bytes (store_bytes r a bs) a (length bs) ≡ bs
unfolding load_bytes store_bytes
load_bytes-store_bytes r a [] h = refl
load_bytes-store_bytes r a (b ∷ bs) h =
    ap₂ ◌∷◌ (store_bytes_frame (store8 r a b) (a + 1) bs a (inl (omega arith)) ∙ ground arith)
      (load_bytes-store_bytes (store8 r a b) (a + 1) bs h.1)

pub All-load_bytes : (r : Ram) (a n : ℕ) → IsBytes r → All (λ b. b < 2 ^ 8) (load_bytes r a n)
unfolding load_bytes
All-load_bytes r a zero h = tt
All-load_bytes r a (suc n) h = (h a, All-load_bytes r (a + 1) n h)

pub store_bytes-append :
    (r : Ram) (a : ℕ) (bs cs : List ℕ)
    → store_bytes r a (bs ++ cs) ≡ store_bytes (store_bytes r a bs) (a + length bs) cs
unfolding store_bytes
store_bytes-append r a [] cs = let e : a + 0 ≡ a = omega arith in rw e
store_bytes-append r a (b ∷ bs) cs =
    let e : a + suc (length bs) ≡ a + 1 + length bs = omega arith in
    rw e (store_bytes-append (store8 r a b) (a + 1) bs cs)

-- Copying the same bytes keeps two memories equal where they were.
pub store_bytes_agree :
    (n a : ℕ) (bs : List ℕ) (r s : Ram)
    → ((x : ℕ) → x < n → r x ≡ s x)
    → (x : ℕ) → x < n
    → store_bytes r a bs x ≡ store_bytes s a bs x
unfolding store_bytes
store_bytes_agree n a [] r s h x lt = h x lt
store_bytes_agree n a (b ∷ bs) r s h x lt =
    store_bytes_agree n (a + 1) bs (store8 r a b) (store8 s a b) (λ y l. ground (arith, h y l)) x lt

pub load_bytes_shift :
    (r s : Ram) (a b n : ℕ)
    → ((i : ℕ) → i < n → r (a + i) ≡ s (b + i))
    → load_bytes r a n ≡ load_bytes s b n
unfolding load_bytes
load_bytes_shift r s a b zero h = refl
load_bytes_shift r s a b (suc n) h =
    let here : r a ≡ s b =
      let e : a ≡ a + 0 = omega arith in
      let f : b ≡ b + 0 = omega arith in ap r e ∙ h 0 (omega arith) ∙ sym (ap s f) in
    let later : (i : ℕ) → i < n → r (a + 1 + i) ≡ s (b + 1 + i) = λ i lt.
      let e : a + 1 + i ≡ a + suc i = omega arith in
      let f : b + 1 + i ≡ b + suc i = omega arith in
      ap r e ∙ h (suc i) (omega arith) ∙ sym (ap s f) in
    ap₂ ◌∷◌ here (load_bytes_shift r s (a + 1) (b + 1) n later)

pub load_bytes-zero :
    (r : Ram) (a n : ℕ) → ((i : ℕ) → i < n → r (a + i) ≡ 0) → load_bytes r a n ≡ replicate n 0
unfolding load_bytes
load_bytes-zero r a zero h = refl
load_bytes-zero r a (suc n) h =
    let e : a ≡ a + 0 = omega arith in
    let later : (i : ℕ) → i < n → r (a + 1 + i) ≡ 0 =
      λ i lt. let f : a + 1 + i ≡ a + suc i = omega arith in ap r f ∙ h (suc i) (omega arith) in
    ap₂ ◌∷◌ (ap r e ∙ h 0 (omega arith)) (load_bytes-zero r (a + 1) n later)

-- The same bytes stored at two places read the same at the same distance.
pub store_bytes_shift :
    (r s : Ram) (a b : ℕ) (bs : List ℕ) (x y : ℕ)
    → x + b ≡ y + a
    → r x ≡ s y
    → store_bytes r a bs x ≡ store_bytes s b bs y
unfolding store_bytes
store_bytes_shift r s a b [] x y e h = h
store_bytes_shift r s a b (v ∷ bs) x y e h =
    store_bytes_shift (store8 r a v) (store8 s b v) (a + 1) (b + 1) bs x y (omega arith)
      (ground arith)
