-- ===== src/AcpiTables/Sums.antt =====
-- A table whose checksum is set adds up to 0.
use tenclaw.Base.{
  ℕ, zero, suc, ◌+◌, ◌≤◌, ◌<◌, ◌≡◌, refl, ap, ◌∙◌, ◌⊎◌, inl, inr, Bool, true, false, ◌&&◌, ◌||◌,
  List, [], ◌∷◌, arith, ltb, leb, ◌==◌, Bool-cases, length, replicate, u8, length-replicate,
}
use tenclaw.Memory.{Ram, store8, store_bytes, load_bytes}
use tenclaw.Memory.Words.{store_bytes_frame}
use tenclaw.Memory.Bytes.{load_bytes_agree}
use tenclaw.AcpiTables.{sum, acpi_checksum, seal, Field, put_fields, clear}

-- The bytes add up to 0, in 8 bits.
abbrev pub IsSealed : Ram → ℕ → ℕ → Type 0
IsSealed ram at len = u8 (sum (load_bytes ram at len)) ≡ 0

sum-store8 :
    (r : Ram) (at x v n : ℕ)
    → at ≤ x
    → x < at + n
    → r x ≡ 0
    → sum (load_bytes (store8 r x v) at n) ≡ sum (load_bytes r at n) + u8 v
unfolding load_bytes
sum-store8 r at x v zero lo hi z = absurd (omega arith)
sum-store8 r at x v (suc n) lo hi z = elim (Bool-cases (at == x)) [
  | inl here ↦
      let same : at ≡ x = ground arith in
      let later = load_bytes_agree (store8 r x v) r (at + 1) n (λ y a b. ground arith) in
      let old : r at ≡ 0 = ap r same ∙ z in rw (here, later, old) (omega arith)
  | inr away ↦
      let later = sum-store8 r (at + 1) x v n (ground arith) (omega arith) z in
      rw away (omega (arith, later))
]

pub seal-IsSealed :
    (r : Ram) (at field len : ℕ)
    → field < len
    → r (at + field) ≡ 0
    → IsSealed (seal at field len r) at len
seal-IsSealed r at field len h z =
    let s =
      sum-store8 r at (at + field) (acpi_checksum (load_bytes r at len)) len (omega arith)
        (omega arith) z in
    ap (λ n. u8 n) s ∙ omega arith

pub IsSealed-agree :
    (r s : Ram) (at len : ℕ)
    → ((x : ℕ) → at ≤ x → x < at + len → s x ≡ r x)
    → IsSealed r at len
    → IsSealed s at len
IsSealed-agree r s at len h is = ap (λ bs. u8 (sum bs)) (load_bytes_agree s r at len h) ∙ is

-- No field of the list holds the offset.
abbrev pub avoids : ℕ → List Field → Bool
avoids off [] = true
avoids off (f ∷ fs) = (ltb off f.0 || leb (f.0 + length f.1) off) && avoids off fs

-- All of them end by the offset.
abbrev pub within : ℕ → List Field → Bool
within n [] = true
within n (f ∷ fs) = leb (f.0 + length f.1) n && within n fs

pub put_fields-avoids :
    (r : Ram) (at off : ℕ) (fs : List Field)
    → avoids off fs ≡ true
    → put_fields r at fs (at + off) ≡ r (at + off)
put_fields-avoids r at off [] h = refl
put_fields-avoids r at off (f ∷ fs) h =
    let free : (off < f.0) ⊎ (f.0 + length f.1 ≤ off) = ground arith in
    put_fields-avoids (store_bytes r (at + f.0) f.1) at off fs (ground arith)
    ∙ store_bytes_frame r (at + f.0) f.1 (at + off)
        (elim free [ inl a ↦ inl (omega arith) | inr b ↦ inr (omega arith) ])

pub put_fields-within :
    (r : Ram) (at n : ℕ) (fs : List Field) (x : ℕ)
    → within n fs ≡ true
    → (x < at) ⊎ (at + n ≤ x)
    → put_fields r at fs x ≡ r x
put_fields-within r at n [] x h out = refl
put_fields-within r at n (f ∷ fs) x h out =
    let fits : f.0 + length f.1 ≤ n = ground arith in
    put_fields-within (store_bytes r (at + f.0) f.1) at n fs x (ground arith) out
    ∙ store_bytes_frame r (at + f.0) f.1 x
        (elim out [ inl a ↦ inl (omega arith) | inr b ↦ inr (omega arith) ])

pub clear_inside : (r : Ram) (at n off : ℕ) → off < n → clear r at n (at + off) ≡ 0
unfolding store_bytes
clear_inside r at zero off h = absurd (omega arith)
clear_inside r at (suc n) zero h =
    store_bytes_frame (store8 r at 0) (at + 1) (replicate n 0) (at + zero) (inl (omega arith))
    ∙ ground arith
clear_inside r at (suc n) (suc off) h =
    let e : at + suc off ≡ at + 1 + off = omega arith in
    ap (clear (store8 r at 0) (at + 1) n) e
    ∙ clear_inside (store8 r at 0) (at + 1) n off (omega arith)

pub clear_outside : (r : Ram) (at n x : ℕ) → (x < at) ⊎ (at + n ≤ x) → clear r at n x ≡ r x
clear_outside r at n x out =
    store_bytes_frame r at (replicate n 0) x
      (elim out [ inl a ↦ inl a | inr b ↦ inr (omega (arith, length-replicate {A = ℕ} n 0)) ])

pub seal_outside :
    (r : Ram) (at field len x : ℕ)
    → (x < at + field) ⊎ (at + field < x)
    → seal at field len r x ≡ r x
seal_outside r at field len x out = let ne : (x == at + field) ≡ false = ground arith in rw ne refl
