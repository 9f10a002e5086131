-- ===== src/Boot/Map.antt =====
-- The map of memory that the kernel gets, against the memory that is there.
use tenclaw.Base.{
  ℕ, ◌+◌, ◌-◌, ◌≤◌, ◌<◌, ◌≡◌, refl, ◌≢◌, ◌↔◌, ◌⊎◌, inl, inr, true, false, not, ◌&&◌, some, List, [],
  ◌∷◌, arith, ltb, leb, ◌==◌, if◌then◌else◌, Bool-cases,
}
use tenclaw.Memory.{GuestMemMap, gpa_to_hva, mmio_gap_start}
use tenclaw.Qcow2.Opening.{no_answer}
use tenclaw.Boot.{kernel_base, e820_entries}

-- The address lies in a range of the list.
abbrev pub Covers : List (ℕ × ℕ) → ℕ → Type 0
Covers [] x = x < 0
Covers (e ∷ es) x = ((e.0 ≤ x) × (x < e.0 + e.1)) ⊎ Covers es x

-- Neither a hole for devices nor the BIOS: below 640 KiB or from 1 MiB on.
abbrev pub Usable : ℕ → Type 0
Usable x = (x < 0xa0000) ⊎ (kernel_base ≤ x)

abbrev pub high_entry : GuestMemMap → List (ℕ × ℕ)
high_entry mem = if not (mem.high_size == 0) then (mem.high_base, mem.high_size) ∷ [] else []

module _ (mem : GuestMemMap) (x : ℕ) where
  below : x < mem.low_size → (h : ℕ) × (gpa_to_hva mem x ≡ some h)
  unfolding gpa_to_hva
  below lt = let y : ltb x mem.low_size ≡ true = ground arith in (mem.base + x, rw y refl)

  in_high :
      mem.high_size ≢ 0
      → mem.high_base ≤ x
      → x < mem.high_base + mem.high_size
      → (h : ℕ) × (gpa_to_hva mem x ≡ some h)
  unfolding gpa_to_hva
  in_high ne lo hi = elim (Bool-cases (ltb x mem.low_size)) [
    | inl y ↦ (mem.base + x, rw y refl)
    | inr n ↦
        let some_ : (mem.high_size == 0) ≡ false = ground arith in
        let from : leb mem.high_base x ≡ true = ground arith in
        let to : ltb (x - mem.high_base) mem.high_size ≡ true = ground arith in
        (mem.base + mem.low_size + (x - mem.high_base), rw (n, some_, from, to) refl)
  ]

  backed_high :
      (mem.high_size ≢ 0 → kernel_base ≤ mem.high_base)
      → Covers (high_entry mem) x
      → ((h : ℕ) × (gpa_to_hva mem x ≡ some h)) × Usable x
  backed_high up e = elim (Bool-cases (mem.high_size == 0)) [
    | inl y ↦ absurd (let f : x < 0 = rw y at e in omega arith)
    | inr n ↦
        let f : ((mem.high_base ≤ x) × (x < mem.high_base + mem.high_size)) ⊎ (x < 0) = rw n at e in
        let ne : mem.high_size ≢ 0 = ground arith in
        elim f [
          | inl a ↦ (in_high ne a.0 a.1, inr (omega (arith, up ne)))
          | inr z ↦ absurd (omega arith)
        ]
  ]

  told_high :
      (h : ℕ) → gpa_to_hva mem x ≡ some h → ltb x mem.low_size ≡ false → Covers (high_entry mem) x
  unfolding gpa_to_hva
  told_high h e n =
      elim (Bool-cases (
        not (mem.high_size == 0)
        && (leb mem.high_base x && ltb (x - mem.high_base) mem.high_size))) [
          | inl y ↦
              let some_ : (mem.high_size == 0) ≡ false = ground arith in
              rw some_ (inl (ground arith, ground arith))
          | inr m ↦ absurd (no_answer h (rw (n, m) at e))
        ]

  -- The map of memory that the kernel gets tells of the RAM that there is and of no other: with 1 MiB to
  -- 3 GiB of low memory, and high memory, if any, above 1 MiB, it covers an address exactly when the
  -- address has host memory behind it and lies below 640 KiB or from 1 MiB on.
  pub e820_entries_iff :
      kernel_base ≤ mem.low_size
      → mem.low_size ≤ mmio_gap_start
      → (mem.high_size ≢ 0 → kernel_base ≤ mem.high_base)
      → Covers (e820_entries mem) x ↔ (((h : ℕ) × (gpa_to_hva mem x ≡ some h)) × Usable x)
  e820_entries_iff big low up = (
    λ c. elim c [
      | inl a ↦ (below (omega arith), inl (omega arith))
      | inr d ↦ elim d [
        | inl a ↦ (below (omega arith), inr (omega arith))
        | inr e ↦ backed_high up e
      ]
    ],
    λ t. elim (Bool-cases (ltb x mem.low_size)) [
      | inl y ↦ elim t.1 [
        | inl a ↦ inl (omega arith, omega arith)
        | inr a ↦ inr (inl (omega arith, ground arith))
      ]
      | inr n ↦ inr (inr (told_high t.0.0 t.0.1 n))
    ],
  )
