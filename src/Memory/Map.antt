-- ===== src/Memory/Map.antt =====
-- `GuestMemMap::GpaToHva` against the two regions of guest RAM, and the page alignment helpers.
use native.Mathlib.Nat.{div-mul-le_self, lt-div-mul-add, mul-div_left}
use tenclaw.Base.{ap, ℕ, ◌+◌, ◌-◌, ◌*◌, ◌/◌, ◌%◌, ◌^◌, ◌≤◌, ◌<◌, ◌≡◌, ◌⊎◌, ◌↔◌, none, some, arith}
use tenclaw.Memory.{GuestMemMap, gpa_to_hva, align_down, align_up}

-- What `Vm` sets up: the low region ends before the high one starts, and both fit the allocation.
pub record IsLayout (m : GuestMemMap) : Type 0 where
  pub disjoint : m.low_size ≤ m.high_base
  pub fits : m.low_size + m.high_size ≤ m.alloc_size

-- The guest-physical addresses that are backed by RAM.
abbrev pub IsGuestRam : GuestMemMap → ℕ → Type 0
IsGuestRam m gpa = (gpa < m.low_size) ⊎ ((m.high_base ≤ gpa) × (gpa < m.high_base + m.high_size))

pub gpa_to_hva-some :
    (m : GuestMemMap) (gpa hva : ℕ) → gpa_to_hva m gpa ≡ some hva → IsGuestRam m gpa
unfolding gpa_to_hva
gpa_to_hva-some m gpa hva h = ground arith

-- An address translates exactly when RAM backs it: the MMIO gap and all beyond are refused.
pub gpa_to_hva-none_iff :
    (m : GuestMemMap) (gpa : ℕ) → (gpa_to_hva m gpa ≡ none) ↔ (IsGuestRam m gpa → ⊥)
unfolding gpa_to_hva
gpa_to_hva-none_iff m gpa = (λ h. ground arith, λ h. ground arith)

-- Under a layout a translated address lies in the host allocation, and two guest addresses never
-- share a host byte.
pub gpa_to_hva-InBounds :
    {m : GuestMemMap}
    → IsLayout m
    → (a b x y : ℕ) → gpa_to_hva m a ≡ some x
    → gpa_to_hva m b ≡ some y
    → (m.base ≤ x) × (x < m.base + m.alloc_size) × (x ≡ y → a ≡ b)
unfolding gpa_to_hva
gpa_to_hva-InBounds l a b x y ha hb = ground arith

-- Consecutive addresses stay consecutive inside one region.
pub gpa_to_hva-add :
    (m : GuestMemMap) (a n x y : ℕ)
    → gpa_to_hva m a ≡ some x
    → gpa_to_hva m (a + n) ≡ some y
    → (a + n < m.low_size) ⊎ (m.low_size ≤ a)
    → y ≡ x + n
unfolding gpa_to_hva
gpa_to_hva-add m a n x y ha hb h = ground arith

-- `AlignUp` gives the least multiple of `align` that is not below `val`, if the sum does not wrap.
pub align_up_lem :
    (val align : ℕ)
    → 0 < align
    → val + align ≤ 2 ^ 64
    → (val ≤ align_up val align)
      × (align_up val align < val + align)
      × (align_down (align_up val align) align ≡ align_up val align)
unfolding align_up align_down
align_up_lem val align p h =
    let wide : (val + align - 1) % 2 ^ 64 ≡ val + align - 1 = omega arith in
    rw wide (
      omega (arith, lt-div-mul-add {a = val + align - 1} {b = align} p),
      omega (arith, div-mul-le_self (val + align - 1) align),
      ap (λ (t : ℕ). t * align) (mul-div_left ((val + align - 1) / align) p),
    )
