-- ===== src/Memory/Tests.antt =====
-- Concrete memory maps.
use tenclaw.Base.{ℕ, ◌+◌, ◌≤◌, ◌<◌, ◌≡◌, refl, none, arith}
use tenclaw.Memory.{GuestMemMap, gpa_to_hva}
use tenclaw.Memory.Map.{IsLayout, gpa_to_hva-InBounds}

-- 5 GiB of RAM: 3 GiB below the gap, 2 GiB above it.
abbrev split_map : GuestMemMap
split_map = record {
  base = 0x7000_0000;
  alloc_size = 0x1_4000_0000;
  low_size = 0xc000_0000;
  high_base = 0x1_0000_0000;
  high_size = 0x8000_0000;
}

split_map-IsLayout : IsLayout split_map
split_map-IsLayout = omega arith

gap_unmapped : gpa_to_hva split_map 0xfec0_0000 ≡ none
unfolding gpa_to_hva
gap_unmapped = refl

gpa_to_hva-InBounds_example :
    (0x7000_0000 ≤ 0x1_3000_0004)
    × (0x1_3000_0004 < 0x7000_0000 + 0x1_4000_0000)
    × (◌≡◌ {A = ℕ} 0x1_3000_0004 0x1_3000_0004 → ◌≡◌ {A = ℕ} 0x1_0000_0004 0x1_0000_0004)
unfolding gpa_to_hva
gpa_to_hva-InBounds_example =
    gpa_to_hva-InBounds split_map-IsLayout 0x1_0000_0004 0x1_0000_0004 0x1_3000_0004 0x1_3000_0004
      refl refl
