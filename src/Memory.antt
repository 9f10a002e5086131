-- ===== src/Memory.antt =====
-- core/vmm/types.h: the guest's physical memory map, and the bytes behind it.
-- Host memory is a function from host addresses to bytes. It is total, as the raw pointers of the
-- source are unchecked; what lies outside the allocation is stated where it matters.
pub mod Map
pub mod Words
pub mod Bytes
mod Tests
use tenclaw.Base.{
  ℕ, zero, suc, ◌+◌, ◌-◌, ◌*◌, ◌/◌, ◌%◌, ◌^◌, ◌<◌, ◌&&◌, Option, none, some, List, [], ◌∷◌, ltb,
  leb, ◌==◌, if◌then◌else◌, not, u64, u8, u16, u32, shr,
}

-- `kMmioGapStart` and `kMmioGapEnd`
abbrev pub mmio_gap_start : ℕ
mmio_gap_start = 0xC000_0000

abbrev pub mmio_gap_end : ℕ
mmio_gap_end = 0x1_0000_0000

pub record GuestMemMap : Type 0 where
  pub base : ℕ
  pub alloc_size : ℕ
  pub low_size : ℕ
  pub high_base : ℕ
  pub high_size : ℕ

-- `none` is the null pointer.
unfoldable pub gpa_to_hva : GuestMemMap → ℕ → Option ℕ
gpa_to_hva m gpa =
    if ltb gpa m.low_size
    then some (m.base + gpa)
    else if not (m.high_size == 0) && (leb m.high_base gpa && ltb (gpa - m.high_base) m.high_size)
    then some (m.base + m.low_size + (gpa - m.high_base))
    else none

-- `val & ~(align - 1)` for a power of two `align`.
unfoldable pub align_down : ℕ → ℕ → ℕ
align_down val align = val / align * align

unfoldable pub align_up : ℕ → ℕ → ℕ
align_up val align = u64 (val + align - 1) / align * align

abbrev pub Ram : Type 0
Ram = ℕ → ℕ

abbrev pub store8 : Ram → ℕ → ℕ → Ram
store8 r a v = λ x. if x == a then u8 v else r x

-- Little-endian loads and stores, as the packed structs of the source do on its host.
abbrev pub load16 : Ram → ℕ → ℕ
load16 r a = r a + 2 ^ 8 * r (a + 1)

abbrev pub load32 : Ram → ℕ → ℕ
load32 r a = load16 r a + 2 ^ 16 * load16 r (a + 2)

abbrev pub load64 : Ram → ℕ → ℕ
load64 r a = load32 r a + 2 ^ 32 * load32 r (a + 4)

abbrev pub store16 : Ram → ℕ → ℕ → Ram
store16 r a v = store8 (store8 r a v) (a + 1) (shr v 8)

abbrev pub store32 : Ram → ℕ → ℕ → Ram
store32 r a v = store16 (store16 r a v) (a + 2) (shr v 16)

-- `memcpy` of a buffer into memory, and out of it
unfoldable pub store_bytes : Ram → ℕ → List ℕ → Ram
store_bytes r a [] = r
store_bytes r a (b ∷ bs) = store_bytes (store8 r a b) (a + 1) bs

unfoldable pub load_bytes : Ram → ℕ → ℕ → List ℕ
load_bytes r a zero = []
load_bytes r a (suc n) = r a ∷ load_bytes r (a + 1) n

abbrev pub IsBytes : Ram → Type 0
IsBytes r = (a : ℕ) → r a < 2 ^ 8
