-- ===== src/Memory/Words.antt =====
-- Little-endian words in memory: what was stored is read back, and nothing else changes.
use tenclaw.Base.{ℕ, ◌+◌, ◌^◌, ◌≤◌, ◌<◌, ◌≡◌, refl, ◌⊎◌, List, [], ◌∷◌, arith, length}
use tenclaw.Memory.{Ram, IsBytes, store8, load16, load32, store16, store32, store_bytes}

pub load16-store16 : (r : Ram) (a v : ℕ) → v < 2 ^ 16 → load16 (store16 r a v) a ≡ v
load16-store16 r a v h = ground arith

pub load32-store32 : (r : Ram) (a v : ℕ) → v < 2 ^ 32 → load32 (store32 r a v) a ≡ v
load32-store32 r a v h = ground arith

pub store16_frame : (r : Ram) (a v x : ℕ) → (x < a) ⊎ (a + 2 ≤ x) → store16 r a v x ≡ r x
store16_frame r a v x h = ground arith

pub store32_frame : (r : Ram) (a v x : ℕ) → (x < a) ⊎ (a + 4 ≤ x) → store32 r a v x ≡ r x
store32_frame r a v x h = ground arith

pub load16-lt : (r : Ram) (a : ℕ) → IsBytes r → load16 r a < 2 ^ 16
load16-lt r a h = omega (arith, h a, h (a + 1))

pub store_bytes_frame :
    (r : Ram) (a : ℕ) (bs : List ℕ) (x : ℕ)
    → (x < a) ⊎ (a + length bs ≤ x)
    → store_bytes r a bs x ≡ r x
unfolding store_bytes
store_bytes_frame r a [] x h = refl
store_bytes_frame r a (b ∷ bs) x h = ground (arith, store_bytes_frame (store8 r a b) (a + 1) bs x)

-- `memcpy` into memory leaves bytes.
pub store_bytes-IsBytes : (r : Ram) (a : ℕ) (bs : List ℕ) → IsBytes r → IsBytes (store_bytes r a bs)
unfolding store_bytes
store_bytes-IsBytes r a [] h = h
store_bytes-IsBytes r a (b ∷ bs) h =
    store_bytes-IsBytes (store8 r a b) (a + 1) bs (λ x. ground (arith, h x))

pub store16-IsBytes : (r : Ram) (a v : ℕ) → IsBytes r → IsBytes (store16 r a v)
store16-IsBytes r a v h x = ground (arith, h x)

pub store32-IsBytes : (r : Ram) (a v : ℕ) → IsBytes r → IsBytes (store32 r a v)
store32-IsBytes r a v h x = ground (arith, h x)
