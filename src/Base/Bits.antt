-- ===== src/Base/Bits.antt =====
-- `&` with a mask, at variables: the lowest digit first.
use Prim.Native.Nat.{
  bit_and, digits, bit_and-bitwise, min, ℕ, zero, suc, ◌+◌, ◌*◌, ◌/◌, ◌%◌, ◌≤◌, ◌<◌,
}
use mathlib.Core.Path.{◌≡◌, refl, sym, ap, ◌∙◌}
use native.Mathlib.Omega.{arith}

abbrev meet : ℕ → ℕ → ℕ → ℕ
meet = digits (λ _. zero) min

meet_zero : (n b : ℕ) → meet n 0 b ≡ 0
meet_zero zero b = refl
meet_zero (suc n) b = refl

-- Any two amounts of fuel that reach the first operand agree.
meet_fuels : (n a b : ℕ) → a ≤ n → (m : ℕ) → a ≤ m → meet n a b ≡ meet m a b
meet_fuels n zero b h m k = meet_zero n b ∙ sym (meet_zero m b)
meet_fuels zero (suc a) b h m k = absurd (omega arith)
meet_fuels (suc n) (suc a) b h zero k = absurd (omega arith)
meet_fuels (suc n) (suc a) b h (suc m) k =
    ap (λ (t : ℕ). t * 2 + min (suc a % 2) (b % 2))
      (meet_fuels n (suc a / 2) (b / 2) (omega arith) m (omega arith))

zero-bit_and : (b : ℕ) → bit_and 0 b ≡ 0
zero-bit_and b = bit_and-bitwise 0 b

-- The lowest digits meet, and so do the rest.
pub bit_and-halves : (a b : ℕ) → bit_and a b ≡ bit_and (a / 2) (b / 2) * 2 + min (a % 2) (b % 2)
bit_and-halves zero b = omega (arith, zero-bit_and b, zero-bit_and (b / 2))
bit_and-halves (suc a) b = omega (
  arith,
  bit_and-bitwise (suc a) b,
  bit_and-bitwise (suc a / 2) (b / 2),
  meet_fuels a (suc a / 2) (b / 2) (omega arith) (suc a / 2) (omega arith),
)

-- A two-bit number met with any mask.
pub bit_and-two_bits :
    (a b : ℕ) → a < 4 → bit_and a b ≡ min (a / 2) (b / 2 % 2) * 2 + min (a % 2) (b % 2)
bit_and-two_bits a b h =
    let tail : bit_and (a / 2 / 2) (b / 2 / 2) ≡ 0 =
      let e : a / 2 / 2 ≡ 0 = omega arith in rw e (zero-bit_and (b / 2 / 2)) in
    omega (arith, bit_and-halves a b, bit_and-halves (a / 2) (b / 2), tail)
