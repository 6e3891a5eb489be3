-- ===== src/Prelude/Arith.antt =====
-- Facts about powers of two, divisions and multiples that the address arithmetic rests on.
use Prim.Native.Nat.{ℕ, zero, suc, ◌+◌, ◌*◌, ◌/◌, ◌^◌, ◌≤◌, ◌<◌}
use mathlib.Core.Path.{◌≡◌}
use native.Mathlib.Omega.{arith}
use native.Mathlib.Decide.{dec_lt}
use native.Mathlib.Nat.{pow-suc, div-add-mod, mod-lt, add-zero, add-suc, mul-le-mul_left, mul_assoc}

pub two-pow_pos : (n : ℕ) → 0 < 2 ^ n
two-pow_pos zero = omega arith
two-pow_pos (suc n) = omega (arith, pow-suc 2 n, two-pow_pos n)

pub two-pow-add : (m n : ℕ) → 2 ^ (m + n) ≡ 2 ^ m * 2 ^ n
two-pow-add m zero = rw add-zero (omega arith)
two-pow-add m (suc n) = rw (add-suc, pow-suc, pow-suc, two-pow-add m n) (mul_assoc _ _ _)

-- The quotient of a number that lies in the block of a multiple.
pub div-eq_of_block : (a s y : ℕ) → s * y ≤ a → a < s * y + s → a / s ≡ y
div-eq_of_block a s y lo hi = grind (arith, div-add-mod)

pub le_of_multiples : (s x z : ℕ) → s * x < s * z → s * x + s ≤ s * z
le_of_multiples s x z h = elim (dec_lt x z) [
  | yes p ↦ let step : s * suc x ≤ s * z = mul-le-mul_left s p in omega (arith, step)
  | no n ↦
      let step : s * z ≤ s * x = mul-le-mul_left s (omega arith) in absurd (omega (arith, step))
]

pub block_bounds : (a s : ℕ) → 0 < s → (a / s * s ≤ a) × (a < a / s * s + s)
block_bounds a s h = grind (arith, div-add-mod, mod-lt)
