-- ===== src/Secp/Field/Linear.antt =====
-- The operations of field_5x52_impl.h that work limb by limb.
use tinychain.Base.{ℕ, ◌+◌, ◌*◌, ◌%◌, ◌^◌, ◌≤◌, ◌<◌, ◌≡◌, arith}
use native.Mathlib.Nat.{mul_assoc, mul-le-mul_right}
use tinychain.Secp.Field.{Fe, limb_mask, top_mask, set_int, is_odd, negate, mul_int, add}
use tinychain.Secp.Field.Value.{value, prime, HasMagnitude, IsNormalized}

pub set_int_lem : (a : ℕ) → a < 2 ^ 31 → IsNormalized (set_int a) × (value (set_int a) ≡ a)
unfolding set_int
set_int_lem a h = omega arith

pub is_odd_lem : (a : Fe) → is_odd a ≡ value a % 2
unfolding is_odd
is_odd_lem a = omega arith

-- For limbs of magnitude `m` at most 2047, `negate` with `m` has magnitude `m + 1`, and its value and
-- that of its argument add up to `2 * (m + 1)` times the characteristic.
pub negate_lem :
    (a : Fe) (m : ℕ)
    → m ≤ 2047
    → HasMagnitude m a
    → HasMagnitude (m + 1) (negate a m) × (value (negate a m) + value a ≡ 2 * (m + 1) * prime)
unfolding negate
negate_lem a m le h = omega arith

-- If the magnitudes add up to at most 2048, `add` has their sum for magnitude and the sum of the
-- values for value: no limb wraps.
pub add_lem :
    (r a : Fe) (m k : ℕ)
    → m + k ≤ 2048
    → HasMagnitude m r
    → HasMagnitude k a
    → HasMagnitude (m + k) (add r a) × (value (add r a) ≡ value r + value a)
unfolding add
add_lem r a m k le hr ha = omega arith

scaled : (n c m a : ℕ) → n ≤ c * m → n * a ≤ c * (m * a)
scaled n c m a h = rw (← mul_assoc c m a) (mul-le-mul_right a h)

-- If the magnitude times `a` is at most 2048, `mul_int` multiplies magnitude and value by `a`: no
-- limb wraps.
pub mul_int_lem :
    (r : Fe) (a m : ℕ)
    → m * a ≤ 2048
    → HasMagnitude m r
    → HasMagnitude (m * a) (mul_int r a) × (value (mul_int r a) ≡ value r * a)
unfolding mul_int
mul_int_lem r a m le h = omega (
  arith,
  scaled r.n0 (limb_mask * 2) m a h.low0,
  scaled r.n1 (limb_mask * 2) m a h.low1,
  scaled r.n2 (limb_mask * 2) m a h.low2,
  scaled r.n3 (limb_mask * 2) m a h.low3,
  scaled r.n4 (top_mask * 2) m a h.top,
)
