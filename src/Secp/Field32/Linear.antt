-- ===== src/Secp/Field32/Linear.antt =====
-- The operations of field_10x26_impl.h that work limb by limb.
use tinychain.Base.{ℕ, ◌+◌, ◌*◌, ◌≤◌, ◌≡◌, arith}
use native.Mathlib.Nat.{mul_assoc, mul-le-mul_right}
use tinychain.Secp.Field.Value.{prime}
use tinychain.Secp.Field32.{Fe, limb_mask, top_mask, negate, mul_int, add}
use tinychain.Secp.Field32.Value.{value, HasMagnitude}

-- If the magnitudes add up to at most 32, `add` has their sum for magnitude and the sum of the values
-- for value: no limb wraps.
pub narrow_fe_add_lem :
    (r a : Fe) (m k : ℕ)
    → m + k ≤ 32
    → HasMagnitude m r
    → HasMagnitude k a
    → HasMagnitude (m + k) (add r a) × (value (add r a) ≡ value r + value a)
unfolding add
narrow_fe_add_lem r a m k le hr ha = omega arith

-- For limbs of magnitude `m` at most 31, `negate` with `m` has magnitude `m + 1`, and its value and
-- that of its argument add up to `2 * (m + 1)` times the characteristic.
pub narrow_fe_negate_lem :
    (a : Fe) (m : ℕ)
    → m ≤ 31
    → HasMagnitude m a
    → HasMagnitude (m + 1) (negate a m) × (value (negate a m) + value a ≡ 2 * (m + 1) * prime)
unfolding negate
narrow_fe_negate_lem a m le h = omega arith

scaled : (n c m a : ℕ) → n ≤ c * m → n * a ≤ c * (m * a)
scaled n c m a h = rw (← mul_assoc c m a) (mul-le-mul_right a h)

-- If the magnitude times `a` is at most 32, `mul_int` multiplies magnitude and value by `a`: no limb
-- wraps.
pub narrow_fe_mul_int_lem :
    (r : Fe) (a m : ℕ)
    → m * a ≤ 32
    → HasMagnitude m r
    → HasMagnitude (m * a) (mul_int r a) × (value (mul_int r a) ≡ value r * a)
unfolding mul_int
narrow_fe_mul_int_lem r a m le h = omega (
  arith,
  scaled r.n0 (limb_mask * 2) m a h.low0,
  scaled r.n1 (limb_mask * 2) m a h.low1,
  scaled r.n2 (limb_mask * 2) m a h.low2,
  scaled r.n3 (limb_mask * 2) m a h.low3,
  scaled r.n4 (limb_mask * 2) m a h.low4,
  scaled r.n5 (limb_mask * 2) m a h.low5,
  scaled r.n6 (limb_mask * 2) m a h.low6,
  scaled r.n7 (limb_mask * 2) m a h.low7,
  scaled r.n8 (limb_mask * 2) m a h.low8,
  scaled r.n9 (top_mask * 2) m a h.top,
)
