-- ===== src/Secp/Scalar/Value.antt =====
-- What the limbs of a scalar stand for, and the sums and tests on it.
use tinychain.Base.{ℕ, ◌+◌, ◌-◌, ◌*◌, ◌/◌, ◌%◌, ◌^◌, ◌≤◌, ◌<◌, ◌≡◌, ◌↔◌, arith, true}
use tinychain.Secp.Scalar.{Scalar, check_overflow, reduce, is_high}

-- The order of the group.
abbrev pub order : ℕ
order = 0xFFFFFFFFFFFFFFFFFFFFFFFFFFFFFFFEBAAEDCE6AF48A03BBFD25E8CD0364141

abbrev pub value : Scalar → ℕ
value a = a.d0 + a.d1 * 2 ^ 64 + a.d2 * 2 ^ 128 + a.d3 * 2 ^ 192

-- Four limbs of 64 bits.
pub record HasLimbs (a : Scalar) : Type 0 where
  pub limb0 : a.d0 < 2 ^ 64
  pub limb1 : a.d1 < 2 ^ 64
  pub limb2 : a.d2 < 2 ^ 64
  pub limb3 : a.d3 < 2 ^ 64

-- A scalar between operations: limbs in range, below the order.
pub record IsScalar (a : Scalar) : Type 0 where
  pub limbs : HasLimbs a
  pub reduced : value a < order

-- For limbs of 64 bits, `check_overflow` answers yes exactly from the order on.
pub check_overflow_iff : (a : Scalar) → HasLimbs a → (check_overflow a ≡ true) ↔ (order ≤ value a)
unfolding check_overflow
check_overflow_iff a h = (λ k. ground arith, λ k. ground arith)

pub value-reduce :
    (r : Scalar) (overflow : ℕ)
    → HasLimbs r
    → overflow ≤ 1
    → HasLimbs (reduce r overflow)
      × (value (reduce r overflow) ≡ (value r + overflow * (2 ^ 256 - order)) % 2 ^ 256)
unfolding reduce
value-reduce r overflow h le = omega arith

-- For limbs of 64 bits, `is_high` answers yes exactly above half the order, rounded down.
pub is_high_iff : (a : Scalar) → HasLimbs a → (is_high a ≡ true) ↔ (order / 2 < value a)
unfolding is_high
is_high_iff a h = (λ k. ground arith, λ k. ground arith)
