-- ===== src/Secp/Scalar32/Value.antt =====
-- What the limbs of a scalar stand for, and the tests on it.
use tinychain.Base.{ℕ, ◌+◌, ◌-◌, ◌*◌, ◌/◌, ◌%◌, ◌^◌, ◌≤◌, ◌<◌, ◌≡◌, ◌↔◌, arith, true}
use tinychain.Secp.Scalar.Value.{order}
use tinychain.Secp.Scalar32.{Scalar, check_overflow, reduce, is_high}

abbrev pub value : Scalar → ℕ
value a =
    a.d0
    + a.d1 * 2 ^ 32
    + a.d2 * 2 ^ 64
    + a.d3 * 2 ^ 96
    + a.d4 * 2 ^ 128
    + a.d5 * 2 ^ 160
    + a.d6 * 2 ^ 192
    + a.d7 * 2 ^ 224

-- Eight limbs of 32 bits.
pub record HasLimbs (a : Scalar) : Type 0 where
  pub limb0 : a.d0 < 2 ^ 32
  pub limb1 : a.d1 < 2 ^ 32
  pub limb2 : a.d2 < 2 ^ 32
  pub limb3 : a.d3 < 2 ^ 32
  pub limb4 : a.d4 < 2 ^ 32
  pub limb5 : a.d5 < 2 ^ 32
  pub limb6 : a.d6 < 2 ^ 32
  pub limb7 : a.d7 < 2 ^ 32

-- A scalar between operations: limbs in range, below the order.
pub record IsScalar (a : Scalar) : Type 0 where
  pub limbs : HasLimbs a
  pub reduced : value a < order

-- For limbs of 32 bits, `check_overflow` answers yes exactly from the order on.
pub narrow_check_overflow_iff :
    (a : Scalar) → HasLimbs a → (check_overflow a ≡ true) ↔ (order ≤ value a)
unfolding check_overflow
narrow_check_overflow_iff a h = (λ k. ground arith, λ k. ground arith)

pub value-reduce :
    (r : Scalar) (overflow : ℕ)
    → HasLimbs r
    → overflow ≤ 1
    → HasLimbs (reduce r overflow)
      × (value (reduce r overflow) ≡ (value r + overflow * (2 ^ 256 - order)) % 2 ^ 256)
unfolding reduce
value-reduce r overflow h le = omega arith

-- For limbs of 32 bits, `is_high` answers yes exactly above half the order, rounded down.
pub narrow_is_high_iff : (a : Scalar) → HasLimbs a → (is_high a ≡ true) ↔ (order / 2 < value a)
unfolding is_high
narrow_is_high_iff a h = (λ k. ground arith, λ k. ground arith)
