-- ===== src/Secp/Scalar/Tests.antt =====
-- Runs of the scalar operations, and the theorems at concrete numbers.
use tinychain.Base.{◌-◌, ◌%◌, ◌^◌, ◌≡◌, arith, refl}
use tinychain.Secp.Scalar.{
  Scalar, n_0, n_1, n_2, n_3, check_overflow, add, add_limbs, settle, reduce,
}
use tinychain.Secp.Scalar.Value.{value, order, HasLimbs, IsScalar}
use tinychain.Secp.Scalar.Product.{Wide, mul}
use tinychain.Secp.Scalar.Product.Laws.{scalar_mul_lem}
use tinychain.Secp.Scalar.Inverse.{inverse}
use tinychain.Secp.Scalar.Inverse.Power.{inverse_lem}

-- The order minus 1.
abbrev greatest : Scalar
greatest = record { d0 = n_0 - 1; d1 = n_1; d2 = n_2; d3 = n_3 }

abbrev seven : Scalar
seven = record { d0 = 7; d1 = 0; d2 = 0; d3 = 0 }

abbrev all_ones : Wide
all_ones = record {
  l0 = 2 ^ 64 - 1;
  l1 = 2 ^ 64 - 1;
  l2 = 2 ^ 64 - 1;
  l3 = 2 ^ 64 - 1;
  l4 = 2 ^ 64 - 1;
  l5 = 2 ^ 64 - 1;
  l6 = 2 ^ 64 - 1;
  l7 = 2 ^ 64 - 1;
}

greatest-HasLimbs : HasLimbs greatest
greatest-HasLimbs = omega arith

greatest-IsScalar : IsScalar greatest
greatest-IsScalar = omega arith

add_wraps : value (add greatest seven).0 ≡ 6
unfolding add add_limbs settle reduce check_overflow
add_wraps = refl

scalar_mul_lem_example : IsScalar (mul greatest seven) × (value (mul greatest seven) ≡ order - 7)
scalar_mul_lem_example = scalar_mul_lem greatest seven greatest-HasLimbs (omega arith)

inverse_lem_example :
    HasLimbs (inverse seven) × (value (inverse seven) % order ≡ 7 ^ (order - 2) % order)
inverse_lem_example = inverse_lem seven (omega arith)
