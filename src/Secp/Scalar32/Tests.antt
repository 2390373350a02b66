-- ===== src/Secp/Scalar32/Tests.antt =====
-- Runs of the scalar operations in 32-bit limbs, and the theorems at concrete numbers.
use tinychain.Base.{◌+◌, ◌-◌, ◌*◌, ◌/◌, ◌^◌, ◌≡◌, arith, refl}
use tinychain.Secp.Scalar.Value.{order}
use tinychain.Secp.Scalar32.{
  Scalar, n_0, n_1, n_2, n_3, n_4, n_5, n_6, n_7, check_overflow, add, add_limbs, settle, reduce,
}
use tinychain.Secp.Scalar32.Value.{value, HasLimbs, IsScalar}
use tinychain.Secp.Scalar32.Product.{mul}
use tinychain.Secp.Scalar32.Product.Laws.{narrow_mul_lem}
use tinychain.Base.{true}
use tinychain.Secp.Scalar.Bytes.{byte}
use tinychain.Secp.Scalar32.{is_zero}
use tinychain.Secp.Scalar32.Accumulator.{
  muladd, muladd_fast, add_words, extract, extract_fast, start,
}
use tinychain.Secp.Scalar32.Product.{mul_512}
use tinychain.Secp.Scalar32.Bytes.{set_b32, get_b32}
use tinychain.Secp.Scalar32.Bytes.RoundTrip.{narrow_set_b32-get_b32}
use tinychain.Secp.Scalar32.Shifts.{
  cond_negate, cadd_bit, limb, get_bits_var, word, shifted_limb, mul_shift_var,
}

-- The order minus 1.
abbrev greatest : Scalar
greatest = record {
  d0 = n_0 - 1;
  d1 = n_1;
  d2 = n_2;
  d3 = n_3;
  d4 = n_4;
  d5 = n_5;
  d6 = n_6;
  d7 = n_7;
}

greatest-HasLimbs : HasLimbs greatest
greatest-HasLimbs = omega arith

add_wraps : value (add greatest greatest).0 ≡ order - 2
unfolding add add_limbs settle reduce check_overflow
add_wraps = refl

narrow_mul_lem_example : IsScalar (mul greatest greatest) × (value (mul greatest greatest) ≡ 1)
narrow_mul_lem_example = narrow_mul_lem greatest greatest greatest-HasLimbs greatest-HasLimbs

greatest-IsScalar : IsScalar greatest
greatest-IsScalar = omega arith

narrow_set_b32-get_b32_example : set_b32 (get_b32 greatest) ≡ (greatest, 0)
narrow_set_b32-get_b32_example = narrow_set_b32-get_b32 greatest greatest-IsScalar

-- The square of the order minus 1, shifted down by 256 bits, rounded.
rounded :
    value (mul_shift_var greatest greatest 256) ≡ ((order - 1) * (order - 1) + 2 ^ 255) / 2 ^ 256
unfolding mul_shift_var shifted_limb word cadd_bit mul_512 muladd muladd_fast add_words extract
    extract_fast start byte
rounded = refl

bits_across_limbs : get_bits_var greatest 24 16 ≡ 0x8CD0
unfolding get_bits_var limb byte
bits_across_limbs = refl

flipped_sign : value (cond_negate greatest true).0 ≡ 1
unfolding cond_negate is_zero
flipped_sign = refl
