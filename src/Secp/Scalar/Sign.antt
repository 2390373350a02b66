-- ===== src/Secp/Scalar/Sign.antt =====
-- The conditional negation of scalars.
use tinychain.Base.{
  ◌-◌, ◌%◌, ◌<◌, ◌≡◌, refl, inl, inr, arith, true, false, Bool, Bool-cases, if◌then◌else◌,
}
use tinychain.Base.Bits.Mask.{all_ones, bit_and_zero, bit_xor_zero, flipped}
use tinychain.Secp.Scalar.{Scalar, is_zero, cond_negate, clear}
use tinychain.Secp.Scalar.Value.{value, order, HasLimbs, IsScalar}
use tinychain.Secp.Scalar.Sum.{is_zero_iff}

cond_negate_zero : (r : Scalar) (flag : Bool) → is_zero r ≡ true → (cond_negate r flag).0 ≡ clear
unfolding cond_negate clear
cond_negate_zero r flag z = rw (z, bit_and_zero, bit_and_zero, bit_and_zero, bit_and_zero) refl

cond_negate_set :
    (r : Scalar)
    → IsScalar r
    → is_zero r ≡ false
    → HasLimbs (cond_negate r true).0 × (value (cond_negate r true).0 ≡ order - value r)
unfolding cond_negate
cond_negate_set r h z =
    rw
      (
        z,
        all_ones,
        all_ones,
        all_ones,
        all_ones,
        all_ones,
        all_ones,
        all_ones,
        all_ones,
        flipped r.d0 h.limbs.limb0,
        flipped r.d1 h.limbs.limb1,
        flipped r.d2 h.limbs.limb2,
        flipped r.d3 h.limbs.limb3,
      )
      (omega arith)

cond_negate_unset :
    (r : Scalar)
    → IsScalar r
    → is_zero r ≡ false
    → HasLimbs (cond_negate r false).0 × (value (cond_negate r false).0 ≡ value r)
unfolding cond_negate
cond_negate_unset r h z =
    rw
      (
        z,
        all_ones,
        all_ones,
        all_ones,
        all_ones,
        bit_xor_zero 64 r.d0 h.limbs.limb0,
        bit_xor_zero 64 r.d1 h.limbs.limb1,
        bit_xor_zero 64 r.d2 h.limbs.limb2,
        bit_xor_zero 64 r.d3 h.limbs.limb3,
      )
      (omega arith)

-- For a scalar below the order, `cond_negate` leaves the value if the flag is not set, and otherwise
-- gives the order minus it, modulo the order; the result is below the order.
pub cond_negate_lem :
    (r : Scalar) (flag : Bool)
    → IsScalar r
    → IsScalar (cond_negate r flag).0
      × (value (cond_negate r flag).0 ≡ (if flag then (order - value r) % order else value r))
cond_negate_lem r true h = elim (Bool-cases (is_zero r)) [
  | inl z ↦ rw (cond_negate_zero r true z) (unfold clear in omega (arith, (is_zero_iff r).0 z))
  | inr z ↦
      let positive : 0 < value r = ground (arith, is_zero_iff r) in
      omega (arith, cond_negate_set r h z)
]
cond_negate_lem r false h = elim (Bool-cases (is_zero r)) [
  | inl z ↦ rw (cond_negate_zero r false z) (unfold clear in omega (arith, (is_zero_iff r).0 z))
  | inr z ↦ omega (arith, cond_negate_unset r h z)
]
