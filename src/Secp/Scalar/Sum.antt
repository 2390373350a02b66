-- ===== src/Secp/Scalar/Sum.antt =====
-- The sum and the negation of scalars.
use tinychain.Base.{
  ℕ, ◌+◌, ◌-◌, ◌*◌, ◌%◌, ◌^◌, ◌≤◌, ◌<◌, ◌≡◌, refl, ◌↔◌, ◌⊎◌, inl, inr, arith, true, false,
  Bool-cases, to_int, bit_or,
}
use tinychain.Base.Bits.{le-bit_or}
use tinychain.Base.Bits.Mask.{all_ones, bit_and_zero}
use tinychain.Secp.Scalar.{Scalar, check_overflow, add, add_limbs, settle, is_zero, negate, clear}
use tinychain.Secp.Scalar.Value.{value, order, HasLimbs, IsScalar, check_overflow_iff, value-reduce}

-- The flag as a number.
overflow_cases :
    (a : Scalar)
    → HasLimbs a
    → ((to_int (check_overflow a) ≡ 1) × (order ≤ value a))
      ⊎ ((to_int (check_overflow a) ≡ 0) × (value a < order))
overflow_cases a h =
    let iff = check_overflow_iff a h in
    elim (Bool-cases (check_overflow a)) [
      | inl k ↦ inl (rw k refl, iff.0 k)
      | inr k ↦ inr (rw k refl, ground arith)
    ]

-- One conditional subtraction reduces a number below twice the order.
pub settle_lem :
    (r : Scalar) (c : ℕ)
    → HasLimbs r
    → value r + c * 2 ^ 256 < 2 * order
    → IsScalar (settle r c).0
      × (value (settle r c).0 + (settle r c).1 * order ≡ value r + c * 2 ^ 256)
unfolding settle
settle_lem r c h lt = elim (overflow_cases r h) [
  | inl (one, ge) ↦ rw one (omega (arith, value-reduce r (c + 1) h (omega arith)))
  | inr (off, le) ↦ rw off (omega (arith, value-reduce r (c + 0) h (omega arith)))
]

add_limbs_lem :
    (a b : Scalar)
    → HasLimbs a
    → HasLimbs b
    → HasLimbs (add_limbs a b).0
      × (value (add_limbs a b).0 + (add_limbs a b).1 * 2 ^ 256 ≡ value a + value b)
unfolding add_limbs
add_limbs_lem a b ha hb = omega arith

-- For scalars below the order, `add` gives the sum modulo the order, below the order, and the flag it
-- returns is the number of times the order was subtracted.
pub scalar_add_lem :
    (a b : Scalar)
    → IsScalar a
    → IsScalar b
    → IsScalar (add a b).0
      × (value (add a b).0 ≡ (value a + value b) % order)
      × (value (add a b).0 + (add a b).1 * order ≡ value a + value b)
unfolding add
scalar_add_lem a b ha hb =
    let s = add_limbs a b in
    let sums = add_limbs_lem a b ha.limbs hb.limbs in
    let settled = settle_lem s.0 s.1 sums.0 (omega arith) in omega arith

pub is_zero_iff : (a : Scalar) → (is_zero a ≡ true) ↔ (value a ≡ 0)
unfolding is_zero
is_zero_iff a = ground (
  arith,
  le-bit_or a.d0 a.d1,
  le-bit_or (bit_or a.d0 a.d1) a.d2,
  le-bit_or (bit_or (bit_or a.d0 a.d1) a.d2) a.d3,
)

negate_zero : (a : Scalar) → value a ≡ 0 → negate a ≡ clear
unfolding negate clear
negate_zero a z =
    rw ((is_zero_iff a).1 z, bit_and_zero, bit_and_zero, bit_and_zero, bit_and_zero) refl

negate_nonzero :
    (a : Scalar)
    → IsScalar a
    → is_zero a ≡ false
    → HasLimbs (negate a) × (value (negate a) ≡ order - value a)
unfolding negate
negate_nonzero a h z = rw (z, all_ones, all_ones, all_ones, all_ones) (omega arith)

-- For a scalar below the order, `negate` gives the order minus the value, modulo the order, below the
-- order.
pub scalar_negate_lem :
    (a : Scalar) → IsScalar a → IsScalar (negate a) × (value (negate a) ≡ (order - value a) % order)
scalar_negate_lem a h =
    let iff = is_zero_iff a in
    elim (Bool-cases (is_zero a)) [
      | inl k ↦ rw (negate_zero a (iff.0 k)) (unfold clear in omega (arith, iff.0 k))
      | inr k ↦ let positive : 0 < value a = ground arith in omega (arith, negate_nonzero a h k)
    ]
