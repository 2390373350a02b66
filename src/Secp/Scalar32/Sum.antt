-- ===== src/Secp/Scalar32/Sum.antt =====
-- The sum and the negation of scalars in limbs of 32 bits.
use tinychain.Base.{
  ℕ, ◌+◌, ◌-◌, ◌*◌, ◌%◌, ◌^◌, ◌≤◌, ◌<◌, ◌≡◌, refl, ◌↔◌, ◌⊎◌, inl, inr, arith, true, false,
  Bool-cases, to_int, bit_or, u64, ◌>>>◌,
}
use tinychain.Base.Bits.{le-bit_or}
use tinychain.Base.Bits.Mask.{word_of_ones, bit_and_zero}
use tinychain.Secp.Scalar32.{
  Scalar, check_overflow, add, add_limbs, settle, is_zero, negate, clear, u32, complement, n_0, n_1,
  n_2, n_3, n_4, n_5, n_6, n_7,
}
use tinychain.Secp.Scalar.Value.{order}
use tinychain.Secp.Scalar32.Value.{
  value, HasLimbs, IsScalar, narrow_check_overflow_iff, value-reduce,
}

-- The flag as a number.
overflow_cases :
    (a : Scalar)
    → HasLimbs a
    → ((to_int (check_overflow a) ≡ 1) × (order ≤ value a))
      ⊎ ((to_int (check_overflow a) ≡ 0) × (value a < order))
overflow_cases a h =
    let iff = narrow_check_overflow_iff a h in
    elim (Bool-cases (check_overflow a)) [
      | inl k ↦ inl (rw k refl, iff.0 k)
      | inr k ↦ inr (rw k refl, ground arith)
    ]

-- One conditional subtraction reduces a number below twice the order.
pub settle_lem :
    (r : Scalar) (c : ℕ)
    → HasLimbs r
    → value r + c * 2 ^ 256 < 2 * order
    → IsScalar (settle r c).0
      × (value (settle r c).0 + (settle r c).1 * order ≡ value r + c * 2 ^ 256)
unfolding settle
settle_lem r c h lt = elim (overflow_cases r h) [
  | inl (one, ge) ↦ rw one (omega (arith, value-reduce r (c + 1) h (omega arith)))
  | inr (off, le) ↦ rw off (omega (arith, value-reduce r (c + 0) h (omega arith)))
]

add_limbs_lem :
    (a b : Scalar)
    → HasLimbs a
    → HasLimbs b
    → HasLimbs (add_limbs a b).0
      × (value (add_limbs a b).0 + (add_limbs a b).1 * 2 ^ 256 ≡ value a + value b)
unfolding add_limbs
add_limbs_lem a b ha hb = omega arith

-- For scalars below the order, `add` gives the sum modulo the order, below the order, and the flag it
-- returns is the number of times the order was subtracted.
pub narrow_add_lem :
    (a b : Scalar)
    → IsScalar a
    → IsScalar b
    → IsScalar (add a b).0
      × (value (add a b).0 ≡ (value a + value b) % order)
      × (value (add a b).0 + (add a b).1 * order ≡ value a + value b)
unfolding add
narrow_add_lem a b ha hb =
    let s = add_limbs a b in
    let sums = add_limbs_lem a b ha.limbs hb.limbs in
    let settled = settle_lem s.0 s.1 sums.0 (omega arith) in omega arith

pub is_zero_iff : (a : Scalar) → (is_zero a ≡ true) ↔ (value a ≡ 0)
unfolding is_zero
is_zero_iff a = ground (
  arith,
  le-bit_or a.d0 a.d1,
  le-bit_or (bit_or a.d0 a.d1) a.d2,
  le-bit_or (bit_or (bit_or a.d0 a.d1) a.d2) a.d3,
  le-bit_or (bit_or (bit_or (bit_or a.d0 a.d1) a.d2) a.d3) a.d4,
  le-bit_or (bit_or (bit_or (bit_or (bit_or a.d0 a.d1) a.d2) a.d3) a.d4) a.d5,
  le-bit_or (bit_or (bit_or (bit_or (bit_or (bit_or a.d0 a.d1) a.d2) a.d3) a.d4) a.d5) a.d6,
  le-bit_or (bit_or (bit_or (bit_or (bit_or (bit_or (bit_or a.d0 a.d1) a.d2) a.d3) a.d4) a.d5) a.d6)
      a.d7,
)

negate_zero : (a : Scalar) → value a ≡ 0 → negate a ≡ clear
unfolding negate clear
negate_zero a z =
    rw
      (
        (is_zero_iff a).1 z,
        bit_and_zero,
        bit_and_zero,
        bit_and_zero,
        bit_and_zero,
        bit_and_zero,
        bit_and_zero,
        bit_and_zero,
        bit_and_zero,
      )
      refl

-- The order and 1 added to a number of 256 bits.
unfoldable plus_order : Scalar → Scalar
plus_order c =
    let t0 = u64 (c.d0 + n_0 + 1) in
    let t1 = u64 ((t0 >>> 32) + (c.d1 + n_1)) in
    let t2 = u64 ((t1 >>> 32) + (c.d2 + n_2)) in
    let t3 = u64 ((t2 >>> 32) + (c.d3 + n_3)) in
    let t4 = u64 ((t3 >>> 32) + (c.d4 + n_4)) in
    let t5 = u64 ((t4 >>> 32) + (c.d5 + n_5)) in
    let t6 = u64 ((t5 >>> 32) + (c.d6 + n_6)) in
    let t7 = u64 ((t6 >>> 32) + (c.d7 + n_7)) in
    record {
      d0 = u32 t0;
      d1 = u32 t1;
      d2 = u32 t2;
      d3 = u32 t3;
      d4 = u32 t4;
      d5 = u32 t5;
      d6 = u32 t6;
      d7 = u32 t7;
    }

plus_order_lem :
    (c : Scalar)
    → HasLimbs c
    → HasLimbs (plus_order c) × (value (plus_order c) ≡ (value c + order + 1) % 2 ^ 256)
unfolding plus_order
plus_order_lem c h = omega arith

abbrev flipped : Scalar → Scalar
flipped a = record {
  d0 = complement a.d0;
  d1 = complement a.d1;
  d2 = complement a.d2;
  d3 = complement a.d3;
  d4 = complement a.d4;
  d5 = complement a.d5;
  d6 = complement a.d6;
  d7 = complement a.d7;
}

opposite :
    (a c : Scalar)
    → c.d0 + a.d0 ≡ 2 ^ 32 - 1
    → c.d1 + a.d1 ≡ 2 ^ 32 - 1
    → c.d2 + a.d2 ≡ 2 ^ 32 - 1
    → c.d3 + a.d3 ≡ 2 ^ 32 - 1
    → c.d4 + a.d4 ≡ 2 ^ 32 - 1
    → c.d5 + a.d5 ≡ 2 ^ 32 - 1
    → c.d6 + a.d6 ≡ 2 ^ 32 - 1
    → c.d7 + a.d7 ≡ 2 ^ 32 - 1
    → HasLimbs c × (value c + value a ≡ 2 ^ 256 - 1)
opposite a c e0 e1 e2 e3 e4 e5 e6 e7 = omega arith

opposite-flipped :
    (a : Scalar) → HasLimbs a → HasLimbs (flipped a) × (value (flipped a) + value a ≡ 2 ^ 256 - 1)
opposite-flipped a h =
    opposite a (flipped a) (omega arith) (omega arith) (omega arith) (omega arith) (omega arith)
      (omega arith) (omega arith) (omega arith)

total_of :
    (v c t : ℕ) → v < order → c + v ≡ 2 ^ 256 - 1 → t ≡ (c + order + 1) % 2 ^ 256 → t ≡ order - v
total_of v c t lt e f = omega arith

negate-plus_order : (a : Scalar) → is_zero a ≡ false → negate a ≡ plus_order (flipped a)
unfolding negate plus_order
negate-plus_order a z =
    rw
      (
        z, word_of_ones, word_of_ones, word_of_ones, word_of_ones, word_of_ones, word_of_ones,
        word_of_ones, word_of_ones,
      )
      refl

negate_nonzero :
    (a : Scalar)
    → IsScalar a
    → is_zero a ≡ false
    → HasLimbs (negate a) × (value (negate a) ≡ order - value a)
negate_nonzero a h z =
    let complements = opposite-flipped a h.limbs in
    let sum = plus_order_lem (flipped a) complements.0 in
    let total : value (plus_order (flipped a)) ≡ order - value a =
      total_of (value a) (value (flipped a)) (value (plus_order (flipped a))) h.reduced
        complements.1 sum.1 in
    rw (negate-plus_order a z) (sum.0, total)

-- For a scalar below the order, `negate` gives the order minus the value, modulo the order, below the
-- order.
pub narrow_negate_lem :
    (a : Scalar) → IsScalar a → IsScalar (negate a) × (value (negate a) ≡ (order - value a) % order)
narrow_negate_lem a h =
    let iff = is_zero_iff a in
    elim (Bool-cases (is_zero a)) [
      | inl k ↦ rw (negate_zero a (iff.0 k)) (unfold clear in omega (arith, iff.0 k))
      | inr k ↦ let positive : 0 < value a = ground arith in omega (arith, negate_nonzero a h k)
    ]
