-- ===== src/Secp/Scalar/Product/Words.antt =====
-- The words of a product and the product of the values.
use tinychain.Base.{ℕ, ◌+◌, ◌-◌, ◌*◌, ◌^◌, ◌≤◌, ◌<◌, ◌≡◌, arith}
use native.Mathlib.Nat.{mul-le-mul}
use tinychain.Secp.Scalar.{Scalar}
use tinychain.Secp.Scalar.Value.{value, HasLimbs}
use tinychain.Secp.Scalar.Accumulator.{
  start_lem, muladd_lem, muladd2_lem, muladd_fast_lem, extract_lem, extract_fast_lem, product_words,
}
use tinychain.Secp.Scalar.Product.{Wide, mul_512, sqr_512}

abbrev pub wide_value : Wide → ℕ
wide_value l =
    l.l0
    + l.l1 * 2 ^ 64
    + l.l2 * 2 ^ 128
    + l.l3 * 2 ^ 192
    + l.l4 * 2 ^ 256
    + l.l5 * 2 ^ 320
    + l.l6 * 2 ^ 384
    + l.l7 * 2 ^ 448

pub record HasWideWords (l : Wide) : Type 0 where
  pub word0 : l.l0 < 2 ^ 64
  pub word1 : l.l1 < 2 ^ 64
  pub word2 : l.l2 < 2 ^ 64
  pub word3 : l.l3 < 2 ^ 64
  pub word4 : l.l4 < 2 ^ 64
  pub word5 : l.l5 < 2 ^ 64
  pub word6 : l.l6 < 2 ^ 64
  pub word7 : l.l7 < 2 ^ 64

row :
    (x : ℕ) {b : Scalar}
    → x < 2 ^ 64
    → HasLimbs b
    → (x * b.d0 ≤ (2 ^ 64 - 1) * (2 ^ 64 - 1))
      × (x * b.d1 ≤ (2 ^ 64 - 1) * (2 ^ 64 - 1))
      × (x * b.d2 ≤ (2 ^ 64 - 1) * (2 ^ 64 - 1))
      × (x * b.d3 ≤ (2 ^ 64 - 1) * (2 ^ 64 - 1))
row x {b} h k = (
  product_words x b.d0 h k.limb0,
  product_words x b.d1 h k.limb1,
  product_words x b.d2 h k.limb2,
  product_words x b.d3 h k.limb3,
)

whole : (a b : Scalar) → HasLimbs a → HasLimbs b → value a * value b ≤ (2 ^ 256 - 1) * (2 ^ 256 - 1)
whole a b ha hb =
    let small_a : value a ≤ 2 ^ 256 - 1 = omega arith in
    let small_b : value b ≤ 2 ^ 256 - 1 = omega arith in mul-le-mul small_a small_b

module _ (a b : Scalar) (ha : HasLimbs a) (hb : HasLimbs b) where
  pub mul_512_lem : HasWideWords (mul_512 a b) × (wide_value (mul_512 a b) ≡ value a * value b)
  unfolding mul_512
  mul_512_lem =
      let r0 = row a.d0 ha.limb0 hb in
      let r1 = row a.d1 ha.limb1 hb in
      let r2 = row a.d2 ha.limb2 hb in
      let r3 = row a.d3 ha.limb3 hb in
      let all = whole a b ha hb in
      let k0 =
        muladd_fast_lem a.d0 b.d0 ha.limb0 hb.limb0 (start_lem 0 (omega arith)) (omega arith) in
      let e0 = extract_fast_lem k0 (omega arith) in
      let k1 =
        muladd_lem a.d1 b.d0 ha.limb1 hb.limb0
          (muladd_lem a.d0 b.d1 ha.limb0 hb.limb1 e0.0 (omega arith)) (omega arith) in
      let e1 = extract_lem k1 in
      let k2 =
        muladd_lem a.d2 b.d0 ha.limb2 hb.limb0
          (muladd_lem a.d1 b.d1 ha.limb1 hb.limb1
            (muladd_lem a.d0 b.d2 ha.limb0 hb.limb2 e1.0 (omega arith)) (omega arith))
          (omega arith) in
      let e2 = extract_lem k2 in
      let k3 =
        muladd_lem a.d3 b.d0 ha.limb3 hb.limb0
          (muladd_lem a.d2 b.d1 ha.limb2 hb.limb1
            (muladd_lem a.d1 b.d2 ha.limb1 hb.limb2
              (muladd_lem a.d0 b.d3 ha.limb0 hb.limb3 e2.0 (omega arith)) (omega arith))
            (omega arith))
          (omega arith) in
      let e3 = extract_lem k3 in
      let k4 =
        muladd_lem a.d3 b.d1 ha.limb3 hb.limb1
          (muladd_lem a.d2 b.d2 ha.limb2 hb.limb2
            (muladd_lem a.d1 b.d3 ha.limb1 hb.limb3 e3.0 (omega arith)) (omega arith))
          (omega arith) in
      let e4 = extract_lem k4 in
      let k5 =
        muladd_lem a.d3 b.d2 ha.limb3 hb.limb2
          (muladd_lem a.d2 b.d3 ha.limb2 hb.limb3 e4.0 (omega arith)) (omega arith) in
      let e5 = extract_lem k5 in
      let k6 = muladd_fast_lem a.d3 b.d3 ha.limb3 hb.limb3 e5.0 (omega arith) in
      let e6 = extract_fast_lem k6 (omega arith) in (omega arith, omega arith)

module _ (a : Scalar) (ha : HasLimbs a) where
  pub sqr_512_lem : HasWideWords (sqr_512 a) × (wide_value (sqr_512 a) ≡ value a * value a)
  unfolding sqr_512
  sqr_512_lem =
      let r0 = row a.d0 ha.limb0 ha in
      let r1 = row a.d1 ha.limb1 ha in
      let r2 = row a.d2 ha.limb2 ha in
      let r3 = row a.d3 ha.limb3 ha in
      let all = whole a a ha ha in
      let k0 =
        muladd_fast_lem a.d0 a.d0 ha.limb0 ha.limb0 (start_lem 0 (omega arith)) (omega arith) in
      let e0 = extract_fast_lem k0 (omega arith) in
      let k1 = muladd2_lem a.d0 a.d1 ha.limb0 ha.limb1 e0.0 (omega arith) in
      let e1 = extract_lem k1 in
      let k2 =
        muladd_lem a.d1 a.d1 ha.limb1 ha.limb1
          (muladd2_lem a.d0 a.d2 ha.limb0 ha.limb2 e1.0 (omega arith)) (omega arith) in
      let e2 = extract_lem k2 in
      let k3 =
        muladd2_lem a.d1 a.d2 ha.limb1 ha.limb2
          (muladd2_lem a.d0 a.d3 ha.limb0 ha.limb3 e2.0 (omega arith)) (omega arith) in
      let e3 = extract_lem k3 in
      let k4 =
        muladd_lem a.d2 a.d2 ha.limb2 ha.limb2
          (muladd2_lem a.d1 a.d3 ha.limb1 ha.limb3 e3.0 (omega arith)) (omega arith) in
      let e4 = extract_lem k4 in
      let k5 = muladd2_lem a.d2 a.d3 ha.limb2 ha.limb3 e4.0 (omega arith) in
      let e5 = extract_lem k5 in
      let k6 = muladd_fast_lem a.d3 a.d3 ha.limb3 ha.limb3 e5.0 (omega arith) in
      let e6 = extract_fast_lem k6 (omega arith) in (omega arith, omega arith)
