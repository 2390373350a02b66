-- ===== src/Secp/Scalar32/Product/Words.antt =====
-- The words of a product and the product of the values.
use tinychain.Base.{ℕ, ◌+◌, ◌-◌, ◌*◌, ◌/◌, ◌%◌, ◌^◌, ◌≤◌, ◌<◌, ◌≡◌, arith, sym, ◌∙◌}
use native.Mathlib.Nat.{mul-le-mul}
use tinychain.Secp.Scalar32.{Scalar}
use tinychain.Secp.Scalar32.Value.{value, HasLimbs}
use tinychain.Secp.Scalar32.Accumulator.{
  start_lem, muladd_lem, muladd2_lem, muladd_fast_lem, extract_lem, extract_fast_lem, product_words,
  last_word,
}
use tinychain.Secp.Scalar32.Product.{Wide, mul_512, sqr_512}

abbrev pub wide_value : Wide → ℕ
wide_value l =
    l.l0
    + l.l1 * 2 ^ 32
    + l.l2 * 2 ^ 64
    + l.l3 * 2 ^ 96
    + l.l4 * 2 ^ 128
    + l.l5 * 2 ^ 160
    + l.l6 * 2 ^ 192
    + l.l7 * 2 ^ 224
    + l.l8 * 2 ^ 256
    + l.l9 * 2 ^ 288
    + l.l10 * 2 ^ 320
    + l.l11 * 2 ^ 352
    + l.l12 * 2 ^ 384
    + l.l13 * 2 ^ 416
    + l.l14 * 2 ^ 448
    + l.l15 * 2 ^ 480

pub record HasWideWords (l : Wide) : Type 0 where
  pub word0 : l.l0 < 2 ^ 32
  pub word1 : l.l1 < 2 ^ 32
  pub word2 : l.l2 < 2 ^ 32
  pub word3 : l.l3 < 2 ^ 32
  pub word4 : l.l4 < 2 ^ 32
  pub word5 : l.l5 < 2 ^ 32
  pub word6 : l.l6 < 2 ^ 32
  pub word7 : l.l7 < 2 ^ 32
  pub word8 : l.l8 < 2 ^ 32
  pub word9 : l.l9 < 2 ^ 32
  pub word10 : l.l10 < 2 ^ 32
  pub word11 : l.l11 < 2 ^ 32
  pub word12 : l.l12 < 2 ^ 32
  pub word13 : l.l13 < 2 ^ 32
  pub word14 : l.l14 < 2 ^ 32
  pub word15 : l.l15 < 2 ^ 32

whole : (a b : Scalar) → HasLimbs a → HasLimbs b → value a * value b ≤ (2 ^ 256 - 1) * (2 ^ 256 - 1)
whole a b ha hb =
    let small_a : value a ≤ 2 ^ 256 - 1 = omega arith in
    let small_b : value b ≤ 2 ^ 256 - 1 = omega arith in mul-le-mul small_a small_b

wide_words :
    (l : Wide) {w0 w1 w2 w3 w4 w5 w6 w7 w8 w9 w10 w11 w12 w13 w14 w15 : ℕ}
    → l.l0 ≡ w0
    → l.l1 ≡ w1
    → l.l2 ≡ w2
    → l.l3 ≡ w3
    → l.l4 ≡ w4
    → l.l5 ≡ w5
    → l.l6 ≡ w6
    → l.l7 ≡ w7
    → l.l8 ≡ w8
    → l.l9 ≡ w9
    → l.l10 ≡ w10
    → l.l11 ≡ w11
    → l.l12 ≡ w12
    → l.l13 ≡ w13
    → l.l14 ≡ w14
    → l.l15 ≡ w15
    → wide_value l
      ≡ w0
        + w1 * 2 ^ 32
        + w2 * 2 ^ 64
        + w3 * 2 ^ 96
        + w4 * 2 ^ 128
        + w5 * 2 ^ 160
        + w6 * 2 ^ 192
        + w7 * 2 ^ 224
        + w8 * 2 ^ 256
        + w9 * 2 ^ 288
        + w10 * 2 ^ 320
        + w11 * 2 ^ 352
        + w12 * 2 ^ 384
        + w13 * 2 ^ 416
        + w14 * 2 ^ 448
        + w15 * 2 ^ 480
wide_words l e0 e1 e2 e3 e4 e5 e6 e7 e8 e9 e10 e11 e12 e13 e14 e15 = λ i.
    e0 i
    + e1 i * 2 ^ 32
    + e2 i * 2 ^ 64
    + e3 i * 2 ^ 96
    + e4 i * 2 ^ 128
    + e5 i * 2 ^ 160
    + e6 i * 2 ^ 192
    + e7 i * 2 ^ 224
    + e8 i * 2 ^ 256
    + e9 i * 2 ^ 288
    + e10 i * 2 ^ 320
    + e11 i * 2 ^ 352
    + e12 i * 2 ^ 384
    + e13 i * 2 ^ 416
    + e14 i * 2 ^ 448
    + e15 i * 2 ^ 480

-- Fifteen columns: what the carries make of them.
columns :
    (s0 s1 s2 s3 s4 s5 s6 s7 s8 s9 s10 s11 s12 s13 s14 : ℕ)
    → s0
        + s1 * 2 ^ 32
        + s2 * 2 ^ 64
        + s3 * 2 ^ 96
        + s4 * 2 ^ 128
        + s5 * 2 ^ 160
        + s6 * 2 ^ 192
        + s7 * 2 ^ 224
        + s8 * 2 ^ 256
        + s9 * 2 ^ 288
        + s10 * 2 ^ 320
        + s11 * 2 ^ 352
        + s12 * 2 ^ 384
        + s13 * 2 ^ 416
        + s14 * 2 ^ 448
      ≤ (2 ^ 256 - 1) * (2 ^ 256 - 1)
    → let n0 : ℕ = 0 + s0 in
      let n1 : ℕ = n0 / 2 ^ 32 + s1 in
      let n2 : ℕ = n1 / 2 ^ 32 + s2 in
      let n3 : ℕ = n2 / 2 ^ 32 + s3 in
      let n4 : ℕ = n3 / 2 ^ 32 + s4 in
      let n5 : ℕ = n4 / 2 ^ 32 + s5 in
      let n6 : ℕ = n5 / 2 ^ 32 + s6 in
      let n7 : ℕ = n6 / 2 ^ 32 + s7 in
      let n8 : ℕ = n7 / 2 ^ 32 + s8 in
      let n9 : ℕ = n8 / 2 ^ 32 + s9 in
      let n10 : ℕ = n9 / 2 ^ 32 + s10 in
      let n11 : ℕ = n10 / 2 ^ 32 + s11 in
      let n12 : ℕ = n11 / 2 ^ 32 + s12 in
      let n13 : ℕ = n12 / 2 ^ 32 + s13 in
      let n14 : ℕ = n13 / 2 ^ 32 + s14 in
      (n14 < 2 ^ 64)
      × (n0 % 2 ^ 32
            + n1 % 2 ^ 32 * 2 ^ 32
            + n2 % 2 ^ 32 * 2 ^ 64
            + n3 % 2 ^ 32 * 2 ^ 96
            + n4 % 2 ^ 32 * 2 ^ 128
            + n5 % 2 ^ 32 * 2 ^ 160
            + n6 % 2 ^ 32 * 2 ^ 192
            + n7 % 2 ^ 32 * 2 ^ 224
            + n8 % 2 ^ 32 * 2 ^ 256
            + n9 % 2 ^ 32 * 2 ^ 288
            + n10 % 2 ^ 32 * 2 ^ 320
            + n11 % 2 ^ 32 * 2 ^ 352
            + n12 % 2 ^ 32 * 2 ^ 384
            + n13 % 2 ^ 32 * 2 ^ 416
            + n14 % 2 ^ 32 * 2 ^ 448
            + n14 / 2 ^ 32 * 2 ^ 480
          ≡ s0
            + s1 * 2 ^ 32
            + s2 * 2 ^ 64
            + s3 * 2 ^ 96
            + s4 * 2 ^ 128
            + s5 * 2 ^ 160
            + s6 * 2 ^ 192
            + s7 * 2 ^ 224
            + s8 * 2 ^ 256
            + s9 * 2 ^ 288
            + s10 * 2 ^ 320
            + s11 * 2 ^ 352
            + s12 * 2 ^ 384
            + s13 * 2 ^ 416
            + s14 * 2 ^ 448)
columns s0 s1 s2 s3 s4 s5 s6 s7 s8 s9 s10 s11 s12 s13 s14 h = omega arith

mul_512_columns :
    (a b : Scalar)
    → value a * value b
      ≡ (0 + a.d0 * b.d0)
        + (0 + a.d0 * b.d1 + a.d1 * b.d0) * 2 ^ 32
        + (0 + a.d0 * b.d2 + a.d1 * b.d1 + a.d2 * b.d0) * 2 ^ 64
        + (0 + a.d0 * b.d3 + a.d1 * b.d2 + a.d2 * b.d1 + a.d3 * b.d0) * 2 ^ 96
        + (0 + a.d0 * b.d4 + a.d1 * b.d3 + a.d2 * b.d2 + a.d3 * b.d1 + a.d4 * b.d0) * 2 ^ 128
        + (0 + a.d0 * b.d5 + a.d1 * b.d4 + a.d2 * b.d3 + a.d3 * b.d2 + a.d4 * b.d1 + a.d5 * b.d0)
          * 2 ^ 160
        + (0
            + a.d0 * b.d6
            + a.d1 * b.d5
            + a.d2 * b.d4
            + a.d3 * b.d3
            + a.d4 * b.d2
            + a.d5 * b.d1
            + a.d6 * b.d0)
          * 2 ^ 192
        + (0
            + a.d0 * b.d7
            + a.d1 * b.d6
            + a.d2 * b.d5
            + a.d3 * b.d4
            + a.d4 * b.d3
            + a.d5 * b.d2
            + a.d6 * b.d1
            + a.d7 * b.d0)
          * 2 ^ 224
        + (0
            + a.d1 * b.d7
            + a.d2 * b.d6
            + a.d3 * b.d5
            + a.d4 * b.d4
            + a.d5 * b.d3
            + a.d6 * b.d2
            + a.d7 * b.d1)
          * 2 ^ 256
        + (0 + a.d2 * b.d7 + a.d3 * b.d6 + a.d4 * b.d5 + a.d5 * b.d4 + a.d6 * b.d3 + a.d7 * b.d2)
          * 2 ^ 288
        + (0 + a.d3 * b.d7 + a.d4 * b.d6 + a.d5 * b.d5 + a.d6 * b.d4 + a.d7 * b.d3) * 2 ^ 320
        + (0 + a.d4 * b.d7 + a.d5 * b.d6 + a.d6 * b.d5 + a.d7 * b.d4) * 2 ^ 352
        + (0 + a.d5 * b.d7 + a.d6 * b.d6 + a.d7 * b.d5) * 2 ^ 384
        + (0 + a.d6 * b.d7 + a.d7 * b.d6) * 2 ^ 416
        + (0 + a.d7 * b.d7) * 2 ^ 448
mul_512_columns a b = omega arith

module _ (a b : Scalar) (ha : HasLimbs a) (hb : HasLimbs b) where
  pub mul_512_lem : HasWideWords (mul_512 a b) × (wide_value (mul_512 a b) ≡ value a * value b)
  unfolding mul_512
  mul_512_lem =
      let small = product_words a.d0 b.d0 ha.limb0 hb.limb0 in
      let all = whole a b ha hb in
      let expanded = mul_512_columns a b in
      let carried =
        columns (0 + a.d0 * b.d0) (0 + a.d0 * b.d1 + a.d1 * b.d0)
          (0 + a.d0 * b.d2 + a.d1 * b.d1 + a.d2 * b.d0)
          (0 + a.d0 * b.d3 + a.d1 * b.d2 + a.d2 * b.d1 + a.d3 * b.d0)
          (0 + a.d0 * b.d4 + a.d1 * b.d3 + a.d2 * b.d2 + a.d3 * b.d1 + a.d4 * b.d0)
          (0 + a.d0 * b.d5 + a.d1 * b.d4 + a.d2 * b.d3 + a.d3 * b.d2 + a.d4 * b.d1 + a.d5 * b.d0)
          (0
            + a.d0 * b.d6
            + a.d1 * b.d5
            + a.d2 * b.d4
            + a.d3 * b.d3
            + a.d4 * b.d2
            + a.d5 * b.d1
            + a.d6 * b.d0)
          (0
            + a.d0 * b.d7
            + a.d1 * b.d6
            + a.d2 * b.d5
            + a.d3 * b.d4
            + a.d4 * b.d3
            + a.d5 * b.d2
            + a.d6 * b.d1
            + a.d7 * b.d0)
          (0
            + a.d1 * b.d7
            + a.d2 * b.d6
            + a.d3 * b.d5
            + a.d4 * b.d4
            + a.d5 * b.d3
            + a.d6 * b.d2
            + a.d7 * b.d1)
          (0 + a.d2 * b.d7 + a.d3 * b.d6 + a.d4 * b.d5 + a.d5 * b.d4 + a.d6 * b.d3 + a.d7 * b.d2)
          (0 + a.d3 * b.d7 + a.d4 * b.d6 + a.d5 * b.d5 + a.d6 * b.d4 + a.d7 * b.d3)
          (0 + a.d4 * b.d7 + a.d5 * b.d6 + a.d6 * b.d5 + a.d7 * b.d4)
          (0 + a.d5 * b.d7 + a.d6 * b.d6 + a.d7 * b.d5) (0 + a.d6 * b.d7 + a.d7 * b.d6)
          (0 + a.d7 * b.d7) (rw expanded at all) in
      let k0 =
        muladd_fast_lem a.d0 b.d0 ha.limb0 hb.limb0 (omega arith) (start_lem 0 (omega arith)) in
      let e0 = extract_fast_lem (omega arith) k0 in
      let k1 =
        muladd_lem a.d1 b.d0 ha.limb1 hb.limb0 (omega arith)
          (muladd_lem a.d0 b.d1 ha.limb0 hb.limb1 (omega arith) e0.0) in
      let e1 = extract_lem (omega arith) k1 in
      let k2 = muladd_lem a.d2 b.d0 ha.limb2 hb.limb0 (omega arith) (
        muladd_lem a.d1 b.d1 ha.limb1 hb.limb1 (omega arith)
          (muladd_lem a.d0 b.d2 ha.limb0 hb.limb2 (omega arith) e1.0)) in
      let e2 = extract_lem (omega arith) k2 in
      let k3 = muladd_lem a.d3 b.d0 ha.limb3 hb.limb0 (omega arith) (
        muladd_lem a.d2 b.d1 ha.limb2 hb.limb1 (omega arith) (
          muladd_lem a.d1 b.d2 ha.limb1 hb.limb2 (omega arith)
            (muladd_lem a.d0 b.d3 ha.limb0 hb.limb3 (omega arith) e2.0))) in
      let e3 = extract_lem (omega arith) k3 in
      let k4 = muladd_lem a.d4 b.d0 ha.limb4 hb.limb0 (omega arith) (
        muladd_lem a.d3 b.d1 ha.limb3 hb.limb1 (omega arith) (
          muladd_lem a.d2 b.d2 ha.limb2 hb.limb2 (omega arith) (
            muladd_lem a.d1 b.d3 ha.limb1 hb.limb3 (omega arith)
              (muladd_lem a.d0 b.d4 ha.limb0 hb.limb4 (omega arith) e3.0)))) in
      let e4 = extract_lem (omega arith) k4 in
      let k5 = muladd_lem a.d5 b.d0 ha.limb5 hb.limb0 (omega arith) (
        muladd_lem a.d4 b.d1 ha.limb4 hb.limb1 (omega arith) (
          muladd_lem a.d3 b.d2 ha.limb3 hb.limb2 (omega arith) (
            muladd_lem a.d2 b.d3 ha.limb2 hb.limb3 (omega arith) (
              muladd_lem a.d1 b.d4 ha.limb1 hb.limb4 (omega arith)
                (muladd_lem a.d0 b.d5 ha.limb0 hb.limb5 (omega arith) e4.0))))) in
      let e5 = extract_lem (omega arith) k5 in
      let k6 = muladd_lem a.d6 b.d0 ha.limb6 hb.limb0 (omega arith) (
        muladd_lem a.d5 b.d1 ha.limb5 hb.limb1 (omega arith) (
          muladd_lem a.d4 b.d2 ha.limb4 hb.limb2 (omega arith) (
            muladd_lem a.d3 b.d3 ha.limb3 hb.limb3 (omega arith) (
              muladd_lem a.d2 b.d4 ha.limb2 hb.limb4 (omega arith) (
                muladd_lem a.d1 b.d5 ha.limb1 hb.limb5 (omega arith)
                  (muladd_lem a.d0 b.d6 ha.limb0 hb.limb6 (omega arith) e5.0)))))) in
      let e6 = extract_lem (omega arith) k6 in
      let k7 = muladd_lem a.d7 b.d0 ha.limb7 hb.limb0 (omega arith) (
        muladd_lem a.d6 b.d1 ha.limb6 hb.limb1 (omega arith) (
          muladd_lem a.d5 b.d2 ha.limb5 hb.limb2 (omega arith) (
            muladd_lem a.d4 b.d3 ha.limb4 hb.limb3 (omega arith) (
              muladd_lem a.d3 b.d4 ha.limb3 hb.limb4 (omega arith) (
                muladd_lem a.d2 b.d5 ha.limb2 hb.limb5 (omega arith) (
                  muladd_lem a.d1 b.d6 ha.limb1 hb.limb6 (omega arith)
                    (muladd_lem a.d0 b.d7 ha.limb0 hb.limb7 (omega arith) e6.0))))))) in
      let e7 = extract_lem (omega arith) k7 in
      let k8 = muladd_lem a.d7 b.d1 ha.limb7 hb.limb1 (omega arith) (
        muladd_lem a.d6 b.d2 ha.limb6 hb.limb2 (omega arith) (
          muladd_lem a.d5 b.d3 ha.limb5 hb.limb3 (omega arith) (
            muladd_lem a.d4 b.d4 ha.limb4 hb.limb4 (omega arith) (
              muladd_lem a.d3 b.d5 ha.limb3 hb.limb5 (omega arith) (
                muladd_lem a.d2 b.d6 ha.limb2 hb.limb6 (omega arith)
                  (muladd_lem a.d1 b.d7 ha.limb1 hb.limb7 (omega arith) e7.0)))))) in
      let e8 = extract_lem (omega arith) k8 in
      let k9 = muladd_lem a.d7 b.d2 ha.limb7 hb.limb2 (omega arith) (
        muladd_lem a.d6 b.d3 ha.limb6 hb.limb3 (omega arith) (
          muladd_lem a.d5 b.d4 ha.limb5 hb.limb4 (omega arith) (
            muladd_lem a.d4 b.d5 ha.limb4 hb.limb5 (omega arith) (
              muladd_lem a.d3 b.d6 ha.limb3 hb.limb6 (omega arith)
                (muladd_lem a.d2 b.d7 ha.limb2 hb.limb7 (omega arith) e8.0))))) in
      let e9 = extract_lem (omega arith) k9 in
      let k10 = muladd_lem a.d7 b.d3 ha.limb7 hb.limb3 (omega arith) (
        muladd_lem a.d6 b.d4 ha.limb6 hb.limb4 (omega arith) (
          muladd_lem a.d5 b.d5 ha.limb5 hb.limb5 (omega arith) (
            muladd_lem a.d4 b.d6 ha.limb4 hb.limb6 (omega arith)
              (muladd_lem a.d3 b.d7 ha.limb3 hb.limb7 (omega arith) e9.0)))) in
      let e10 = extract_lem (omega arith) k10 in
      let k11 = muladd_lem a.d7 b.d4 ha.limb7 hb.limb4 (omega arith) (
        muladd_lem a.d6 b.d5 ha.limb6 hb.limb5 (omega arith) (
          muladd_lem a.d5 b.d6 ha.limb5 hb.limb6 (omega arith)
            (muladd_lem a.d4 b.d7 ha.limb4 hb.limb7 (omega arith) e10.0))) in
      let e11 = extract_lem (omega arith) k11 in
      let k12 = muladd_lem a.d7 b.d5 ha.limb7 hb.limb5 (omega arith) (
        muladd_lem a.d6 b.d6 ha.limb6 hb.limb6 (omega arith)
          (muladd_lem a.d5 b.d7 ha.limb5 hb.limb7 (omega arith) e11.0)) in
      let e12 = extract_lem (omega arith) k12 in
      let k13 =
        muladd_lem a.d7 b.d6 ha.limb7 hb.limb6 (omega arith)
          (muladd_lem a.d6 b.d7 ha.limb6 hb.limb7 (omega arith) e12.0) in
      let e13 = extract_lem (omega arith) k13 in
      let k14 = muladd_fast_lem a.d7 b.d7 ha.limb7 hb.limb7 carried.0 e13.0 in
      let e14 = extract_fast_lem carried.0 k14 in
      let top = last_word e14.0 (omega (arith, carried.0)) in
      (
        record {
          word0 = k0.words.word0;
          word1 = k1.words.word0;
          word2 = k2.words.word0;
          word3 = k3.words.word0;
          word4 = k4.words.word0;
          word5 = k5.words.word0;
          word6 = k6.words.word0;
          word7 = k7.words.word0;
          word8 = k8.words.word0;
          word9 = k9.words.word0;
          word10 = k10.words.word0;
          word11 = k11.words.word0;
          word12 = k12.words.word0;
          word13 = k13.words.word0;
          word14 = k14.words.word0;
          word15 = e14.0.words.word0;
        },
        wide_words (mul_512 a b) e0.1 e1.1 e2.1 e3.1 e4.1 e5.1 e6.1 e7.1 e8.1 e9.1 e10.1 e11.1 e12.1
              e13.1 e14.1 top
            ∙ carried.1
            ∙ sym expanded,
      )

sqr_512_columns :
    (a : Scalar)
    → value a * value a
      ≡ (0 + a.d0 * a.d0)
        + (0 + 2 * (a.d0 * a.d1)) * 2 ^ 32
        + (0 + 2 * (a.d0 * a.d2) + a.d1 * a.d1) * 2 ^ 64
        + (0 + 2 * (a.d0 * a.d3) + 2 * (a.d1 * a.d2)) * 2 ^ 96
        + (0 + 2 * (a.d0 * a.d4) + 2 * (a.d1 * a.d3) + a.d2 * a.d2) * 2 ^ 128
        + (0 + 2 * (a.d0 * a.d5) + 2 * (a.d1 * a.d4) + 2 * (a.d2 * a.d3)) * 2 ^ 160
        + (0 + 2 * (a.d0 * a.d6) + 2 * (a.d1 * a.d5) + 2 * (a.d2 * a.d4) + a.d3 * a.d3) * 2 ^ 192
        + (0 + 2 * (a.d0 * a.d7) + 2 * (a.d1 * a.d6) + 2 * (a.d2 * a.d5) + 2 * (a.d3 * a.d4))
          * 2 ^ 224
        + (0 + 2 * (a.d1 * a.d7) + 2 * (a.d2 * a.d6) + 2 * (a.d3 * a.d5) + a.d4 * a.d4) * 2 ^ 256
        + (0 + 2 * (a.d2 * a.d7) + 2 * (a.d3 * a.d6) + 2 * (a.d4 * a.d5)) * 2 ^ 288
        + (0 + 2 * (a.d3 * a.d7) + 2 * (a.d4 * a.d6) + a.d5 * a.d5) * 2 ^ 320
        + (0 + 2 * (a.d4 * a.d7) + 2 * (a.d5 * a.d6)) * 2 ^ 352
        + (0 + 2 * (a.d5 * a.d7) + a.d6 * a.d6) * 2 ^ 384
        + (0 + 2 * (a.d6 * a.d7)) * 2 ^ 416
        + (0 + a.d7 * a.d7) * 2 ^ 448
sqr_512_columns a = omega arith

module _ (a : Scalar) (ha : HasLimbs a) where
  pub sqr_512_lem : HasWideWords (sqr_512 a) × (wide_value (sqr_512 a) ≡ value a * value a)
  unfolding sqr_512
  sqr_512_lem =
      let small = product_words a.d0 a.d0 ha.limb0 ha.limb0 in
      let all = whole a a ha ha in
      let expanded = sqr_512_columns a in
      let carried =
        columns (0 + a.d0 * a.d0) (0 + 2 * (a.d0 * a.d1)) (0 + 2 * (a.d0 * a.d2) + a.d1 * a.d1)
          (0 + 2 * (a.d0 * a.d3) + 2 * (a.d1 * a.d2))
          (0 + 2 * (a.d0 * a.d4) + 2 * (a.d1 * a.d3) + a.d2 * a.d2)
          (0 + 2 * (a.d0 * a.d5) + 2 * (a.d1 * a.d4) + 2 * (a.d2 * a.d3))
          (0 + 2 * (a.d0 * a.d6) + 2 * (a.d1 * a.d5) + 2 * (a.d2 * a.d4) + a.d3 * a.d3)
          (0 + 2 * (a.d0 * a.d7) + 2 * (a.d1 * a.d6) + 2 * (a.d2 * a.d5) + 2 * (a.d3 * a.d4))
          (0 + 2 * (a.d1 * a.d7) + 2 * (a.d2 * a.d6) + 2 * (a.d3 * a.d5) + a.d4 * a.d4)
          (0 + 2 * (a.d2 * a.d7) + 2 * (a.d3 * a.d6) + 2 * (a.d4 * a.d5))
          (0 + 2 * (a.d3 * a.d7) + 2 * (a.d4 * a.d6) + a.d5 * a.d5)
          (0 + 2 * (a.d4 * a.d7) + 2 * (a.d5 * a.d6)) (0 + 2 * (a.d5 * a.d7) + a.d6 * a.d6)
          (0 + 2 * (a.d6 * a.d7)) (0 + a.d7 * a.d7) (rw expanded at all) in
      let k0 =
        muladd_fast_lem a.d0 a.d0 ha.limb0 ha.limb0 (omega arith) (start_lem 0 (omega arith)) in
      let e0 = extract_fast_lem (omega arith) k0 in
      let k1 = muladd2_lem a.d0 a.d1 ha.limb0 ha.limb1 (omega arith) e0.0 in
      let e1 = extract_lem (omega arith) k1 in
      let k2 =
        muladd_lem a.d1 a.d1 ha.limb1 ha.limb1 (omega arith)
          (muladd2_lem a.d0 a.d2 ha.limb0 ha.limb2 (omega arith) e1.0) in
      let e2 = extract_lem (omega arith) k2 in
      let k3 =
        muladd2_lem a.d1 a.d2 ha.limb1 ha.limb2 (omega arith)
          (muladd2_lem a.d0 a.d3 ha.limb0 ha.limb3 (omega arith) e2.0) in
      let e3 = extract_lem (omega arith) k3 in
      let k4 = muladd_lem a.d2 a.d2 ha.limb2 ha.limb2 (omega arith) (
        muladd2_lem a.d1 a.d3 ha.limb1 ha.limb3 (omega arith)
          (muladd2_lem a.d0 a.d4 ha.limb0 ha.limb4 (omega arith) e3.0)) in
      let e4 = extract_lem (omega arith) k4 in
      let k5 = muladd2_lem a.d2 a.d3 ha.limb2 ha.limb3 (omega arith) (
        muladd2_lem a.d1 a.d4 ha.limb1 ha.limb4 (omega arith)
          (muladd2_lem a.d0 a.d5 ha.limb0 ha.limb5 (omega arith) e4.0)) in
      let e5 = extract_lem (omega arith) k5 in
      let k6 = muladd_lem a.d3 a.d3 ha.limb3 ha.limb3 (omega arith) (
        muladd2_lem a.d2 a.d4 ha.limb2 ha.limb4 (omega arith) (
          muladd2_lem a.d1 a.d5 ha.limb1 ha.limb5 (omega arith)
            (muladd2_lem a.d0 a.d6 ha.limb0 ha.limb6 (omega arith) e5.0))) in
      let e6 = extract_lem (omega arith) k6 in
      let k7 = muladd2_lem a.d3 a.d4 ha.limb3 ha.limb4 (omega arith) (
        muladd2_lem a.d2 a.d5 ha.limb2 ha.limb5 (omega arith) (
          muladd2_lem a.d1 a.d6 ha.limb1 ha.limb6 (omega arith)
            (muladd2_lem a.d0 a.d7 ha.limb0 ha.limb7 (omega arith) e6.0))) in
      let e7 = extract_lem (omega arith) k7 in
      let k8 = muladd_lem a.d4 a.d4 ha.limb4 ha.limb4 (omega arith) (
        muladd2_lem a.d3 a.d5 ha.limb3 ha.limb5 (omega arith) (
          muladd2_lem a.d2 a.d6 ha.limb2 ha.limb6 (omega arith)
            (muladd2_lem a.d1 a.d7 ha.limb1 ha.limb7 (omega arith) e7.0))) in
      let e8 = extract_lem (omega arith) k8 in
      let k9 = muladd2_lem a.d4 a.d5 ha.limb4 ha.limb5 (omega arith) (
        muladd2_lem a.d3 a.d6 ha.limb3 ha.limb6 (omega arith)
          (muladd2_lem a.d2 a.d7 ha.limb2 ha.limb7 (omega arith) e8.0)) in
      let e9 = extract_lem (omega arith) k9 in
      let k10 = muladd_lem a.d5 a.d5 ha.limb5 ha.limb5 (omega arith) (
        muladd2_lem a.d4 a.d6 ha.limb4 ha.limb6 (omega arith)
          (muladd2_lem a.d3 a.d7 ha.limb3 ha.limb7 (omega arith) e9.0)) in
      let e10 = extract_lem (omega arith) k10 in
      let k11 =
        muladd2_lem a.d5 a.d6 ha.limb5 ha.limb6 (omega arith)
          (muladd2_lem a.d4 a.d7 ha.limb4 ha.limb7 (omega arith) e10.0) in
      let e11 = extract_lem (omega arith) k11 in
      let k12 =
        muladd_lem a.d6 a.d6 ha.limb6 ha.limb6 (omega arith)
          (muladd2_lem a.d5 a.d7 ha.limb5 ha.limb7 (omega arith) e11.0) in
      let e12 = extract_lem (omega arith) k12 in
      let k13 = muladd2_lem a.d6 a.d7 ha.limb6 ha.limb7 (omega arith) e12.0 in
      let e13 = extract_lem (omega arith) k13 in
      let k14 = muladd_fast_lem a.d7 a.d7 ha.limb7 ha.limb7 carried.0 e13.0 in
      let e14 = extract_fast_lem carried.0 k14 in
      let top = last_word e14.0 (omega (arith, carried.0)) in
      (
        record {
          word0 = k0.words.word0;
          word1 = k1.words.word0;
          word2 = k2.words.word0;
          word3 = k3.words.word0;
          word4 = k4.words.word0;
          word5 = k5.words.word0;
          word6 = k6.words.word0;
          word7 = k7.words.word0;
          word8 = k8.words.word0;
          word9 = k9.words.word0;
          word10 = k10.words.word0;
          word11 = k11.words.word0;
          word12 = k12.words.word0;
          word13 = k13.words.word0;
          word14 = k14.words.word0;
          word15 = e14.0.words.word0;
        },
        wide_words (sqr_512 a) e0.1 e1.1 e2.1 e3.1 e4.1 e5.1 e6.1 e7.1 e8.1 e9.1 e10.1 e11.1 e12.1
              e13.1 e14.1 top
            ∙ carried.1
            ∙ sym expanded,
      )
