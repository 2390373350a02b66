-- ===== src/Secp/Scalar32/Product/Reduction.antt =====
-- The reductions modulo the order: a word above 2 ^ 256 counts 2 ^ 256 minus the order.
use tinychain.Base.{ℕ, ◌+◌, ◌*◌, ◌%◌, ◌^◌, ◌≤◌, ◌<◌, ◌≡◌, arith}
use tinychain.Secp.Scalar.Value.{order}
use tinychain.Secp.Scalar32.{n_c_0, n_c_1, n_c_2, n_c_3}
use tinychain.Secp.Scalar32.Value.{value, HasLimbs, IsScalar}
use tinychain.Secp.Scalar32.Sum.{settle_lem}
use tinychain.Secp.Scalar32.Accumulator.{
  start_lem, muladd_lem, muladd_fast_lem, sumadd_lem, sumadd_fast_lem, extract_lem,
  extract_fast_lem,
}
use tinychain.Secp.Scalar32.Product.{
  Wide, Middle, Low, reduce_to_385, reduce_to_258, reduce_to_256, reduce_512,
}
use tinychain.Secp.Scalar32.Product.Words.{wide_value, HasWideWords}

abbrev middle_value : Middle → ℕ
middle_value m =
    m.m0
    + m.m1 * 2 ^ 32
    + m.m2 * 2 ^ 64
    + m.m3 * 2 ^ 96
    + m.m4 * 2 ^ 128
    + m.m5 * 2 ^ 160
    + m.m6 * 2 ^ 192
    + m.m7 * 2 ^ 224
    + m.m8 * 2 ^ 256
    + m.m9 * 2 ^ 288
    + m.m10 * 2 ^ 320
    + m.m11 * 2 ^ 352
    + m.m12 * 2 ^ 384

-- 2 ^ 256 minus the order.
abbrev excess : ℕ
excess = n_c_0 + n_c_1 * 2 ^ 32 + n_c_2 * 2 ^ 64 + n_c_3 * 2 ^ 96 + 2 ^ 128

record HasMiddleWords (m : Middle) : Type 0 where
  word0 : m.m0 < 2 ^ 32
  word1 : m.m1 < 2 ^ 32
  word2 : m.m2 < 2 ^ 32
  word3 : m.m3 < 2 ^ 32
  word4 : m.m4 < 2 ^ 32
  word5 : m.m5 < 2 ^ 32
  word6 : m.m6 < 2 ^ 32
  word7 : m.m7 < 2 ^ 32
  word8 : m.m8 < 2 ^ 32
  word9 : m.m9 < 2 ^ 32
  word10 : m.m10 < 2 ^ 32
  word11 : m.m11 < 2 ^ 32
  word12 : m.m12 ≤ 1
  bounded : middle_value m < 2 ^ 256 * (1 + excess)

middle_bounded :
    (l : Wide)
    → HasWideWords l
    → (n : ℕ)
    → n
      ≡ l.l0
        + l.l1 * 2 ^ 32
        + l.l2 * 2 ^ 64
        + l.l3 * 2 ^ 96
        + l.l4 * 2 ^ 128
        + l.l5 * 2 ^ 160
        + l.l6 * 2 ^ 192
        + l.l7 * 2 ^ 224
        + (l.l8
            + l.l9 * 2 ^ 32
            + l.l10 * 2 ^ 64
            + l.l11 * 2 ^ 96
            + l.l12 * 2 ^ 128
            + l.l13 * 2 ^ 160
            + l.l14 * 2 ^ 192
            + l.l15 * 2 ^ 224)
          * excess
    → n < 2 ^ 256 * (1 + excess)
middle_bounded l h n e = omega arith

top_word : (m : Middle) → middle_value m < 2 ^ 256 * (1 + excess) → m.m12 ≤ 1
top_word m h = omega arith

reduce_to_385_lem :
    (l : Wide)
    → HasWideWords l
    → HasMiddleWords (reduce_to_385 l)
      × (middle_value (reduce_to_385 l)
          ≡ l.l0
            + l.l1 * 2 ^ 32
            + l.l2 * 2 ^ 64
            + l.l3 * 2 ^ 96
            + l.l4 * 2 ^ 128
            + l.l5 * 2 ^ 160
            + l.l6 * 2 ^ 192
            + l.l7 * 2 ^ 224
            + (l.l8
                + l.l9 * 2 ^ 32
                + l.l10 * 2 ^ 64
                + l.l11 * 2 ^ 96
                + l.l12 * 2 ^ 128
                + l.l13 * 2 ^ 160
                + l.l14 * 2 ^ 192
                + l.l15 * 2 ^ 224)
              * excess)
unfolding reduce_to_385
reduce_to_385_lem l h =
    let c0 : n_c_0 < 2 ^ 32 = omega arith in
    let c1 : n_c_1 < 2 ^ 32 = omega arith in
    let c2 : n_c_2 < 2 ^ 32 = omega arith in
    let c3 : n_c_3 < 2 ^ 32 = omega arith in
    let k0 = muladd_fast_lem l.l8 n_c_0 h.word8 c0 (omega arith) (start_lem l.l0 h.word0) in
    let e0 = extract_fast_lem (omega arith) k0 in
    let k1 = muladd_lem l.l8 n_c_1 h.word8 c1 (omega arith) (
      muladd_lem l.l9 n_c_0 h.word9 c0 (omega arith)
        (sumadd_fast_lem l.l1 h.word1 (omega arith) e0.0)) in
    let e1 = extract_lem (omega arith) k1 in
    let k2 = muladd_lem l.l8 n_c_2 h.word8 c2 (omega arith) (
      muladd_lem l.l9 n_c_1 h.word9 c1 (omega arith) (
        muladd_lem l.l10 n_c_0 h.word10 c0 (omega arith)
          (sumadd_lem l.l2 h.word2 (omega arith) e1.0))) in
    let e2 = extract_lem (omega arith) k2 in
    let k3 = muladd_lem l.l8 n_c_3 h.word8 c3 (omega arith) (
      muladd_lem l.l9 n_c_2 h.word9 c2 (omega arith) (
        muladd_lem l.l10 n_c_1 h.word10 c1 (omega arith) (
          muladd_lem l.l11 n_c_0 h.word11 c0 (omega arith)
            (sumadd_lem l.l3 h.word3 (omega arith) e2.0)))) in
    let e3 = extract_lem (omega arith) k3 in
    let k4 = sumadd_lem l.l8 h.word8 (omega arith) (
      muladd_lem l.l9 n_c_3 h.word9 c3 (omega arith) (
        muladd_lem l.l10 n_c_2 h.word10 c2 (omega arith) (
          muladd_lem l.l11 n_c_1 h.word11 c1 (omega arith) (
            muladd_lem l.l12 n_c_0 h.word12 c0 (omega arith)
              (sumadd_lem l.l4 h.word4 (omega arith) e3.0))))) in
    let e4 = extract_lem (omega arith) k4 in
    let k5 = sumadd_lem l.l9 h.word9 (omega arith) (
      muladd_lem l.l10 n_c_3 h.word10 c3 (omega arith) (
        muladd_lem l.l11 n_c_2 h.word11 c2 (omega arith) (
          muladd_lem l.l12 n_c_1 h.word12 c1 (omega arith) (
            muladd_lem l.l13 n_c_0 h.word13 c0 (omega arith)
              (sumadd_lem l.l5 h.word5 (omega arith) e4.0))))) in
    let e5 = extract_lem (omega arith) k5 in
    let k6 = sumadd_lem l.l10 h.word10 (omega arith) (
      muladd_lem l.l11 n_c_3 h.word11 c3 (omega arith) (
        muladd_lem l.l12 n_c_2 h.word12 c2 (omega arith) (
          muladd_lem l.l13 n_c_1 h.word13 c1 (omega arith) (
            muladd_lem l.l14 n_c_0 h.word14 c0 (omega arith)
              (sumadd_lem l.l6 h.word6 (omega arith) e5.0))))) in
    let e6 = extract_lem (omega arith) k6 in
    let k7 = sumadd_lem l.l11 h.word11 (omega arith) (
      muladd_lem l.l12 n_c_3 h.word12 c3 (omega arith) (
        muladd_lem l.l13 n_c_2 h.word13 c2 (omega arith) (
          muladd_lem l.l14 n_c_1 h.word14 c1 (omega arith) (
            muladd_lem l.l15 n_c_0 h.word15 c0 (omega arith)
              (sumadd_lem l.l7 h.word7 (omega arith) e6.0))))) in
    let e7 = extract_lem (omega arith) k7 in
    let k8 = sumadd_lem l.l12 h.word12 (omega arith) (
      muladd_lem l.l13 n_c_3 h.word13 c3 (omega arith) (
        muladd_lem l.l14 n_c_2 h.word14 c2 (omega arith)
          (muladd_lem l.l15 n_c_1 h.word15 c1 (omega arith) e7.0))) in
    let e8 = extract_lem (omega arith) k8 in
    let k9 = sumadd_lem l.l13 h.word13 (omega arith) (
      muladd_lem l.l14 n_c_3 h.word14 c3 (omega arith)
        (muladd_lem l.l15 n_c_2 h.word15 c2 (omega arith) e8.0)) in
    let e9 = extract_lem (omega arith) k9 in
    let k10 =
      sumadd_lem l.l14 h.word14 (omega arith)
        (muladd_lem l.l15 n_c_3 h.word15 c3 (omega arith) e9.0) in
    let e10 = extract_lem (omega arith) k10 in
    let k11 = sumadd_fast_lem l.l15 h.word15 (omega arith) e10.0 in
    let e11 = extract_fast_lem (omega arith) k11 in
    let total : middle_value (reduce_to_385 l)
        ≡ l.l0
          + l.l1 * 2 ^ 32
          + l.l2 * 2 ^ 64
          + l.l3 * 2 ^ 96
          + l.l4 * 2 ^ 128
          + l.l5 * 2 ^ 160
          + l.l6 * 2 ^ 192
          + l.l7 * 2 ^ 224
          + (l.l8
              + l.l9 * 2 ^ 32
              + l.l10 * 2 ^ 64
              + l.l11 * 2 ^ 96
              + l.l12 * 2 ^ 128
              + l.l13 * 2 ^ 160
              + l.l14 * 2 ^ 192
              + l.l15 * 2 ^ 224)
            * excess =
      omega arith in
    let bounded = middle_bounded l h (middle_value (reduce_to_385 l)) total in
    (
      record {
        word0 = k0.words.word0;
        word1 = k1.words.word0;
        word2 = k2.words.word0;
        word3 = k3.words.word0;
        word4 = k4.words.word0;
        word5 = k5.words.word0;
        word6 = k6.words.word0;
        word7 = k7.words.word0;
        word8 = k8.words.word0;
        word9 = k9.words.word0;
        word10 = k10.words.word0;
        word11 = k11.words.word0;
        word12 = top_word (reduce_to_385 l) bounded;
        bounded = bounded;
      },
      total,
    )

abbrev low_value : Low → ℕ
low_value p =
    p.p0
    + p.p1 * 2 ^ 32
    + p.p2 * 2 ^ 64
    + p.p3 * 2 ^ 96
    + p.p4 * 2 ^ 128
    + p.p5 * 2 ^ 160
    + p.p6 * 2 ^ 192
    + p.p7 * 2 ^ 224
    + p.p8 * 2 ^ 256

record HasLowWords (p : Low) : Type 0 where
  word0 : p.p0 < 2 ^ 32
  word1 : p.p1 < 2 ^ 32
  word2 : p.p2 < 2 ^ 32
  word3 : p.p3 < 2 ^ 32
  word4 : p.p4 < 2 ^ 32
  word5 : p.p5 < 2 ^ 32
  word6 : p.p6 < 2 ^ 32
  word7 : p.p7 < 2 ^ 32
  word8 : p.p8 ≤ 2

reduce_to_258_lem :
    (m : Middle)
    → HasMiddleWords m
    → HasLowWords (reduce_to_258 m)
      × (low_value (reduce_to_258 m)
          ≡ m.m0
            + m.m1 * 2 ^ 32
            + m.m2 * 2 ^ 64
            + m.m3 * 2 ^ 96
            + m.m4 * 2 ^ 128
            + m.m5 * 2 ^ 160
            + m.m6 * 2 ^ 192
            + m.m7 * 2 ^ 224
            + (m.m8 + m.m9 * 2 ^ 32 + m.m10 * 2 ^ 64 + m.m11 * 2 ^ 96 + m.m12 * 2 ^ 128) * excess)
unfolding reduce_to_258
reduce_to_258_lem m h =
    let c0 : n_c_0 < 2 ^ 32 = omega arith in
    let c1 : n_c_1 < 2 ^ 32 = omega arith in
    let c2 : n_c_2 < 2 ^ 32 = omega arith in
    let c3 : n_c_3 < 2 ^ 32 = omega arith in
    let s12 : m.m12 < 2 ^ 32 = omega arith in
    let k0 = muladd_fast_lem m.m8 n_c_0 h.word8 c0 (omega arith) (start_lem m.m0 h.word0) in
    let e0 = extract_fast_lem (omega arith) k0 in
    let k1 = muladd_lem m.m8 n_c_1 h.word8 c1 (omega arith) (
      muladd_lem m.m9 n_c_0 h.word9 c0 (omega arith)
        (sumadd_fast_lem m.m1 h.word1 (omega arith) e0.0)) in
    let e1 = extract_lem (omega arith) k1 in
    let k2 = muladd_lem m.m8 n_c_2 h.word8 c2 (omega arith) (
      muladd_lem m.m9 n_c_1 h.word9 c1 (omega arith) (
        muladd_lem m.m10 n_c_0 h.word10 c0 (omega arith)
          (sumadd_lem m.m2 h.word2 (omega arith) e1.0))) in
    let e2 = extract_lem (omega arith) k2 in
    let k3 = muladd_lem m.m8 n_c_3 h.word8 c3 (omega arith) (
      muladd_lem m.m9 n_c_2 h.word9 c2 (omega arith) (
        muladd_lem m.m10 n_c_1 h.word10 c1 (omega arith) (
          muladd_lem m.m11 n_c_0 h.word11 c0 (omega arith)
            (sumadd_lem m.m3 h.word3 (omega arith) e2.0)))) in
    let e3 = extract_lem (omega arith) k3 in
    let k4 = sumadd_lem m.m8 h.word8 (omega arith) (
      muladd_lem m.m9 n_c_3 h.word9 c3 (omega arith) (
        muladd_lem m.m10 n_c_2 h.word10 c2 (omega arith) (
          muladd_lem m.m11 n_c_1 h.word11 c1 (omega arith) (
            muladd_lem m.m12 n_c_0 s12 c0 (omega arith)
              (sumadd_lem m.m4 h.word4 (omega arith) e3.0))))) in
    let e4 = extract_lem (omega arith) k4 in
    let k5 = sumadd_lem m.m9 h.word9 (omega arith) (
      muladd_lem m.m10 n_c_3 h.word10 c3 (omega arith) (
        muladd_lem m.m11 n_c_2 h.word11 c2 (omega arith) (
          muladd_lem m.m12 n_c_1 s12 c1 (omega arith)
            (sumadd_lem m.m5 h.word5 (omega arith) e4.0)))) in
    let e5 = extract_lem (omega arith) k5 in
    let k6 = sumadd_lem m.m10 h.word10 (omega arith) (
      muladd_lem m.m11 n_c_3 h.word11 c3 (omega arith) (
        muladd_lem m.m12 n_c_2 s12 c2 (omega arith)
          (sumadd_lem m.m6 h.word6 (omega arith) e5.0))) in
    let e6 = extract_lem (omega arith) k6 in
    let k7 = sumadd_fast_lem m.m11 h.word11 (omega arith) (
      muladd_fast_lem m.m12 n_c_3 s12 c3 (omega arith)
        (sumadd_fast_lem m.m7 h.word7 (omega arith) e6.0)) in
    let e7 = extract_fast_lem (omega arith) k7 in (omega arith, omega arith)

reduce_to_256_lem :
    (p : Low)
    → HasLowWords p
    → HasLimbs (reduce_to_256 p).0
      × (value (reduce_to_256 p).0 + (reduce_to_256 p).1 * 2 ^ 256
          ≡ p.p0
            + p.p1 * 2 ^ 32
            + p.p2 * 2 ^ 64
            + p.p3 * 2 ^ 96
            + p.p4 * 2 ^ 128
            + p.p5 * 2 ^ 160
            + p.p6 * 2 ^ 192
            + p.p7 * 2 ^ 224
            + p.p8 * excess)
unfolding reduce_to_256
reduce_to_256_lem p h = omega arith

-- For any sixteen words of 32 bits, `reduce_512` gives their residue modulo the order, below the order.
pub narrow_reduce_512_lem :
    (l : Wide)
    → HasWideWords l
    → IsScalar (reduce_512 l) × (value (reduce_512 l) ≡ wide_value l % order)
unfolding reduce_512
narrow_reduce_512_lem l h =
    let m = reduce_to_385 l in
    let middle = reduce_to_385_lem l h in
    let p = reduce_to_258 m in
    let low = reduce_to_258_lem m middle.0 in
    let r = reduce_to_256 p in
    let last = reduce_to_256_lem p low.0 in
    let settled = settle_lem r.0 r.1 last.0 (omega arith) in (settled.0, omega arith)
