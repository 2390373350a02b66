-- ===== src/Secp/Scalar/Product/Reduction.antt =====
-- The reductions modulo the order: a word above 2 ^ 256 counts 2 ^ 256 minus the order.
use tinychain.Base.{ℕ, ◌+◌, ◌*◌, ◌%◌, ◌^◌, ◌≤◌, ◌<◌, ◌≡◌, arith}
use tinychain.Secp.Scalar.{n_c_0, n_c_1}
use tinychain.Secp.Scalar.Value.{value, order, HasLimbs, IsScalar}
use tinychain.Secp.Scalar.Sum.{settle_lem}
use tinychain.Secp.Scalar.Accumulator.{
  start_lem, muladd_lem, muladd_fast_lem, sumadd_lem, sumadd_fast_lem, extract_lem,
  extract_fast_lem,
}
use tinychain.Secp.Scalar.Product.{
  Wide, Middle, Low, reduce_to_385, reduce_to_258, reduce_to_256, reduce_512,
}
use tinychain.Secp.Scalar.Product.Words.{wide_value, HasWideWords}

abbrev middle_value : Middle → ℕ
middle_value m =
    m.m0
    + m.m1 * 2 ^ 64
    + m.m2 * 2 ^ 128
    + m.m3 * 2 ^ 192
    + m.m4 * 2 ^ 256
    + m.m5 * 2 ^ 320
    + m.m6 * 2 ^ 384

-- 2 ^ 256 minus the order.
abbrev excess : ℕ
excess = n_c_0 + n_c_1 * 2 ^ 64 + 2 ^ 128

record HasMiddleWords (m : Middle) : Type 0 where
  word0 : m.m0 < 2 ^ 64
  word1 : m.m1 < 2 ^ 64
  word2 : m.m2 < 2 ^ 64
  word3 : m.m3 < 2 ^ 64
  word4 : m.m4 < 2 ^ 64
  word5 : m.m5 < 2 ^ 64
  word6 : m.m6 ≤ 1
  bounded : middle_value m < 2 ^ 256 * (1 + excess)

reduce_to_385_lem :
    (l : Wide)
    → HasWideWords l
    → HasMiddleWords (reduce_to_385 l)
      × (middle_value (reduce_to_385 l)
          ≡ l.l0
            + l.l1 * 2 ^ 64
            + l.l2 * 2 ^ 128
            + l.l3 * 2 ^ 192
            + (l.l4 + l.l5 * 2 ^ 64 + l.l6 * 2 ^ 128 + l.l7 * 2 ^ 192) * excess)
unfolding reduce_to_385
reduce_to_385_lem l h =
    let c0 : n_c_0 < 2 ^ 64 = omega arith in
    let c1 : n_c_1 < 2 ^ 64 = omega arith in
    let k0 = muladd_fast_lem l.l4 n_c_0 h.word4 c0 (start_lem l.l0 h.word0) (omega arith) in
    let e0 = extract_fast_lem k0 (omega arith) in
    let k1 =
      muladd_lem l.l4 n_c_1 h.word4 c1
        (muladd_lem l.l5 n_c_0 h.word5 c0 (sumadd_fast_lem l.l1 h.word1 e0.0 (omega arith))
          (omega arith))
        (omega arith) in
    let e1 = extract_lem k1 in
    let k2 =
      sumadd_lem l.l4 h.word4
        (muladd_lem l.l5 n_c_1 h.word5 c1
          (muladd_lem l.l6 n_c_0 h.word6 c0 (sumadd_lem l.l2 h.word2 e1.0 (omega arith))
            (omega arith))
          (omega arith))
        (omega arith) in
    let e2 = extract_lem k2 in
    let k3 =
      sumadd_lem l.l5 h.word5
        (muladd_lem l.l6 n_c_1 h.word6 c1
          (muladd_lem l.l7 n_c_0 h.word7 c0 (sumadd_lem l.l3 h.word3 e2.0 (omega arith))
            (omega arith))
          (omega arith))
        (omega arith) in
    let e3 = extract_lem k3 in
    let k4 =
      sumadd_lem l.l6 h.word6 (muladd_lem l.l7 n_c_1 h.word7 c1 e3.0 (omega arith)) (omega arith) in
    let e4 = extract_lem k4 in
    let k5 = sumadd_fast_lem l.l7 h.word7 e4.0 (omega arith) in
    let e5 = extract_fast_lem k5 (omega arith) in (omega arith, omega arith)

abbrev low_value : Low → ℕ
low_value p = p.p0 + p.p1 * 2 ^ 64 + p.p2 * 2 ^ 128 + p.p3 * 2 ^ 192 + p.p4 * 2 ^ 256

record HasLowWords (p : Low) : Type 0 where
  word0 : p.p0 < 2 ^ 64
  word1 : p.p1 < 2 ^ 64
  word2 : p.p2 < 2 ^ 64
  word3 : p.p3 < 2 ^ 64
  word4 : p.p4 ≤ 2

reduce_to_258_lem :
    (m : Middle)
    → HasMiddleWords m
    → HasLowWords (reduce_to_258 m)
      × (low_value (reduce_to_258 m)
          ≡ m.m0
            + m.m1 * 2 ^ 64
            + m.m2 * 2 ^ 128
            + m.m3 * 2 ^ 192
            + (m.m4 + m.m5 * 2 ^ 64 + m.m6 * 2 ^ 128) * excess)
unfolding reduce_to_258
reduce_to_258_lem m h =
    let c0 : n_c_0 < 2 ^ 64 = omega arith in
    let c1 : n_c_1 < 2 ^ 64 = omega arith in
    let s6 : m.m6 < 2 ^ 64 = omega arith in
    let k0 = muladd_fast_lem m.m4 n_c_0 h.word4 c0 (start_lem m.m0 h.word0) (omega arith) in
    let e0 = extract_fast_lem k0 (omega arith) in
    let k1 =
      muladd_lem m.m4 n_c_1 h.word4 c1
        (muladd_lem m.m5 n_c_0 h.word5 c0 (sumadd_fast_lem m.m1 h.word1 e0.0 (omega arith))
          (omega arith))
        (omega arith) in
    let e1 = extract_lem k1 in
    let k2 =
      sumadd_lem m.m4 h.word4
        (muladd_lem m.m5 n_c_1 h.word5 c1
          (muladd_lem m.m6 n_c_0 s6 c0 (sumadd_lem m.m2 h.word2 e1.0 (omega arith)) (omega arith))
          (omega arith))
        (omega arith) in
    let e2 = extract_lem k2 in
    let k3 =
      sumadd_fast_lem m.m5 h.word5
        (muladd_fast_lem m.m6 n_c_1 s6 c1 (sumadd_fast_lem m.m3 h.word3 e2.0 (omega arith))
          (omega arith))
        (omega arith) in
    let e3 = extract_fast_lem k3 (omega arith) in (omega arith, omega arith)

reduce_to_256_lem :
    (p : Low)
    → HasLowWords p
    → HasLimbs (reduce_to_256 p).0
      × (value (reduce_to_256 p).0 + (reduce_to_256 p).1 * 2 ^ 256
          ≡ p.p0 + p.p1 * 2 ^ 64 + p.p2 * 2 ^ 128 + p.p3 * 2 ^ 192 + p.p4 * excess)
unfolding reduce_to_256
reduce_to_256_lem p h = omega arith

-- For any eight words of 64 bits, `reduce_512` gives their residue modulo the order, below the order.
pub reduce_512_lem :
    (l : Wide)
    → HasWideWords l
    → IsScalar (reduce_512 l) × (value (reduce_512 l) ≡ wide_value l % order)
unfolding reduce_512
reduce_512_lem l h =
    let m = reduce_to_385 l in
    let middle = reduce_to_385_lem l h in
    let p = reduce_to_258 m in
    let low = reduce_to_258_lem m middle.0 in
    let r = reduce_to_256 p in
    let last = reduce_to_256_lem p low.0 in
    let settled = settle_lem r.0 r.1 last.0 (omega arith) in (settled.0, omega arith)
