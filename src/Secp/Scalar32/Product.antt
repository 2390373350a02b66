-- ===== src/Secp/Scalar32/Product.antt =====
-- The products of scalar_8x32_impl.h: 512 bits of product, and the three steps that reduce them modulo
-- the order.
pub mod Words
pub mod Reduction
pub mod Laws
use tinychain.Base.{ℕ, ◌+◌, ◌*◌, ◌%◌, ◌^◌, u64, ◌>>>◌, low_bits}
use tinychain.Secp.Scalar32.{Scalar, u32, settle, n_c_0, n_c_1, n_c_2, n_c_3}
use tinychain.Secp.Scalar32.Accumulator.{
  Accumulator, start, muladd, muladd_fast, muladd2, sumadd, sumadd_fast, extract, extract_fast,
}

-- `uint32_t l[16]`
pub record Wide : Type 0 where
  pub l0 : ℕ
  pub l1 : ℕ
  pub l2 : ℕ
  pub l3 : ℕ
  pub l4 : ℕ
  pub l5 : ℕ
  pub l6 : ℕ
  pub l7 : ℕ
  pub l8 : ℕ
  pub l9 : ℕ
  pub l10 : ℕ
  pub l11 : ℕ
  pub l12 : ℕ
  pub l13 : ℕ
  pub l14 : ℕ
  pub l15 : ℕ

unfoldable pub mul_512 : Scalar → Scalar → Wide
mul_512 a b =
    let k0 = muladd_fast a.d0 b.d0 (start 0) in
    let k1 = muladd a.d1 b.d0 (muladd a.d0 b.d1 (extract_fast k0)) in
    let k2 = muladd a.d2 b.d0 (muladd a.d1 b.d1 (muladd a.d0 b.d2 (extract k1))) in
    let k3 =
      muladd a.d3 b.d0 (muladd a.d2 b.d1 (muladd a.d1 b.d2 (muladd a.d0 b.d3 (extract k2)))) in
    let k4 =
      muladd a.d4 b.d0
        (muladd a.d3 b.d1 (muladd a.d2 b.d2 (muladd a.d1 b.d3 (muladd a.d0 b.d4 (extract k3))))) in
    let k5 = muladd a.d5 b.d0 (
      muladd a.d4 b.d1
        (muladd a.d3 b.d2 (muladd a.d2 b.d3 (muladd a.d1 b.d4 (muladd a.d0 b.d5 (extract k4)))))) in
    let k6 = muladd a.d6 b.d0 (
      muladd a.d5 b.d1 (
        muladd a.d4 b.d2 (
          muladd a.d3 b.d3
            (muladd a.d2 b.d4 (muladd a.d1 b.d5 (muladd a.d0 b.d6 (extract k5))))))) in
    let k7 = muladd a.d7 b.d0 (
      muladd a.d6 b.d1 (
        muladd a.d5 b.d2 (
          muladd a.d4 b.d3 (
            muladd a.d3 b.d4
              (muladd a.d2 b.d5 (muladd a.d1 b.d6 (muladd a.d0 b.d7 (extract k6)))))))) in
    let k8 = muladd a.d7 b.d1 (
      muladd a.d6 b.d2 (
        muladd a.d5 b.d3 (
          muladd a.d4 b.d4
            (muladd a.d3 b.d5 (muladd a.d2 b.d6 (muladd a.d1 b.d7 (extract k7))))))) in
    let k9 = muladd a.d7 b.d2 (
      muladd a.d6 b.d3
        (muladd a.d5 b.d4 (muladd a.d4 b.d5 (muladd a.d3 b.d6 (muladd a.d2 b.d7 (extract k8)))))) in
    let k10 =
      muladd a.d7 b.d3
        (muladd a.d6 b.d4 (muladd a.d5 b.d5 (muladd a.d4 b.d6 (muladd a.d3 b.d7 (extract k9))))) in
    let k11 =
      muladd a.d7 b.d4 (muladd a.d6 b.d5 (muladd a.d5 b.d6 (muladd a.d4 b.d7 (extract k10)))) in
    let k12 = muladd a.d7 b.d5 (muladd a.d6 b.d6 (muladd a.d5 b.d7 (extract k11))) in
    let k13 = muladd a.d7 b.d6 (muladd a.d6 b.d7 (extract k12)) in
    let k14 = muladd_fast a.d7 b.d7 (extract k13) in
    let k15 = extract_fast k14 in
    record {
      l0 = k0.c0;
      l1 = k1.c0;
      l2 = k2.c0;
      l3 = k3.c0;
      l4 = k4.c0;
      l5 = k5.c0;
      l6 = k6.c0;
      l7 = k7.c0;
      l8 = k8.c0;
      l9 = k9.c0;
      l10 = k10.c0;
      l11 = k11.c0;
      l12 = k12.c0;
      l13 = k13.c0;
      l14 = k14.c0;
      l15 = k15.c0;
    }

unfoldable pub sqr_512 : Scalar → Wide
sqr_512 a =
    let k0 = muladd_fast a.d0 a.d0 (start 0) in
    let k1 = muladd2 a.d0 a.d1 (extract_fast k0) in
    let k2 = muladd a.d1 a.d1 (muladd2 a.d0 a.d2 (extract k1)) in
    let k3 = muladd2 a.d1 a.d2 (muladd2 a.d0 a.d3 (extract k2)) in
    let k4 = muladd a.d2 a.d2 (muladd2 a.d1 a.d3 (muladd2 a.d0 a.d4 (extract k3))) in
    let k5 = muladd2 a.d2 a.d3 (muladd2 a.d1 a.d4 (muladd2 a.d0 a.d5 (extract k4))) in
    let k6 =
      muladd a.d3 a.d3 (muladd2 a.d2 a.d4 (muladd2 a.d1 a.d5 (muladd2 a.d0 a.d6 (extract k5)))) in
    let k7 =
      muladd2 a.d3 a.d4 (muladd2 a.d2 a.d5 (muladd2 a.d1 a.d6 (muladd2 a.d0 a.d7 (extract k6)))) in
    let k8 =
      muladd a.d4 a.d4 (muladd2 a.d3 a.d5 (muladd2 a.d2 a.d6 (muladd2 a.d1 a.d7 (extract k7)))) in
    let k9 = muladd2 a.d4 a.d5 (muladd2 a.d3 a.d6 (muladd2 a.d2 a.d7 (extract k8))) in
    let k10 = muladd a.d5 a.d5 (muladd2 a.d4 a.d6 (muladd2 a.d3 a.d7 (extract k9))) in
    let k11 = muladd2 a.d5 a.d6 (muladd2 a.d4 a.d7 (extract k10)) in
    let k12 = muladd a.d6 a.d6 (muladd2 a.d5 a.d7 (extract k11)) in
    let k13 = muladd2 a.d6 a.d7 (extract k12) in
    let k14 = muladd_fast a.d7 a.d7 (extract k13) in
    let k15 = extract_fast k14 in
    record {
      l0 = k0.c0;
      l1 = k1.c0;
      l2 = k2.c0;
      l3 = k3.c0;
      l4 = k4.c0;
      l5 = k5.c0;
      l6 = k6.c0;
      l7 = k7.c0;
      l8 = k8.c0;
      l9 = k9.c0;
      l10 = k10.c0;
      l11 = k11.c0;
      l12 = k12.c0;
      l13 = k13.c0;
      l14 = k14.c0;
      l15 = k15.c0;
    }

-- The words `m0` to `m12`.
pub record Middle : Type 0 where
  pub m0 : ℕ
  pub m1 : ℕ
  pub m2 : ℕ
  pub m3 : ℕ
  pub m4 : ℕ
  pub m5 : ℕ
  pub m6 : ℕ
  pub m7 : ℕ
  pub m8 : ℕ
  pub m9 : ℕ
  pub m10 : ℕ
  pub m11 : ℕ
  pub m12 : ℕ

-- Reduce 512 bits into 385: the upper eight words times 2 ^ 256 minus the order.
unfoldable pub reduce_to_385 : Wide → Middle
reduce_to_385 l =
    let k0 = muladd_fast l.l8 n_c_0 (start l.l0) in
    let k1 = muladd l.l8 n_c_1 (muladd l.l9 n_c_0 (sumadd_fast l.l1 (extract_fast k0))) in
    let k2 =
      muladd l.l8 n_c_2 (muladd l.l9 n_c_1 (muladd l.l10 n_c_0 (sumadd l.l2 (extract k1)))) in
    let k3 =
      muladd l.l8 n_c_3
        (muladd l.l9 n_c_2 (muladd l.l10 n_c_1 (muladd l.l11 n_c_0 (sumadd l.l3 (extract k2))))) in
    let k4 = sumadd l.l8 (
      muladd l.l9 n_c_3 (
        muladd l.l10 n_c_2 (muladd l.l11 n_c_1 (muladd l.l12 n_c_0 (sumadd l.l4 (extract k3)))))) in
    let k5 = sumadd l.l9 (
      muladd l.l10 n_c_3 (
        muladd l.l11 n_c_2 (muladd l.l12 n_c_1 (muladd l.l13 n_c_0 (sumadd l.l5 (extract k4)))))) in
    let k6 = sumadd l.l10 (
      muladd l.l11 n_c_3 (
        muladd l.l12 n_c_2 (muladd l.l13 n_c_1 (muladd l.l14 n_c_0 (sumadd l.l6 (extract k5)))))) in
    let k7 = sumadd l.l11 (
      muladd l.l12 n_c_3 (
        muladd l.l13 n_c_2 (muladd l.l14 n_c_1 (muladd l.l15 n_c_0 (sumadd l.l7 (extract k6)))))) in
    let k8 =
      sumadd l.l12 (muladd l.l13 n_c_3 (muladd l.l14 n_c_2 (muladd l.l15 n_c_1 (extract k7)))) in
    let k9 = sumadd l.l13 (muladd l.l14 n_c_3 (muladd l.l15 n_c_2 (extract k8))) in
    let k10 = sumadd l.l14 (muladd l.l15 n_c_3 (extract k9)) in
    let k11 = sumadd_fast l.l15 (extract k10) in
    let k12 = extract_fast k11 in
    record {
      m0 = k0.c0;
      m1 = k1.c0;
      m2 = k2.c0;
      m3 = k3.c0;
      m4 = k4.c0;
      m5 = k5.c0;
      m6 = k6.c0;
      m7 = k7.c0;
      m8 = k8.c0;
      m9 = k9.c0;
      m10 = k10.c0;
      m11 = k11.c0;
      m12 = k12.c0;
    }

-- The words `p0` to `p8`.
pub record Low : Type 0 where
  pub p0 : ℕ
  pub p1 : ℕ
  pub p2 : ℕ
  pub p3 : ℕ
  pub p4 : ℕ
  pub p5 : ℕ
  pub p6 : ℕ
  pub p7 : ℕ
  pub p8 : ℕ

-- Reduce 385 bits into 258.
unfoldable pub reduce_to_258 : Middle → Low
reduce_to_258 m =
    let k0 = muladd_fast m.m8 n_c_0 (start m.m0) in
    let k1 = muladd m.m8 n_c_1 (muladd m.m9 n_c_0 (sumadd_fast m.m1 (extract_fast k0))) in
    let k2 =
      muladd m.m8 n_c_2 (muladd m.m9 n_c_1 (muladd m.m10 n_c_0 (sumadd m.m2 (extract k1)))) in
    let k3 =
      muladd m.m8 n_c_3
        (muladd m.m9 n_c_2 (muladd m.m10 n_c_1 (muladd m.m11 n_c_0 (sumadd m.m3 (extract k2))))) in
    let k4 = sumadd m.m8 (
      muladd m.m9 n_c_3 (
        muladd m.m10 n_c_2 (muladd m.m11 n_c_1 (muladd m.m12 n_c_0 (sumadd m.m4 (extract k3)))))) in
    let k5 =
      sumadd m.m9
        (muladd m.m10 n_c_3 (muladd m.m11 n_c_2 (muladd m.m12 n_c_1 (sumadd m.m5 (extract k4))))) in
    let k6 = sumadd m.m10 (muladd m.m11 n_c_3 (muladd m.m12 n_c_2 (sumadd m.m6 (extract k5)))) in
    let k7 = sumadd_fast m.m11 (muladd_fast m.m12 n_c_3 (sumadd_fast m.m7 (extract k6))) in
    let k8 = extract_fast k7 in
    record {
      p0 = k0.c0;
      p1 = k1.c0;
      p2 = k2.c0;
      p3 = k3.c0;
      p4 = k4.c0;
      p5 = k5.c0;
      p6 = k6.c0;
      p7 = k7.c0;
      p8 = u32 (k8.c0 + m.m12);
    }

-- Reduce 258 bits into 256, with the carry `c` out of the top word.
unfoldable pub reduce_to_256 : Low → Scalar × ℕ
reduce_to_256 p =
    let t0 = u64 (p.p0 + u64 (n_c_0 * p.p8)) in
    let t1 = u64 ((t0 >>> 32) + u64 (p.p1 + u64 (n_c_1 * p.p8))) in
    let t2 = u64 ((t1 >>> 32) + u64 (p.p2 + u64 (n_c_2 * p.p8))) in
    let t3 = u64 ((t2 >>> 32) + u64 (p.p3 + u64 (n_c_3 * p.p8))) in
    let t4 = u64 ((t3 >>> 32) + u64 (p.p4 + p.p8)) in
    let t5 = u64 ((t4 >>> 32) + p.p5) in
    let t6 = u64 ((t5 >>> 32) + p.p6) in
    let t7 = u64 ((t6 >>> 32) + p.p7) in
    (
      record {
        d0 = low_bits t0 32;
        d1 = low_bits t1 32;
        d2 = low_bits t2 32;
        d3 = low_bits t3 32;
        d4 = low_bits t4 32;
        d5 = low_bits t5 32;
        d6 = low_bits t6 32;
        d7 = low_bits t7 32;
      },
      t7 >>> 32,
    )

unfoldable pub reduce_512 : Wide → Scalar
reduce_512 l = let r = reduce_to_256 (reduce_to_258 (reduce_to_385 l)) in (settle r.0 r.1).0

unfoldable pub mul : Scalar → Scalar → Scalar
mul a b = reduce_512 (mul_512 a b)

unfoldable pub sqr : Scalar → Scalar
sqr a = reduce_512 (sqr_512 a)
