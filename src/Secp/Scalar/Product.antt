-- ===== src/Secp/Scalar/Product.antt =====
-- The products of scalar_4x64_impl.h in their portable C form: 512 bits of product, and the three
-- steps that reduce them modulo the order.
pub mod Words
pub mod Reduction
pub mod Laws
use tinychain.Base.{ℕ, ◌+◌, ◌*◌, ◌%◌, ◌^◌, u64, u128, ◌>>>◌, low_bits}
use tinychain.Secp.Scalar.{Scalar, settle, n_c_0, n_c_1}
use tinychain.Secp.Scalar.Accumulator.{
  Accumulator, start, muladd, muladd_fast, muladd2, sumadd, sumadd_fast, extract, extract_fast,
}

-- `uint64_t l[8]`
pub record Wide : Type 0 where
  pub l0 : ℕ
  pub l1 : ℕ
  pub l2 : ℕ
  pub l3 : ℕ
  pub l4 : ℕ
  pub l5 : ℕ
  pub l6 : ℕ
  pub l7 : ℕ

unfoldable pub mul_512 : Scalar → Scalar → Wide
mul_512 a b =
    let k0 = muladd_fast a.d0 b.d0 (start 0) in
    let k1 = muladd a.d1 b.d0 (muladd a.d0 b.d1 (extract_fast k0)) in
    let k2 = muladd a.d2 b.d0 (muladd a.d1 b.d1 (muladd a.d0 b.d2 (extract k1))) in
    let k3 =
      muladd a.d3 b.d0 (muladd a.d2 b.d1 (muladd a.d1 b.d2 (muladd a.d0 b.d3 (extract k2)))) in
    let k4 = muladd a.d3 b.d1 (muladd a.d2 b.d2 (muladd a.d1 b.d3 (extract k3))) in
    let k5 = muladd a.d3 b.d2 (muladd a.d2 b.d3 (extract k4)) in
    let k6 = muladd_fast a.d3 b.d3 (extract k5) in
    let k7 = extract_fast k6 in
    record {
      l0 = k0.c0;
      l1 = k1.c0;
      l2 = k2.c0;
      l3 = k3.c0;
      l4 = k4.c0;
      l5 = k5.c0;
      l6 = k6.c0;
      l7 = k7.c0;
    }

unfoldable pub sqr_512 : Scalar → Wide
sqr_512 a =
    let k0 = muladd_fast a.d0 a.d0 (start 0) in
    let k1 = muladd2 a.d0 a.d1 (extract_fast k0) in
    let k2 = muladd a.d1 a.d1 (muladd2 a.d0 a.d2 (extract k1)) in
    let k3 = muladd2 a.d1 a.d2 (muladd2 a.d0 a.d3 (extract k2)) in
    let k4 = muladd a.d2 a.d2 (muladd2 a.d1 a.d3 (extract k3)) in
    let k5 = muladd2 a.d2 a.d3 (extract k4) in
    let k6 = muladd_fast a.d3 a.d3 (extract k5) in
    let k7 = extract_fast k6 in
    record {
      l0 = k0.c0;
      l1 = k1.c0;
      l2 = k2.c0;
      l3 = k3.c0;
      l4 = k4.c0;
      l5 = k5.c0;
      l6 = k6.c0;
      l7 = k7.c0;
    }

-- The words `m0` to `m6`.
pub record Middle : Type 0 where
  pub m0 : ℕ
  pub m1 : ℕ
  pub m2 : ℕ
  pub m3 : ℕ
  pub m4 : ℕ
  pub m5 : ℕ
  pub m6 : ℕ

-- Reduce 512 bits into 385: the upper four words times 2 ^ 256 minus the order.
unfoldable pub reduce_to_385 : Wide → Middle
reduce_to_385 l =
    let k0 = muladd_fast l.l4 n_c_0 (start l.l0) in
    let k1 = muladd l.l4 n_c_1 (muladd l.l5 n_c_0 (sumadd_fast l.l1 (extract_fast k0))) in
    let k2 = sumadd l.l4 (muladd l.l5 n_c_1 (muladd l.l6 n_c_0 (sumadd l.l2 (extract k1)))) in
    let k3 = sumadd l.l5 (muladd l.l6 n_c_1 (muladd l.l7 n_c_0 (sumadd l.l3 (extract k2)))) in
    let k4 = sumadd l.l6 (muladd l.l7 n_c_1 (extract k3)) in
    let k5 = sumadd_fast l.l7 (extract k4) in
    let k6 = extract_fast k5 in
    record {
      m0 = k0.c0;
      m1 = k1.c0;
      m2 = k2.c0;
      m3 = k3.c0;
      m4 = k4.c0;
      m5 = k5.c0;
      m6 = k6.c0 % 2 ^ 32;
    }

-- The words `p0` to `p4`.
pub record Low : Type 0 where
  pub p0 : ℕ
  pub p1 : ℕ
  pub p2 : ℕ
  pub p3 : ℕ
  pub p4 : ℕ

-- Reduce 385 bits into 258.
unfoldable pub reduce_to_258 : Middle → Low
reduce_to_258 m =
    let k0 = muladd_fast m.m4 n_c_0 (start m.m0) in
    let k1 = muladd m.m4 n_c_1 (muladd m.m5 n_c_0 (sumadd_fast m.m1 (extract_fast k0))) in
    let k2 = sumadd m.m4 (muladd m.m5 n_c_1 (muladd m.m6 n_c_0 (sumadd m.m2 (extract k1)))) in
    let k3 = sumadd_fast m.m5 (muladd_fast m.m6 n_c_1 (sumadd_fast m.m3 (extract k2))) in
    let k4 = extract_fast k3 in
    record { p0 = k0.c0; p1 = k1.c0; p2 = k2.c0; p3 = k3.c0; p4 = (k4.c0 + m.m6) % 2 ^ 32 }

-- Reduce 258 bits into 256, with the carry `c` out of the top word.
unfoldable pub reduce_to_256 : Low → Scalar × ℕ
reduce_to_256 p =
    let t0 = u128 (p.p0 + u128 (n_c_0 * p.p4)) in
    let t1 = u128 ((t0 >>> 64) + (p.p1 + u128 (n_c_1 * p.p4))) in
    let t2 = u128 ((t1 >>> 64) + (p.p2 + p.p4)) in
    let t3 = u128 ((t2 >>> 64) + p.p3) in
    (
      record { d0 = low_bits t0 64; d1 = low_bits t1 64; d2 = low_bits t2 64; d3 = low_bits t3 64 },
      t3 >>> 64,
    )

unfoldable pub reduce_512 : Wide → Scalar
reduce_512 l = let r = reduce_to_256 (reduce_to_258 (reduce_to_385 l)) in (settle r.0 r.1).0

unfoldable pub mul : Scalar → Scalar → Scalar
mul a b = reduce_512 (mul_512 a b)

unfoldable pub sqr : Scalar → Scalar
sqr a = reduce_512 (sqr_512 a)
