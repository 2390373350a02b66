-- ===== src/Secp/Field/Product.antt =====
-- Multiplication and squaring: field_5x52_int128_impl.h. Accumulators are `uint128_t`. A sum of
-- products is wrapped at 2 ^ 128 once, which is what wrapping each partial sum gives.
pub mod Columns
pub mod Laws
use tinychain.Base.{ℕ, ◌+◌, ◌*◌, ◌/◌, ◌%◌, ◌^◌, bit_or, u64, u128, ◌<<<◌, ◌>>>◌, low_bits}
use tinychain.Secp.Field.{Fe}

abbrev pub fold_factor : ℕ
fold_factor = 0x1000003D10

-- The sums `px` of the comments: the products of limbs that stand at 2 ^ (52 * x).
pub record Sums : Type 0 where
  pub p0 : ℕ
  pub p1 : ℕ
  pub p2 : ℕ
  pub p3 : ℕ
  pub p4 : ℕ
  pub p5 : ℕ
  pub p6 : ℕ
  pub p7 : ℕ
  pub p8 : ℕ

-- What is at hand after `tx = (t4 >> 48); t4 &= (M >> 4);`.
pub record Upper : Type 0 where
  pub d : ℕ
  pub t3 : ℕ
  pub t4 : ℕ
  pub tx : ℕ

unfoldable pub fold_upper : Sums → Upper
fold_upper s =
    let d3 = u128 (s.p3 + u128 (low_bits s.p8 52 * fold_factor)) in
    let c = s.p8 >>> 52 in
    let t3 = low_bits d3 52 in
    let d4 = u128 (u128 ((d3 >>> 52) + s.p4) + u128 (c * fold_factor)) in
    let t4 = low_bits d4 52 in
    record { d = d4 >>> 52; t3 = t3; t4 = low_bits t4 48; tx = t4 >>> 48 }

-- The rest, from `c = a0 * b[0]` on.
unfoldable pub fold_lower : Sums → Upper → Fe
fold_lower s h =
    let d5 = u128 (h.d + s.p5) in
    let u0 = u64 (bit_or (u64 (low_bits d5 52 <<< 4)) h.tx) in
    let c0 = u128 (s.p0 + u128 (u0 * (fold_factor >>> 4))) in
    let d6 = u128 ((d5 >>> 52) + s.p6) in
    let c1 = u128 (u128 ((c0 >>> 52) + s.p1) + u128 (low_bits d6 52 * fold_factor)) in
    let d7 = u128 ((d6 >>> 52) + s.p7) in
    let c2 = u128 (u128 ((c1 >>> 52) + s.p2) + u128 (low_bits d7 52 * fold_factor)) in
    let c3 = u128 ((c2 >>> 52) + u128 (u128 ((d7 >>> 52) * fold_factor) + h.t3)) in
    record {
      n0 = low_bits c0 52;
      n1 = low_bits c1 52;
      n2 = low_bits c2 52;
      n3 = low_bits c3 52;
      n4 = u64 (u128 ((c3 >>> 52) + h.t4));
    }

unfoldable pub fold_sums : Sums → Fe
fold_sums s = fold_lower s (fold_upper s)

unfoldable pub mul_sums : Fe → Fe → Sums
mul_sums a b = record {
  p0 = u128 (a.n0 * b.n0);
  p1 = u128 (a.n0 * b.n1 + a.n1 * b.n0);
  p2 = u128 (a.n0 * b.n2 + a.n1 * b.n1 + a.n2 * b.n0);
  p3 = u128 (a.n0 * b.n3 + a.n1 * b.n2 + a.n2 * b.n1 + a.n3 * b.n0);
  p4 = u128 (a.n0 * b.n4 + a.n1 * b.n3 + a.n2 * b.n2 + a.n3 * b.n1 + a.n4 * b.n0);
  p5 = u128 (a.n1 * b.n4 + a.n2 * b.n3 + a.n3 * b.n2 + a.n4 * b.n1);
  p6 = u128 (a.n2 * b.n4 + a.n3 * b.n3 + a.n4 * b.n2);
  p7 = u128 (a.n3 * b.n4 + a.n4 * b.n3);
  p8 = u128 (a.n4 * b.n4);
}

unfoldable pub mul_inner : Fe → Fe → Fe
mul_inner a b = fold_sums (mul_sums a b)

-- `a4` and `a0` are doubled in place once their squares are taken.
unfoldable pub sqr_sums : Fe → Sums
sqr_sums a =
    let a0 = u64 (a.n0 * 2) in
    let a1 = u64 (a.n1 * 2) in
    let a2 = u64 (a.n2 * 2) in
    let a4 = u64 (a.n4 * 2) in
    record {
      p0 = u128 (a.n0 * a.n0);
      p1 = u128 (a0 * a.n1);
      p2 = u128 (a0 * a.n2 + a.n1 * a.n1);
      p3 = u128 (a0 * a.n3 + a1 * a.n2);
      p4 = u128 (a.n0 * a4 + a1 * a.n3 + a.n2 * a.n2);
      p5 = u128 (a.n1 * a4 + a2 * a.n3);
      p6 = u128 (a.n2 * a4 + a.n3 * a.n3);
      p7 = u128 (a.n3 * a4);
      p8 = u128 (a.n4 * a.n4);
    }

unfoldable pub sqr_inner : Fe → Fe
sqr_inner a = fold_sums (sqr_sums a)

-- `secp256k1_fe_mul` and `secp256k1_fe_sqr` of field_5x52_impl.h.
unfoldable pub mul : Fe → Fe → Fe
mul a b = mul_inner a b

unfoldable pub sqr : Fe → Fe
sqr a = sqr_inner a
