-- ===== src/Secp/Field/Product/Columns.antt =====
-- Folding the nine sums into five limbs keeps their value modulo the characteristic.
use tinychain.Base.{
  ℕ, ◌+◌, ◌-◌, ◌*◌, ◌/◌, ◌%◌, ◌^◌, ◌≤◌, ◌<◌, ◌≡◌, arith, bit_or, low_bits, u64, u128, ◌<<<◌,
}
use tinychain.Base.Bits.{bit_or_fields}
use tinychain.Secp.Field.{Fe}
use tinychain.Secp.Field.Value.{value, prime}
use tinychain.Secp.Field.Product.{Sums, Upper, fold_upper, fold_lower, fold_sums}

abbrev pub sums_value : Sums → ℕ
sums_value s =
    s.p0
    + s.p1 * 2 ^ 52
    + s.p2 * 2 ^ 104
    + s.p3 * 2 ^ 156
    + s.p4 * 2 ^ 208
    + s.p5 * 2 ^ 260
    + s.p6 * 2 ^ 312
    + s.p7 * 2 ^ 364
    + s.p8 * 2 ^ 416

-- The widths that the VERIFY_BITS lines state.
pub record AreBounded (s : Sums) : Type 0 where
  pub p0 : s.p0 < 2 ^ 112
  pub p1 : s.p1 < 2 ^ 113
  pub p2 : s.p2 < 2 ^ 114
  pub p3 : s.p3 < 2 ^ 114
  pub p4 : s.p4 < 2 ^ 114 + 2 ^ 109
  pub p5 : s.p5 < 2 ^ 114
  pub p6 : s.p6 < 2 ^ 113
  pub p7 : s.p7 < 2 ^ 109
  pub p8 : s.p8 < 2 ^ 104

fold_upper_lem :
    (s : Sums)
    → AreBounded s
    → let h = fold_upper s in
      (h.t3 + (h.t4 + h.tx * 2 ^ 48) * 2 ^ 52 + h.d * 2 ^ 104 + s.p8 * 2 ^ 4 * prime
        ≡ s.p3 + s.p4 * 2 ^ 52 + s.p8 * 2 ^ 260)
      × (h.t3 < 2 ^ 52)
      × (h.t4 < 2 ^ 48)
      × (h.tx < 2 ^ 4)
      × (h.d < 2 ^ 64)
unfolding fold_upper
fold_upper_lem s b = omega arith

-- `u0 = (u0 << 4) | tx`.
shifted_in : (u t : ℕ) → u < 2 ^ 52 → t < 2 ^ 4 → u64 (bit_or (u64 (u <<< 4)) t) ≡ u * 2 ^ 4 + t
shifted_in u t h k = ground (arith, bit_or_fields 4 u t)

fold_lower_lem :
    (s : Sums) (h : Upper)
    → AreBounded s
    → h.t3 < 2 ^ 52
    → h.t4 < 2 ^ 48
    → h.tx < 2 ^ 4
    → h.d < 2 ^ 64
    → let r = fold_lower s h in
      let d5 = h.d + s.p5 in
      (q : ℕ) × (value r + q * prime
        ≡ s.p0
          + s.p1 * 2 ^ 52
          + s.p2 * 2 ^ 104
          + h.t3 * 2 ^ 156
          + (h.t4 + h.tx * 2 ^ 48) * 2 ^ 208
          + d5 * 2 ^ 260
          + s.p6 * 2 ^ 312
          + s.p7 * 2 ^ 364)
      × (r.n0 < 2 ^ 52)
      × (r.n1 < 2 ^ 52)
      × (r.n2 < 2 ^ 52)
      × (r.n3 < 2 ^ 52)
      × (r.n4 ≤ 2 ^ 49 - 2)
unfolding fold_lower
fold_lower_lem s h b ht3 ht4 htx hd =
    let d5 = h.d + s.p5 in
    let d6 = d5 / 2 ^ 52 + s.p6 in
    let d7 = d6 / 2 ^ 52 + s.p7 in
    let join = shifted_in (low_bits (u128 d5) 52) h.tx (omega arith) htx in
    (
      low_bits d5 52 * 2 ^ 4
          + h.tx
          + (low_bits d6 52 * 2 ^ 52 + low_bits d7 52 * 2 ^ 104 + d7 / 2 ^ 52 * 2 ^ 156) * 2 ^ 4,
      rw join (omega arith),
      rw join (omega arith),
      rw join (omega arith),
      rw join (omega arith),
      rw join (omega arith),
      rw join (omega arith),
    )

-- Limbs of 52 bits below a top limb of 49.
abbrev pub HasNarrowLimbs : Fe → Type 0
HasNarrowLimbs r =
    (r.n0 < 2 ^ 52) × (r.n1 < 2 ^ 52) × (r.n2 < 2 ^ 52) × (r.n3 < 2 ^ 52) × (r.n4 ≤ 2 ^ 49 - 2)

pub fold_sums_lem :
    (s : Sums)
    → AreBounded s
    → (value (fold_sums s) % prime ≡ sums_value s % prime) × HasNarrowLimbs (fold_sums s)
unfolding fold_sums
fold_sums_lem s b =
    let h = fold_upper s in
    let upper = fold_upper_lem s b in
    let lower = fold_lower_lem s h b upper.1 upper.2 upper.3 upper.4 in
    let q = lower.0 + s.p8 * 2 ^ 160 in
    let same : value (fold_lower s h) + q * prime ≡ sums_value s = omega arith in
    (omega arith, (lower.2, lower.3, lower.4, lower.5, lower.6))
