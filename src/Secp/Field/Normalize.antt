-- ===== src/Secp/Field/Normalize.antt =====
-- The normalizations of field_5x52_impl.h and the residue modulo the characteristic.
use tinychain.Base.{sym, ◌∙◌, ℕ, ◌+◌, ◌*◌, ◌/◌, ◌%◌, ◌^◌, ◌≤◌, ◌<◌, ◌≡◌, ◌⊎◌, arith}
use tinychain.Base.{bit_and, ◌>>>◌, low_bits, inl, inr, ◌↔◌}
use tinychain.Base.Bits.{bit_and-le}
use tinychain.Secp.Field.{
  Fe, carry, limb_mask, normalize_weak, final_reduction, normalize, normalize_var,
}
use tinychain.Secp.Field.Value.{value, prime, HasMagnitude, IsNormalized}
use tinychain.Secp.Field.Carry.{Fits, value-carry, carry_bounds}

-- The largest magnitude at which no limb of a pass wraps.
abbrev pub max_magnitude : ℕ
max_magnitude = 2047

-- What the first pass leaves: limbs of 52 bits, and at most one carry in the top one.
pub record IsWeak (t : Fe) : Type 0 where
  pub low0 : t.n0 ≤ limb_mask
  pub low1 : t.n1 ≤ limb_mask
  pub low2 : t.n2 ≤ limb_mask
  pub low3 : t.n3 ≤ limb_mask
  pub bounded : value t < 2 ^ 256 + 2 ^ 222

first_pass-Fits :
    {r : Fe}
    → HasMagnitude max_magnitude r
    → Fits (record r { n4 = low_bits r.n4 48 }) (r.n4 >>> 48)
first_pass-Fits h = omega arith

pub value-normalize_weak :
    (r : Fe)
    → HasMagnitude max_magnitude r
    → value (normalize_weak r) + r.n4 / 2 ^ 48 * prime ≡ value r
unfolding normalize_weak
value-normalize_weak r h =
    omega
      (arith, value-carry (record r { n4 = low_bits r.n4 48 }) (r.n4 >>> 48) (first_pass-Fits h))

pub normalize_weak-IsWeak : (r : Fe) → HasMagnitude max_magnitude r → IsWeak (normalize_weak r)
unfolding normalize_weak
normalize_weak-IsWeak r h =
    let s = record r { n4 = low_bits r.n4 48 } in
    let fits : Fits s (r.n4 >>> 48) = first_pass-Fits h in
    let bounds = carry_bounds s (r.n4 >>> 48) fits in
    let same = value-carry s (r.n4 >>> 48) fits in
    record {
      low0 = bounds.0;
      low1 = bounds.1;
      low2 = bounds.2;
      low3 = bounds.3;
      bounded = omega arith;
    }

mask_iff :
    (a b c : ℕ)
    → a ≤ limb_mask
    → b ≤ limb_mask
    → c ≤ limb_mask
    → (bit_and (bit_and a b) c ≡ limb_mask) ↔ ((a ≡ limb_mask) × (b ≡ limb_mask) × (c ≡ limb_mask))
mask_iff a b c ha hb hc =
    (λ h. omega (arith, bit_and-le a b, bit_and-le (bit_and a b) c), λ h. ground (arith, h))

-- The test is exact: 1 from the characteristic on, 0 below it.
final_reduction_lem :
    (t : Fe)
    → IsWeak t
    → ((final_reduction t ≡ 1) × (prime ≤ value t)) ⊎ ((final_reduction t ≡ 0) × (value t < prime))
unfolding final_reduction
final_reduction_lem t h = ground (arith, mask_iff t.n1 t.n2 t.n3)

final-Fits : (t : Fe) (x : ℕ) → IsWeak t → x ≤ 1 → Fits t x
final-Fits t x h k = omega arith

-- One subtraction of the characteristic, done as an addition whose carry out of bit 256 is dropped.
subtracted :
    (t : Fe)
    → IsWeak t
    → prime ≤ value t
    → let u = carry t 1 in
      let v = record u { n4 = low_bits u.n4 48 } in IsNormalized v × (value v + prime ≡ value t)
subtracted t h ge =
    let fits = final-Fits t 1 h (omega arith) in
    let bounds = carry_bounds t 1 fits in
    let same = value-carry t 1 fits in (omega arith, omega arith)

kept :
    (t : Fe)
    → IsWeak t
    → value t < prime
    → let u = carry t 0 in
      let v = record u { n4 = low_bits u.n4 48 } in IsNormalized v × (value v ≡ value t)
kept t h lt =
    let fits = final-Fits t 0 h (omega arith) in
    let bounds = carry_bounds t 0 fits in
    let same = value-carry t 0 fits in (omega arith, omega arith)

-- What it means to normalize `r` to `v`.
abbrev pub NormalizesTo : Fe → Fe → Type 0
NormalizesTo r v = IsNormalized v × (value v ≡ value r % prime)

-- For limbs of magnitude at most 2047, `normalize` gives the limbs of the residue modulo the
-- characteristic.
pub normalize_lem : (r : Fe) → HasMagnitude max_magnitude r → NormalizesTo r (normalize r)
unfolding normalize
normalize_lem r h =
    let t = normalize_weak r in
    let weak = normalize_weak-IsWeak r h in
    elim (final_reduction_lem t weak) [
      | inl (one, ge) ↦ rw one (omega (arith, subtracted t weak ge, value-normalize_weak r h))
      | inr (off, lt) ↦ rw off (omega (arith, kept t weak lt, value-normalize_weak r h))
    ]

pub normalize_var_lem : (r : Fe) → HasMagnitude max_magnitude r → NormalizesTo r (normalize_var r)
unfolding normalize_var
normalize_var_lem r h =
    let t = normalize_weak r in
    let weak = normalize_weak-IsWeak r h in
    elim (final_reduction_lem t weak) [
      | inl (one, ge) ↦ rw one (omega (arith, subtracted t weak ge, value-normalize_weak r h))
      | inr (off, lt) ↦ rw off (omega (arith, weak, value-normalize_weak r h))
    ]

-- Normalized limbs are determined by their value.
pub normalized_unique : (s t : Fe) → IsNormalized s → IsNormalized t → value s ≡ value t → s ≡ t
normalized_unique s t hs ht same =
    let e0 : s.n0 ≡ t.n0 = omega arith in
    let e1 : s.n1 ≡ t.n1 = omega arith in
    let e2 : s.n2 ≡ t.n2 = omega arith in
    let e3 : s.n3 ≡ t.n3 = omega arith in
    let e4 : s.n4 ≡ t.n4 = omega arith in
    λ i. record { n0 = e0 i; n1 = e1 i; n2 = e2 i; n3 = e3 i; n4 = e4 i }

-- For limbs of magnitude at most 2047, the variable time `normalize_var` gives the same limbs as
-- `normalize`.
pub normalize_var-normalize :
    (r : Fe) → HasMagnitude max_magnitude r → normalize_var r ≡ normalize r
normalize_var-normalize r h =
    let fast = normalize_var_lem r h in
    let constant = normalize_lem r h in
    normalized_unique (normalize_var r) (normalize r) fast.0 constant.0 (fast.1 ∙ sym constant.1)
