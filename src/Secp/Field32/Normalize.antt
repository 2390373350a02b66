-- ===== src/Secp/Field32/Normalize.antt =====
-- The normalizations of field_10x26_impl.h and the residue modulo the characteristic.
use tinychain.Base.{
  ℕ, ◌+◌, ◌-◌, ◌*◌, ◌/◌, ◌%◌, ◌^◌, ◌≤◌, ◌<◌, ◌≡◌, ◌⊎◌, ◌↔◌, refl, arith, bit_and, ◌<<<◌, ◌>>>◌,
  low_bits, inl, inr,
}
use tinychain.Base.Bits.{bit_and-le}
use tinychain.Secp.Field.Value.{prime}
use tinychain.Secp.Field32.{
  Fe, carry, limb_mask, normalize_weak, final_reduction, normalize, normalize_var,
}
use tinychain.Secp.Field32.Value.{value, HasMagnitude, IsNormalized}

-- The largest magnitude at which no limb of a pass wraps.
abbrev pub max_magnitude : ℕ
max_magnitude = 31

-- What a pass needs so that no limb wraps.
record Fits (r : Fe) (x y : ℕ) : Type 0 where
  limb0 : r.n0 + x < 2 ^ 32
  limb1 : r.n1 + y < 2 ^ 32 - 2 ^ 6
  limb2 : r.n2 < 2 ^ 32 - 2 ^ 6
  limb3 : r.n3 < 2 ^ 32 - 2 ^ 6
  limb4 : r.n4 < 2 ^ 32 - 2 ^ 6
  limb5 : r.n5 < 2 ^ 32 - 2 ^ 6
  limb6 : r.n6 < 2 ^ 32 - 2 ^ 6
  limb7 : r.n7 < 2 ^ 32 - 2 ^ 6
  limb8 : r.n8 < 2 ^ 32 - 2 ^ 6
  limb9 : r.n9 < 2 ^ 32 - 2 ^ 6

value-carry : (r : Fe) (x y : ℕ) → Fits r x y → value (carry r x y) ≡ value r + x + y * 2 ^ 26
unfolding carry
value-carry r x y h = omega arith

carry_bounds :
    (r : Fe) (x y : ℕ)
    → Fits r x y
    → ((carry r x y).n0 ≤ limb_mask)
      × ((carry r x y).n1 ≤ limb_mask)
      × ((carry r x y).n2 ≤ limb_mask)
      × ((carry r x y).n3 ≤ limb_mask)
      × ((carry r x y).n4 ≤ limb_mask)
      × ((carry r x y).n5 ≤ limb_mask)
      × ((carry r x y).n6 ≤ limb_mask)
      × ((carry r x y).n7 ≤ limb_mask)
      × ((carry r x y).n8 ≤ limb_mask)
      × ((carry r x y).n9 ≤ r.n9 + 2 ^ 6)
unfolding carry
carry_bounds r x y h = omega arith

-- What the first pass leaves: limbs of 26 bits, and at most one carry in the top one.
pub record IsWeak (t : Fe) : Type 0 where
  pub low0 : t.n0 ≤ limb_mask
  pub low1 : t.n1 ≤ limb_mask
  pub low2 : t.n2 ≤ limb_mask
  pub low3 : t.n3 ≤ limb_mask
  pub low4 : t.n4 ≤ limb_mask
  pub low5 : t.n5 ≤ limb_mask
  pub low6 : t.n6 ≤ limb_mask
  pub low7 : t.n7 ≤ limb_mask
  pub low8 : t.n8 ≤ limb_mask
  pub bounded : value t < 2 ^ 256 + 2 ^ 242

first_pass-Fits :
    {r : Fe}
    → HasMagnitude max_magnitude r
    → Fits (record r { n9 = low_bits r.n9 22 }) ((r.n9 >>> 22) * 0x3D1) ((r.n9 >>> 22) <<< 6)
first_pass-Fits h = omega arith

first_pass :
    (r : Fe)
    → HasMagnitude max_magnitude r
    → normalize_weak r
      ≡ carry (record r { n9 = low_bits r.n9 22 }) ((r.n9 >>> 22) * 0x3D1) ((r.n9 >>> 22) <<< 6)
unfolding normalize_weak
first_pass r h =
    let small : ((r.n9 >>> 22) <<< 6) % 2 ^ 32 ≡ (r.n9 >>> 22) <<< 6 = omega arith in rw small refl

pub value-normalize_weak :
    (r : Fe)
    → HasMagnitude max_magnitude r
    → value (normalize_weak r) + r.n9 / 2 ^ 22 * prime ≡ value r
value-normalize_weak r h =
    let s = record r { n9 = low_bits r.n9 22 } in
    let same = value-carry s ((r.n9 >>> 22) * 0x3D1) ((r.n9 >>> 22) <<< 6) (first_pass-Fits h) in
    rw (first_pass r h) (omega (arith, same))

pub normalize_weak-IsWeak : (r : Fe) → HasMagnitude max_magnitude r → IsWeak (normalize_weak r)
normalize_weak-IsWeak r h =
    let s = record r { n9 = low_bits r.n9 22 } in
    let fits : Fits s ((r.n9 >>> 22) * 0x3D1) ((r.n9 >>> 22) <<< 6) = first_pass-Fits h in
    let bounds = carry_bounds s ((r.n9 >>> 22) * 0x3D1) ((r.n9 >>> 22) <<< 6) fits in
    let same = value-carry s ((r.n9 >>> 22) * 0x3D1) ((r.n9 >>> 22) <<< 6) fits in
    rw (first_pass r h) (omega arith)

mask_iff :
    (a b c d e f g : ℕ)
    → a ≤ limb_mask
    → b ≤ limb_mask
    → c ≤ limb_mask
    → d ≤ limb_mask
    → e ≤ limb_mask
    → f ≤ limb_mask
    → g ≤ limb_mask
    → (bit_and (bit_and (bit_and (bit_and (bit_and (bit_and a b) c) d) e) f) g ≡ limb_mask) ↔ (
        (a ≡ limb_mask)
        × (b ≡ limb_mask)
        × (c ≡ limb_mask)
        × (d ≡ limb_mask)
        × (e ≡ limb_mask)
        × (f ≡ limb_mask)
        × (g ≡ limb_mask))
mask_iff a b c d e f g ha hb hc hd he hf hg = (
  λ h. omega (
    arith,
    bit_and-le a b,
    bit_and-le (bit_and a b) c,
    bit_and-le (bit_and (bit_and a b) c) d,
    bit_and-le (bit_and (bit_and (bit_and a b) c) d) e,
    bit_and-le (bit_and (bit_and (bit_and (bit_and a b) c) d) e) f,
    bit_and-le (bit_and (bit_and (bit_and (bit_and (bit_and a b) c) d) e) f) g,
  ),
  λ (ea, eb, ec, ed, ee, ef, eg). rw (ea, eb, ec, ed, ee, ef, eg) refl,
)

-- The test is exact: 1 from the characteristic on, 0 below it.
final_reduction_lem :
    (t : Fe)
    → IsWeak t
    → ((final_reduction t ≡ 1) × (prime ≤ value t)) ⊎ ((final_reduction t ≡ 0) × (value t < prime))
unfolding final_reduction
final_reduction_lem t h = ground (arith, mask_iff t.n2 t.n3 t.n4 t.n5 t.n6 t.n7 t.n8)

final-Fits : (t : Fe) (x : ℕ) → IsWeak t → x ≤ 1 → Fits t (x * 0x3D1) (x * 2 ^ 6)
final-Fits t x h k = omega arith

-- One subtraction of the characteristic, done as an addition whose carry out of bit 256 is dropped.
subtracted :
    (t : Fe)
    → IsWeak t
    → prime ≤ value t
    → let u = carry t 0x3D1 0x40 in
      let v = record u { n9 = low_bits u.n9 22 } in IsNormalized v × (value v + prime ≡ value t)
subtracted t h ge =
    let fits = final-Fits t 1 h (omega arith) in
    let bounds = carry_bounds t 0x3D1 0x40 fits in
    let same = value-carry t 0x3D1 0x40 fits in (omega arith, omega arith)

kept :
    (t : Fe)
    → IsWeak t
    → value t < prime
    → let u = carry t 0 0 in
      let v = record u { n9 = low_bits u.n9 22 } in IsNormalized v × (value v ≡ value t)
kept t h lt =
    let fits = final-Fits t 0 h (omega arith) in
    let bounds = carry_bounds t 0 0 fits in
    let same = value-carry t 0 0 fits in (omega arith, omega arith)

-- What it means to normalize `r` to `v`.
abbrev pub NormalizesTo : Fe → Fe → Type 0
NormalizesTo r v = IsNormalized v × (value v ≡ value r % prime)

-- For limbs of magnitude at most 31, `normalize` gives the limbs of the residue modulo the
-- characteristic.
pub narrow_normalize_lem : (r : Fe) → HasMagnitude max_magnitude r → NormalizesTo r (normalize r)
unfolding normalize
narrow_normalize_lem r h =
    let t = normalize_weak r in
    let weak = normalize_weak-IsWeak r h in
    elim (final_reduction_lem t weak) [
      | inl (one, ge) ↦ rw one (omega (arith, subtracted t weak ge, value-normalize_weak r h))
      | inr (off, lt) ↦ rw off (omega (arith, kept t weak lt, value-normalize_weak r h))
    ]

pub narrow_normalize_var_lem :
    (r : Fe) → HasMagnitude max_magnitude r → NormalizesTo r (normalize_var r)
unfolding normalize_var
narrow_normalize_var_lem r h =
    let t = normalize_weak r in
    let weak = normalize_weak-IsWeak r h in
    elim (final_reduction_lem t weak) [
      | inl (one, ge) ↦ rw one (omega (arith, subtracted t weak ge, value-normalize_weak r h))
      | inr (off, lt) ↦ rw off (omega (arith, weak, value-normalize_weak r h))
    ]
