-- ===== src/Secp/Field32/Zero.antt =====
-- The zero tests of field_10x26_impl.h, which look for the raw values 0 and the characteristic.
use tinychain.Base.{◌%◌, ◌≤◌, ◌≡◌, refl, ◌↔◌, arith, ◌∙◌}
use tinychain.Base.{
  bit_and, bit_or, bit_xor, ◌==◌, if◌then◌else◌, Bool, true, false, ◌&&◌, ◌||◌, not, Bool-cases,
  inl, inr,
}
use tinychain.Base.Bits.{bit_and-le, le-bit_or, bit_xor-lt}
use tinychain.Secp.Field.Value.{prime}
use tinychain.Secp.Field32.{
  Fe, carry, limb_mask, normalize_weak, normalizes_to_zero, normalizes_to_zero_var,
}
use tinychain.Secp.Field32.Flags.{or_zero_iff, xor_mask_iff, and_mask_iff}
use tinychain.Secp.Field32.Value.{value, HasMagnitude}
use tinychain.Secp.Field32.Normalize.{
  max_magnitude, IsWeak, value-normalize_weak, normalize_weak-IsWeak,
}

-- The value of `z0 == 0 || z1 == M` over limbs.
abbrev pub zero_flags : Fe → Bool
zero_flags t =
    ((bit_or
        (bit_or
          (bit_or
            (bit_or (bit_or (bit_or (bit_or (bit_or (bit_or t.n0 t.n1) t.n2) t.n3) t.n4) t.n5) t.n6)
            t.n7)
          t.n8)
        t.n9)
      == 0)
    || ((bit_and
          (bit_and
            (bit_and
              (bit_and
                (bit_and
                  (bit_and
                    (bit_and (bit_and (bit_and (bit_xor t.n0 0x3D0) (bit_xor t.n1 0x40)) t.n2) t.n3)
                    t.n4)
                  t.n5)
                t.n6)
              t.n7)
            t.n8)
          (bit_xor t.n9 0x3C00000))
        == limb_mask)

raw_zero_iff :
    (t : Fe)
    → ((bit_or
          (bit_or
            (bit_or
              (bit_or
                (bit_or (bit_or (bit_or (bit_or (bit_or t.n0 t.n1) t.n2) t.n3) t.n4) t.n5)
                t.n6)
              t.n7)
            t.n8)
          t.n9)
        ≡ 0)
      ↔ (value t ≡ 0)
raw_zero_iff t = (
  λ h.
      let parts = (or_zero_iff t.n0 t.n1 t.n2 t.n3 t.n4 t.n5 t.n6 t.n7 t.n8 t.n9).0 h in
      omega arith,
  λ h. (or_zero_iff t.n0 t.n1 t.n2 t.n3 t.n4 t.n5 t.n6 t.n7 t.n8 t.n9).1 (omega arith),
)

raw_prime_iff :
    (t : Fe)
    → IsWeak t
    → ((bit_and
          (bit_and
            (bit_and
              (bit_and
                (bit_and
                  (bit_and
                    (bit_and (bit_and (bit_and (bit_xor t.n0 0x3D0) (bit_xor t.n1 0x40)) t.n2) t.n3)
                    t.n4)
                  t.n5)
                t.n6)
              t.n7)
            t.n8)
          (bit_xor t.n9 0x3C00000))
        ≡ limb_mask)
      ↔ (value t ≡ prime)
raw_prime_iff t h =
    let x0 = bit_xor t.n0 0x3D0 in
    let x1 = bit_xor t.n1 0x40 in
    let x9 = bit_xor t.n9 0x3C00000 in
    let low = bit_xor-lt 26 t.n0 0x3D0 (omega arith) (omega arith) in
    let next = bit_xor-lt 26 t.n1 0x40 (omega arith) (omega arith) in
    let high = bit_xor-lt 26 t.n9 0x3C00000 (omega arith) (omega arith) in
    let flags =
      and_mask_iff x0 x1 t.n2 t.n3 t.n4 t.n5 t.n6 t.n7 t.n8 x9 (omega arith) (omega arith) h.low2
        h.low3 h.low4 h.low5 h.low6 h.low7 h.low8 (omega arith) in
    let low_iff = xor_mask_iff t.n0 0x3D0 limb_mask in
    let next_iff = xor_mask_iff t.n1 0x40 limb_mask in
    let high_iff = xor_mask_iff t.n9 0x3C00000 limb_mask in
    (
      λ k. omega (
        arith,
        flags.0 k,
        low_iff.0 (flags.0 k).0,
        next_iff.0 (flags.0 k).1,
        high_iff.0 (flags.0 k).9,
      ),
      λ k. flags.1 (
        low_iff.1 (omega arith),
        next_iff.1 (omega arith),
        omega arith,
        omega arith,
        omega arith,
        omega arith,
        omega arith,
        omega arith,
        omega arith,
        high_iff.1 (omega arith),
      ),
    )

-- The flags are set exactly for the multiples of the characteristic.
zero_flags_iff : (t : Fe) → IsWeak t → (zero_flags t ≡ true) ↔ (value t % prime ≡ 0)
zero_flags_iff t h =
    let zero_iff = raw_zero_iff t in
    let prime_iff = raw_prime_iff t h in (λ k. ground arith, λ k. ground arith)

-- For limbs of magnitude at most 31, `normalizes_to_zero` answers yes exactly when the value is a
-- multiple of the characteristic.
pub narrow_normalizes_to_zero_iff :
    (r : Fe) → HasMagnitude max_magnitude r → (normalizes_to_zero r ≡ true) ↔ (value r % prime ≡ 0)
unfolding normalizes_to_zero
narrow_normalizes_to_zero_iff r h =
    let iff = zero_flags_iff (normalize_weak r) (normalize_weak-IsWeak r h) in
    let same = value-normalize_weak r h in (λ k. omega (arith, iff.0 k), λ k. iff.1 (omega arith))

-- The fast return of the variable time test: the lowest limb rules both raw values out.
quick : Fe → Bool
quick t = not (t.n0 == 0) && not (bit_xor t.n0 0x3D0 == limb_mask)

quick_flags : (t : Fe) → t.n0 ≤ limb_mask → quick t ≡ true → zero_flags t ≡ false
unfolding quick
quick_flags t h q =
    let x0 = bit_xor t.n0 0x3D0 in
    let x1 = bit_xor t.n1 0x40 in
    let x9 = bit_xor t.n9 0x3C00000 in
    let low = bit_xor-lt 26 t.n0 0x3D0 (omega arith) (omega arith) in
    ground (
      arith,
      le-bit_or t.n0 t.n1,
      le-bit_or (bit_or t.n0 t.n1) t.n2,
      le-bit_or (bit_or (bit_or t.n0 t.n1) t.n2) t.n3,
      le-bit_or (bit_or (bit_or (bit_or t.n0 t.n1) t.n2) t.n3) t.n4,
      le-bit_or (bit_or (bit_or (bit_or (bit_or t.n0 t.n1) t.n2) t.n3) t.n4) t.n5,
      le-bit_or (bit_or (bit_or (bit_or (bit_or (bit_or t.n0 t.n1) t.n2) t.n3) t.n4) t.n5) t.n6,
      le-bit_or
          (bit_or (bit_or (bit_or (bit_or (bit_or (bit_or t.n0 t.n1) t.n2) t.n3) t.n4) t.n5) t.n6)
          t.n7,
      le-bit_or
          (bit_or
            (bit_or (bit_or (bit_or (bit_or (bit_or (bit_or t.n0 t.n1) t.n2) t.n3) t.n4) t.n5) t.n6)
            t.n7)
          t.n8,
      le-bit_or
          (bit_or
            (bit_or
              (bit_or (bit_or (bit_or (bit_or (bit_or (bit_or t.n0 t.n1) t.n2) t.n3) t.n4) t.n5)
                t.n6)
              t.n7)
            t.n8)
          t.n9,
      bit_and-le x0 x1,
      bit_and-le (bit_and x0 x1) t.n2,
      bit_and-le (bit_and (bit_and x0 x1) t.n2) t.n3,
      bit_and-le (bit_and (bit_and (bit_and x0 x1) t.n2) t.n3) t.n4,
      bit_and-le (bit_and (bit_and (bit_and (bit_and x0 x1) t.n2) t.n3) t.n4) t.n5,
      bit_and-le (bit_and (bit_and (bit_and (bit_and (bit_and x0 x1) t.n2) t.n3) t.n4) t.n5) t.n6,
      bit_and-le
          (bit_and (bit_and (bit_and (bit_and (bit_and (bit_and x0 x1) t.n2) t.n3) t.n4) t.n5) t.n6)
          t.n7,
      bit_and-le
          (bit_and
            (bit_and (bit_and (bit_and (bit_and (bit_and (bit_and x0 x1) t.n2) t.n3) t.n4) t.n5)
              t.n6)
            t.n7)
          t.n8,
      bit_and-le
          (bit_and
            (bit_and
              (bit_and (bit_and (bit_and (bit_and (bit_and (bit_and x0 x1) t.n2) t.n3) t.n4) t.n5)
                t.n6)
              t.n7)
            t.n8)
          x9,
    )

fast_return :
    (r : Fe)
    → let t = normalize_weak r in
      normalizes_to_zero_var r ≡ (if quick t then false else zero_flags t)
unfolding normalizes_to_zero_var normalize_weak carry quick
fast_return r = refl

-- For all limbs, `normalizes_to_zero_var`, with its early return and its late masking, gives the
-- same answer as `normalizes_to_zero`.
pub narrow_normalizes_to_zero_var-eq : (r : Fe) → normalizes_to_zero_var r ≡ normalizes_to_zero r
unfolding normalizes_to_zero
narrow_normalizes_to_zero_var-eq r =
    let t = normalize_weak r in
    let low : t.n0 ≤ limb_mask = unfold normalize_weak carry in omega arith in
    fast_return r
    ∙ elim (Bool-cases (quick t)) [ inl q ↦ rw (q, quick_flags t low q) | inr q ↦ rw q ]
