-- ===== src/Secp/Field/Zero.antt =====
-- The zero tests of field_5x52_impl.h, which look for the raw values 0 and the characteristic.
use tinychain.Base.{ℕ, ◌%◌, ◌≤◌, ◌≡◌, refl, ◌↔◌, arith, ◌∙◌}
use tinychain.Base.{
  bit_and, bit_or, bit_xor, ◌==◌, if◌then◌else◌, Bool, true, false, ◌&&◌, ◌||◌, not, Bool-cases,
  inl, inr,
}
use tinychain.Base.Bits.{bit_and-le, le-bit_or, bit_xor_cancel, bit_xor-lt}
use tinychain.Secp.Field.{
  Fe, carry, limb_mask, normalize_weak, normalizes_to_zero, normalizes_to_zero_var,
}
use tinychain.Secp.Field.Value.{value, prime, HasMagnitude}
use tinychain.Secp.Field.Normalize.{
  max_magnitude, IsWeak, value-normalize_weak, normalize_weak-IsWeak,
}

-- `|` of limbs is 0 exactly when all are.
or_zero_iff :
    (a b c d e : ℕ)
    → (bit_or (bit_or (bit_or (bit_or a b) c) d) e ≡ 0)
      ↔ ((a ≡ 0) × (b ≡ 0) × (c ≡ 0) × (d ≡ 0) × (e ≡ 0))
or_zero_iff a b c d e = (
  λ h. omega (
    arith,
    le-bit_or a b,
    le-bit_or (bit_or a b) c,
    le-bit_or (bit_or (bit_or a b) c) d,
    le-bit_or (bit_or (bit_or (bit_or a b) c) d) e,
  ),
  λ h. ground (arith, h),
)

-- `x ^ k` is all ones exactly when `x` is the complement of `k`.
xor_mask_iff : (x k m : ℕ) → (bit_xor x k ≡ m) ↔ (x ≡ bit_xor m k)
xor_mask_iff x k m = (λ h. cc (bit_xor_cancel x k), λ h. cc (bit_xor_cancel m k))

and_mask_iff :
    (a b c d e : ℕ)
    → a ≤ limb_mask
    → b ≤ limb_mask
    → c ≤ limb_mask
    → d ≤ limb_mask
    → e ≤ limb_mask
    → (bit_and (bit_and (bit_and (bit_and a b) c) d) e ≡ limb_mask)
      ↔ ((a ≡ limb_mask) × (b ≡ limb_mask) × (c ≡ limb_mask) × (d ≡ limb_mask) × (e ≡ limb_mask))
and_mask_iff a b c d e ha hb hc hd he = (
  λ h. omega (
    arith,
    bit_and-le a b,
    bit_and-le (bit_and a b) c,
    bit_and-le (bit_and (bit_and a b) c) d,
    bit_and-le (bit_and (bit_and (bit_and a b) c) d) e,
  ),
  λ h. ground (arith, h),
)

-- The value of `z0 == 0 || z1 == M` over limbs.
abbrev pub zero_flags : Fe → Bool
zero_flags t =
    (bit_or (bit_or (bit_or (bit_or t.n0 t.n1) t.n2) t.n3) t.n4 == 0)
    || (bit_and (bit_and (bit_and (bit_and (bit_xor t.n0 0x1000003D0) t.n1) t.n2) t.n3)
          (bit_xor t.n4 0xF000000000000)
        == limb_mask)

raw_zero_iff :
    (t : Fe) → (bit_or (bit_or (bit_or (bit_or t.n0 t.n1) t.n2) t.n3) t.n4 ≡ 0) ↔ (value t ≡ 0)
raw_zero_iff t = (
  λ h. let parts = (or_zero_iff t.n0 t.n1 t.n2 t.n3 t.n4).0 h in omega arith,
  λ h. (or_zero_iff t.n0 t.n1 t.n2 t.n3 t.n4).1 (omega arith),
)

raw_prime_iff :
    (t : Fe)
    → IsWeak t
    → (bit_and
          (bit_and (bit_and (bit_and (bit_xor t.n0 0x1000003D0) t.n1) t.n2) t.n3)
          (bit_xor t.n4 0xF000000000000)
        ≡ limb_mask)
      ↔ (value t ≡ prime)
raw_prime_iff t h =
    let low = bit_xor-lt 52 t.n0 0x1000003D0 (omega arith) (omega arith) in
    let high = bit_xor-lt 52 t.n4 0xF000000000000 (omega arith) (omega arith) in
    let flags =
      and_mask_iff (bit_xor t.n0 0x1000003D0) t.n1 t.n2 t.n3 (bit_xor t.n4 0xF000000000000)
        (omega arith) h.low1 h.low2 h.low3 (omega arith) in
    let low_iff = xor_mask_iff t.n0 0x1000003D0 limb_mask in
    let high_iff = xor_mask_iff t.n4 0xF000000000000 limb_mask in
    (
      λ k. omega (arith, flags.0 k, low_iff.0 (flags.0 k).0, high_iff.0 (flags.0 k).4),
      λ k. flags.1 (
        low_iff.1 (omega arith),
        omega arith,
        omega arith,
        omega arith,
        high_iff.1 (omega arith),
      ),
    )

-- The flags are set exactly for the multiples of the characteristic.
zero_flags_iff : (t : Fe) → IsWeak t → (zero_flags t ≡ true) ↔ (value t % prime ≡ 0)
zero_flags_iff t h =
    let zero_iff = raw_zero_iff t in
    let prime_iff = raw_prime_iff t h in (λ k. ground arith, λ k. ground arith)

-- For limbs of magnitude at most 2047, `normalizes_to_zero` answers yes exactly when the value is a
-- multiple of the characteristic.
pub normalizes_to_zero_iff :
    (r : Fe) → HasMagnitude max_magnitude r → (normalizes_to_zero r ≡ true) ↔ (value r % prime ≡ 0)
unfolding normalizes_to_zero
normalizes_to_zero_iff r h =
    let iff = zero_flags_iff (normalize_weak r) (normalize_weak-IsWeak r h) in
    let same = value-normalize_weak r h in (λ k. omega (arith, iff.0 k), λ k. iff.1 (omega arith))

-- The fast return of the variable time test: the lowest limb rules both raw values out.
quick : Fe → Bool
quick t = not (t.n0 == 0) && not (bit_xor t.n0 0x1000003D0 == limb_mask)

quick_flags : (t : Fe) → t.n0 ≤ limb_mask → quick t ≡ true → zero_flags t ≡ false
unfolding quick
quick_flags t h q =
    let x = bit_xor t.n0 0x1000003D0 in
    let low = bit_xor-lt 52 t.n0 0x1000003D0 (omega arith) (omega arith) in
    let y = bit_xor t.n4 0xF000000000000 in
    ground (
      arith,
      or_zero_iff t.n0 t.n1 t.n2 t.n3 t.n4,
      bit_and-le x t.n1,
      bit_and-le (bit_and x t.n1) t.n2,
      bit_and-le (bit_and (bit_and x t.n1) t.n2) t.n3,
      bit_and-le (bit_and (bit_and (bit_and x t.n1) t.n2) t.n3) y,
    )

fast_return :
    (r : Fe)
    → let t = normalize_weak r in
      normalizes_to_zero_var r ≡ (if quick t then false else zero_flags t)
unfolding normalizes_to_zero_var normalize_weak carry quick
fast_return r = refl

-- For all limbs, `normalizes_to_zero_var`, with its early return and its late masking, gives the
-- same answer as `normalizes_to_zero`.
pub normalizes_to_zero_var-eq : (r : Fe) → normalizes_to_zero_var r ≡ normalizes_to_zero r
unfolding normalizes_to_zero
normalizes_to_zero_var-eq r =
    let t = normalize_weak r in
    let low : t.n0 ≤ limb_mask = unfold normalize_weak carry in omega arith in
    fast_return r
    ∙ elim (Bool-cases (quick t)) [ inl q ↦ rw (q, quick_flags t low q) | inr q ↦ rw q ]
