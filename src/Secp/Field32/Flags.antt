-- ===== src/Secp/Field32/Flags.antt =====
-- The conjunctions and disjunctions of ten limbs that the zero tests of field_10x26_impl.h build.
use tinychain.Base.{ℕ, ◌≤◌, ◌≡◌, ◌↔◌, arith, bit_and, bit_or, bit_xor}
use tinychain.Base.Bits.{bit_and-le, le-bit_or, bit_xor_cancel}
use tinychain.Secp.Field32.{limb_mask}

-- `|` of limbs is 0 exactly when all are.
pub or_zero_iff :
    (a0 a1 a2 a3 a4 a5 a6 a7 a8 a9 : ℕ)
    → ((bit_or
          (bit_or
            (bit_or (bit_or (bit_or (bit_or (bit_or (bit_or (bit_or a0 a1) a2) a3) a4) a5) a6) a7)
            a8)
          a9)
        ≡ 0)
      ↔ ((a0 ≡ 0)
          × (a1 ≡ 0)
          × (a2 ≡ 0)
          × (a3 ≡ 0)
          × (a4 ≡ 0)
          × (a5 ≡ 0)
          × (a6 ≡ 0)
          × (a7 ≡ 0)
          × (a8 ≡ 0)
          × (a9 ≡ 0))
or_zero_iff a0 a1 a2 a3 a4 a5 a6 a7 a8 a9 = (
  λ h. omega (
    arith,
    le-bit_or a0 a1,
    le-bit_or (bit_or a0 a1) a2,
    le-bit_or (bit_or (bit_or a0 a1) a2) a3,
    le-bit_or (bit_or (bit_or (bit_or a0 a1) a2) a3) a4,
    le-bit_or (bit_or (bit_or (bit_or (bit_or a0 a1) a2) a3) a4) a5,
    le-bit_or (bit_or (bit_or (bit_or (bit_or (bit_or a0 a1) a2) a3) a4) a5) a6,
    le-bit_or (bit_or (bit_or (bit_or (bit_or (bit_or (bit_or a0 a1) a2) a3) a4) a5) a6) a7,
    le-bit_or (bit_or (bit_or (bit_or (bit_or (bit_or (bit_or (bit_or a0 a1) a2) a3) a4) a5) a6) a7)
        a8,
    le-bit_or
        (bit_or
          (bit_or (bit_or (bit_or (bit_or (bit_or (bit_or (bit_or a0 a1) a2) a3) a4) a5) a6) a7) a8)
        a9,
  ),
  λ h. ground (arith, h),
)

-- `x ^ k` is all ones exactly when `x` is the complement of `k`.
pub xor_mask_iff : (x k m : ℕ) → (bit_xor x k ≡ m) ↔ (x ≡ bit_xor m k)
xor_mask_iff x k m = (λ h. cc (bit_xor_cancel x k), λ h. cc (bit_xor_cancel m k))

pub and_mask_iff :
    (a0 a1 a2 a3 a4 a5 a6 a7 a8 a9 : ℕ)
    → a0 ≤ limb_mask
    → a1 ≤ limb_mask
    → a2 ≤ limb_mask
    → a3 ≤ limb_mask
    → a4 ≤ limb_mask
    → a5 ≤ limb_mask
    → a6 ≤ limb_mask
    → a7 ≤ limb_mask
    → a8 ≤ limb_mask
    → a9 ≤ limb_mask
    → ((bit_and
          (bit_and
            (bit_and
              (bit_and (bit_and (bit_and (bit_and (bit_and (bit_and a0 a1) a2) a3) a4) a5) a6)
              a7)
            a8)
          a9)
        ≡ limb_mask)
      ↔ ((a0 ≡ limb_mask)
          × (a1 ≡ limb_mask)
          × (a2 ≡ limb_mask)
          × (a3 ≡ limb_mask)
          × (a4 ≡ limb_mask)
          × (a5 ≡ limb_mask)
          × (a6 ≡ limb_mask)
          × (a7 ≡ limb_mask)
          × (a8 ≡ limb_mask)
          × (a9 ≡ limb_mask))
and_mask_iff a0 a1 a2 a3 a4 a5 a6 a7 a8 a9 h0 h1 h2 h3 h4 h5 h6 h7 h8 h9 = (
  λ h. omega (
    arith,
    bit_and-le a0 a1,
    bit_and-le (bit_and a0 a1) a2,
    bit_and-le (bit_and (bit_and a0 a1) a2) a3,
    bit_and-le (bit_and (bit_and (bit_and a0 a1) a2) a3) a4,
    bit_and-le (bit_and (bit_and (bit_and (bit_and a0 a1) a2) a3) a4) a5,
    bit_and-le (bit_and (bit_and (bit_and (bit_and (bit_and a0 a1) a2) a3) a4) a5) a6,
    bit_and-le (bit_and (bit_and (bit_and (bit_and (bit_and (bit_and a0 a1) a2) a3) a4) a5) a6) a7,
    bit_and-le
        (bit_and (bit_and (bit_and (bit_and (bit_and (bit_and (bit_and a0 a1) a2) a3) a4) a5) a6)
          a7)
        a8,
    bit_and-le
        (bit_and
          (bit_and (bit_and (bit_and (bit_and (bit_and (bit_and (bit_and a0 a1) a2) a3) a4) a5) a6)
            a7)
          a8)
        a9,
  ),
  λ h. ground (arith, h),
)
