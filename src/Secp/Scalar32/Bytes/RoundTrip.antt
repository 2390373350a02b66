-- ===== src/Secp/Scalar32/Bytes/RoundTrip.antt =====
-- Writing a scalar of 32-bit limbs to bytes and reading it back.
use tinychain.Base.{ℕ, ◌+◌, ◌*◌, ◌%◌, ◌^◌, ◌<◌, ◌≡◌, refl, ap, ◌∙◌, arith, bit_or, ◌>>>◌}
use tinychain.Base.Bits.{bit_or_fields, bit_or_comm}
use tinychain.Secp.Scalar.Bytes.{byte}
use tinychain.Secp.Scalar32.{Scalar, settle}
use tinychain.Secp.Scalar32.Value.{value, HasLimbs, IsScalar}
use tinychain.Secp.Scalar32.Sum.{settle_lem}
use tinychain.Secp.Scalar32.Bytes.{word_at, set_b32, bytes_of, get_b32}

above : (k q r : ℕ) → r < 2 ^ k → bit_or r (q * 2 ^ k) ≡ r + q * 2 ^ k
above k q r lt = bit_or_comm r (q * 2 ^ k) ∙ omega (arith, bit_or_fields k q r lt)

-- The four bytes of a word make it up again.
word_at-bytes_of : (w : ℕ) → w < 2 ^ 32 → word_at (bytes_of w) 0 ≡ w
unfolding word_at byte bytes_of
word_at-bytes_of w h =
    let s8 : bit_or (w % 2 ^ 8) ((w >>> 8) % 256 * 2 ^ 8) ≡ w % 2 ^ 16 =
      above 8 ((w >>> 8) % 256) (w % 2 ^ 8) (omega arith) ∙ omega arith in
    let s16 : bit_or (w % 2 ^ 16) ((w >>> 16) % 256 * 2 ^ 16) ≡ w % 2 ^ 24 =
      above 16 ((w >>> 16) % 256) (w % 2 ^ 16) (omega arith) ∙ omega arith in
    let s24 : bit_or (w % 2 ^ 24) ((w >>> 24) % 256 * 2 ^ 24) ≡ w =
      above 24 ((w >>> 24) % 256) (w % 2 ^ 24) (omega arith) ∙ omega arith in
    rw (s8, s16, s24) refl

limbs_unique : (a b : Scalar) → HasLimbs a → HasLimbs b → value a ≡ value b → a ≡ b
limbs_unique a b ha hb same =
    let e0 : a.d0 ≡ b.d0 = omega arith in
    let e1 : a.d1 ≡ b.d1 = omega arith in
    let e2 : a.d2 ≡ b.d2 = omega arith in
    let e3 : a.d3 ≡ b.d3 = omega arith in
    let e4 : a.d4 ≡ b.d4 = omega arith in
    let e5 : a.d5 ≡ b.d5 = omega arith in
    let e6 : a.d6 ≡ b.d6 = omega arith in
    let e7 : a.d7 ≡ b.d7 = omega arith in
    λ i. record {
      d0 = e0 i;
      d1 = e1 i;
      d2 = e2 i;
      d3 = e3 i;
      d4 = e4 i;
      d5 = e5 i;
      d6 = e6 i;
      d7 = e7 i;
    }

settled_same : (a : Scalar) → IsScalar a → settle a 0 ≡ (a, 0)
settled_same a h =
    let settled = settle_lem a 0 h.limbs (omega arith) in
    let no_overflow : (settle a 0).1 ≡ 0 = omega arith in
    let same = limbs_unique (settle a 0).0 a settled.0.limbs h.limbs (omega arith) in
    λ i. (same i, no_overflow i)

-- A scalar below the order is read back from its 32 bytes by `set_b32`, without an overflow.
pub narrow_set_b32-get_b32 : (a : Scalar) → IsScalar a → set_b32 (get_b32 a) ≡ (a, 0)
unfolding set_b32 get_b32 word_at byte bytes_of
narrow_set_b32-get_b32 a h =
    let w0 : word_at (get_b32 a) 28 ≡ a.d0 = word_at-bytes_of a.d0 h.limbs.limb0 in
    let w1 : word_at (get_b32 a) 24 ≡ a.d1 = word_at-bytes_of a.d1 h.limbs.limb1 in
    let w2 : word_at (get_b32 a) 20 ≡ a.d2 = word_at-bytes_of a.d2 h.limbs.limb2 in
    let w3 : word_at (get_b32 a) 16 ≡ a.d3 = word_at-bytes_of a.d3 h.limbs.limb3 in
    let w4 : word_at (get_b32 a) 12 ≡ a.d4 = word_at-bytes_of a.d4 h.limbs.limb4 in
    let w5 : word_at (get_b32 a) 8 ≡ a.d5 = word_at-bytes_of a.d5 h.limbs.limb5 in
    let w6 : word_at (get_b32 a) 4 ≡ a.d6 = word_at-bytes_of a.d6 h.limbs.limb6 in
    let w7 : word_at (get_b32 a) 0 ≡ a.d7 = word_at-bytes_of a.d7 h.limbs.limb7 in
    ap (λ (r : Scalar). settle r 0)
      (λ i. record {
        d0 = w0 i;
        d1 = w1 i;
        d2 = w2 i;
        d3 = w3 i;
        d4 = w4 i;
        d5 = w5 i;
        d6 = w6 i;
        d7 = w7 i;
      })
    ∙ settled_same a h
