-- ===== src/Secp/Scalar/Bytes/RoundTrip.antt =====
-- Writing a scalar to bytes and reading it back.
use tinychain.Base.{ℕ, ◌+◌, ◌*◌, ◌%◌, ◌^◌, ◌<◌, ◌≡◌, refl, ap, ◌∙◌, arith, bit_or, ◌>>>◌}
use tinychain.Base.Bits.{bit_or_fields, bit_or_comm}
use tinychain.Secp.Scalar.{Scalar, settle}
use tinychain.Secp.Scalar.Value.{value, HasLimbs, IsScalar}
use tinychain.Secp.Scalar.Sum.{settle_lem}
use tinychain.Secp.Scalar.Bytes.{byte, word_at, set_b32, bytes_of, get_b32}

-- A byte above the `k` bits of `r` is added by `|`.
above : (k q r : ℕ) → r < 2 ^ k → bit_or r (q * 2 ^ k) ≡ r + q * 2 ^ k
above k q r lt = bit_or_comm r (q * 2 ^ k) ∙ omega (arith, bit_or_fields k q r lt)

-- The eight bytes of a word make it up again.
word_at-bytes_of : (w : ℕ) → w < 2 ^ 64 → word_at (bytes_of w) 0 ≡ w
unfolding word_at byte bytes_of
word_at-bytes_of w h =
    let s8 : bit_or (w % 2 ^ 8) ((w >>> 8) % 256 * 2 ^ 8) ≡ w % 2 ^ 16 =
      above 8 ((w >>> 8) % 256) (w % 2 ^ 8) (omega arith) ∙ omega arith in
    let s16 : bit_or (w % 2 ^ 16) ((w >>> 16) % 256 * 2 ^ 16) ≡ w % 2 ^ 24 =
      above 16 ((w >>> 16) % 256) (w % 2 ^ 16) (omega arith) ∙ omega arith in
    let s24 : bit_or (w % 2 ^ 24) ((w >>> 24) % 256 * 2 ^ 24) ≡ w % 2 ^ 32 =
      above 24 ((w >>> 24) % 256) (w % 2 ^ 24) (omega arith) ∙ omega arith in
    let s32 : bit_or (w % 2 ^ 32) ((w >>> 32) % 256 * 2 ^ 32) ≡ w % 2 ^ 40 =
      above 32 ((w >>> 32) % 256) (w % 2 ^ 32) (omega arith) ∙ omega arith in
    let s40 : bit_or (w % 2 ^ 40) ((w >>> 40) % 256 * 2 ^ 40) ≡ w % 2 ^ 48 =
      above 40 ((w >>> 40) % 256) (w % 2 ^ 40) (omega arith) ∙ omega arith in
    let s48 : bit_or (w % 2 ^ 48) ((w >>> 48) % 256 * 2 ^ 48) ≡ w % 2 ^ 56 =
      above 48 ((w >>> 48) % 256) (w % 2 ^ 48) (omega arith) ∙ omega arith in
    let s56 : bit_or (w % 2 ^ 56) ((w >>> 56) % 256 * 2 ^ 56) ≡ w =
      above 56 ((w >>> 56) % 256) (w % 2 ^ 56) (omega arith) ∙ omega arith in
    rw (s8, s16, s24, s32, s40, s48, s56) refl

limbs_unique : (a b : Scalar) → HasLimbs a → HasLimbs b → value a ≡ value b → a ≡ b
limbs_unique a b ha hb same =
    let e0 : a.d0 ≡ b.d0 = omega arith in
    let e1 : a.d1 ≡ b.d1 = omega arith in
    let e2 : a.d2 ≡ b.d2 = omega arith in
    let e3 : a.d3 ≡ b.d3 = omega arith in λ i. record { d0 = e0 i; d1 = e1 i; d2 = e2 i; d3 = e3 i }

settled_same : (a : Scalar) → IsScalar a → settle a 0 ≡ (a, 0)
settled_same a h =
    let settled = settle_lem a 0 h.limbs (omega arith) in
    let no_overflow : (settle a 0).1 ≡ 0 = omega arith in
    let same = limbs_unique (settle a 0).0 a settled.0.limbs h.limbs (omega arith) in
    λ i. (same i, no_overflow i)

-- A scalar below the order is read back from its 32 bytes by `set_b32`, without an overflow.
pub set_b32-get_b32 : (a : Scalar) → IsScalar a → set_b32 (get_b32 a) ≡ (a, 0)
unfolding set_b32 get_b32 word_at byte bytes_of
set_b32-get_b32 a h =
    let w0 : word_at (get_b32 a) 24 ≡ a.d0 = word_at-bytes_of a.d0 h.limbs.limb0 in
    let w1 : word_at (get_b32 a) 16 ≡ a.d1 = word_at-bytes_of a.d1 h.limbs.limb1 in
    let w2 : word_at (get_b32 a) 8 ≡ a.d2 = word_at-bytes_of a.d2 h.limbs.limb2 in
    let w3 : word_at (get_b32 a) 0 ≡ a.d3 = word_at-bytes_of a.d3 h.limbs.limb3 in
    ap (λ (r : Scalar). settle r 0) (λ i. record { d0 = w0 i; d1 = w1 i; d2 = w2 i; d3 = w3 i })
    ∙ settled_same a h
