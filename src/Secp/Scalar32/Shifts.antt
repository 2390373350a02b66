-- ===== src/Secp/Scalar32/Shifts.antt =====
-- The conditional operations and the shifts of scalar_8x32_impl.h.
use tinychain.Base.{
  ℕ, ◌+◌, ◌-◌, ◌*◌, ◌^◌, ◌≡◌, arith, Bool, not, ◌&&◌, bit_and, bit_or, bit_xor, u64, ◌<<<◌, ◌>>>◌,
  low_bits, to_int, ltb, ◌==◌, if◌then◌else◌, [], ◌∷◌,
}
use tinychain.Secp.Scalar.Bytes.{byte}
use tinychain.Secp.Scalar32.{Scalar, u32, n_0, n_1, n_2, n_3, n_4, n_5, n_6, n_7, is_zero}
use tinychain.Secp.Scalar32.Value.{value}
use tinychain.Secp.Scalar32.Product.{Wide, mul_512}

-- `mask` is all ones for a set flag; the second component is the -1 or 1 returned, as its
-- 32-bit word.
unfoldable pub cond_negate : Scalar → Bool → Scalar × ℕ
cond_negate r flag =
    let mask = u32 (to_int (not flag) + 2 ^ 32 - 1) in
    let nonzero = u32 (0xFFFFFFFF * to_int (not (is_zero r))) in
    let t0 = u64 (bit_xor r.d0 mask + bit_and (n_0 + 1) mask) in
    let t1 = u64 ((t0 >>> 32) + (bit_xor r.d1 mask + bit_and n_1 mask)) in
    let t2 = u64 ((t1 >>> 32) + (bit_xor r.d2 mask + bit_and n_2 mask)) in
    let t3 = u64 ((t2 >>> 32) + (bit_xor r.d3 mask + bit_and n_3 mask)) in
    let t4 = u64 ((t3 >>> 32) + (bit_xor r.d4 mask + bit_and n_4 mask)) in
    let t5 = u64 ((t4 >>> 32) + (bit_xor r.d5 mask + bit_and n_5 mask)) in
    let t6 = u64 ((t5 >>> 32) + (bit_xor r.d6 mask + bit_and n_6 mask)) in
    let t7 = u64 ((t6 >>> 32) + (bit_xor r.d7 mask + bit_and n_7 mask)) in
    (
      record {
        d0 = bit_and t0 nonzero;
        d1 = bit_and t1 nonzero;
        d2 = bit_and t2 nonzero;
        d3 = bit_and t3 nonzero;
        d4 = bit_and t4 nonzero;
        d5 = bit_and t5 nonzero;
        d6 = bit_and t6 nonzero;
        d7 = bit_and t7 nonzero;
      },
      u32 (2 * to_int (mask == 0) + 2 ^ 32 - 1),
    )

-- `1 << (bit & 0x1F)` in the limb `bit >> 5`; a clear flag moves the bit out of the scalar.
unfoldable pub cadd_bit : Scalar → ℕ → Bool → Scalar
cadd_bit r bit flag =
    let at = bit + (if flag then 0 else 0x100) in
    let one : ℕ → ℕ = λ k. u32 (to_int ((at >>> 5) == k) <<< low_bits at 5) in
    let t0 = u64 (r.d0 + one 0) in
    let t1 = u64 ((t0 >>> 32) + (r.d1 + one 1)) in
    let t2 = u64 ((t1 >>> 32) + (r.d2 + one 2)) in
    let t3 = u64 ((t2 >>> 32) + (r.d3 + one 3)) in
    let t4 = u64 ((t3 >>> 32) + (r.d4 + one 4)) in
    let t5 = u64 ((t4 >>> 32) + (r.d5 + one 5)) in
    let t6 = u64 ((t5 >>> 32) + (r.d6 + one 6)) in
    let t7 = u64 ((t6 >>> 32) + (r.d7 + one 7)) in
    record {
      d0 = low_bits t0 32;
      d1 = low_bits t1 32;
      d2 = low_bits t2 32;
      d3 = low_bits t3 32;
      d4 = low_bits t4 32;
      d5 = low_bits t5 32;
      d6 = low_bits t6 32;
      d7 = low_bits t7 32;
    }

-- The bits shifted out, and the scalar shifted down by `n` from 1 to 15.
unfoldable pub shr_int : Scalar → ℕ → Scalar × ℕ
shr_int r n = (
  record {
    d0 = u32 ((r.d0 >>> n) + u32 (r.d1 <<< (32 - n)));
    d1 = u32 ((r.d1 >>> n) + u32 (r.d2 <<< (32 - n)));
    d2 = u32 ((r.d2 >>> n) + u32 (r.d3 <<< (32 - n)));
    d3 = u32 ((r.d3 >>> n) + u32 (r.d4 <<< (32 - n)));
    d4 = u32 ((r.d4 >>> n) + u32 (r.d5 <<< (32 - n)));
    d5 = u32 ((r.d5 >>> n) + u32 (r.d6 <<< (32 - n)));
    d6 = u32 ((r.d6 >>> n) + u32 (r.d7 <<< (32 - n)));
    d7 = r.d7 >>> n;
  },
  low_bits r.d0 n,
)

-- `secp256k1_scalar_split_128`
unfoldable pub split_128 : Scalar → Scalar × Scalar
split_128 a = (
  record { d0 = a.d0; d1 = a.d1; d2 = a.d2; d3 = a.d3; d4 = 0; d5 = 0; d6 = 0; d7 = 0 },
  record { d0 = a.d4; d1 = a.d5; d2 = a.d6; d3 = a.d7; d4 = 0; d5 = 0; d6 = 0; d7 = 0 },
)

-- `d[i]`
unfoldable pub limb : Scalar → ℕ → ℕ
limb a i = byte (a.d0 ∷ a.d1 ∷ a.d2 ∷ a.d3 ∷ a.d4 ∷ a.d5 ∷ a.d6 ∷ a.d7 ∷ []) i

-- The bits stand in one limb.
unfoldable pub get_bits : Scalar → ℕ → ℕ → ℕ
get_bits a offset count = low_bits (limb a (offset >>> 5) >>> low_bits offset 5) count

unfoldable pub get_bits_var : Scalar → ℕ → ℕ → ℕ
get_bits_var a offset count =
    if (offset + count - 1) >>> 5 == (offset >>> 5)
    then get_bits a offset count
    else low_bits
        (bit_or (limb a (offset >>> 5) >>> low_bits offset 5)
          (u32 (limb a ((offset >>> 5) + 1) <<< (32 - low_bits offset 5))))
        count

-- `l[i]`
unfoldable pub word : Wide → ℕ → ℕ
word l i =
    byte
      (l.l0 ∷ l.l1 ∷ l.l2 ∷ l.l3 ∷ l.l4 ∷ l.l5 ∷ l.l6 ∷ l.l7 ∷ l.l8 ∷ l.l9 ∷ l.l10 ∷ l.l11 ∷ l.l12
        ∷ l.l13 ∷ l.l14 ∷ l.l15 ∷ [])
      i

-- The limb `i` of the shifted product; the last limb has none above it.
unfoldable pub shifted_limb : Wide → ℕ → ℕ → ℕ
shifted_limb l shift i =
    let shiftlow = low_bits shift 5 in
    let low = word l (i + (shift >>> 5)) >>> shiftlow in
    let high =
      if ltb shift (480 - 32 * i) && not (shiftlow == 0)
      then u32 (word l (i + 1 + (shift >>> 5)) <<< (32 - shiftlow))
      else 0 in
    if ltb shift (512 - 32 * i) then (if i == 7 then low else bit_or low high) else 0

-- The product shifted down by at least 256 bits, rounded by the last bit shifted out.
unfoldable pub mul_shift_var : Scalar → Scalar → ℕ → Scalar
mul_shift_var a b shift =
    let l = mul_512 a b in
    let r : Scalar = record {
      d0 = shifted_limb l shift 0;
      d1 = shifted_limb l shift 1;
      d2 = shifted_limb l shift 2;
      d3 = shifted_limb l shift 3;
      d4 = shifted_limb l shift 4;
      d5 = shifted_limb l shift 5;
      d6 = shifted_limb l shift 6;
      d7 = shifted_limb l shift 7;
    } in
    cadd_bit r 0 (low_bits (word l ((shift - 1) >>> 5) >>> low_bits (shift - 1) 5) 1 == 1)

-- The two halves of 128 bits make up the scalar.
pub narrow_split_128_lem :
    (a : Scalar) → value (split_128 a).0 + value (split_128 a).1 * 2 ^ 128 ≡ value a
unfolding split_128
narrow_split_128_lem a = omega arith
