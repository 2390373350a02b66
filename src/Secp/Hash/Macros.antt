-- ===== src/Secp/Hash/Macros.antt =====
-- What the macros of hash_impl.h compute: choices and majorities of digits, rotations, and the order
-- of bytes.
use tinychain.Base.{
  ℕ, zero, suc, ◌+◌, ◌*◌, ◌/◌, ◌%◌, ◌^◌, ◌<◌, ◌≡◌, refl, sym, ap, ◌∙◌, arith, bit_and, bit_or, ◌==◌,
  if◌then◌else◌,
}
use Prim.Native.Nat.{min, max, differ}
use native.Mathlib.Nat.{mul-add-div_right, div-eq_of_lt, mul-le-mul, le_refl}
use tinychain.Base.Bits.{bit_or_fields, bit_or_comm}
use tinychain.Base.Bits.Mask.{bit_and_mask}
use tinychain.Base.Bits.Fields.{bit_and_shifted}
use tinychain.Base.Bits.Digits.{bit, bit-bit_and, bit-bit_or, bit-bit_xor, bit-lt}
use tinychain.Base.Numbers.{pow-add}
use tinychain.Secp.Hash.{u32, ch, maj, rotated, be32}

chosen :
    (x y z : ℕ) → x < 2 → y < 2 → z < 2 → differ z (min x (differ y z)) ≡ (if x == 1 then y else z)
chosen zero y zero h k l = omega arith
chosen zero y (suc zero) h k l =
    let none_kept : min 0 (differ y 1) ≡ 0 = omega arith in rw none_kept refl
chosen zero y (suc (suc z)) h k l = absurd (omega arith)
chosen (suc zero) zero zero h k l = refl
chosen (suc zero) (suc zero) zero h k l = refl
chosen (suc zero) zero (suc zero) h k l = refl
chosen (suc zero) (suc zero) (suc zero) h k l = refl
chosen (suc zero) (suc (suc y)) z h k l = absurd (omega arith)
chosen (suc zero) zero (suc (suc z)) h k l = absurd (omega arith)
chosen (suc zero) (suc zero) (suc (suc z)) h k l = absurd (omega arith)
chosen (suc (suc x)) y z h k l = absurd (omega arith)

decided : (x y z : ℕ) → x < 2 → y < 2 → z < 2 → max (min x y) (min z (max x y)) ≡ (x + y + z) / 2
decided x y z h k l = omega arith

-- Ch takes each digit from y where x has a 1, from z where it has a 0, and Maj is the digit that two
-- of the three have.
pub ch-maj :
    (x y z i : ℕ)
    → (bit (ch x y z) i ≡ (if bit x i == 1 then bit y i else bit z i))
      × (bit (maj x y z) i ≡ (bit x i + bit y i + bit z i) / 2)
unfolding ch maj
ch-maj x y z i =
    let hx = bit-lt x i in
    let hy = bit-lt y i in
    let hz = bit-lt z i in
    (
      rw (bit-bit_xor z (bit_and x _) i, bit-bit_and x _ i, bit-bit_xor y z i)
          (chosen (bit x i) (bit y i) (bit z i) hx hy hz),
      rw (bit-bit_or (bit_and x y) _ i, bit-bit_and x y i, bit-bit_and z _ i, bit-bit_or x y i)
          (decided (bit x i) (bit y i) (bit z i) hx hy hz),
    )

-- The two shifts of a word of 32 digits turn it.
pub rotates :
    (r l q t : ℕ) → r + l ≡ 32 → q < 2 ^ l → t < 2 ^ r → rotated r l (q * 2 ^ r + t) ≡ t * 2 ^ l + q
unfolding rotated
rotates r l q t sum hq ht =
    let total : l + r ≡ 32 = omega arith in
    let powers : 2 ^ l * 2 ^ r ≡ 2 ^ 32 = sym (pow-add 2 l r) ∙ ap (λ k. 2 ^ k) total in
    let positive : 0 < 2 ^ r = omega arith in
    let high : (q * 2 ^ r + t) / 2 ^ r ≡ q =
      omega (arith, mul-add-div_right positive q t, div-eq_of_lt ht) in
    let spread : (q * 2 ^ r + t) * 2 ^ l ≡ q * 2 ^ 32 + t * 2 ^ l =
      omega (arith, ap (λ (x : ℕ). q * x) powers) in
    let below : t * 2 ^ l < 2 ^ 32 = omega (arith, mul-le-mul ht (le_refl (2 ^ l))) in
    let low : u32 ((q * 2 ^ r + t) * 2 ^ l) ≡ t * 2 ^ l = omega arith in
    rw (high, low) (bit_or_comm q (t * 2 ^ l) ∙ bit_or_fields l t q hq)

byte_mask :
    (k p q r : ℕ) → p ≡ q * 2 ^ k + r → r < 2 ^ k → bit_and p (0xFF * 2 ^ k) ≡ q % 2 ^ 8 * 2 ^ k
byte_mask k p q r e h =
    ap (λ (x : ℕ). bit_and x (0xFF * 2 ^ k)) e
    ∙ bit_and_shifted k q r 0xFF h
    ∙ ap (λ x. x * 2 ^ k)
        (ap (λ (x : ℕ). bit_and x 0xFF) (omega arith)
          ∙ bit_and_mask 8 (q / 2 ^ 8) (q % 2 ^ 8) (omega arith))

-- BE32 turns the four bytes of a word around.
pub be32_lem :
    (p : ℕ)
    → be32 p
      ≡ p % 2 ^ 8 * 2 ^ 24
        + p / 2 ^ 8 % 2 ^ 8 * 2 ^ 16
        + p / 2 ^ 16 % 2 ^ 8 * 2 ^ 8
        + p / 2 ^ 24 % 2 ^ 8
unfolding be32
be32_lem p =
    let m0 : bit_and p 0xFF ≡ p % 2 ^ 8 =
      ap (λ (x : ℕ). bit_and x 0xFF) (omega arith)
      ∙ bit_and_mask 8 (p / 2 ^ 8) (p % 2 ^ 8) (omega arith) in
    let m1 : bit_and p 0xFF00 ≡ p / 2 ^ 8 % 2 ^ 8 * 2 ^ 8 =
      byte_mask 8 p (p / 2 ^ 8) (p % 2 ^ 8) (omega arith) (omega arith) in
    let m2 : bit_and p 0xFF0000 ≡ p / 2 ^ 16 % 2 ^ 8 * 2 ^ 16 =
      byte_mask 16 p (p / 2 ^ 16) (p % 2 ^ 16) (omega arith) (omega arith) in
    let m3 : bit_and p 0xFF000000 ≡ p / 2 ^ 24 % 2 ^ 8 * 2 ^ 24 =
      byte_mask 24 p (p / 2 ^ 24) (p % 2 ^ 24) (omega arith) (omega arith) in
    let b0 = p % 2 ^ 8 in
    let b1 = p / 2 ^ 8 % 2 ^ 8 in
    let b2 = p / 2 ^ 16 % 2 ^ 8 in
    let b3 = p / 2 ^ 24 % 2 ^ 8 in
    let s1 : b1 * 2 ^ 8 * 2 ^ 8 ≡ b1 * 2 ^ 16 = omega arith in
    let s2 : b2 * 2 ^ 16 / 2 ^ 8 ≡ b2 * 2 ^ 8 = omega arith in
    let s3 : b3 * 2 ^ 24 / 2 ^ 24 ≡ b3 = omega arith in
    let o1 = bit_or_fields 24 b0 (b1 * 2 ^ 16) (omega arith) in
    let o2 : bit_or (b0 * 2 ^ 24 + b1 * 2 ^ 16) (b2 * 2 ^ 8)
        ≡ b0 * 2 ^ 24 + b1 * 2 ^ 16 + b2 * 2 ^ 8 =
      ap (λ (x : ℕ). bit_or x (b2 * 2 ^ 8)) (omega arith)
      ∙ bit_or_fields 16 (b0 * 2 ^ 8 + b1) (b2 * 2 ^ 8) (omega arith)
      ∙ omega arith in
    let o3 : bit_or (b0 * 2 ^ 24 + b1 * 2 ^ 16 + b2 * 2 ^ 8) b3
        ≡ b0 * 2 ^ 24 + b1 * 2 ^ 16 + b2 * 2 ^ 8 + b3 =
      ap (λ (x : ℕ). bit_or x b3) (omega arith)
      ∙ bit_or_fields 8 (b0 * 2 ^ 16 + b1 * 2 ^ 8 + b2) b3 (omega arith)
      ∙ omega arith in
    rw (m0, m1, m2, m3, s1, s2, s3, o1, o2, o3) refl
