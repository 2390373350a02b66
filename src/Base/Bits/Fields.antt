-- ===== src/Base/Bits/Fields.antt =====
-- `&` with a mask that stands higher in the word, and laws that combine the bit operations.
use Prim.Native.Nat.{ℕ, zero, suc, ◌+◌, ◌*◌, ◌/◌, ◌%◌, ◌^◌, ◌<◌, bit_and, bit_xor, differ}
use mathlib.Core.Path.{◌≡◌, refl, ap, ◌∙◌}
use native.Mathlib.Nat.{pow-suc}
use native.Mathlib.Omega.{arith}
use tinychain.Base.Bits.{half-bit_xor}
use tinychain.Base.Bits.Step.{bit_and_step}

-- `&` with `m << k` looks at the digits above the lowest `k`.
pub bit_and_shifted :
    (k q r m : ℕ) → r < 2 ^ k → bit_and (q * 2 ^ k + r) (m * 2 ^ k) ≡ bit_and q m * 2 ^ k
bit_and_shifted zero q r m h =
    let low : q * 1 + r ≡ q = omega arith in
    let mask : m * 1 ≡ m = omega arith in rw (low, mask) (omega arith)
bit_and_shifted (suc k) q r m h =
    let double_q : q * 2 ^ suc k ≡ 2 * (q * 2 ^ k) =
      omega (arith, ap (λ (t : ℕ). q * t) (pow-suc 2 k)) in
    let double_m : m * 2 ^ suc k ≡ 2 * (m * 2 ^ k) =
      omega (arith, ap (λ (t : ℕ). m * t) (pow-suc 2 k)) in
    let double : bit_and q m * 2 ^ suc k ≡ 2 * (bit_and q m * 2 ^ k) =
      omega (arith, ap (λ (t : ℕ). bit_and q m * t) (pow-suc 2 k)) in
    let half : (q * 2 ^ suc k + r) / 2 ≡ q * 2 ^ k + r / 2 = omega arith in
    let half_m : m * 2 ^ suc k / 2 ≡ m * 2 ^ k = omega arith in
    let even : m * 2 ^ suc k % 2 ≡ 0 = omega arith in
    let rest = bit_and_shifted k q (r / 2) m (omega (arith, pow-suc 2 k)) in
    let step = bit_and_step (q * 2 ^ suc k + r) (m * 2 ^ suc k) in
    step ∙ rw (half, half_m, even, rest) (omega arith)

-- Bits are 0 or 1.
bits_assoc : (x y z : ℕ) → x < 2 → y < 2 → z < 2 → differ (differ x y) z ≡ differ x (differ y z)
bits_assoc zero y z h k l = refl
bits_assoc (suc zero) zero z h k l = refl
bits_assoc (suc zero) (suc zero) zero h k l = refl
bits_assoc (suc zero) (suc zero) (suc zero) h k l = refl
bits_assoc (suc zero) (suc zero) (suc (suc z)) h k l = absurd (omega arith)
bits_assoc (suc zero) (suc (suc y)) z h k l = absurd (omega arith)
bits_assoc (suc (suc x)) y z h k l = absurd (omega arith)

pub bit_xor_assoc :
    (n a b c : ℕ)
    → a < 2 ^ n
    → b < 2 ^ n
    → c < 2 ^ n
    → bit_xor (bit_xor a b) c ≡ bit_xor a (bit_xor b c)
bit_xor_assoc zero zero zero zero h k l = refl
bit_xor_assoc zero (suc a) b c h k l = absurd (omega arith)
bit_xor_assoc zero zero (suc b) c h k l = absurd (omega arith)
bit_xor_assoc zero zero zero (suc c) h k l = absurd (omega arith)
bit_xor_assoc (suc n) a b c h k l =
    let double = pow-suc 2 n in
    let rest = bit_xor_assoc n (a / 2) (b / 2) (c / 2) (omega arith) (omega arith) (omega arith) in
    let left = half-bit_xor (bit_xor a b) c in
    let right = half-bit_xor a (bit_xor b c) in
    let ab = half-bit_xor a b in
    let bc = half-bit_xor b c in
    let bits = bits_assoc (a % 2) (b % 2) (c % 2) (omega arith) (omega arith) (omega arith) in
    let halves : bit_xor (bit_xor a b) c / 2 ≡ bit_xor a (bit_xor b c) / 2 = cc in
    let lowest : bit_xor (bit_xor a b) c % 2 ≡ bit_xor a (bit_xor b c) % 2 = cc in omega arith
