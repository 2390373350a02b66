-- ===== src/Base/Bits/Mask.antt =====
-- `&` and `^` with a mask of ones.
use Prim.Native.Nat.{ℕ, zero, suc, ◌+◌, ◌*◌, ◌/◌, ◌%◌, ◌^◌, ◌≤◌, ◌<◌, ◌-◌, bit_and, bit_xor, differ}
use mathlib.Core.Path.{◌≡◌, ap, ◌∙◌}
use native.Mathlib.Nat.{pow-suc}
use native.Mathlib.Omega.{arith}
use tinychain.Base.Bits.{bit_and-le}
use tinychain.Base.Bits.Step.{bit_and_step, bit_xor_step, zero-bit_xor}

pub bit_and_zero : (x : ℕ) → bit_and x 0 ≡ 0
bit_and_zero x = omega (arith, bit_and-le x 0)

odd_mask : (k : ℕ) → (1 ≤ 2 ^ k) × ((2 ^ suc k - 1) / 2 ≡ 2 ^ k - 1) × ((2 ^ suc k - 1) % 2 ≡ 1)
odd_mask zero = omega arith
odd_mask (suc k) = omega (arith, pow-suc 2 k, pow-suc 2 (suc k), odd_mask k)

-- `&` with `2 ^ k - 1` keeps the low bits.
pub bit_and_mask : (k q r : ℕ) → r < 2 ^ k → bit_and (q * 2 ^ k + r) (2 ^ k - 1) ≡ r
bit_and_mask zero q r h = omega (arith, bit_and_zero (q * 1 + r))
bit_and_mask (suc k) q r h =
    let double : q * 2 ^ suc k ≡ 2 * (q * 2 ^ k) =
      omega (arith, ap (λ (t : ℕ). q * t) (pow-suc 2 k)) in
    let half : (q * 2 ^ suc k + r) / 2 ≡ q * 2 ^ k + r / 2 = omega arith in
    let step = bit_and_step (q * 2 ^ suc k + r) (2 ^ suc k - 1) in
    let rest = bit_and_mask k q (r / 2) (omega (arith, pow-suc 2 k)) in
    step ∙ rw (half, (odd_mask k).1, (odd_mask k).2, rest) (omega arith)

-- `^` with `2 ^ k - 1` is the complement.
pub bit_xor_mask : (k x : ℕ) → x < 2 ^ k → bit_xor x (2 ^ k - 1) + x ≡ 2 ^ k - 1
bit_xor_mask zero zero h = omega (arith, zero-bit_xor 0)
bit_xor_mask zero (suc x) h = absurd (omega arith)
bit_xor_mask (suc k) x h =
    let step = bit_xor_step x (2 ^ suc k - 1) in
    let rest = bit_xor_mask k (x / 2) (omega (arith, pow-suc 2 k)) in
    let split = rw (odd_mask k).1 at (rw (odd_mask k).2 at step) in
    omega (arith, split, flipped (x % 2) (omega arith), pow-suc 2 k, odd_mask k)
  where
    flipped : (d : ℕ) → d < 2 → differ d 1 + d ≡ 1
    flipped zero h = omega arith
    flipped (suc zero) h = omega arith
    flipped (suc (suc d)) h = absurd (omega arith)

-- The mask of a 64-bit word.
pub all_ones : (x : ℕ) → bit_and x 0xFFFFFFFFFFFFFFFF ≡ x % 2 ^ 64
all_ones x =
    let parts : x ≡ x / 2 ^ 64 * 2 ^ 64 + x % 2 ^ 64 = omega arith in
    ap (λ t. bit_and t 0xFFFFFFFFFFFFFFFF) parts
    ∙ bit_and_mask 64 (x / 2 ^ 64) (x % 2 ^ 64) (omega arith)

-- The mask of a 32-bit word.
pub word_of_ones : (x : ℕ) → bit_and x 0xFFFFFFFF ≡ x % 2 ^ 32
word_of_ones x =
    let parts : x ≡ x / 2 ^ 32 * 2 ^ 32 + x % 2 ^ 32 = omega arith in
    ap (λ t. bit_and t 0xFFFFFFFF) parts ∙ bit_and_mask 32 (x / 2 ^ 32) (x % 2 ^ 32) (omega arith)

kept_digit : (d : ℕ) → d < 2 → differ d 0 ≡ d
kept_digit zero h = omega arith
kept_digit (suc zero) h = omega arith
kept_digit (suc (suc d)) h = absurd (omega arith)

pub bit_xor_zero : (k x : ℕ) → x < 2 ^ k → bit_xor x 0 ≡ x
bit_xor_zero zero zero h = zero-bit_xor 0
bit_xor_zero zero (suc x) h = absurd (omega arith)
bit_xor_zero (suc k) x h = omega (
  arith,
  bit_xor_step x 0,
  kept_digit (x % 2) (omega arith),
  bit_xor_zero k (x / 2) (omega (arith, pow-suc 2 k)),
)

-- `^` with the mask of a 64-bit word is `~`.
pub flipped : (x : ℕ) → x < 2 ^ 64 → bit_xor x 0xFFFFFFFFFFFFFFFF ≡ 2 ^ 64 - 1 - x
flipped x h = omega (arith, bit_xor_mask 64 x h)
