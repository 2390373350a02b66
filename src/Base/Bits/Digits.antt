-- ===== src/Base/Bits/Digits.antt =====
-- The digits of a word, and what the bit operations do to each.
use Prim.Native.Nat.{ℕ, zero, suc, ◌/◌, ◌%◌, ◌<◌, bit_and, bit_or, bit_xor, min, max, differ}
use mathlib.Core.Path.{◌≡◌, refl}
use native.Mathlib.Omega.{arith}
use tinychain.Base.Bits.{half-bit_xor}
use tinychain.Base.Bits.Step.{bit_and_step, bit_or_step}

-- The digit of weight `2 ^ i`.
abbrev pub bit : ℕ → ℕ → ℕ
bit x zero = x % 2
bit x (suc i) = bit (x / 2) i

bits_below : (x y : ℕ) → x < 2 → y < 2 → (min x y < 2) × (max x y < 2)
bits_below x y h k = omega arith

pub half-bit_and :
    (a b : ℕ)
    → (bit_and a b / 2 ≡ bit_and (a / 2) (b / 2)) × (bit_and a b % 2 ≡ min (a % 2) (b % 2))
half-bit_and a b = omega (arith, bit_and_step a b)

pub half-bit_or :
    (a b : ℕ) → (bit_or a b / 2 ≡ bit_or (a / 2) (b / 2)) × (bit_or a b % 2 ≡ max (a % 2) (b % 2))
half-bit_or a b = omega (arith, bit_or_step a b)

pub bit-bit_and : (x y i : ℕ) → bit (bit_and x y) i ≡ min (bit x i) (bit y i)
bit-bit_and x y zero = (half-bit_and x y).1
bit-bit_and x y (suc i) = rw ((half-bit_and x y).0, bit-bit_and (x / 2) (y / 2) i) refl

pub bit-bit_or : (x y i : ℕ) → bit (bit_or x y) i ≡ max (bit x i) (bit y i)
bit-bit_or x y zero = (half-bit_or x y).1
bit-bit_or x y (suc i) = rw ((half-bit_or x y).0, bit-bit_or (x / 2) (y / 2) i) refl

pub bit-bit_xor : (x y i : ℕ) → bit (bit_xor x y) i ≡ differ (bit x i) (bit y i)
bit-bit_xor x y zero = (half-bit_xor x y).1
bit-bit_xor x y (suc i) = rw ((half-bit_xor x y).0, bit-bit_xor (x / 2) (y / 2) i) refl

pub bit-lt : (x i : ℕ) → bit x i < 2
bit-lt x zero = omega arith
bit-lt x (suc i) = bit-lt (x / 2) i
