-- ===== src/Base/Integers.antt =====
-- A `big.Int` as an integer over the native numbers.
use Prim.Native.Nat.{ℕ, ◌+◌, ◌-◌}
use mathlib.Core.Path.{◌≡◌}
use mathlib.Core.Bool.{Bool, true, false}
use native.Mathlib.Omega.{arith}
use tinychain.Base.Tests.{leb, if◌then◌else◌}

-- `negsuc n` is -(n + 1).
pub data ℤ : Type 0 where
  pos : ℕ → ℤ
  negsuc : ℕ → ℤ

-- The difference of two numbers.
abbrev pub sub_ℕ : ℕ → ℕ → ℤ
sub_ℕ m n = if leb n m then pos (m - n) else negsuc (n - (m + 1))

-- `new(big.Int).Add(a, b)`
infixl 65 ◌+ℤ◌ ◌-ℤ◌
unfoldable pub ◌+ℤ◌ : ℤ → ℤ → ℤ
pos m +ℤ pos n = pos (m + n)
pos m +ℤ negsuc n = sub_ℕ m (n + 1)
negsuc m +ℤ pos n = sub_ℕ n (m + 1)
negsuc m +ℤ negsuc n = negsuc (m + n + 1)

-- `new(big.Int).Mul(a, new(big.Int).SetInt64(-1))`
unfoldable pub negated : ℤ → ℤ
negated (pos n) = sub_ℕ 0 n
negated (negsuc n) = pos (n + 1)

-- `new(big.Int).Sub(a, b)`
unfoldable pub ◌-ℤ◌ : ℤ → ℤ → ℤ
pos m -ℤ pos n = sub_ℕ m n
pos m -ℤ negsuc n = pos (m + n + 1)
negsuc m -ℤ pos n = negsuc (m + n)
negsuc m -ℤ negsuc n = sub_ℕ (n + 1) (m + 1)

-- `a.Sign() == 0`
unfoldable pub is_zero_ℤ : ℤ → Bool
is_zero_ℤ (pos n) = leb n 0
is_zero_ℤ (negsuc n) = false

pub add-sub : (a b : ℤ) → (a +ℤ b) -ℤ b ≡ a
unfolding ◌+ℤ◌ ◌-ℤ◌
add-sub (pos m) (pos n) = ground arith
add-sub (pos m) (negsuc n) = ground arith
add-sub (negsuc m) (pos n) = ground arith
add-sub (negsuc m) (negsuc n) = ground arith

pub sub-add : (a b : ℤ) → (a -ℤ b) +ℤ b ≡ a
unfolding ◌+ℤ◌ ◌-ℤ◌
sub-add (pos m) (pos n) = ground arith
sub-add (pos m) (negsuc n) = ground arith
sub-add (negsuc m) (pos n) = ground arith
sub-add (negsuc m) (negsuc n) = ground arith

pub sub-negated : (a b : ℤ) → a -ℤ negated b ≡ a +ℤ b
unfolding ◌+ℤ◌ ◌-ℤ◌ negated
sub-negated (pos m) (pos n) = ground arith
sub-negated (pos m) (negsuc n) = ground arith
sub-negated (negsuc m) (pos n) = ground arith
sub-negated (negsuc m) (negsuc n) = ground arith

pub add_zero : (a b : ℤ) → is_zero_ℤ b ≡ true → a +ℤ b ≡ a
unfolding ◌+ℤ◌ is_zero_ℤ
add_zero (pos m) (pos n) h = ground arith
add_zero (negsuc m) (pos n) h = ground arith
add_zero (pos m) (negsuc n) h = absurd cc
add_zero (negsuc m) (negsuc n) h = absurd cc

pub sub_zero : (a b : ℤ) → is_zero_ℤ b ≡ true → a -ℤ b ≡ a
unfolding ◌-ℤ◌ is_zero_ℤ
sub_zero (pos m) (pos n) h = ground arith
sub_zero (negsuc m) (pos n) h = ground arith
sub_zero (pos m) (negsuc n) h = absurd cc
sub_zero (negsuc m) (negsuc n) h = absurd cc

-- `a.Sign() < 0`
unfoldable pub is_negative_ℤ : ℤ → Bool
is_negative_ℤ (pos n) = false
is_negative_ℤ (negsuc n) = true
