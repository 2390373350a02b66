-- ===== src/Base/Bits.antt =====
-- Laws of `&`, `|` and `^` at variables, from the recursion on digits that they stand for.
mod Step
pub mod Mask
pub mod Digits
pub mod Fields
use Prim.Native.Nat.{
  ℕ, zero, suc, ◌+◌, ◌*◌, ◌/◌, ◌%◌, ◌^◌, ◌≤◌, ◌<◌, ◌-◌, bit_and, bit_or, bit_xor, min, max, differ,
}
use mathlib.Core.Path.{◌≡◌, refl, ap, ◌∙◌}
use native.Mathlib.Nat.{pow-suc, le_refl}
use native.Mathlib.Omega.{arith}
use Step.{bit_and_step, bit_or_step, bit_xor_step, zero-bit_and, zero-bit_or, zero-bit_xor}

-- Each induction halves its word, so it runs on a bound of the word.
below-bit_and : (n a b : ℕ) → a ≤ n → (bit_and a b ≤ a) × (bit_and a b ≤ b)
below-bit_and n zero b h = omega (arith, zero-bit_and b)
below-bit_and zero (suc a) b h = elim h [ ]
below-bit_and (suc n) (suc a) b h =
    omega (arith, bit_and_step (suc a) b, below-bit_and n (suc a / 2) (b / 2) (omega arith))

-- `&` is at most either word.
pub bit_and-le : (a b : ℕ) → (bit_and a b ≤ a) × (bit_and a b ≤ b)
bit_and-le a b = below-bit_and a a b (le_refl a)

above-bit_or : (n a b : ℕ) → a ≤ n → (a ≤ bit_or a b) × (b ≤ bit_or a b)
above-bit_or n zero b h = omega (arith, zero-bit_or b)
above-bit_or zero (suc a) b h = elim h [ ]
above-bit_or (suc n) (suc a) b h =
    omega (arith, bit_or_step (suc a) b, above-bit_or n (suc a / 2) (b / 2) (omega arith))

-- `|` is at least either word.
pub le-bit_or : (a b : ℕ) → (a ≤ bit_or a b) × (b ≤ bit_or a b)
le-bit_or a b = above-bit_or a a b (le_refl a)

differ_twice : (x y : ℕ) → x < 2 → y < 2 → (differ (differ x y) y ≡ x) × (differ x y < 2)
differ_twice zero zero h k = omega arith
differ_twice zero (suc zero) h k = omega arith
differ_twice (suc zero) zero h k = omega arith
differ_twice (suc zero) (suc zero) h k = omega arith
differ_twice (suc (suc x)) y h k = absurd (omega arith)
differ_twice zero (suc (suc y)) h k = absurd (omega arith)
differ_twice (suc zero) (suc (suc y)) h k = absurd (omega arith)

pub half-bit_xor :
    (a b : ℕ)
    → (bit_xor a b / 2 ≡ bit_xor (a / 2) (b / 2)) × (bit_xor a b % 2 ≡ differ (a % 2) (b % 2))
half-bit_xor a b =
    omega (arith, bit_xor_step a b, differ_twice (a % 2) (b % 2) (omega arith) (omega arith))

twice-bit_xor : (n a b : ℕ) → a ≤ n → b ≤ n → bit_xor (bit_xor a b) b ≡ a
twice-bit_xor zero zero zero h k = refl
twice-bit_xor zero (suc a) b h k = elim h [ ]
twice-bit_xor zero zero (suc b) h k = elim k [ ]
twice-bit_xor (suc n) a b h k =
    let step = bit_xor_step (bit_xor a b) b in
    rw (half-bit_xor a b).0 at (rw (half-bit_xor a b).1 at step)
    ∙ omega (
      arith,
      differ_twice (a % 2) (b % 2) (omega arith) (omega arith),
      twice-bit_xor n (a / 2) (b / 2) (omega arith) (omega arith),
    )

-- `^` by the same word twice gives the word back.
pub bit_xor_cancel : (a b : ℕ) → bit_xor (bit_xor a b) b ≡ a
bit_xor_cancel a b = twice-bit_xor (max a b) a b (omega arith) (omega arith)

swapped-bit_or : (n a b : ℕ) → a ≤ n → b ≤ n → bit_or a b ≡ bit_or b a
swapped-bit_or zero zero zero h k = refl
swapped-bit_or zero (suc a) b h k = elim h [ ]
swapped-bit_or zero zero (suc b) h k = elim k [ ]
swapped-bit_or (suc n) a b h k = omega (
  arith,
  bit_or_step a b,
  bit_or_step b a,
  swapped-bit_or n (a / 2) (b / 2) (omega arith) (omega arith),
)

pub bit_or_comm : (a b : ℕ) → bit_or a b ≡ bit_or b a
bit_or_comm a b = swapped-bit_or (max a b) a b (omega arith) (omega arith)

-- `(q << k) | r` is a sum when `r` has `k` bits.
pub bit_or_fields : (k q r : ℕ) → r < 2 ^ k → bit_or (q * 2 ^ k) r ≡ q * 2 ^ k + r
bit_or_fields zero q zero h =
    omega (arith, bit_or_comm q 0, zero-bit_or q, bit_or_comm (q * 1) 0, zero-bit_or (q * 1))
bit_or_fields zero q (suc r) h = absurd (omega arith)
bit_or_fields (suc k) q r h =
    let double : q * 2 ^ suc k ≡ 2 * (q * 2 ^ k) =
      omega (arith, ap (λ (t : ℕ). q * t) (pow-suc 2 k)) in
    ground (
      arith,
      double,
      pow-suc 2 k,
      bit_or_step (q * 2 ^ suc k) r,
      bit_or_fields k q (r / 2) (omega (arith, pow-suc 2 k)),
    )

-- `^` of words of `k` bits has `k` bits.
pub bit_xor-lt : (k a b : ℕ) → a < 2 ^ k → b < 2 ^ k → bit_xor a b < 2 ^ k
bit_xor-lt zero zero zero h l = omega arith
bit_xor-lt zero (suc a) b h l = absurd (omega arith)
bit_xor-lt zero zero (suc b) h l = absurd (omega arith)
bit_xor-lt (suc k) a b h l =
    let double = pow-suc 2 k in
    omega (
      arith,
      half-bit_xor a b,
      bit_xor-lt k (a / 2) (b / 2) (omega arith) (omega arith),
      differ_twice (a % 2) (b % 2) (omega arith) (omega arith),
    )
