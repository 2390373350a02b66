-- ===== src/Secp/Hash/Fips/Macros.antt =====
-- The macros of hash_impl.h are the functions of the standard, on words of 32 digits.
use tinychain.Base.{
  ℕ, zero, suc, ◌+◌, ◌-◌, ◌*◌, ◌/◌, ◌%◌, ◌^◌, ◌<◌, ◌≡◌, refl, sym, ap, ◌∙◌, arith, bit_and, bit_or,
  bit_xor,
}
use Prim.Native.Nat.{min, max, differ}
use native.Mathlib.Nat.{pow-suc}
use tinychain.Base.Bits.{half-bit_xor}
use tinychain.Base.Bits.Digits.{half-bit_and, half-bit_or}
use tinychain.Secp.Hash.{ch, maj, rotated, big_sigma0, big_sigma1, small_sigma0, small_sigma1}
use tinychain.Secp.Hash.Macros.{rotates}
use tinychain.Secp.Hash.Fips.{
  rotr, complement, choice, majority, upper_sigma0, upper_sigma1, lower_sigma0, lower_sigma1,
}

choice_digit :
    (x y z : ℕ)
    → x < 2
    → y < 2
    → z < 2
    → differ z (min x (differ y z)) ≡ differ (min x y) (min (1 - x) z)
choice_digit zero zero zero h k l = refl
choice_digit zero zero (suc zero) h k l = refl
choice_digit zero (suc zero) zero h k l = refl
choice_digit zero (suc zero) (suc zero) h k l = refl
choice_digit (suc zero) zero zero h k l = refl
choice_digit (suc zero) zero (suc zero) h k l = refl
choice_digit (suc zero) (suc zero) zero h k l = refl
choice_digit (suc zero) (suc zero) (suc zero) h k l = refl
choice_digit (suc (suc x)) y z h k l = absurd (omega arith)
choice_digit x (suc (suc y)) z h k l = absurd (omega arith)
choice_digit x y (suc (suc z)) h k l = absurd (omega arith)

majority_digit :
    (x y z : ℕ)
    → x < 2
    → y < 2
    → z < 2
    → max (min x y) (min z (max x y)) ≡ differ (differ (min x y) (min x z)) (min y z)
majority_digit zero zero zero h k l = refl
majority_digit zero zero (suc zero) h k l = refl
majority_digit zero (suc zero) zero h k l = refl
majority_digit zero (suc zero) (suc zero) h k l = refl
majority_digit (suc zero) zero zero h k l = refl
majority_digit (suc zero) zero (suc zero) h k l = refl
majority_digit (suc zero) (suc zero) zero h k l = refl
majority_digit (suc zero) (suc zero) (suc zero) h k l = refl
majority_digit (suc (suc x)) y z h k l = absurd (omega arith)
majority_digit x (suc (suc y)) z h k l = absurd (omega arith)
majority_digit x y (suc (suc z)) h k l = absurd (omega arith)

-- A number is its half and its lowest digit.
halves : (a b : ℕ) → a / 2 ≡ b / 2 → a % 2 ≡ b % 2 → a ≡ b
halves a b h k = omega arith

choice_width :
    (n x y z : ℕ)
    → x < 2 ^ n
    → y < 2 ^ n
    → z < 2 ^ n
    → bit_xor z (bit_and x (bit_xor y z)) ≡ bit_xor (bit_and x y) (bit_and (2 ^ n - 1 - x) z)
choice_width zero zero zero zero h k l = refl
choice_width zero (suc x) y z h k l = absurd (omega arith)
choice_width zero x (suc y) z h k l = absurd (omega arith)
choice_width zero x y (suc z) h k l = absurd (omega arith)
choice_width (suc n) x y z h k l =
    let double = pow-suc 2 n in
    let c = 2 ^ suc n - 1 - x in
    let c_half : c / 2 ≡ 2 ^ n - 1 - x / 2 = omega arith in
    let c_digit : c % 2 ≡ 1 - x % 2 = omega arith in
    let outer = half-bit_xor z (bit_and x (bit_xor y z)) in
    let middle = half-bit_and x (bit_xor y z) in
    let inner = half-bit_xor y z in
    let sum = half-bit_xor (bit_and x y) (bit_and c z) in
    let first = half-bit_and x y in
    let second = half-bit_and c z in
    halves (bit_xor z (bit_and x (bit_xor y z))) (bit_xor (bit_and x y) (bit_and c z))
      (rw (outer.0, middle.0, inner.0, sum.0, first.0, second.0, c_half)
        (choice_width n (x / 2) (y / 2) (z / 2) (omega arith) (omega arith) (omega arith)))
      (rw (outer.1, middle.1, inner.1, sum.1, first.1, second.1, c_digit)
        (choice_digit (x % 2) (y % 2) (z % 2) (omega arith) (omega arith) (omega arith)))

majority_width :
    (n x y z : ℕ)
    → x < 2 ^ n
    → y < 2 ^ n
    → z < 2 ^ n
    → bit_or (bit_and x y) (bit_and z (bit_or x y))
      ≡ bit_xor (bit_xor (bit_and x y) (bit_and x z)) (bit_and y z)
majority_width zero zero zero zero h k l = refl
majority_width zero (suc x) y z h k l = absurd (omega arith)
majority_width zero x (suc y) z h k l = absurd (omega arith)
majority_width zero x y (suc z) h k l = absurd (omega arith)
majority_width (suc n) x y z h k l =
    let double = pow-suc 2 n in
    let outer = half-bit_or (bit_and x y) (bit_and z (bit_or x y)) in
    let both = half-bit_and x y in
    let middle = half-bit_and z (bit_or x y) in
    let inner = half-bit_or x y in
    let sum = half-bit_xor (bit_xor (bit_and x y) (bit_and x z)) (bit_and y z) in
    let first = half-bit_xor (bit_and x y) (bit_and x z) in
    let second = half-bit_and x z in
    let third = half-bit_and y z in
    halves (bit_or (bit_and x y) (bit_and z (bit_or x y)))
      (bit_xor (bit_xor (bit_and x y) (bit_and x z)) (bit_and y z))
      (rw (outer.0, both.0, middle.0, inner.0, sum.0, first.0, both.0, second.0, third.0)
        (majority_width n (x / 2) (y / 2) (z / 2) (omega arith) (omega arith) (omega arith)))
      (rw (outer.1, both.1, middle.1, inner.1, sum.1, first.1, both.1, second.1, third.1)
        (majority_digit (x % 2) (y % 2) (z % 2) (omega arith) (omega arith) (omega arith)))

pub ch-choice : (x y z : ℕ) → x < 2 ^ 32 → y < 2 ^ 32 → z < 2 ^ 32 → ch x y z ≡ choice x y z
unfolding ch choice complement
ch-choice x y z h k l = choice_width 32 x y z h k l

pub maj-majority : (x y z : ℕ) → x < 2 ^ 32 → y < 2 ^ 32 → z < 2 ^ 32 → maj x y z ≡ majority x y z
unfolding maj majority
maj-majority x y z h k l = majority_width 32 x y z h k l

rotated-rotr :
    (r l x : ℕ)
    → r + l ≡ 32
    → x / 2 ^ r < 2 ^ l
    → x % 2 ^ r < 2 ^ r
    → x / 2 ^ r * 2 ^ r + x % 2 ^ r ≡ x
    → l ≡ 32 - r
    → rotated r l x ≡ rotr r x
unfolding rotr
rotated-rotr r l x sum high low whole left =
    ap (rotated r l) (sym whole)
    ∙ rotates r l (x / 2 ^ r) (x % 2 ^ r) sum high low
    ∙ ap (λ k. x % 2 ^ r * 2 ^ k + x / 2 ^ r) left

pub big_sigma0-upper_sigma0 : (x : ℕ) → x < 2 ^ 32 → big_sigma0 x ≡ upper_sigma0 x
unfolding big_sigma0 upper_sigma0
big_sigma0-upper_sigma0 x h =
    rw
      (
        rotated-rotr 2 30 x refl (omega arith) (omega arith) (omega arith) refl,
        rotated-rotr 13 19 x refl (omega arith) (omega arith) (omega arith) refl,
        rotated-rotr 22 10 x refl (omega arith) (omega arith) (omega arith) refl,
      )
      refl

pub big_sigma1-upper_sigma1 : (x : ℕ) → x < 2 ^ 32 → big_sigma1 x ≡ upper_sigma1 x
unfolding big_sigma1 upper_sigma1
big_sigma1-upper_sigma1 x h =
    rw
      (
        rotated-rotr 6 26 x refl (omega arith) (omega arith) (omega arith) refl,
        rotated-rotr 11 21 x refl (omega arith) (omega arith) (omega arith) refl,
        rotated-rotr 25 7 x refl (omega arith) (omega arith) (omega arith) refl,
      )
      refl

pub small_sigma0-lower_sigma0 : (x : ℕ) → x < 2 ^ 32 → small_sigma0 x ≡ lower_sigma0 x
unfolding small_sigma0 lower_sigma0
small_sigma0-lower_sigma0 x h =
    rw
      (
        rotated-rotr 7 25 x refl (omega arith) (omega arith) (omega arith) refl,
        rotated-rotr 18 14 x refl (omega arith) (omega arith) (omega arith) refl,
      )
      refl

pub small_sigma1-lower_sigma1 : (x : ℕ) → x < 2 ^ 32 → small_sigma1 x ≡ lower_sigma1 x
unfolding small_sigma1 lower_sigma1
small_sigma1-lower_sigma1 x h =
    rw
      (
        rotated-rotr 17 15 x refl (omega arith) (omega arith) (omega arith) refl,
        rotated-rotr 19 13 x refl (omega arith) (omega arith) (omega arith) refl,
      )
      refl
