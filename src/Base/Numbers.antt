-- ===== src/Base/Numbers.antt =====
-- Products and powers under `%`, for the native numbers.
use Prim.Native.Nat.{ℕ, zero, suc, ◌+◌, ◌*◌, ◌/◌, ◌%◌, ◌^◌}
use mathlib.Core.Path.{◌≡◌, sym, ap, ◌∙◌}
use native.Mathlib.Nat.{
  div-add-mod, add-mul-mod_self_left, add-zero, add-suc, pow-zero, pow-suc, mul_comm,
}
use native.Mathlib.Omega.{arith}

mod-mul_left : (a b n : ℕ) → a % n * b % n ≡ a * b % n
mod-mul_left a b n =
    let split : a * b ≡ a % n * b + n * (a / n * b) =
      omega (arith, ap (λ (t : ℕ). t * b) (div-add-mod a n)) in
    sym (ap (λ x. x % n) split ∙ add-mul-mod_self_left (a % n * b) n (a / n * b))

-- A product may be taken of the remainders.
pub mul-mod : (a b n : ℕ) → a % n * (b % n) % n ≡ a * b % n
mul-mod a b n =
    mod-mul_left a (b % n) n
    ∙ ap (λ x. x % n) (mul_comm a (b % n))
    ∙ mod-mul_left b a n
    ∙ ap (λ x. x % n) (mul_comm b a)

pub pow-add : (x a b : ℕ) → x ^ (a + b) ≡ x ^ a * x ^ b
pow-add x a zero = rw (add-zero, pow-zero) (omega arith)
pow-add x a (suc b) = rw add-suc (
    omega (
      arith,
      pow-suc x (a + b),
      pow-suc x b,
      ap (λ (t : ℕ). t * x) (pow-add x a b),
      ap (λ (t : ℕ). x ^ a * t) (pow-suc x b),
    ))

pub pow-one : (x : ℕ) → x ^ 1 ≡ x
pow-one x = pow-suc x 0 ∙ rw pow-zero (omega arith)
