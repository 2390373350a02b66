-- ===== src/Secp/Scalar/Inverse/Power.antt =====
-- The steps of the chain as powers of the argument.
use tinychain.Base.{ℕ, zero, suc, ◌+◌, ◌-◌, ◌*◌, ◌/◌, ◌%◌, ◌^◌, ◌≡◌, sym, ap, ◌∙◌, arith}
use mathlib.Core.Path.{ap₂}
use tinychain.Base.Numbers.{mul-mod, pow-add, pow-one}
use tinychain.Secp.Scalar.{Scalar}
use tinychain.Secp.Scalar.Value.{value, order, HasLimbs}
use tinychain.Secp.Scalar.Product.{mul, sqr}
use tinychain.Secp.Scalar.Product.Laws.{scalar_mul_lem, scalar_sqr_lem}
use tinychain.Secp.Scalar.Inverse.{
  sqr_loop, shift_in, Blocks, blocks, upper_half, middle_part, lower_half, inverse,
}

-- `t` is `x ^ e` modulo the order.
record IsPower (x : Scalar) (e : ℕ) (t : Scalar) : Type 0 where
  limbs : HasLimbs t
  power : value t % order ≡ value x ^ e % order

reduced_twice : (n : ℕ) → n % order % order ≡ n % order
reduced_twice n = omega arith

product :
    (x : Scalar) (e f m n : ℕ) {s : ℕ}
    → m % order ≡ value x ^ e % order
    → n % order ≡ value x ^ f % order
    → s ≡ m * n % order
    → s % order ≡ value x ^ (e + f) % order
product x e f m n hm hn hs =
    ap (λ t. t % order) hs
    ∙ reduced_twice (m * n)
    ∙ sym (mul-mod m n order)
    ∙ ap₂ (λ u v. u * v % order) hm hn
    ∙ mul-mod (value x ^ e) (value x ^ f) order
    ∙ ap (λ t. t % order) (sym (pow-add (value x) e f))

mul-IsPower :
    {x s t : Scalar} {e f : ℕ} → IsPower x e s → IsPower x f t → IsPower x (e + f) (mul s t)
mul-IsPower {x} {s} {t} {e} {f} hs ht =
    let law = scalar_mul_lem s t hs.limbs ht.limbs in
    record {
      limbs = law.0.limbs;
      power = product x e f (value s) (value t) hs.power ht.power law.1;
    }

sqr-IsPower : {x t : Scalar} {e : ℕ} → IsPower x e t → IsPower x (e + e) (sqr t)
sqr-IsPower {x} {t} {e} h =
    let law = scalar_sqr_lem t h.limbs in
    record { limbs = law.0.limbs; power = product x e e (value t) (value t) h.power h.power law.1 }

doublings : ℕ → ℕ → ℕ
doublings zero e = e
doublings (suc n) e = doublings n (e + e)

sqr_loop-IsPower :
    {x : Scalar} (n : ℕ) {t : Scalar} {e : ℕ}
    → IsPower x e t
    → IsPower x (doublings n e) (sqr_loop n t)
unfolding sqr_loop doublings
sqr_loop-IsPower zero h = h
sqr_loop-IsPower (suc n) h = sqr_loop-IsPower n (sqr-IsPower h)

shift_in-IsPower :
    {x : Scalar} (n : ℕ) {y t : Scalar} {e f : ℕ}
    → IsPower x f y
    → IsPower x e t
    → IsPower x (doublings n e + f) (shift_in n y t)
unfolding shift_in
shift_in-IsPower n hy ht = mul-IsPower (sqr_loop-IsPower n ht) hy

-- The invariant of the blocks.
record ArePowers (x : Scalar) (b : Blocks) : Type 0 where
  x2 : IsPower x (2 ^ 2 - 1) b.x2
  x3 : IsPower x (2 ^ 3 - 1) b.x3
  x4 : IsPower x (2 ^ 4 - 1) b.x4
  x6 : IsPower x (2 ^ 6 - 1) b.x6
  x8 : IsPower x (2 ^ 8 - 1) b.x8
  x127 : IsPower x (2 ^ 127 - 1) b.x127

blocks-ArePowers : (x : Scalar) → IsPower x 1 x → ArePowers x (blocks x)
unfolding blocks doublings
blocks-ArePowers x h =
    let x2 : IsPower x (2 ^ 2 - 1) _ = mul-IsPower (sqr-IsPower h) h in
    let x3 : IsPower x (2 ^ 3 - 1) _ = mul-IsPower (sqr-IsPower x2) h in
    let x4 : IsPower x (2 ^ 4 - 1) _ = mul-IsPower (sqr-IsPower x3) h in
    let x6 : IsPower x (2 ^ 6 - 1) _ = mul-IsPower (sqr-IsPower (sqr-IsPower x4)) x2 in
    let x7 : IsPower x (2 ^ 7 - 1) _ = mul-IsPower (sqr-IsPower x6) h in
    let x8 : IsPower x (2 ^ 8 - 1) _ = mul-IsPower (sqr-IsPower x7) h in
    let x15 : IsPower x (2 ^ 15 - 1) _ = shift_in-IsPower 6 x7 (sqr-IsPower x8) in
    let x30 : IsPower x (2 ^ 30 - 1) _ = shift_in-IsPower 14 x15 (sqr-IsPower x15) in
    let x60 : IsPower x (2 ^ 60 - 1) _ = shift_in-IsPower 29 x30 (sqr-IsPower x30) in
    let x120 : IsPower x (2 ^ 120 - 1) _ = shift_in-IsPower 59 x60 (sqr-IsPower x60) in
    let x127 : IsPower x (2 ^ 127 - 1) _ = shift_in-IsPower 6 x7 (sqr-IsPower x120) in
    record { x2 = x2; x3 = x3; x4 = x4; x6 = x6; x8 = x8; x127 = x127 }

module _ (x : Scalar) (one : IsPower x 1 x) (b : Blocks) (h : ArePowers x b) where
  -- The highest 168 bits of `order - 2`.
  upper_half-IsPower : IsPower x ((order - 2) / 2 ^ 88) (upper_half x b)
  unfolding upper_half doublings
  upper_half-IsPower =
      let t1 = shift_in-IsPower 4 h.x3 (shift_in-IsPower 2 one h.x127) in
      let t2 = shift_in-IsPower 2 one (shift_in-IsPower 2 one (shift_in-IsPower 2 one t1)) in
      let t3 = shift_in-IsPower 4 h.x3 (shift_in-IsPower 3 h.x2 (shift_in-IsPower 4 h.x3 t2)) in
      let t4 = shift_in-IsPower 4 h.x2 (shift_in-IsPower 5 h.x3 t3) in
      let t5 = shift_in-IsPower 2 one (shift_in-IsPower 2 one t4) in shift_in-IsPower 5 h.x4 t5

  -- The next 34 bits.
  middle_part-IsPower :
      {t : Scalar}
      → IsPower x ((order - 2) / 2 ^ 88) t
      → IsPower x ((order - 2) / 2 ^ 54) (middle_part x b t)
  unfolding middle_part doublings
  middle_part-IsPower k =
      let t1 = shift_in-IsPower 4 one (shift_in-IsPower 3 one (shift_in-IsPower 2 one k)) in
      let t2 = shift_in-IsPower 10 h.x3 (shift_in-IsPower 2 one t1) in
      let t3 = shift_in-IsPower 4 h.x3 t2 in shift_in-IsPower 9 h.x8 t3

  -- The last 54 bits.
  lower_half-IsPower :
      {t : Scalar} → IsPower x ((order - 2) / 2 ^ 54) t → IsPower x (order - 2) (lower_half x b t)
  unfolding lower_half doublings
  lower_half-IsPower k =
      let t1 = shift_in-IsPower 3 one (shift_in-IsPower 3 one (shift_in-IsPower 2 one k)) in
      let t2 = shift_in-IsPower 2 one (shift_in-IsPower 5 h.x4 t1) in
      let t3 = shift_in-IsPower 4 h.x2 (shift_in-IsPower 5 h.x2 t2) in
      let t4 = shift_in-IsPower 8 h.x2 (shift_in-IsPower 2 one t3) in
      let t5 = shift_in-IsPower 3 one (shift_in-IsPower 3 h.x2 t4) in
      let t6 = shift_in-IsPower 6 one t5 in shift_in-IsPower 8 h.x6 t6

IsPower-self : (x : Scalar) → HasLimbs x → IsPower x 1 x
IsPower-self x h = record { limbs = h; power = ap (λ t. t % order) (sym (pow-one (value x))) }

-- For limbs of 64 bits, `inverse` is congruent to the power `order - 2` of its argument modulo the
-- order, in limbs of 64 bits.
pub inverse_lem :
    (x : Scalar)
    → HasLimbs x
    → HasLimbs (inverse x) × (value (inverse x) % order ≡ value x ^ (order - 2) % order)
unfolding inverse
inverse_lem x h =
    let one = IsPower-self x h in
    let b = blocks x in
    let powers = blocks-ArePowers x one in
    let upper = upper_half-IsPower x one b powers in
    let middle = middle_part-IsPower x one b powers upper in
    let lower = lower_half-IsPower x one b powers middle in (lower.limbs, lower.power)
