-- ===== src/Secp/Field/Chain/Power.antt =====
-- The steps of the chains as powers of the argument, with the exponents that the names state.
use tinychain.Base.{ℕ, zero, suc, ◌+◌, ◌-◌, ◌*◌, ◌/◌, ◌%◌, ◌^◌, ◌≡◌, arith, sym, ap, ◌∙◌}
use mathlib.Core.Path.{ap₂}
use tinychain.Base.Numbers.{mul-mod, pow-add, pow-one}
use tinychain.Secp.Field.{Fe}
use tinychain.Secp.Field.Value.{value, prime, HasMagnitude}
use tinychain.Secp.Field.Product.{mul, sqr}
use tinychain.Secp.Field.Product.Laws.{mul_lem, sqr-mul}
use tinychain.Secp.Field.Chain.{sqr_loop, Blocks, blocks, sqrt_candidate, inv}

-- `x` is `a ^ e` modulo the characteristic, in limbs that a product accepts.
pub record IsPower (a : Fe) (e : ℕ) (x : Fe) : Type 0 where
  pub magnitude : HasMagnitude 8 x
  pub power : value x % prime ≡ value a ^ e % prime

wider : {x : Fe} → HasMagnitude 1 x → HasMagnitude 8 x
wider h = omega arith

mul-IsPower : {a x y : Fe} {e f : ℕ} → IsPower a e x → IsPower a f y → IsPower a (e + f) (mul x y)
mul-IsPower {a} {x} {y} {e} {f} hx hy =
    let product = mul_lem x y 8 8 (omega arith) (omega arith) hx.magnitude hy.magnitude in
    record {
      magnitude = wider product.1;
      power =
          product.0
          ∙ sym (mul-mod (value x) (value y) prime)
          ∙ ap₂ (λ s t. s * t % prime) hx.power hy.power
          ∙ mul-mod (value a ^ e) (value a ^ f) prime
          ∙ ap (λ t. t % prime) (sym (pow-add (value a) e f));
    }

sqr-IsPower : {a x : Fe} {e : ℕ} → IsPower a e x → IsPower a (e + e) (sqr x)
sqr-IsPower {x} h = rw (sqr-mul x 8 (omega arith) h.magnitude) (mul-IsPower h h)

doublings : ℕ → ℕ → ℕ
doublings zero e = e
doublings (suc n) e = doublings n (e + e)

sqr_loop-IsPower :
    {a : Fe} (n : ℕ) {x : Fe} {e : ℕ} → IsPower a e x → IsPower a (doublings n e) (sqr_loop n x)
unfolding sqr_loop doublings
sqr_loop-IsPower zero h = h
sqr_loop-IsPower (suc n) h = sqr_loop-IsPower n (sqr-IsPower h)

-- The invariant of the shared part.
record ArePowers (a : Fe) (b : Blocks) : Type 0 where
  x2 : IsPower a (2 ^ 2 - 1) b.x2
  x3 : IsPower a (2 ^ 3 - 1) b.x3
  x22 : IsPower a (2 ^ 22 - 1) b.x22
  x223 : IsPower a (2 ^ 223 - 1) b.x223

blocks-ArePowers : (a : Fe) → IsPower a 1 a → ArePowers a (blocks a)
unfolding blocks doublings
blocks-ArePowers a h =
    let x2 : IsPower a (2 ^ 2 - 1) _ = mul-IsPower (sqr-IsPower h) h in
    let x3 : IsPower a (2 ^ 3 - 1) _ = mul-IsPower (sqr-IsPower x2) h in
    let x6 : IsPower a (2 ^ 6 - 1) _ = mul-IsPower (sqr_loop-IsPower 3 x3) x3 in
    let x9 : IsPower a (2 ^ 9 - 1) _ = mul-IsPower (sqr_loop-IsPower 3 x6) x3 in
    let x11 : IsPower a (2 ^ 11 - 1) _ = mul-IsPower (sqr_loop-IsPower 2 x9) x2 in
    let x22 : IsPower a (2 ^ 22 - 1) _ = mul-IsPower (sqr_loop-IsPower 11 x11) x11 in
    let x44 : IsPower a (2 ^ 44 - 1) _ = mul-IsPower (sqr_loop-IsPower 22 x22) x22 in
    let x88 : IsPower a (2 ^ 88 - 1) _ = mul-IsPower (sqr_loop-IsPower 44 x44) x44 in
    let x176 : IsPower a (2 ^ 176 - 1) _ = mul-IsPower (sqr_loop-IsPower 88 x88) x88 in
    let x220 : IsPower a (2 ^ 220 - 1) _ = mul-IsPower (sqr_loop-IsPower 44 x176) x44 in
    let x223 : IsPower a (2 ^ 223 - 1) _ = mul-IsPower (sqr_loop-IsPower 3 x220) x3 in
    record { x2 = x2; x3 = x3; x22 = x22; x223 = x223 }

IsPower-self : (a : Fe) → HasMagnitude 8 a → IsPower a 1 a
IsPower-self a h = record { magnitude = h; power = ap (λ t. t % prime) (sym (pow-one (value a))) }

pub sqrt_candidate-IsPower :
    (a : Fe) → HasMagnitude 8 a → IsPower a ((prime + 1) / 4) (sqrt_candidate a)
unfolding sqrt_candidate doublings
sqrt_candidate-IsPower a h =
    let b = blocks-ArePowers a (IsPower-self a h) in
    let t1 = mul-IsPower (sqr_loop-IsPower 23 b.x223) b.x22 in
    let t2 = mul-IsPower (sqr_loop-IsPower 6 t1) b.x2 in sqr-IsPower (sqr-IsPower t2)

pub inv-IsPower : (a : Fe) → HasMagnitude 8 a → IsPower a (prime - 2) (inv a)
unfolding inv doublings
inv-IsPower a h =
    let one = IsPower-self a h in
    let b = blocks-ArePowers a one in
    let t1 = mul-IsPower (sqr_loop-IsPower 23 b.x223) b.x22 in
    let t2 = mul-IsPower (sqr_loop-IsPower 5 t1) one in
    let t3 = mul-IsPower (sqr_loop-IsPower 3 t2) b.x2 in mul-IsPower one (sqr_loop-IsPower 2 t3)
