-- ===== src/Secp/Field/Chain/Root.antt =====
-- The answers of `secp256k1_fe_inv` and `secp256k1_fe_sqrt`.
use tinychain.Base.{◌+◌, ◌-◌, ◌*◌, ◌/◌, ◌%◌, ◌^◌, ◌≡◌, true, ◌↔◌, arith, sym, ◌∙◌}
use tinychain.Secp.Field.{Fe}
use tinychain.Secp.Field.Value.{value, prime, HasMagnitude}
use tinychain.Secp.Field.Equal.{equal_iff}
use tinychain.Secp.Field.Product.{mul}
use tinychain.Secp.Field.Product.Laws.{mul_lem, sqr-mul}
use tinychain.Secp.Field.Chain.{sqrt, inv, sqrt_candidate}
use tinychain.Secp.Field.Chain.Power.{inv-IsPower, sqrt_candidate-IsPower}

-- For an operand of magnitude 8, `inv` is congruent to its power `prime - 2` modulo the
-- characteristic.
pub inv_lem : (a : Fe) → HasMagnitude 8 a → value (inv a) % prime ≡ value a ^ (prime - 2) % prime
inv_lem a h = (inv-IsPower a h).power

-- For an operand of magnitude 8, the root that `sqrt` gives is congruent to the power
-- `(prime + 1) / 4` of the operand, and the flag is set exactly when its square is congruent to the
-- operand.
pub sqrt_lem :
    (a : Fe)
    → HasMagnitude 8 a
    → let r = (sqrt a).0 in
      (value r % prime ≡ value a ^ ((prime + 1) / 4) % prime)
      × (((sqrt a).1 ≡ true) ↔ (value r * value r % prime ≡ value a % prime))
unfolding sqrt
sqrt_lem a h =
    let r = sqrt_candidate a in
    let power = sqrt_candidate-IsPower a h in
    let square = mul_lem r r 8 8 (omega arith) (omega arith) power.magnitude power.magnitude in
    let same = equal_iff (mul r r) a 8 (omega arith) square.1 h in
    (
      power.power,
      rw (sqr-mul r 8 (omega arith) power.magnitude)
          (λ k. sym square.0 ∙ same.0 k, λ k. same.1 (square.0 ∙ k)),
    )
