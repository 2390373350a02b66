-- ===== src/Secp/Field/Equal.antt =====
-- `secp256k1_fe_equal` of field_impl.h and congruence modulo the characteristic.
use tinychain.Base.{ℕ, ◌%◌, ◌≤◌, ◌≡◌, ◌↔◌, arith}
use tinychain.Base.{true}
use tinychain.Secp.Field.{Fe, add, negate, equal}
use tinychain.Secp.Field.Value.{value, prime, HasMagnitude}
use tinychain.Secp.Field.Linear.{add_lem, negate_lem}
use tinychain.Secp.Field.Zero.{normalizes_to_zero_iff}

-- For `a` of magnitude 1 and `b` of magnitude at most 2045, `equal` answers yes exactly when their
-- values are congruent modulo the characteristic.
pub equal_iff :
    (a b : Fe) (m : ℕ)
    → m ≤ 2045
    → HasMagnitude 1 a
    → HasMagnitude m b
    → (equal a b ≡ true) ↔ (value a % prime ≡ value b % prime)
unfolding equal
equal_iff a b m le ha hb =
    let neg = negate_lem a 1 (omega arith) ha in
    let sum = add_lem (negate a 1) b 2 m (omega arith) neg.0 hb in
    let zero = normalizes_to_zero_iff (add (negate a 1) b) (omega arith) in
    (λ k. omega (arith, zero.0 k), λ k. zero.1 (omega arith))
