-- ===== src/Secp/Scalar/Product/Laws.antt =====
-- The product and the square of scalars.
use tinychain.Base.{◌*◌, ◌%◌, ◌≡◌, ap, ◌∙◌}
use tinychain.Secp.Scalar.{Scalar}
use tinychain.Secp.Scalar.Value.{value, order, HasLimbs, IsScalar}
use tinychain.Secp.Scalar.Product.{mul, mul_512, sqr, sqr_512}
use tinychain.Secp.Scalar.Product.Words.{mul_512_lem, sqr_512_lem}
use tinychain.Secp.Scalar.Product.Reduction.{reduce_512_lem}

-- For limbs of 64 bits, `mul` gives the product of the values modulo the order, below the order.
pub scalar_mul_lem :
    (a b : Scalar)
    → HasLimbs a
    → HasLimbs b
    → IsScalar (mul a b) × (value (mul a b) ≡ value a * value b % order)
unfolding mul
scalar_mul_lem a b ha hb =
    let product = mul_512_lem a b ha hb in
    let reduced = reduce_512_lem (mul_512 a b) product.0 in
    (reduced.0, reduced.1 ∙ ap (λ x. x % order) product.1)

-- For limbs of 64 bits, `sqr` gives the square of the value modulo the order, below the order.
pub scalar_sqr_lem :
    (a : Scalar) → HasLimbs a → IsScalar (sqr a) × (value (sqr a) ≡ value a * value a % order)
unfolding sqr
scalar_sqr_lem a ha =
    let product = sqr_512_lem a ha in
    let reduced = reduce_512_lem (sqr_512 a) product.0 in
    (reduced.0, reduced.1 ∙ ap (λ x. x % order) product.1)
