-- ===== src/Secp/Scalar32/Product/Laws.antt =====
-- The product and the square of scalars.
use tinychain.Base.{◌*◌, ◌%◌, ◌≡◌, ap, ◌∙◌}
use tinychain.Secp.Scalar.Value.{order}
use tinychain.Secp.Scalar32.{Scalar}
use tinychain.Secp.Scalar32.Value.{value, HasLimbs, IsScalar}
use tinychain.Secp.Scalar32.Product.{mul, mul_512, sqr, sqr_512}
use tinychain.Secp.Scalar32.Product.Words.{mul_512_lem, sqr_512_lem}
use tinychain.Secp.Scalar32.Product.Reduction.{narrow_reduce_512_lem}

-- For limbs of 32 bits, `mul` gives the product of the values modulo the order, below the order.
pub narrow_mul_lem :
    (a b : Scalar)
    → HasLimbs a
    → HasLimbs b
    → IsScalar (mul a b) × (value (mul a b) ≡ value a * value b % order)
unfolding mul
narrow_mul_lem a b ha hb =
    let product = mul_512_lem a b ha hb in
    let reduced = narrow_reduce_512_lem (mul_512 a b) product.0 in
    (reduced.0, reduced.1 ∙ ap (λ x. x % order) product.1)

-- For limbs of 32 bits, `sqr` gives the square of the value modulo the order, below the order.
pub narrow_sqr_lem :
    (a : Scalar) → HasLimbs a → IsScalar (sqr a) × (value (sqr a) ≡ value a * value a % order)
unfolding sqr
narrow_sqr_lem a ha =
    let product = sqr_512_lem a ha in
    let reduced = narrow_reduce_512_lem (sqr_512 a) product.0 in
    (reduced.0, reduced.1 ∙ ap (λ x. x % order) product.1)
