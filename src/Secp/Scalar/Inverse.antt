-- ===== src/Secp/Scalar/Inverse.antt =====
-- `secp256k1_scalar_inverse` of scalar_impl.h: the addition chain for the power `order - 2`.
pub mod Power
use tinychain.Base.{ℕ, zero, suc}
use tinychain.Secp.Scalar.{Scalar}
use tinychain.Secp.Scalar.Product.{mul, sqr}

-- `for (i = 0; i < n; i++) secp256k1_scalar_sqr(t, t);`
unfoldable pub sqr_loop : ℕ → Scalar → Scalar
sqr_loop zero t = t
sqr_loop (suc n) t = sqr_loop n (sqr t)

-- A loop of squares and the product that follows it.
unfoldable pub shift_in : ℕ → Scalar → Scalar → Scalar
shift_in n y t = mul (sqr_loop n t) y

-- The blocks `x_k = x ^ (2 ^ k - 1)` that the accumulation uses.
pub record Blocks : Type 0 where
  pub x2 : Scalar
  pub x3 : Scalar
  pub x4 : Scalar
  pub x6 : Scalar
  pub x8 : Scalar
  pub x127 : Scalar

unfoldable pub blocks : Scalar → Blocks
blocks x =
    let x2 = mul (sqr x) x in
    let x3 = mul (sqr x2) x in
    let x4 = mul (sqr x3) x in
    let x6 = mul (sqr (sqr x4)) x2 in
    let x7 = mul (sqr x6) x in
    let x8 = mul (sqr x7) x in
    let x15 = shift_in 6 x7 (sqr x8) in
    let x30 = shift_in 14 x15 (sqr x15) in
    let x60 = shift_in 29 x30 (sqr x30) in
    let x120 = shift_in 59 x60 (sqr x60) in
    let x127 = shift_in 6 x7 (sqr x120) in
    record { x2 = x2; x3 = x3; x4 = x4; x6 = x6; x8 = x8; x127 = x127 }

-- The first half of the accumulation, up to the block of four ones.
unfoldable pub upper_half : Scalar → Blocks → Scalar
upper_half x b =
    let t1 = shift_in 4 b.x3 (shift_in 2 x b.x127) in
    let t2 = shift_in 2 x (shift_in 2 x (shift_in 2 x t1)) in
    let t3 = shift_in 4 b.x3 (shift_in 3 b.x2 (shift_in 4 b.x3 t2)) in
    let t4 = shift_in 4 b.x2 (shift_in 5 b.x3 t3) in
    let t5 = shift_in 2 x (shift_in 2 x t4) in shift_in 5 b.x4 t5

-- From there to the block of eight ones.
unfoldable pub middle_part : Scalar → Blocks → Scalar → Scalar
middle_part x b t =
    let t1 = shift_in 4 x (shift_in 3 x (shift_in 2 x t)) in
    let t2 = shift_in 10 b.x3 (shift_in 2 x t1) in let t3 = shift_in 4 b.x3 t2 in shift_in 9 b.x8 t3

unfoldable pub lower_half : Scalar → Blocks → Scalar → Scalar
lower_half x b t =
    let t1 = shift_in 3 x (shift_in 3 x (shift_in 2 x t)) in
    let t2 = shift_in 2 x (shift_in 5 b.x4 t1) in
    let t3 = shift_in 4 b.x2 (shift_in 5 b.x2 t2) in
    let t4 = shift_in 8 b.x2 (shift_in 2 x t3) in
    let t5 = shift_in 3 x (shift_in 3 b.x2 t4) in let t6 = shift_in 6 x t5 in shift_in 8 b.x6 t6

unfoldable pub inverse : Scalar → Scalar
inverse x = let b = blocks x in lower_half x b (middle_part x b (upper_half x b))
