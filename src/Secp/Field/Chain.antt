-- ===== src/Secp/Field/Chain.antt =====
-- The addition chains of field_impl.h: the inverse as the power `p - 2` and the square root as the
-- power `(p + 1) / 4`.
pub mod Power
pub mod Root
use tinychain.Base.{ℕ, zero, suc, Bool}
use tinychain.Secp.Field.{Fe, equal}
use tinychain.Secp.Field.Product.{mul, sqr}

-- `for (j=0; j<n; j++) secp256k1_fe_sqr(&x, &x);`
unfoldable pub sqr_loop : ℕ → Fe → Fe
sqr_loop zero x = x
sqr_loop (suc n) x = sqr_loop n (sqr x)

-- The blocks of ones that both chains end with.
pub record Blocks : Type 0 where
  pub x2 : Fe
  pub x3 : Fe
  pub x22 : Fe
  pub x223 : Fe

-- The part that `secp256k1_fe_sqrt` and `secp256k1_fe_inv` share word for word.
unfoldable pub blocks : Fe → Blocks
blocks a =
    let x2 = mul (sqr a) a in
    let x3 = mul (sqr x2) a in
    let x6 = mul (sqr_loop 3 x3) x3 in
    let x9 = mul (sqr_loop 3 x6) x3 in
    let x11 = mul (sqr_loop 2 x9) x2 in
    let x22 = mul (sqr_loop 11 x11) x11 in
    let x44 = mul (sqr_loop 22 x22) x22 in
    let x88 = mul (sqr_loop 44 x44) x44 in
    let x176 = mul (sqr_loop 88 x88) x88 in
    let x220 = mul (sqr_loop 44 x176) x44 in
    let x223 = mul (sqr_loop 3 x220) x3 in record { x2 = x2; x3 = x3; x22 = x22; x223 = x223 }

-- The root itself, `r` of `secp256k1_fe_sqrt`.
unfoldable pub sqrt_candidate : Fe → Fe
sqrt_candidate a =
    let b = blocks a in
    let t1 = mul (sqr_loop 23 b.x223) b.x22 in let t2 = mul (sqr_loop 6 t1) b.x2 in sqr (sqr t2)

-- `secp256k1_fe_sqrt`: the candidate, and whether its square is the argument.
unfoldable pub sqrt : Fe → Fe × Bool
sqrt a = let r = sqrt_candidate a in (r, equal (sqr r) a)

unfoldable pub inv : Fe → Fe
inv a =
    let b = blocks a in
    let t1 = mul (sqr_loop 23 b.x223) b.x22 in
    let t2 = mul (sqr_loop 5 t1) a in let t3 = mul (sqr_loop 3 t2) b.x2 in mul a (sqr_loop 2 t3)
