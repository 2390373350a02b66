-- ===== src/Secp/Residues/Tests.antt =====
-- The theorem on the two implementations at concrete scalars.
use tinychain.Base.{ℕ, ◌≡◌, refl, arith}
use tinychain.Secp.Scalar.Value.{value, IsScalar}
use tinychain.Secp.Scalar.{Scalar}
use tinychain.Secp.Scalar32
use tinychain.Secp.Scalar32.Value
use tinychain.Secp.Residues.{Formula, input, sum, opposite, product, square, meaning, run}
use tinychain.Secp.Residues.Limbs.{wide, narrow, limbs_agree}

abbrev wide_input : ℕ → Scalar
wide_input n = record { d0 = 0x123456789; d1 = 0; d2 = 0; d3 = 5 }

abbrev narrow_input : ℕ → Scalar32.Scalar
narrow_input n = record { d0 = 0x23456789; d1 = 1; d2 = 0; d3 = 0; d4 = 0; d5 = 0; d6 = 5; d7 = 0 }

abbrev formula : Formula
formula = sum (product (input 0) (square (input 1))) (opposite (input 2))

limbs_agree_example :
    IsScalar (run wide wide_input formula)
    × Value.IsScalar (run narrow narrow_input formula)
    × (value (run wide wide_input formula) ≡ meaning (λ n. value (wide_input n)) formula)
    × (value (run wide wide_input formula) ≡ Value.value (run narrow narrow_input formula))
limbs_agree_example =
    limbs_agree wide_input narrow_input (λ n. omega arith) (λ n. omega arith) (λ n. refl) formula
