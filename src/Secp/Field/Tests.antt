-- ===== src/Secp/Field/Tests.antt =====
-- Runs of the field operations, and the theorems at concrete numbers.
use tinychain.Base.{◌+◌, ◌-◌, ◌*◌, ◌/◌, ◌%◌, ◌^◌, ◌≡◌, ◌↔◌, true, arith, refl}
use tinychain.Secp.Field.{
  Fe, carry, normalize_weak, final_reduction, normalize, normalize_var, normalizes_to_zero,
}
use tinychain.Secp.Field.Value.{value, prime, HasMagnitude}
use tinychain.Secp.Field.Normalize.{NormalizesTo, normalize_lem, normalize_var-normalize}
use tinychain.Secp.Field.Zero.{normalizes_to_zero_iff}
use tinychain.Secp.Field.Product.{mul, sqr}
use tinychain.Secp.Field.Product.Laws.{mul_lem, sqr-mul}
use tinychain.Secp.Field.Chain.{sqrt, inv}
use tinychain.Secp.Field.Chain.Root.{inv_lem, sqrt_lem}

-- The characteristic itself, which is a raw form of 0.
abbrev raw_prime : Fe
raw_prime = record {
  n0 = 0xFFFFEFFFFFC2F;
  n1 = 0xFFFFFFFFFFFFF;
  n2 = 0xFFFFFFFFFFFFF;
  n3 = 0xFFFFFFFFFFFFF;
  n4 = 0x0FFFFFFFFFFFF;
}

-- The largest limbs of magnitude 8.
abbrev widest : Fe
widest = record {
  n0 = 0xFFFFFFFFFFFFF * 16;
  n1 = 0xFFFFFFFFFFFFF * 16;
  n2 = 0xFFFFFFFFFFFFF * 16;
  n3 = 0xFFFFFFFFFFFFF * 16;
  n4 = 0x0FFFFFFFFFFFF * 16;
}

abbrev five : Fe
five = record { n0 = 5; n1 = 0; n2 = 0; n3 = 0; n4 = 0 }

abbrev one : Fe
one = record { n0 = 1; n1 = 0; n2 = 0; n3 = 0; n4 = 0 }

widest-HasMagnitude : HasMagnitude 8 widest
widest-HasMagnitude = omega arith

normalize-raw_prime : value (normalize raw_prime) ≡ 0
unfolding normalize carry normalize_weak final_reduction
normalize-raw_prime = refl

normalize_lem_example : NormalizesTo widest (normalize widest)
normalize_lem_example = normalize_lem widest (omega arith)

normalize_var-normalize_example : normalize_var raw_prime ≡ normalize raw_prime
normalize_var-normalize_example = normalize_var-normalize raw_prime (omega arith)

normalizes_to_zero_iff_example :
    (normalizes_to_zero raw_prime ≡ true) ↔ (value raw_prime % prime ≡ 0)
normalizes_to_zero_iff_example = normalizes_to_zero_iff raw_prime (omega arith)

mul_lem_example :
    (value (mul widest five) % prime ≡ value widest * 5 % prime) × HasMagnitude 1 (mul widest five)
mul_lem_example =
    mul_lem widest five 8 1 (omega arith) (omega arith) widest-HasMagnitude (omega arith)

sqr-mul_example : sqr widest ≡ mul widest widest
sqr-mul_example = sqr-mul widest 8 (omega arith) widest-HasMagnitude

inv_lem_example : value (inv five) % prime ≡ 5 ^ (prime - 2) % prime
inv_lem_example = inv_lem five (omega arith)

sqrt_lem_example :
    let r = (sqrt five).0 in
    (value r % prime ≡ 5 ^ ((prime + 1) / 4) % prime)
    × (((sqrt five).1 ≡ true) ↔ (value r * value r % prime ≡ 5))
sqrt_lem_example = sqrt_lem five (omega arith)
