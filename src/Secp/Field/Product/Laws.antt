-- ===== src/Secp/Field/Product/Laws.antt =====
-- The product and the square of field elements.
use tinychain.Base.{ℕ, ◌-◌, ◌*◌, ◌%◌, ◌^◌, ◌≤◌, ◌≡◌, arith, u64, ap, ◌∙◌}
use native.Mathlib.Nat.{mul-le-mul}
use tinychain.Secp.Field.{Fe}
use tinychain.Secp.Field.Value.{value, prime, HasMagnitude}
use tinychain.Secp.Field.Product.{mul_sums, sqr_sums, fold_sums, mul, mul_inner, sqr, sqr_inner}
use tinychain.Secp.Field.Product.Columns.{AreBounded, sums_value, fold_sums_lem}

-- What VERIFY_BITS asks of an operand: magnitude 8 gives it.
pub record IsOperand (a : Fe) : Type 0 where
  pub low0 : a.n0 ≤ 2 ^ 56 - 1
  pub low1 : a.n1 ≤ 2 ^ 56 - 1
  pub low2 : a.n2 ≤ 2 ^ 56 - 1
  pub low3 : a.n3 ≤ 2 ^ 56 - 1
  pub top : a.n4 ≤ 2 ^ 52 - 1

magnitude-IsOperand : {m : ℕ} {a : Fe} → m ≤ 8 → HasMagnitude m a → IsOperand a
magnitude-IsOperand h k = omega arith

-- One limb times the limbs of an operand.
row :
    (x c : ℕ) {b : Fe}
    → x ≤ c
    → IsOperand b
    → (x * b.n0 ≤ c * (2 ^ 56 - 1))
      × (x * b.n1 ≤ c * (2 ^ 56 - 1))
      × (x * b.n2 ≤ c * (2 ^ 56 - 1))
      × (x * b.n3 ≤ c * (2 ^ 56 - 1))
      × (x * b.n4 ≤ c * (2 ^ 52 - 1))
row x c h k = (
  mul-le-mul h k.low0,
  mul-le-mul h k.low1,
  mul-le-mul h k.low2,
  mul-le-mul h k.low3,
  mul-le-mul h k.top,
)

module _ (a b : Fe) (ha : IsOperand a) (hb : IsOperand b) where
  mul_sums_lem : AreBounded (mul_sums a b) × (sums_value (mul_sums a b) ≡ value a * value b)
  unfolding mul_sums
  mul_sums_lem =
      let r0 = row a.n0 (2 ^ 56 - 1) ha.low0 hb in
      let r1 = row a.n1 (2 ^ 56 - 1) ha.low1 hb in
      let r2 = row a.n2 (2 ^ 56 - 1) ha.low2 hb in
      let r3 = row a.n3 (2 ^ 56 - 1) ha.low3 hb in
      let r4 = row a.n4 (2 ^ 52 - 1) ha.top hb in (omega arith, omega arith)

doubled : (x : ℕ) → x ≤ 2 ^ 56 - 1 → u64 (x * 2) ≡ x * 2
doubled x h = omega arith

-- The doubled limbs give the same sums as the product of the element with itself.
sqr_sums-eq-mul_sums : (a : Fe) → IsOperand a → sqr_sums a ≡ mul_sums a a
unfolding sqr_sums mul_sums
sqr_sums-eq-mul_sums a h =
    rw (doubled a.n0 h.low0, doubled a.n1 h.low1, doubled a.n2 h.low2, doubled a.n4 (omega arith))
      (ground arith)

-- For operands of magnitude at most 8, the value of `mul` is congruent to the product of the values
-- modulo the characteristic, and its magnitude is 1.
pub mul_lem :
    (a b : Fe) (m k : ℕ)
    → m ≤ 8
    → k ≤ 8
    → HasMagnitude m a
    → HasMagnitude k b
    → (value (mul a b) % prime ≡ value a * value b % prime) × HasMagnitude 1 (mul a b)
unfolding mul mul_inner
mul_lem a b m k hm hk ha hb =
    let sums = mul_sums_lem a b (magnitude-IsOperand hm ha) (magnitude-IsOperand hk hb) in
    let folded = fold_sums_lem (mul_sums a b) sums.0 in
    (folded.0 ∙ ap (λ x. x % prime) sums.1, omega arith)

-- For an operand of magnitude at most 8, `sqr` gives the same limbs as `mul` of the operand with
-- itself.
pub sqr-mul : (a : Fe) (m : ℕ) → m ≤ 8 → HasMagnitude m a → sqr a ≡ mul a a
unfolding sqr sqr_inner mul mul_inner
sqr-mul a m hm ha = ap fold_sums (sqr_sums-eq-mul_sums a (magnitude-IsOperand hm ha))
