-- ===== src/Secp/Residues/Limbs.antt =====
-- The two implementations of the scalars and what they share.
use tinychain.Base.{ℕ, ◌≡◌, sym, ap, ◌∙◌}
use tinychain.Secp.Residues.{Arithmetic, Formula, meaning, run, run-meaning}
use tinychain.Secp.Scalar.{Scalar, add, negate}
use tinychain.Secp.Scalar.Value.{value, IsScalar}
use tinychain.Secp.Scalar.Sum.{scalar_add_lem, scalar_negate_lem}
use tinychain.Secp.Scalar.Product.{mul, sqr}
use tinychain.Secp.Scalar.Product.Laws.{scalar_mul_lem, scalar_sqr_lem}
use tinychain.Secp.Scalar32
use tinychain.Secp.Scalar32.Value
use tinychain.Secp.Scalar32.Product
use tinychain.Secp.Scalar32.Sum.{narrow_add_lem, narrow_negate_lem}
use tinychain.Secp.Scalar32.Product.Laws.{narrow_mul_lem, narrow_sqr_lem}

-- Four limbs of 64 bits.
abbrev pub wide : Arithmetic Scalar
wide = record {
  value = value;
  IsResidue = IsScalar;
  add = λ a b. (add a b).0;
  negate = negate;
  mul = mul;
  sqr = sqr;
  add_law = λ a b ha hb. let law = scalar_add_lem a b ha hb in (law.0, law.1);
  negate_law = scalar_negate_lem;
  mul_law = λ a b ha hb. scalar_mul_lem a b ha.limbs hb.limbs;
  sqr_law = λ a ha. scalar_sqr_lem a ha.limbs;
}

-- Eight limbs of 32 bits.
abbrev pub narrow : Arithmetic Scalar32.Scalar
narrow = record {
  value = Value.value;
  IsResidue = Value.IsScalar;
  add = λ a b. (Scalar32.add a b).0;
  negate = Scalar32.negate;
  mul = Product.mul;
  sqr = Product.sqr;
  add_law = λ a b ha hb. let law = narrow_add_lem a b ha hb in (law.0, law.1);
  negate_law = narrow_negate_lem;
  mul_law = λ a b ha hb. narrow_mul_lem a b ha.limbs hb.limbs;
  sqr_law = λ a ha. narrow_sqr_lem a ha.limbs;
}

-- On inputs below the order that stand for the same numbers, any sums, opposites, products and
-- squares come out as the same number in four limbs of 64 bits and in eight of 32, the one that
-- arithmetic modulo the order gives, below the order.
pub limbs_agree :
    (xs : ℕ → Scalar) (ys : ℕ → Scalar32.Scalar)
    → ((n : ℕ) → IsScalar (xs n))
    → ((n : ℕ) → Value.IsScalar (ys n))
    → ((n : ℕ) → value (xs n) ≡ Value.value (ys n))
    → (f : Formula)
    → IsScalar (run wide xs f)
      × Value.IsScalar (run narrow ys f)
      × (value (run wide xs f) ≡ meaning (λ n. value (xs n)) f)
      × (value (run wide xs f) ≡ Value.value (run narrow ys f))
limbs_agree xs ys hx hy same f =
    let left = run-meaning wide xs hx f in
    let right = run-meaning narrow ys hy f in
    (
      left.0,
      right.0,
      left.1,
      left.1 ∙ ap (λ (zs : ℕ → ℕ). meaning zs f) (λ i n. same n i) ∙ sym right.1,
    )
