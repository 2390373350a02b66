-- ===== src/Secp/Residues.antt =====
-- The interface of the scalars, whatever their limbs: scalar.h of
-- core/vm/evm/crypto/secp256k1/libsecp256k1/src. A build takes one of two implementations of it,
-- scalar_4x64_impl.h or scalar_8x32_impl.h.
mod Limbs
mod Tests
use tinychain.Base.{ℕ, ◌+◌, ◌-◌, ◌*◌, ◌%◌, ◌≡◌, refl, ap, ◌∙◌}
use tinychain.Secp.Scalar.Value.{order}

-- The operations of the header, and what they promise of the numbers that the scalars stand for.
pub record Arithmetic (Carrier : Type 0) : Type 1 where
  pub value : Carrier → ℕ
  pub IsResidue : Carrier → Type 0
  pub add : Carrier → Carrier → Carrier
  pub negate : Carrier → Carrier
  pub mul : Carrier → Carrier → Carrier
  pub sqr : Carrier → Carrier
  pub add_law :
      (a b : Carrier)
      → IsResidue a
      → IsResidue b
      → IsResidue (add a b) × (value (add a b) ≡ (value a + value b) % order)
  pub negate_law :
      (a : Carrier)
      → IsResidue a
      → IsResidue (negate a) × (value (negate a) ≡ (order - value a) % order)
  pub mul_law :
      (a b : Carrier)
      → IsResidue a
      → IsResidue b
      → IsResidue (mul a b) × (value (mul a b) ≡ value a * value b % order)
  pub sqr_law :
      (a : Carrier) → IsResidue a → IsResidue (sqr a) × (value (sqr a) ≡ value a * value a % order)

-- A computation with the operations of the header, on numbered inputs.
pub data Formula : Type 0 where
  input : ℕ → Formula
  sum : Formula → Formula → Formula
  opposite : Formula → Formula
  product : Formula → Formula → Formula
  square : Formula → Formula

-- What it stands for modulo the order.
unfoldable pub meaning : (ℕ → ℕ) → Formula → ℕ
meaning xs (input n) = xs n
meaning xs (sum f g) = (meaning xs f + meaning xs g) % order
meaning xs (opposite f) = (order - meaning xs f) % order
meaning xs (product f g) = meaning xs f * meaning xs g % order
meaning xs (square f) = meaning xs f * meaning xs f % order

module _ {Carrier : Type 0} (A : Arithmetic Carrier) where
  -- What the implementation computes.
  unfoldable pub run : (ℕ → Carrier) → Formula → Carrier
  run xs (input n) = xs n
  run xs (sum f g) = A.add (run xs f) (run xs g)
  run xs (opposite f) = A.negate (run xs f)
  run xs (product f g) = A.mul (run xs f) (run xs g)
  run xs (square f) = A.sqr (run xs f)

  pub run-meaning :
      (xs : ℕ → Carrier)
      → ((n : ℕ) → A.IsResidue (xs n))
      → (f : Formula)
      → A.IsResidue (run xs f) × (A.value (run xs f) ≡ meaning (λ n. A.value (xs n)) f)
  unfolding run meaning
  run-meaning xs h (input n) = (h n, refl)
  run-meaning xs h (sum f g) =
      let (hf, ef) = run-meaning xs h f in
      let (hg, eg) = run-meaning xs h g in
      let law = A.add_law (run xs f) (run xs g) hf hg in
      (law.0, law.1 ∙ (λ i. (ef i + eg i) % order))
  run-meaning xs h (opposite f) =
      let (hf, ef) = run-meaning xs h f in
      let law = A.negate_law (run xs f) hf in (law.0, law.1 ∙ (λ i. (order - ef i) % order))
  run-meaning xs h (product f g) =
      let (hf, ef) = run-meaning xs h f in
      let (hg, eg) = run-meaning xs h g in
      let law = A.mul_law (run xs f) (run xs g) hf hg in (law.0, law.1 ∙ (λ i. ef i * eg i % order))
  run-meaning xs h (square f) =
      let (hf, ef) = run-meaning xs h f in
      let law = A.sqr_law (run xs f) hf in (law.0, law.1 ∙ (λ i. ef i * ef i % order))
