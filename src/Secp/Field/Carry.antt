-- ===== src/Secp/Field/Carry.antt =====
-- The number that a carry pass leaves, and its limbs.
use tinychain.Base.{ℕ, ◌+◌, ◌-◌, ◌*◌, ◌^◌, ◌≤◌, ◌<◌, ◌≡◌, arith}
use tinychain.Secp.Field.{Fe, carry, reduction, limb_mask}
use tinychain.Secp.Field.Value.{value}

-- What a pass needs so that no limb wraps.
pub record Fits (r : Fe) (x : ℕ) : Type 0 where
  pub limb0 : r.n0 + x * reduction < 2 ^ 64
  pub limb1 : r.n1 < 2 ^ 64 - 2 ^ 12
  pub limb2 : r.n2 < 2 ^ 64 - 2 ^ 12
  pub limb3 : r.n3 < 2 ^ 64 - 2 ^ 12
  pub limb4 : r.n4 < 2 ^ 64 - 2 ^ 12

pub value-carry : (r : Fe) (x : ℕ) → Fits r x → value (carry r x) ≡ value r + x * reduction
unfolding carry
value-carry r x h = omega arith

pub carry_bounds :
    (r : Fe) (x : ℕ)
    → Fits r x
    → ((carry r x).n0 ≤ limb_mask)
      × ((carry r x).n1 ≤ limb_mask)
      × ((carry r x).n2 ≤ limb_mask)
      × ((carry r x).n3 ≤ limb_mask)
      × ((carry r x).n4 ≤ r.n4 + 2 ^ 12)
unfolding carry
carry_bounds r x h = omega arith
