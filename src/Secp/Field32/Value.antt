-- ===== src/Secp/Field32/Value.antt =====
-- What the limbs of a field element stand for.
use tinychain.Base.{ℕ, ◌+◌, ◌*◌, ◌^◌, ◌≤◌, ◌<◌}
use tinychain.Secp.Field.Value.{prime}
use tinychain.Secp.Field32.{Fe, limb_mask, top_mask}

abbrev pub value : Fe → ℕ
value r =
    r.n0
    + r.n1 * 2 ^ 26
    + r.n2 * 2 ^ 52
    + r.n3 * 2 ^ 78
    + r.n4 * 2 ^ 104
    + r.n5 * 2 ^ 130
    + r.n6 * 2 ^ 156
    + r.n7 * 2 ^ 182
    + r.n8 * 2 ^ 208
    + r.n9 * 2 ^ 234

-- The bounds that `secp256k1_fe_verify` sets on the limbs of an element that is not normalized.
pub record HasMagnitude (m : ℕ) (r : Fe) : Type 0 where
  pub low0 : r.n0 ≤ limb_mask * 2 * m
  pub low1 : r.n1 ≤ limb_mask * 2 * m
  pub low2 : r.n2 ≤ limb_mask * 2 * m
  pub low3 : r.n3 ≤ limb_mask * 2 * m
  pub low4 : r.n4 ≤ limb_mask * 2 * m
  pub low5 : r.n5 ≤ limb_mask * 2 * m
  pub low6 : r.n6 ≤ limb_mask * 2 * m
  pub low7 : r.n7 ≤ limb_mask * 2 * m
  pub low8 : r.n8 ≤ limb_mask * 2 * m
  pub top : r.n9 ≤ top_mask * 2 * m

-- `secp256k1_fe_verify` for a normalized element.
pub record IsNormalized (r : Fe) : Type 0 where
  pub low0 : r.n0 ≤ limb_mask
  pub low1 : r.n1 ≤ limb_mask
  pub low2 : r.n2 ≤ limb_mask
  pub low3 : r.n3 ≤ limb_mask
  pub low4 : r.n4 ≤ limb_mask
  pub low5 : r.n5 ≤ limb_mask
  pub low6 : r.n6 ≤ limb_mask
  pub low7 : r.n7 ≤ limb_mask
  pub low8 : r.n8 ≤ limb_mask
  pub top : r.n9 ≤ top_mask
  pub reduced : value r < prime
