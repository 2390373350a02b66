-- ===== src/Secp/Field/Value.antt =====
-- What the limbs of a field element stand for.
use tinychain.Base.{ℕ, ◌+◌, ◌*◌, ◌^◌, ◌≤◌, ◌<◌}
use tinychain.Secp.Field.{Fe, limb_mask, top_mask}

-- The characteristic, 2 ^ 256 - 0x1000003D1.
abbrev pub prime : ℕ
prime = 0xFFFFFFFFFFFFFFFFFFFFFFFFFFFFFFFFFFFFFFFFFFFFFFFFFFFFFFFEFFFFFC2F

abbrev pub value : Fe → ℕ
value r = r.n0 + r.n1 * 2 ^ 52 + r.n2 * 2 ^ 104 + r.n3 * 2 ^ 156 + r.n4 * 2 ^ 208

-- `secp256k1_fe_verify` for an element that is not normalized.
pub record HasMagnitude (m : ℕ) (r : Fe) : Type 0 where
  pub low0 : r.n0 ≤ limb_mask * 2 * m
  pub low1 : r.n1 ≤ limb_mask * 2 * m
  pub low2 : r.n2 ≤ limb_mask * 2 * m
  pub low3 : r.n3 ≤ limb_mask * 2 * m
  pub top : r.n4 ≤ top_mask * 2 * m

-- `secp256k1_fe_verify` for a normalized element.
pub record IsNormalized (r : Fe) : Type 0 where
  pub low0 : r.n0 ≤ limb_mask
  pub low1 : r.n1 ≤ limb_mask
  pub low2 : r.n2 ≤ limb_mask
  pub low3 : r.n3 ≤ limb_mask
  pub top : r.n4 ≤ top_mask
  pub reduced : value r < prime
