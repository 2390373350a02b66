-- ===== src/Secp/Field32/Tests.antt =====
-- Runs of the field operations in 26-bit limbs, and the theorems at concrete limbs.
use tinychain.Base.{◌*◌, ◌≡◌, refl, true, arith}
use tinychain.Secp.Field32.{
  Fe, limb_mask, top_mask, carry, normalize_weak, final_reduction, normalize, normalizes_to_zero,
}
use tinychain.Secp.Field32.Value.{value}
use tinychain.Secp.Field32.Storage.{to_storage, from_storage}
use tinychain.Secp.Field32.Storage.Laws.{storage_value, narrow_from_storage-to_storage}
use tinychain.Secp.Field32.Normalize.{NormalizesTo, narrow_normalize_lem}

-- The characteristic itself.
abbrev characteristic : Fe
characteristic = record {
  n0 = 0x3FFFC2F;
  n1 = 0x3FFFFBF;
  n2 = limb_mask;
  n3 = limb_mask;
  n4 = limb_mask;
  n5 = limb_mask;
  n6 = limb_mask;
  n7 = limb_mask;
  n8 = limb_mask;
  n9 = top_mask;
}

-- Every limb as large as the magnitude 31 allows.
abbrev largest : Fe
largest = record {
  n0 = limb_mask * 62;
  n1 = limb_mask * 62;
  n2 = limb_mask * 62;
  n3 = limb_mask * 62;
  n4 = limb_mask * 62;
  n5 = limb_mask * 62;
  n6 = limb_mask * 62;
  n7 = limb_mask * 62;
  n8 = limb_mask * 62;
  n9 = top_mask * 62;
}

characteristic-zero : value (normalize characteristic) ≡ 0
unfolding normalize normalize_weak final_reduction carry
characteristic-zero = refl

characteristic-normalizes_to_zero : normalizes_to_zero characteristic ≡ true
unfolding normalizes_to_zero normalize_weak carry
characteristic-normalizes_to_zero = refl

narrow_normalize_lem_example : NormalizesTo largest (normalize largest)
narrow_normalize_lem_example = narrow_normalize_lem largest (omega arith)

-- The characteristic less one, whose limbs have all bits but a few.
abbrev below : Fe
below = record {
  n0 = 0x3FFFC2E;
  n1 = 0x3FFFFBF;
  n2 = limb_mask;
  n3 = limb_mask;
  n4 = limb_mask;
  n5 = limb_mask;
  n6 = limb_mask;
  n7 = limb_mask;
  n8 = limb_mask;
  n9 = top_mask;
}

narrow_from_storage-to_storage_example :
    (from_storage (to_storage below) ≡ below) × (storage_value (to_storage below) ≡ value below)
narrow_from_storage-to_storage_example = narrow_from_storage-to_storage below (omega arith)
