-- ===== src/Secp/Field/Storage.antt =====
-- The packed form of a field element in 4 words of 64 bits, and the comparison: the rest of
-- field_5x52_impl.h that works on normalized elements.
pub mod Laws
use tinychain.Base.{
  ℕ, ◌+◌, ◌-◌, ◌*◌, ◌/◌, ◌%◌, ◌^◌, bit_or, bit_and, u64, ◌<<<◌, ◌>>>◌, low_bits, ltb, if◌then◌else◌,
  to_int, Bool,
}
use tinychain.Secp.Field.{Fe}

-- `secp256k1_fe_storage`
pub record FeStorage : Type 0 where
  pub n0 : ℕ
  pub n1 : ℕ
  pub n2 : ℕ
  pub n3 : ℕ

unfoldable pub to_storage : Fe → FeStorage
to_storage a = record {
  n0 = bit_or a.n0 (u64 (a.n1 <<< 52));
  n1 = bit_or (a.n1 >>> 12) (u64 (a.n2 <<< 40));
  n2 = bit_or (a.n2 >>> 24) (u64 (a.n3 <<< 28));
  n3 = bit_or (a.n3 >>> 36) (u64 (a.n4 <<< 16));
}

unfoldable pub from_storage : FeStorage → Fe
from_storage a = record {
  n0 = low_bits a.n0 52;
  n1 = bit_or (a.n0 >>> 52) (low_bits (u64 (a.n1 <<< 12)) 52);
  n2 = bit_or (a.n1 >>> 40) (low_bits (u64 (a.n2 <<< 24)) 52);
  n3 = bit_or (a.n2 >>> 28) (low_bits (u64 (a.n3 <<< 36)) 52);
  n4 = a.n3 >>> 16;
}

-- The answers -1, 0 and 1 of `secp256k1_fe_cmp_var`.
pub data Sign : Type 0 where
  less : Sign
  same : Sign
  greater : Sign

-- One round of the loop: the limbs decide, or the rounds below do.
unfoldable pub compare_limb : ℕ → ℕ → Sign → Sign
compare_limb x y rest = if ltb y x then Sign.greater else (if ltb x y then Sign.less else rest)

-- `for (i = 4; i >= 0; i--)`
unfoldable pub cmp_var : Fe → Fe → Sign
cmp_var a b = compare_limb a.n4 b.n4 (
    compare_limb a.n3 b.n3
      (compare_limb a.n2 b.n2 (compare_limb a.n1 b.n1 (compare_limb a.n0 b.n0 Sign.same))))

-- The masks `flag + ~0` and its complement, for a flag of 0 or 1.
unfoldable pub choose_word : ℕ → ℕ → Bool → ℕ
choose_word r a flag =
    let mask0 = u64 (to_int flag + (2 ^ 64 - 1)) in
    let mask1 = 2 ^ 64 - 1 - mask0 in bit_or (bit_and r mask0) (bit_and a mask1)

unfoldable pub cmov : Fe → Fe → Bool → Fe
cmov r a flag = record {
  n0 = choose_word r.n0 a.n0 flag;
  n1 = choose_word r.n1 a.n1 flag;
  n2 = choose_word r.n2 a.n2 flag;
  n3 = choose_word r.n3 a.n3 flag;
  n4 = choose_word r.n4 a.n4 flag;
}

unfoldable pub storage_cmov : FeStorage → FeStorage → Bool → FeStorage
storage_cmov r a flag = record {
  n0 = choose_word r.n0 a.n0 flag;
  n1 = choose_word r.n1 a.n1 flag;
  n2 = choose_word r.n2 a.n2 flag;
  n3 = choose_word r.n3 a.n3 flag;
}
