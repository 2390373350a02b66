-- ===== src/Secp/Field32/Storage.antt =====
-- The packed form of a field element in 8 words of 32 bits, the comparison and the conditional moves:
-- the last part of field_10x26_impl.h.
use tinychain.Base.{
  ℕ, ◌+◌, ◌-◌, ◌*◌, ◌/◌, ◌%◌, ◌^◌, bit_or, bit_and, ◌<<<◌, ◌>>>◌, low_bits, to_int, Bool,
}
use tinychain.Secp.Field.Storage.{Sign, compare_limb}
use tinychain.Secp.Field32.{Fe, u32}
pub mod Laws

-- `secp256k1_fe_storage`
pub record FeStorage : Type 0 where
  pub n0 : ℕ
  pub n1 : ℕ
  pub n2 : ℕ
  pub n3 : ℕ
  pub n4 : ℕ
  pub n5 : ℕ
  pub n6 : ℕ
  pub n7 : ℕ

unfoldable pub to_storage : Fe → FeStorage
to_storage a = record {
  n0 = bit_or a.n0 (u32 (a.n1 <<< 26));
  n1 = bit_or (a.n1 >>> 6) (u32 (a.n2 <<< 20));
  n2 = bit_or (a.n2 >>> 12) (u32 (a.n3 <<< 14));
  n3 = bit_or (a.n3 >>> 18) (u32 (a.n4 <<< 8));
  n4 = bit_or (bit_or (a.n4 >>> 24) (u32 (a.n5 <<< 2))) (u32 (a.n6 <<< 28));
  n5 = bit_or (a.n6 >>> 4) (u32 (a.n7 <<< 22));
  n6 = bit_or (a.n7 >>> 10) (u32 (a.n8 <<< 16));
  n7 = bit_or (a.n8 >>> 16) (u32 (a.n9 <<< 10));
}

unfoldable pub from_storage : FeStorage → Fe
from_storage a = record {
  n0 = low_bits a.n0 26;
  n1 = bit_or (a.n0 >>> 26) (low_bits (u32 (a.n1 <<< 6)) 26);
  n2 = bit_or (a.n1 >>> 20) (low_bits (u32 (a.n2 <<< 12)) 26);
  n3 = bit_or (a.n2 >>> 14) (low_bits (u32 (a.n3 <<< 18)) 26);
  n4 = bit_or (a.n3 >>> 8) (low_bits (u32 (a.n4 <<< 24)) 26);
  n5 = low_bits (a.n4 >>> 2) 26;
  n6 = bit_or (a.n4 >>> 28) (low_bits (u32 (a.n5 <<< 4)) 26);
  n7 = bit_or (a.n5 >>> 22) (low_bits (u32 (a.n6 <<< 10)) 26);
  n8 = bit_or (a.n6 >>> 16) (low_bits (u32 (a.n7 <<< 16)) 26);
  n9 = a.n7 >>> 10;
}

-- `for (i = 9; i >= 0; i--)`
unfoldable pub cmp_var : Fe → Fe → Sign
cmp_var a b = compare_limb a.n9 b.n9 (
    compare_limb a.n8 b.n8 (
      compare_limb a.n7 b.n7 (
        compare_limb a.n6 b.n6 (
          compare_limb a.n5 b.n5 (
            compare_limb a.n4 b.n4 (
              compare_limb a.n3 b.n3 (
                compare_limb a.n2 b.n2
                  (compare_limb a.n1 b.n1 (compare_limb a.n0 b.n0 Sign.same)))))))))

-- The masks `flag + ~0` and its complement, for a flag of 0 or 1.
unfoldable pub choose_word : ℕ → ℕ → Bool → ℕ
choose_word r a flag =
    let mask0 = u32 (to_int flag + (2 ^ 32 - 1)) in
    let mask1 = 2 ^ 32 - 1 - mask0 in bit_or (bit_and r mask0) (bit_and a mask1)

unfoldable pub cmov : Fe → Fe → Bool → Fe
cmov r a flag = record {
  n0 = choose_word r.n0 a.n0 flag;
  n1 = choose_word r.n1 a.n1 flag;
  n2 = choose_word r.n2 a.n2 flag;
  n3 = choose_word r.n3 a.n3 flag;
  n4 = choose_word r.n4 a.n4 flag;
  n5 = choose_word r.n5 a.n5 flag;
  n6 = choose_word r.n6 a.n6 flag;
  n7 = choose_word r.n7 a.n7 flag;
  n8 = choose_word r.n8 a.n8 flag;
  n9 = choose_word r.n9 a.n9 flag;
}

unfoldable pub storage_cmov : FeStorage → FeStorage → Bool → FeStorage
storage_cmov r a flag = record {
  n0 = choose_word r.n0 a.n0 flag;
  n1 = choose_word r.n1 a.n1 flag;
  n2 = choose_word r.n2 a.n2 flag;
  n3 = choose_word r.n3 a.n3 flag;
  n4 = choose_word r.n4 a.n4 flag;
  n5 = choose_word r.n5 a.n5 flag;
  n6 = choose_word r.n6 a.n6 flag;
  n7 = choose_word r.n7 a.n7 flag;
}
