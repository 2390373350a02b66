-- ===== src/Secp/Field32/Storage/Laws.antt =====
-- The packed form keeps the number and gives the element back.
use tinychain.Base.{ℕ, ◌+◌, ◌*◌, ◌/◌, ◌%◌, ◌^◌, ◌<◌, ◌≡◌, ◌∙◌, ap, refl, arith, bit_or}
use tinychain.Base.Bits.{bit_or_fields, bit_or_comm}
use tinychain.Secp.Field32.{Fe, u32}
use tinychain.Secp.Field32.Value.{value, IsNormalized}
use tinychain.Secp.Field32.Storage.{FeStorage, to_storage, from_storage}

abbrev pub storage_value : FeStorage → ℕ
storage_value s =
    s.n0
    + s.n1 * 2 ^ 32
    + s.n2 * 2 ^ 64
    + s.n3 * 2 ^ 96
    + s.n4 * 2 ^ 128
    + s.n5 * 2 ^ 160
    + s.n6 * 2 ^ 192
    + s.n7 * 2 ^ 224

-- Fields that do not overlap are added by `|`.
packed : (k q r : ℕ) {high : ℕ} → r < 2 ^ k → high ≡ q * 2 ^ k → bit_or r high ≡ r + q * 2 ^ k
packed k q r lt e = bit_or_comm r _ ∙ ap (λ t. bit_or t r) e ∙ omega (arith, bit_or_fields k q r lt)

-- The word that has bits of three limbs.
three_fields :
    (x y z : ℕ)
    → x < 2 ^ 26
    → y < 2 ^ 26
    → bit_or (bit_or (x / 2 ^ 24) (u32 (y * 2 ^ 2))) (u32 (z * 2 ^ 28))
      ≡ x / 2 ^ 24 + y * 2 ^ 2 + z % 2 ^ 4 * 2 ^ 28
three_fields x y z hx hy =
    let low : bit_or (x / 2 ^ 24) (u32 (y * 2 ^ 2)) ≡ x / 2 ^ 24 + y * 2 ^ 2 =
      packed 2 y (x / 2 ^ 24) (omega arith) (omega arith) in
    ap (λ t. bit_or t (u32 (z * 2 ^ 28))) low
    ∙ packed 28 (z % 2 ^ 4) (x / 2 ^ 24 + y * 2 ^ 2) (omega arith) (omega arith)

to_storage_words :
    (a : Fe)
    → IsNormalized a
    → let s = to_storage a in
      (s.n0 ≡ a.n0 + a.n1 % 2 ^ 6 * 2 ^ 26)
      × (s.n1 ≡ a.n1 / 2 ^ 6 + a.n2 % 2 ^ 12 * 2 ^ 20)
      × (s.n2 ≡ a.n2 / 2 ^ 12 + a.n3 % 2 ^ 18 * 2 ^ 14)
      × (s.n3 ≡ a.n3 / 2 ^ 18 + a.n4 % 2 ^ 24 * 2 ^ 8)
      × (s.n4 ≡ a.n4 / 2 ^ 24 + a.n5 * 2 ^ 2 + a.n6 % 2 ^ 4 * 2 ^ 28)
      × (s.n5 ≡ a.n6 / 2 ^ 4 + a.n7 % 2 ^ 10 * 2 ^ 22)
      × (s.n6 ≡ a.n7 / 2 ^ 10 + a.n8 % 2 ^ 16 * 2 ^ 16)
      × (s.n7 ≡ a.n8 / 2 ^ 16 + a.n9 % 2 ^ 22 * 2 ^ 10)
unfolding to_storage
to_storage_words a h = (
  packed 26 (a.n1 % 2 ^ 6) (a.n0) (omega arith) (omega arith),
  packed 20 (a.n2 % 2 ^ 12) (a.n1 / 2 ^ 6) (omega arith) (omega arith),
  packed 14 (a.n3 % 2 ^ 18) (a.n2 / 2 ^ 12) (omega arith) (omega arith),
  packed 8 (a.n4 % 2 ^ 24) (a.n3 / 2 ^ 18) (omega arith) (omega arith),
  three_fields a.n4 a.n5 a.n6 (omega arith) (omega arith),
  packed 22 (a.n7 % 2 ^ 10) (a.n6 / 2 ^ 4) (omega arith) (omega arith),
  packed 16 (a.n8 % 2 ^ 16) (a.n7 / 2 ^ 10) (omega arith) (omega arith),
  packed 10 (a.n9 % 2 ^ 22) (a.n8 / 2 ^ 16) (omega arith) (omega arith),
)

record HasStorageWords (s : FeStorage) : Type 0 where
  word0 : s.n0 < 2 ^ 32
  word1 : s.n1 < 2 ^ 32
  word2 : s.n2 < 2 ^ 32
  word3 : s.n3 < 2 ^ 32
  word4 : s.n4 < 2 ^ 32
  word5 : s.n5 < 2 ^ 32
  word6 : s.n6 < 2 ^ 32
  word7 : s.n7 < 2 ^ 32

from_storage_limbs :
    (s : FeStorage)
    → HasStorageWords s
    → let a = from_storage s in
      (a.n0 ≡ s.n0 % 2 ^ 26)
      × (a.n1 ≡ s.n0 / 2 ^ 26 + s.n1 % 2 ^ 20 * 2 ^ 6)
      × (a.n2 ≡ s.n1 / 2 ^ 20 + s.n2 % 2 ^ 14 * 2 ^ 12)
      × (a.n3 ≡ s.n2 / 2 ^ 14 + s.n3 % 2 ^ 8 * 2 ^ 18)
      × (a.n4 ≡ s.n3 / 2 ^ 8 + s.n4 % 2 ^ 2 * 2 ^ 24)
      × (a.n5 ≡ s.n4 / 2 ^ 2 % 2 ^ 26)
      × (a.n6 ≡ s.n4 / 2 ^ 28 + s.n5 % 2 ^ 22 * 2 ^ 4)
      × (a.n7 ≡ s.n5 / 2 ^ 22 + s.n6 % 2 ^ 16 * 2 ^ 10)
      × (a.n8 ≡ s.n6 / 2 ^ 16 + s.n7 % 2 ^ 10 * 2 ^ 16)
      × (a.n9 ≡ s.n7 / 2 ^ 10)
unfolding from_storage
from_storage_limbs s h = (
  refl,
  packed 6 (s.n1 % 2 ^ 20) (s.n0 / 2 ^ 26) (omega arith) (omega arith),
  packed 12 (s.n2 % 2 ^ 14) (s.n1 / 2 ^ 20) (omega arith) (omega arith),
  packed 18 (s.n3 % 2 ^ 8) (s.n2 / 2 ^ 14) (omega arith) (omega arith),
  packed 24 (s.n4 % 2 ^ 2) (s.n3 / 2 ^ 8) (omega arith) (omega arith),
  refl,
  packed 4 (s.n5 % 2 ^ 22) (s.n4 / 2 ^ 28) (omega arith) (omega arith),
  packed 10 (s.n6 % 2 ^ 16) (s.n5 / 2 ^ 22) (omega arith) (omega arith),
  packed 16 (s.n7 % 2 ^ 10) (s.n6 / 2 ^ 16) (omega arith) (omega arith),
  refl,
)

-- For a normalized element, `to_storage` keeps the value as a number of 256 bits, and `from_storage`
-- gives the element back.
pub narrow_from_storage-to_storage :
    (a : Fe)
    → IsNormalized a
    → (from_storage (to_storage a) ≡ a) × (storage_value (to_storage a) ≡ value a)
narrow_from_storage-to_storage a h =
    let s = to_storage a in
    let words = to_storage_words a h in
    let limbs = from_storage_limbs s (omega arith) in
    let same0 : (from_storage s).n0 ≡ a.n0 = omega arith in
    let same1 : (from_storage s).n1 ≡ a.n1 = omega arith in
    let same2 : (from_storage s).n2 ≡ a.n2 = omega arith in
    let same3 : (from_storage s).n3 ≡ a.n3 = omega arith in
    let same4 : (from_storage s).n4 ≡ a.n4 = omega arith in
    let same5 : (from_storage s).n5 ≡ a.n5 = omega arith in
    let same6 : (from_storage s).n6 ≡ a.n6 = omega arith in
    let same7 : (from_storage s).n7 ≡ a.n7 = omega arith in
    let same8 : (from_storage s).n8 ≡ a.n8 = omega arith in
    let same9 : (from_storage s).n9 ≡ a.n9 = omega arith in
    (
      λ i. record {
        n0 = same0 i;
        n1 = same1 i;
        n2 = same2 i;
        n3 = same3 i;
        n4 = same4 i;
        n5 = same5 i;
        n6 = same6 i;
        n7 = same7 i;
        n8 = same8 i;
        n9 = same9 i;
      },
      omega arith,
    )
