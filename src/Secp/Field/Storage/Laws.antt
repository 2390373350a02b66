-- ===== src/Secp/Field/Storage/Laws.antt =====
-- The packed form, the comparison and the conditional move.
use tinychain.Base.{
  ℕ, ◌+◌, ◌*◌, ◌/◌, ◌%◌, ◌^◌, ◌<◌, ◌≡◌, ◌∙◌, ap, refl, arith, bit_or, if◌then◌else◌, Bool, true,
  false,
}
use tinychain.Base.Bits.{bit_or_fields, bit_or_comm}
use tinychain.Base.Bits.Mask.{all_ones, bit_and_zero}
use tinychain.Secp.Field.{Fe}
use tinychain.Secp.Field.Value.{value, IsNormalized}
use tinychain.Secp.Field.Normalize.{normalized_unique}
use tinychain.Secp.Field.Storage.{
  FeStorage, Sign, to_storage, from_storage, compare_limb, cmp_var, choose_word, cmov,
}

abbrev pub storage_value : FeStorage → ℕ
storage_value s = s.n0 + s.n1 * 2 ^ 64 + s.n2 * 2 ^ 128 + s.n3 * 2 ^ 192

-- Fields that do not overlap are added by `|`.
packed : (k q r : ℕ) {high : ℕ} → r < 2 ^ k → high ≡ q * 2 ^ k → bit_or r high ≡ r + q * 2 ^ k
packed k q r lt e = bit_or_comm r _ ∙ ap (λ t. bit_or t r) e ∙ omega (arith, bit_or_fields k q r lt)

to_storage_words :
    (a : Fe)
    → IsNormalized a
    → let s = to_storage a in
      (s.n0 ≡ a.n0 + a.n1 % 2 ^ 12 * 2 ^ 52)
      × (s.n1 ≡ a.n1 / 2 ^ 12 + a.n2 % 2 ^ 24 * 2 ^ 40)
      × (s.n2 ≡ a.n2 / 2 ^ 24 + a.n3 % 2 ^ 36 * 2 ^ 28)
      × (s.n3 ≡ a.n3 / 2 ^ 36 + a.n4 * 2 ^ 16)
unfolding to_storage
to_storage_words a h = (
  packed 52 (a.n1 % 2 ^ 12) a.n0 (omega arith) (omega arith),
  packed 40 (a.n2 % 2 ^ 24) (a.n1 / 2 ^ 12) (omega arith) (omega arith),
  packed 28 (a.n3 % 2 ^ 36) (a.n2 / 2 ^ 24) (omega arith) (omega arith),
  packed 16 a.n4 (a.n3 / 2 ^ 36) (omega arith) (omega arith),
)

record HasStorageWords (s : FeStorage) : Type 0 where
  word0 : s.n0 < 2 ^ 64
  word1 : s.n1 < 2 ^ 64
  word2 : s.n2 < 2 ^ 64
  word3 : s.n3 < 2 ^ 64

from_storage_limbs :
    (s : FeStorage)
    → HasStorageWords s
    → let a = from_storage s in
      (a.n0 ≡ s.n0 % 2 ^ 52)
      × (a.n1 ≡ s.n0 / 2 ^ 52 + s.n1 % 2 ^ 40 * 2 ^ 12)
      × (a.n2 ≡ s.n1 / 2 ^ 40 + s.n2 % 2 ^ 28 * 2 ^ 24)
      × (a.n3 ≡ s.n2 / 2 ^ 28 + s.n3 % 2 ^ 16 * 2 ^ 36)
      × (a.n4 ≡ s.n3 / 2 ^ 16)
unfolding from_storage
from_storage_limbs s h = (
  refl,
  packed 12 (s.n1 % 2 ^ 40) (s.n0 / 2 ^ 52) (omega arith) (omega arith),
  packed 24 (s.n2 % 2 ^ 28) (s.n1 / 2 ^ 40) (omega arith) (omega arith),
  packed 36 (s.n3 % 2 ^ 16) (s.n2 / 2 ^ 28) (omega arith) (omega arith),
  refl,
)

-- For a normalized element, `to_storage` keeps the value as a number of 256 bits, and `from_storage`
-- gives the element back.
pub from_storage-to_storage :
    (a : Fe)
    → IsNormalized a
    → (from_storage (to_storage a) ≡ a) × (storage_value (to_storage a) ≡ value a)
from_storage-to_storage a h =
    let s = to_storage a in
    let words = to_storage_words a h in
    let limbs = from_storage_limbs s (omega arith) in
    let same : value (from_storage s) ≡ value a = omega arith in
    (normalized_unique (from_storage s) a (omega arith) h same, omega arith)

-- A limb above a compared number: `h` and `g` are the numbers with the limbs `x` and `y` on top.
compare_above :
    (x y l k h g : ℕ)
    → (y < x → g < h)
    → (x < y → h < g)
    → (x ≡ y → h + k ≡ g + l)
    → compare_limb x y (compare_limb l k Sign.same) ≡ compare_limb h g Sign.same
unfolding compare_limb
compare_above x y l k h g above below level = ground arith

-- For normalized elements, `cmp_var` gives what one round gives on their values.
pub cmp_var_lem :
    (a b : Fe)
    → IsNormalized a
    → IsNormalized b
    → cmp_var a b ≡ compare_limb (value a) (value b) Sign.same
unfolding cmp_var
cmp_var_lem a b ha hb =
    let v2 : Fe → ℕ = λ r. r.n0 + r.n1 * 2 ^ 52 in
    let v3 : Fe → ℕ = λ r. r.n0 + r.n1 * 2 ^ 52 + r.n2 * 2 ^ 104 in
    let v4 : Fe → ℕ = λ r. r.n0 + r.n1 * 2 ^ 52 + r.n2 * 2 ^ 104 + r.n3 * 2 ^ 156 in
    let s2 =
      compare_above a.n1 b.n1 a.n0 b.n0 (v2 a) (v2 b) (λ h. omega arith) (λ h. omega arith)
        (λ h. omega arith) in
    let s3 =
      compare_above a.n2 b.n2 (v2 a) (v2 b) (v3 a) (v3 b) (λ h. omega arith) (λ h. omega arith)
        (λ h. omega arith) in
    let s4 =
      compare_above a.n3 b.n3 (v3 a) (v3 b) (v4 a) (v4 b) (λ h. omega arith) (λ h. omega arith)
        (λ h. omega arith) in
    let s5 =
      compare_above a.n4 b.n4 (v4 a) (v4 b) (value a) (value b) (λ h. omega arith)
        (λ h. omega arith) (λ h. omega arith) in
    ap (λ t. compare_limb a.n4 b.n4 (compare_limb a.n3 b.n3 (compare_limb a.n2 b.n2 t))) s2
    ∙ ap (λ t. compare_limb a.n4 b.n4 (compare_limb a.n3 b.n3 t)) s3
    ∙ ap (λ t. compare_limb a.n4 b.n4 t) s4
    ∙ s5

choose_word_lem :
    (r a : ℕ) (flag : Bool)
    → r < 2 ^ 64
    → a < 2 ^ 64
    → choose_word r a flag ≡ (if flag then a else r)
unfolding choose_word
choose_word_lem r a true hr ha =
    rw (bit_and_zero, all_ones) (packed 0 (a % 2 ^ 64) 0 (omega arith) (omega arith) ∙ omega arith)
choose_word_lem r a false hr ha =
    rw (bit_and_zero, all_ones) (packed 64 0 (r % 2 ^ 64) (omega arith) refl ∙ omega arith)

-- What a conditional move needs of its words.
pub record HasWords (a : Fe) : Type 0 where
  pub word0 : a.n0 < 2 ^ 64
  pub word1 : a.n1 < 2 ^ 64
  pub word2 : a.n2 < 2 ^ 64
  pub word3 : a.n3 < 2 ^ 64
  pub word4 : a.n4 < 2 ^ 64

-- For limbs that are words of 64 bits, `cmov` gives the second element if the flag is set and the
-- first one if it is not.
pub cmov_lem :
    (r a : Fe) (flag : Bool) → HasWords r → HasWords a → cmov r a flag ≡ (if flag then a else r)
unfolding cmov
cmov_lem r a true hr ha = λ i. record {
  n0 = choose_word_lem r.n0 a.n0 true hr.word0 ha.word0 i;
  n1 = choose_word_lem r.n1 a.n1 true hr.word1 ha.word1 i;
  n2 = choose_word_lem r.n2 a.n2 true hr.word2 ha.word2 i;
  n3 = choose_word_lem r.n3 a.n3 true hr.word3 ha.word3 i;
  n4 = choose_word_lem r.n4 a.n4 true hr.word4 ha.word4 i;
}
cmov_lem r a false hr ha = λ i. record {
  n0 = choose_word_lem r.n0 a.n0 false hr.word0 ha.word0 i;
  n1 = choose_word_lem r.n1 a.n1 false hr.word1 ha.word1 i;
  n2 = choose_word_lem r.n2 a.n2 false hr.word2 ha.word2 i;
  n3 = choose_word_lem r.n3 a.n3 false hr.word3 ha.word3 i;
  n4 = choose_word_lem r.n4 a.n4 false hr.word4 ha.word4 i;
}
