-- ===== src/Secp/Hash/Nonces.antt =====
-- The generator of nonces against RFC 6979.
use tinychain.Base.{
  ℕ, ◌^◌, ◌<◌, ◌≡◌, refl, ap, ◌∙◌, arith, false, List, [], ◌∷◌, ◌++◌, length, replicate,
  length-append, append_assoc, if◌then◌else◌,
}
use tinychain.Secp.Hash.Hmac.{Hmac, hmac_initialize, hmac_write, hmac_finalize}
use tinychain.Secp.Hash.Generator.{Generator, hmac_v, hmac_key, generator_initialize}
use tinychain.Secp.Hash.Standard.{hmac, reseed}
use tinychain.Secp.Hash.Keyed.{length-sha256, hmac_lem, hmac_write-append}

-- A key and a value of 32 bytes each.
pub record IsGenerator (rng : Generator) : Type 0 where
  pub k_size : length rng.k ≡ 32
  pub v_size : length rng.v ≡ 32

pub length-hmac : (key m : List ℕ) → length (hmac key m) ≡ 32
unfolding hmac
length-hmac key m = length-sha256 _

-- The key and value that a request works with: a generator used before is reseeded.
unfoldable pub current : Generator → List ℕ × List ℕ
current rng = if rng.retry then reseed rng.k rng.v (0 ∷ []) else (rng.k, rng.v)

module _ (fresh : List ℕ) (fresh_size : length fresh ≡ 64) where
  hmac_v_lem : (k v : List ℕ) → length k ≡ 32 → length v ≡ 32 → hmac_v fresh k v ≡ hmac k v
  unfolding hmac_v
  hmac_v_lem k v hk hv = hmac_lem fresh fresh_size k v (omega arith) (omega arith)

  hmac_key_lem :
      (k v : List ℕ) (tag : ℕ) (key : List ℕ)
      → length k ≡ 32
      → length v ≡ 32
      → length key < 2 ^ 59
      → hmac_key fresh k v tag key ≡ hmac k (v ++ (tag ∷ key))
  unfolding hmac_key
  hmac_key_lem k v tag key hk hv h =
      ap (λ (x : Hmac). hmac_finalize (hmac_write x key))
        (hmac_write-append fresh fresh_size k v (tag ∷ []))
      ∙ ap hmac_finalize (hmac_write-append fresh fresh_size k (v ++ (tag ∷ [])) key)
      ∙ ap (λ (x : List ℕ). hmac_finalize (hmac_write (hmac_initialize fresh k) x))
          (append_assoc v (tag ∷ []) key)
      ∙ hmac_lem fresh fresh_size k (v ++ (tag ∷ key)) (omega arith)
          (omega (arith, length-append v (tag ∷ key)))

  -- Seeding from a key: K and V start from zeros and ones, and are reseeded with the key twice, tagged 0 and then 1. Both have 32 bytes.
  pub generator_initialize_lem :
      (key : List ℕ)
      → length key < 2 ^ 59
      → let first = reseed (replicate 32 0) (replicate 32 1) (0 ∷ key) in
        let second = reseed first.0 first.1 (1 ∷ key) in
        (generator_initialize fresh key ≡ record { v = second.1; k = second.0; retry = false })
        × IsGenerator (generator_initialize fresh key)
  unfolding generator_initialize reseed
  generator_initialize_lem key h =
      let zeros : List ℕ = replicate 32 0 in
      let ones : List ℕ = replicate 32 1 in
      let k1 = hmac zeros (ones ++ (0 ∷ key)) in
      let v1 = hmac k1 ones in
      let k2 = hmac k1 (v1 ++ (1 ∷ key)) in
      let k1_size = length-hmac zeros (ones ++ (0 ∷ key)) in
      let v1_size = length-hmac k1 ones in
      let k2_size = length-hmac k1 (v1 ++ (1 ∷ key)) in
      let e1 = hmac_key_lem zeros ones 0 key refl refl h in
      let f1 = hmac_v_lem k1 ones k1_size refl in
      let e2 = hmac_key_lem k1 v1 1 key k1_size v1_size h in
      let f2 = hmac_v_lem k2 v1 k2_size v1_size in
      let seeded : generator_initialize fresh key
          ≡ record { v = hmac k2 v1; k = k2; retry = false } =
        rw (e1, f1, e2, f2) refl in
      (
        seeded,
        record {
          k_size = ap (λ (x : Generator). length x.k) seeded ∙ k2_size;
          v_size = ap (λ (x : Generator). length x.v) seeded ∙ length-hmac k2 v1;
        },
      )
