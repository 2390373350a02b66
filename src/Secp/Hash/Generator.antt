-- ===== src/Secp/Hash/Generator.antt =====
-- The nonces of RFC 6979: `secp256k1_rfc6979_hmac_sha256_t` and its operations in hash_impl.h.
use tinychain.Base.{
  ℕ, zero, suc, ◌+◌, ◌-◌, ◌/◌, List, [], ◌∷◌, ◌++◌, ltb, take, replicate, if◌then◌else◌, Bool, true,
  false,
}
use tinychain.Secp.Hash.Hmac.{hmac_initialize, hmac_write, hmac_finalize}

pub record Generator : Type 0 where
  pub v : List ℕ
  pub k : List ℕ
  pub retry : Bool

module _ (fresh : List ℕ) where
  -- `hmac(k, v)`
  unfoldable pub hmac_v : List ℕ → List ℕ → List ℕ
  hmac_v k v = hmac_finalize (hmac_write (hmac_initialize fresh k) v)

  -- `hmac(k, v || tag)`
  unfoldable pub hmac_tag : List ℕ → List ℕ → ℕ → List ℕ
  hmac_tag k v tag = hmac_finalize (hmac_write (hmac_write (hmac_initialize fresh k) v) (tag ∷ []))

  -- `hmac(k, v || tag || key)`
  unfoldable pub hmac_key : List ℕ → List ℕ → ℕ → List ℕ → List ℕ
  hmac_key k v tag key =
      hmac_finalize
        (hmac_write (hmac_write (hmac_write (hmac_initialize fresh k) v) (tag ∷ [])) key)

  unfoldable pub generator_initialize : List ℕ → Generator
  generator_initialize key =
      let v0 = replicate 32 0x01 in
      let k0 = replicate 32 0x00 in
      let k1 = hmac_key k0 v0 0x00 key in
      let v1 = hmac_v k1 v0 in
      let k2 = hmac_key k1 v1 0x01 key in
      let v2 = hmac_v k2 v1 in record { v = v2; k = k2; retry = false }

  -- The loop: what it writes out, and `rng->v` after it. A round writes 32 bytes or the rest.
  unfoldable pub generate_loop : ℕ → List ℕ → List ℕ → ℕ → List ℕ × List ℕ
  generate_loop zero k v outlen = ([], v)
  generate_loop (suc fuel) k v outlen =
      let next = hmac_v k v in
      let now = if ltb 32 outlen then 32 else outlen in
      let rest = generate_loop fuel k next (outlen - now) in
      if ltb 0 outlen then (take now next ++ rest.0, rest.1) else ([], v)

  -- Every round but the last writes 32 bytes, so that there are as many as 32 fit, rounded up.
  unfoldable pub generate : Generator → ℕ → List ℕ × Generator
  generate rng outlen =
      let k = if rng.retry then hmac_tag rng.k rng.v 0x00 else rng.k in
      let v = if rng.retry then hmac_v k rng.v else rng.v in
      let done = generate_loop ((outlen + 31) / 32) k v outlen in
      (done.0, record { v = done.1; k = k; retry = true })

unfoldable pub generator_finalize : Generator
generator_finalize = record { v = replicate 32 0; k = replicate 32 0; retry = false }
