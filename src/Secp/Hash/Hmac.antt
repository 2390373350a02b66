-- ===== src/Secp/Hash/Hmac.antt =====
-- HMAC over SHA-256: `secp256k1_hmac_sha256_t` and its operations in hash_impl.h. A `secp256k1_sha256_t`
-- that is declared and not yet initialized has a buffer of any contents, which is an argument.
use tinychain.Base.{ℕ, ◌-◌, bit_xor, List, ◌++◌, leb, length, replicate, map, if◌then◌else◌}
use tinychain.Secp.Hash.Sha256.{Sha256, initialize, write, finalize}

pub record Hmac : Type 0 where
  pub inner : Sha256
  pub outer : Sha256

-- The key in 64 bytes.
unfoldable pub rkey : List ℕ → List ℕ → List ℕ
rkey fresh key =
    if leb (length key) 64
    then key ++ replicate (64 - length key) 0
    else (finalize (write (initialize fresh) key)).0 ++ replicate 32 0

-- `rkey[n] ^= 0x5c` for every byte, then `rkey[n] ^= 0x5c ^ 0x36`.
unfoldable pub hmac_initialize : List ℕ → List ℕ → Hmac
hmac_initialize fresh key =
    let outer_key = map (λ b. bit_xor b 0x5c) (rkey fresh key) in
    let inner_key = map (λ b. bit_xor b (bit_xor 0x5c 0x36)) outer_key in
    record {
      inner = write (initialize fresh) inner_key;
      outer = write (initialize fresh) outer_key;
    }

unfoldable pub hmac_write : Hmac → List ℕ → Hmac
hmac_write hash input = record { inner = write hash.inner input; outer = hash.outer }

unfoldable pub hmac_finalize : Hmac → List ℕ
hmac_finalize hash = let temp = (finalize hash.inner).0 in (finalize (write hash.outer temp)).0
