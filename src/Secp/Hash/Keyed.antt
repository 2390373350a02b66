-- ===== src/Secp/Hash/Keyed.antt =====
-- The keyed hash against RFC 2104.
use tinychain.Base.{
  ℕ, zero, suc, ◌+◌, ◌-◌, ◌^◌, ◌<◌, ◌≡◌, refl, ap, ◌∙◌, arith, inl, inr, bit_xor, Bool-cases, leb,
  leb→le, List, [], ◌∷◌, ◌++◌, map, length, replicate, length-append, length-replicate, length-map,
}
use native.Mathlib.Nat.{pow-suc}
use tinychain.Base.Numbers.{pow-add}
use tinychain.Base.Bits.Fields.{bit_xor_assoc}
use tinychain.Secp.Hash.Sha256.{Sha256, initialize, write, finalize}
use tinychain.Secp.Hash.Message.{write-append, write-below}
use tinychain.Secp.Hash.Standard.{big_endian, digest_bytes, sha256, block_key, hmac}
use tinychain.Secp.Hash.Digest.{digest_lem}
use tinychain.Secp.Hash.Hmac.{rkey, hmac_initialize, hmac_write, hmac_finalize}

below_power : (x : ℕ) → x < 2 ^ x
below_power zero = omega arith
below_power (suc x) = omega (arith, below_power x, pow-suc 2 x)

-- The second mask takes the first one off.
masks : (b : ℕ) → bit_xor (bit_xor b 0x5c) (bit_xor 0x5c 0x36) ≡ bit_xor b 0x36
masks b =
    let wide = pow-add 2 b 7 in
    bit_xor_assoc (b + 7) b 0x5c 0x6a (omega (arith, below_power b)) (omega (arith, below_power b))
      (omega (arith, below_power b))

map-masks :
    (xs : List ℕ)
    → map (λ b. bit_xor b (bit_xor 0x5c 0x36)) (map (λ b. bit_xor b 0x5c) xs)
      ≡ map (λ b. bit_xor b 0x36) xs
map-masks [] = refl
map-masks (x ∷ xs) = λ i. masks x i ∷ map-masks xs i

pub length-sha256 : (m : List ℕ) → length (sha256 m) ≡ 32
unfolding sha256 digest_bytes big_endian
length-sha256 m = refl

length-block_key : (key : List ℕ) → length (block_key key) ≡ 64
unfolding block_key
length-block_key key = elim (Bool-cases (leb (length key) 64)) [
  | inl h ↦ rw h (
      omega (
        arith,
        leb→le (length key) 64 h,
        length-append key (replicate (64 - length key) zero),
        length-replicate (64 - length key) zero,
      ))
  | inr h ↦ rw h (omega (arith, length-append (sha256 key) (replicate 32 zero), length-sha256 key))
]

module _ (fresh : List ℕ) (fresh_size : length fresh ≡ 64) where
  rkey-block_key : (key : List ℕ) → length key < 2 ^ 61 → rkey fresh key ≡ block_key key
  unfolding rkey block_key
  rkey-block_key key h = rw (digest_lem fresh key fresh_size h) refl

  -- A message may be given in pieces.
  pub hmac_write-append :
      (key a b : List ℕ)
      → hmac_write (hmac_write (hmac_initialize fresh key) a) b
        ≡ hmac_write (hmac_initialize fresh key) (a ++ b)
  unfolding hmac_write hmac_initialize
  hmac_write-append key a b =
      let inner = (hmac_initialize fresh key).inner in
      λ i. record {
        inner =
            write-append inner a b
              (write-below (initialize fresh) (
                map (λ x. bit_xor x (bit_xor 0x5c 0x36))
                  (map (λ x. bit_xor x 0x5c) (rkey fresh key))))
              i;
        outer = (hmac_initialize fresh key).outer;
      }

  -- The keyed hash of a message is that of RFC 2104.
  pub hmac_lem :
      (key m : List ℕ)
      → length key < 2 ^ 61
      → length m < 2 ^ 60
      → hmac_finalize (hmac_write (hmac_initialize fresh key) m) ≡ hmac key m
  unfolding hmac_finalize hmac_write hmac_initialize hmac initialize finalize sha256
  hmac_lem key m hk hm =
      let start = initialize fresh in
      let o = map (λ b. bit_xor b 0x5c) (block_key key) in
      let k = map (λ b. bit_xor b 0x36) (block_key key) in
      let o_size = length-map (λ b. bit_xor b 0x5c) (block_key key) in
      let k_size = length-map (λ b. bit_xor b 0x36) (block_key key) in
      let size = length-block_key key in
      let inner : (finalize (write (write start k) m)).0 ≡ sha256 (k ++ m) =
        ap (λ (x : Sha256). (finalize x).0) (write-append start k m (omega arith))
        ∙ digest_lem fresh (k ++ m) fresh_size (omega (arith, length-append k m)) in
      let temp = sha256 (k ++ m) in
      let outer : (finalize (write (write start o) temp)).0 ≡ sha256 (o ++ temp) =
        ap (λ (x : Sha256). (finalize x).0) (write-append start o temp (omega arith))
        ∙ digest_lem fresh (o ++ temp) fresh_size
            (omega (arith, length-append o temp, length-sha256 (k ++ m))) in
      rw (rkey-block_key key hk, map-masks (block_key key), inner) outer
