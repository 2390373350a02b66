-- ===== src/Secp/Hash/Standard.antt =====
-- SHA-256 over lists, with the macros and the initial value of the code: the message schedule by its
-- recurrence, the rounds over the table of constants, the padded message cut to blocks; and HMAC as in
-- RFC 2104 and the values of RFC 6979 over this hash. The module Fips states the hash without the code.
use tinychain.Base.{
  ℕ, zero, suc, ◌+◌, ◌-◌, ◌*◌, ◌/◌, ◌%◌, ◌^◌, bit_xor, List, [], ◌∷◌, ◌++◌, map, leb, length, take,
  drop, replicate, if◌then◌else◌,
}
use tinychain.Secp.Hash.{u32, State, round, byte, load, be32, small_sigma0, small_sigma1}
use tinychain.Secp.Hash.Transform.{add_state}
use tinychain.Secp.Hash.Sha256.{initial}

abbrev pub constants : List ℕ
constants =
    0x428a2f98 ∷ 0x71374491 ∷ 0xb5c0fbcf ∷ 0xe9b5dba5 ∷ 0x3956c25b ∷ 0x59f111f1 ∷ 0x923f82a4
    ∷ 0xab1c5ed5 ∷ 0xd807aa98 ∷ 0x12835b01 ∷ 0x243185be ∷ 0x550c7dc3 ∷ 0x72be5d74 ∷ 0x80deb1fe
    ∷ 0x9bdc06a7 ∷ 0xc19bf174 ∷ 0xe49b69c1 ∷ 0xefbe4786 ∷ 0x0fc19dc6 ∷ 0x240ca1cc ∷ 0x2de92c6f
    ∷ 0x4a7484aa ∷ 0x5cb0a9dc ∷ 0x76f988da ∷ 0x983e5152 ∷ 0xa831c66d ∷ 0xb00327c8 ∷ 0xbf597fc7
    ∷ 0xc6e00bf3 ∷ 0xd5a79147 ∷ 0x06ca6351 ∷ 0x14292967 ∷ 0x27b70a85 ∷ 0x2e1b2138 ∷ 0x4d2c6dfc
    ∷ 0x53380d13 ∷ 0x650a7354 ∷ 0x766a0abb ∷ 0x81c2c92e ∷ 0x92722c85 ∷ 0xa2bfe8a1 ∷ 0xa81a664b
    ∷ 0xc24b8b70 ∷ 0xc76c51a3 ∷ 0xd192e819 ∷ 0xd6990624 ∷ 0xf40e3585 ∷ 0x106aa070 ∷ 0x19a4c116
    ∷ 0x1e376c08 ∷ 0x2748774c ∷ 0x34b0bcb5 ∷ 0x391c0cb3 ∷ 0x4ed8aa4a ∷ 0x5b9cca4f ∷ 0x682e6ff3
    ∷ 0x748f82ee ∷ 0x78a5636f ∷ 0x84c87814 ∷ 0x8cc70208 ∷ 0x90befffa ∷ 0xa4506ceb ∷ 0xbef9a3f7
    ∷ 0xc67178f2 ∷ []

-- The words from a window of the last 16: each new word depends on those 2, 7, 15 and 16 before it.
unfoldable pub schedule : ℕ → List ℕ → List ℕ
schedule zero ws = []
schedule (suc n) [] = []
schedule (suc n) (w ∷ ws) =
    w
    ∷ schedule n
        (ws ++ (u32 (w + (small_sigma1 (byte ws 13) + byte ws 8 + small_sigma0 (byte ws 0))) ∷ []))

unfoldable pub all_rounds : List ℕ → List ℕ → State → State
all_rounds [] ws v = v
all_rounds (k ∷ ks) [] v = v
all_rounds (k ∷ ks) (w ∷ ws) v = all_rounds ks ws (round v k w)

-- The words of memory from index `i`.
unfoldable pub words_from : ℕ → ℕ → List ℕ → List ℕ
words_from zero i m = []
words_from (suc n) i m = be32 (load m i) ∷ words_from n (i + 1) m

unfoldable pub compress : State → List ℕ → State
compress s chunk = add_state s (all_rounds constants (schedule 64 (words_from 16 0 chunk)) s)

-- The bytes of a number, the most significant first.
unfoldable pub big_endian : ℕ → List ℕ
big_endian w = w / 2 ^ 24 % 256 ∷ w / 2 ^ 16 % 256 ∷ w / 2 ^ 8 % 256 ∷ w % 256 ∷ []

unfoldable pub digest_bytes : State → List ℕ
digest_bytes s =
    big_endian s.a
    ++ big_endian s.b
    ++ big_endian s.c
    ++ big_endian s.d
    ++ big_endian s.e
    ++ big_endian s.f
    ++ big_endian s.g
    ++ big_endian s.h

-- The message, a byte with the bit 1, zeros, and the number of bits in 8 bytes.
unfoldable pub padded : List ℕ → List ℕ
padded m =
    let bits = 8 * length m in
    (m ++ (0x80 ∷ replicate ((119 - length m % 64) % 64) 0))
    ++ (big_endian (bits / 2 ^ 32) ++ big_endian bits)

-- The state after `n` blocks of 64 bytes.
unfoldable pub compress_blocks : ℕ → List ℕ → State → State
compress_blocks zero m s = s
compress_blocks (suc n) m s = compress_blocks n (drop 64 m) (compress s (take 64 m))

unfoldable pub sha256 : List ℕ → List ℕ
sha256 m = digest_bytes (compress_blocks (length (padded m) / 64) (padded m) initial)

unfoldable pub block_key : List ℕ → List ℕ
block_key key =
    if leb (length key) 64
    then key ++ replicate (64 - length key) 0
    else sha256 key ++ replicate 32 0

-- RFC 2104, with `opad` and `ipad`.
unfoldable pub hmac : List ℕ → List ℕ → List ℕ
hmac key m = sha256 (
    map (λ b. bit_xor b 0x5c) (block_key key)
    ++ sha256 (map (λ b. bit_xor b 0x36) (block_key key) ++ m))

-- RFC 6979, 3.2.h: the values of V in turn, each the keyed hash of the one before.
unfoldable pub stream : ℕ → List ℕ → List ℕ → List ℕ
stream zero k v = []
stream (suc n) k v = hmac k v ++ stream n k (hmac k v)

-- The keyed hash of V, a tag and more, and what V becomes under the new key.
unfoldable pub reseed : List ℕ → List ℕ → List ℕ → List ℕ × List ℕ
reseed k v more = let next = hmac k (v ++ more) in (next, hmac next v)
