-- ===== src/Secp/Hash/Sha256.antt =====
-- SHA-256 in pieces: `secp256k1_sha256_t` and its operations in hash_impl.h. `buf` is the memory of
-- the 16 words, and `bytes` a size_t of 64 bits.
use tinychain.Base.{
  ℕ, zero, suc, ◌+◌, ◌-◌, ◌/◌, ◌%◌, bit_and, List, [], ◌∷◌, ◌++◌, u64, ◌<<<◌, ◌>>>◌, leb, length,
  take, drop, replicate, if◌then◌else◌,
}
use tinychain.Secp.Hash.{State, be32}
use tinychain.Secp.Hash.Transform.{transform}

pub record Sha256 : Type 0 where
  pub s : State
  pub buf : List ℕ
  pub bytes : ℕ

abbrev pub initial : State
initial = record {
  a = 0x6a09e667;
  b = 0xbb67ae85;
  c = 0x3c6ef372;
  d = 0xa54ff53a;
  e = 0x510e527f;
  f = 0x9b05688c;
  g = 0x1f83d9ab;
  h = 0x5be0cd19;
}

-- The buffer keeps what it held.
unfoldable pub initialize : List ℕ → Sha256
initialize buf = record { s = initial; buf = buf; bytes = 0 }

-- `memcpy(m + k, input, length input)` into memory that is large enough.
unfoldable pub memcpy : ℕ → List ℕ → List ℕ → List ℕ
memcpy k input [] = []
memcpy (suc k) input (x ∷ m) = x ∷ memcpy k input m
memcpy zero [] (x ∷ m) = x ∷ m
memcpy zero (b ∷ input) (x ∷ m) = b ∷ memcpy zero input m

-- The loop of `write` and the copy after it.
unfoldable pub write_loop : ℕ → ℕ → List ℕ → State → List ℕ → State × List ℕ
write_loop zero bufsize input s buf = (s, memcpy bufsize input buf)
write_loop (suc fuel) bufsize input s buf =
    let full = memcpy bufsize (take (64 - bufsize) input) buf in
    let rest = write_loop fuel 0 (drop (64 - bufsize) input) (transform s full) full in
    if leb 64 (bufsize + length input) then rest else (s, memcpy bufsize input buf)

-- The loop takes a block in each round, so there are as many as blocks.
unfoldable pub write : Sha256 → List ℕ → Sha256
write hash input =
    let bufsize = bit_and hash.bytes 0x3F in
    let done = write_loop ((bufsize + length input) / 64) bufsize input hash.s hash.buf in
    record { s = done.0; buf = done.1; bytes = u64 (hash.bytes + length input) }

-- The bytes of a word in memory.
unfoldable pub store : ℕ → List ℕ
store w = w % 256 ∷ (w >>> 8) % 256 ∷ (w >>> 16) % 256 ∷ (w >>> 24) % 256 ∷ []

abbrev pub pad : List ℕ
pad = 0x80 ∷ replicate 63 0

unfoldable pub out_bytes : State → List ℕ
out_bytes s =
    store (be32 s.a)
    ++ store (be32 s.b)
    ++ store (be32 s.c)
    ++ store (be32 s.d)
    ++ store (be32 s.e)
    ++ store (be32 s.f)
    ++ store (be32 s.g)
    ++ store (be32 s.h)

-- `sizedesc`, made before anything is written.
unfoldable pub sizedesc : ℕ → List ℕ
sizedesc bytes = store (be32 (bytes >>> 29)) ++ store (be32 (u64 (bytes <<< 3)))

abbrev pub zero_state : State
zero_state = record { a = 0; b = 0; c = 0; d = 0; e = 0; f = 0; g = 0; h = 0 }

-- The 32 bytes of the result, and the state left.
unfoldable pub finalize : Sha256 → List ℕ × Sha256
finalize hash =
    let padded = write hash (take (1 + (119 - hash.bytes % 64) % 64) pad) in
    let sized = write padded (sizedesc hash.bytes) in
    (out_bytes sized.s, record { s = zero_state; buf = sized.buf; bytes = sized.bytes })
