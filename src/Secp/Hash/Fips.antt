-- ===== src/Secp/Hash/Fips.antt =====
-- SHA-256 in the terms of FIPS 180-4 alone: rotations as divisions, the functions of section 4.1.2, the
-- words of a block with the most significant byte first, the schedule and the rounds of section 6.2.2,
-- and the initial value of section 5.3.3. The padding, the table of constants and the bytes of a digest
-- are those of the module Standard; of the code, only the record of eight variables is used.
pub mod Macros
pub mod Laws
use tinychain.Base.{
  ℕ, zero, suc, ◌+◌, ◌-◌, ◌*◌, ◌/◌, ◌%◌, ◌^◌, bit_and, bit_xor, List, [], ◌∷◌, ◌++◌, length, take,
  drop,
}
use tinychain.Secp.Hash.{State}
use tinychain.Secp.Hash.Standard.{constants, digest_bytes, padded}

-- A word of 32 digits turned to the right by `n` places.
unfoldable pub rotr : ℕ → ℕ → ℕ
rotr n x = x % 2 ^ n * 2 ^ (32 - n) + x / 2 ^ n

unfoldable pub complement : ℕ → ℕ
complement x = 2 ^ 32 - 1 - x

unfoldable pub choice : ℕ → ℕ → ℕ → ℕ
choice x y z = bit_xor (bit_and x y) (bit_and (complement x) z)

unfoldable pub majority : ℕ → ℕ → ℕ → ℕ
majority x y z = bit_xor (bit_xor (bit_and x y) (bit_and x z)) (bit_and y z)

unfoldable pub upper_sigma0 : ℕ → ℕ
upper_sigma0 x = bit_xor (bit_xor (rotr 2 x) (rotr 13 x)) (rotr 22 x)

unfoldable pub upper_sigma1 : ℕ → ℕ
upper_sigma1 x = bit_xor (bit_xor (rotr 6 x) (rotr 11 x)) (rotr 25 x)

unfoldable pub lower_sigma0 : ℕ → ℕ
lower_sigma0 x = bit_xor (bit_xor (rotr 7 x) (rotr 18 x)) (x / 2 ^ 3)

unfoldable pub lower_sigma1 : ℕ → ℕ
lower_sigma1 x = bit_xor (bit_xor (rotr 17 x) (rotr 19 x)) (x / 2 ^ 10)

unfoldable pub round_step : State → ℕ → ℕ → State
round_step v k w =
    let t1 = v.h + upper_sigma1 v.e + choice v.e v.f v.g + k + w in
    let t2 = upper_sigma0 v.a + majority v.a v.b v.c in
    record {
      a = (t1 + t2) % 2 ^ 32;
      b = v.a;
      c = v.b;
      d = v.c;
      e = (v.d + t1) % 2 ^ 32;
      f = v.e;
      g = v.f;
      h = v.g;
    }

unfoldable pub all_steps : List ℕ → List ℕ → State → State
all_steps [] ws v = v
all_steps (k ∷ ks) [] v = v
all_steps (k ∷ ks) (w ∷ ws) v = all_steps ks ws (round_step v k w)

-- The element at an index, 0 past the end.
unfoldable pub element : List ℕ → ℕ → ℕ
element [] i = 0
element (x ∷ xs) zero = x
element (x ∷ xs) (suc i) = element xs i

-- From the first of the last 16 words `w` and the 15 after it, `n` words of the schedule.
unfoldable pub message_schedule : ℕ → List ℕ → List ℕ
message_schedule zero ws = []
message_schedule (suc n) [] = []
message_schedule (suc n) (w ∷ ws) =
    let sum = lower_sigma1 (element ws 13) + element ws 8 + lower_sigma0 (element ws 0) + w in
    w ∷ message_schedule n (ws ++ (sum % 2 ^ 32 ∷ []))

-- The words of a block from the one at index `i`.
unfoldable pub block_words : ℕ → ℕ → List ℕ → List ℕ
block_words zero i m = []
block_words (suc n) i m =
    let upper = element m (4 * i) * 2 ^ 24 + element m (4 * i + 1) * 2 ^ 16 in
    let lower = element m (4 * i + 2) * 2 ^ 8 + element m (4 * i + 3) in
    let word = upper + lower in word ∷ block_words n (i + 1) m

unfoldable pub sum_state : State → State → State
sum_state s v = record {
  a = (v.a + s.a) % 2 ^ 32;
  b = (v.b + s.b) % 2 ^ 32;
  c = (v.c + s.c) % 2 ^ 32;
  d = (v.d + s.d) % 2 ^ 32;
  e = (v.e + s.e) % 2 ^ 32;
  f = (v.f + s.f) % 2 ^ 32;
  g = (v.g + s.g) % 2 ^ 32;
  h = (v.h + s.h) % 2 ^ 32;
}

unfoldable pub digest_block : State → List ℕ → State
digest_block s block =
    sum_state s (all_steps constants (message_schedule 64 (block_words 16 0 block)) s)

unfoldable pub digest_blocks : ℕ → List ℕ → State → State
digest_blocks zero m s = s
digest_blocks (suc n) m s = digest_blocks n (drop 64 m) (digest_block s (take 64 m))

abbrev pub first_state : State
first_state = record {
  a = 0x6a09e667;
  b = 0xbb67ae85;
  c = 0x3c6ef372;
  d = 0xa54ff53a;
  e = 0x510e527f;
  f = 0x9b05688c;
  g = 0x1f83d9ab;
  h = 0x5be0cd19;
}

unfoldable pub digest : List ℕ → List ℕ
digest m = digest_bytes (digest_blocks (length (padded m) / 64) (padded m) first_state)
