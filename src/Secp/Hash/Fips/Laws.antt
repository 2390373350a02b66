-- ===== src/Secp/Hash/Fips/Laws.antt =====
-- The hash of the code against the standard, for messages of bytes.
use tinychain.Base.{
  All, All-append, ℕ, zero, suc, ◌+◌, ◌-◌, ◌*◌, ◌/◌, ◌%◌, ◌^◌, ◌<◌, ◌≡◌, refl, ap, ◌∙◌, arith, List,
  [], ◌∷◌, ◌++◌, length, take, drop, replicate,
}
use tinychain.Secp.Hash.{State, u32, round, byte, load, be32, small_sigma0, small_sigma1}
use tinychain.Secp.Hash.Macros.{be32_lem}
use tinychain.Secp.Hash.Transform.{add_state}
use tinychain.Secp.Hash.Sha256.{initial, initialize, write, finalize}
use tinychain.Secp.Hash.Standard.{
  constants, schedule, all_rounds, words_from, compress, big_endian, digest_bytes, padded,
  compress_blocks, sha256,
}
use tinychain.Secp.Hash.Digest.{digest_lem}
use tinychain.Secp.Hash.Fips.{
  choice, majority, upper_sigma0, upper_sigma1, lower_sigma0, lower_sigma1, round_step, all_steps,
  element, message_schedule, block_words, sum_state, digest_block, digest_blocks, digest,
}
use tinychain.Secp.Hash.Fips.Macros.{
  ch-choice, maj-majority, big_sigma0-upper_sigma0, big_sigma1-upper_sigma1,
  small_sigma0-lower_sigma0, small_sigma1-lower_sigma1,
}

abbrev pub AreBytes : List ℕ → Type 0
AreBytes m = All (λ b. b < 256) m

abbrev AreWords : List ℕ → Type 0
AreWords ws = All (λ w. w < 2 ^ 32) ws

record IsState (v : State) : Type 0 where
  a_word : v.a < 2 ^ 32
  b_word : v.b < 2 ^ 32
  c_word : v.c < 2 ^ 32
  d_word : v.d < 2 ^ 32
  e_word : v.e < 2 ^ 32
  f_word : v.f < 2 ^ 32
  g_word : v.g < 2 ^ 32
  h_word : v.h < 2 ^ 32

sums : (x y : ℕ) → u32 (u32 x + u32 y) ≡ (x + y) % 2 ^ 32
sums x y = omega arith

carried : (x y : ℕ) → u32 (x + u32 y) ≡ (x + y) % 2 ^ 32
carried x y = omega arith

round-round_step : (v : State) (k w : ℕ) → IsState v → round v k w ≡ round_step v k w
unfolding round round_step
round-round_step v k w h =
    let s0 = big_sigma0-upper_sigma0 v.a h.a_word in
    let s1 = big_sigma1-upper_sigma1 v.e h.e_word in
    let c = ch-choice v.e v.f v.g h.e_word h.f_word h.g_word in
    let m = maj-majority v.a v.b v.c h.a_word h.b_word h.c_word in
    rw (s0, s1, c, m)
      (λ i. record {
        a =
            sums (v.h + upper_sigma1 v.e + choice v.e v.f v.g + k + w)
              (upper_sigma0 v.a + majority v.a v.b v.c) i;
        b = v.a;
        c = v.b;
        d = v.c;
        e = carried v.d (v.h + upper_sigma1 v.e + choice v.e v.f v.g + k + w) i;
        f = v.e;
        g = v.f;
        h = v.g;
      })

round_step-IsState : (v : State) (k w : ℕ) → IsState v → IsState (round_step v k w)
unfolding round_step
round_step-IsState v k w h = record {
  a_word = omega arith;
  b_word = h.a_word;
  c_word = h.b_word;
  d_word = h.c_word;
  e_word = omega arith;
  f_word = h.e_word;
  g_word = h.f_word;
  h_word = h.g_word;
}

all_rounds-all_steps :
    (ks ws : List ℕ) (v : State) → IsState v → all_rounds ks ws v ≡ all_steps ks ws v
unfolding all_rounds all_steps
all_rounds-all_steps [] ws v h = refl
all_rounds-all_steps (k ∷ ks) [] v h = refl
all_rounds-all_steps (k ∷ ks) (w ∷ ws) v h =
    ap (all_rounds ks ws) (round-round_step v k w h)
    ∙ all_rounds-all_steps ks ws (round_step v k w) (round_step-IsState v k w h)

byte-element : (m : List ℕ) (i : ℕ) → byte m i ≡ element m i
unfolding byte element
byte-element [] i = refl
byte-element (x ∷ m) zero = refl
byte-element (x ∷ m) (suc i) = byte-element m i

element-lt : (n : ℕ) (m : List ℕ) (i : ℕ) → 0 < n → All (λ x. x < n) m → element m i < n
unfolding element
element-lt n [] i p h = p
element-lt n (x ∷ m) zero p h = h.0
element-lt n (x ∷ m) (suc i) p h = element-lt n m i p h.1

schedule-message_schedule :
    (n : ℕ) (ws : List ℕ) → AreWords ws → schedule n ws ≡ message_schedule n ws
unfolding schedule message_schedule
schedule-message_schedule zero ws h = refl
schedule-message_schedule (suc n) [] h = refl
schedule-message_schedule (suc n) (w ∷ ws) h =
    let sum = lower_sigma1 (element ws 13) + element ws 8 + lower_sigma0 (element ws 0) + w in
    let s1 =
      small_sigma1-lower_sigma1 (element ws 13) (element-lt (2 ^ 32) ws 13 (omega arith) h.1) in
    let s0 =
      small_sigma0-lower_sigma0 (element ws 0) (element-lt (2 ^ 32) ws 0 (omega arith) h.1) in
    let word : u32 (w + (small_sigma1 (byte ws 13) + byte ws 8 + small_sigma0 (byte ws 0)))
        ≡ sum % 2 ^ 32 =
      rw (byte-element ws 13, byte-element ws 8, byte-element ws 0, s1, s0) (omega arith) in
    let next = ws ++ (sum % 2 ^ 32 ∷ []) in
    let words : AreWords next =
      All-append (λ x. x < 2 ^ 32) ws (sum % 2 ^ 32 ∷ []) h.1 (omega arith, tt) in
    ap (λ x. w ∷ schedule n (ws ++ (x ∷ []))) word
    ∙ ap (λ xs. w ∷ xs) (schedule-message_schedule n next words)

-- The word of four bytes, by the swap of a word that is loaded.
be32-word :
    (b0 b1 b2 b3 : ℕ)
    → b0 < 256
    → b1 < 256
    → b2 < 256
    → b3 < 256
    → be32 (b0 + b1 * 2 ^ 8 + b2 * 2 ^ 16 + b3 * 2 ^ 24)
      ≡ b0 * 2 ^ 24 + b1 * 2 ^ 16 + (b2 * 2 ^ 8 + b3)
be32-word b0 b1 b2 b3 h0 h1 h2 h3 =
    omega (arith, be32_lem (b0 + b1 * 2 ^ 8 + b2 * 2 ^ 16 + b3 * 2 ^ 24))

words_from-block_words : (n i : ℕ) (m : List ℕ) → AreBytes m → words_from n i m ≡ block_words n i m
unfolding words_from block_words load
words_from-block_words zero i m h = refl
words_from-block_words (suc n) i m h =
    let small = λ (j : ℕ). element-lt 256 m j (omega arith) h in
    let word =
      be32-word (element m (4 * i)) (element m (4 * i + 1)) (element m (4 * i + 2))
        (element m (4 * i + 3)) (small (4 * i)) (small (4 * i + 1)) (small (4 * i + 2))
        (small (4 * i + 3)) in
    rw
      (
        byte-element m (4 * i),
        byte-element m (4 * i + 1),
        byte-element m (4 * i + 2),
        byte-element m (4 * i + 3),
        word,
        words_from-block_words n (i + 1) m h,
      )
      refl

block_words-AreWords : (n i : ℕ) (m : List ℕ) → AreBytes m → AreWords (block_words n i m)
unfolding block_words
block_words-AreWords zero i m h = tt
block_words-AreWords (suc n) i m h =
    let small = λ (j : ℕ). element-lt 256 m j (omega arith) h in
    (
      omega (arith, small (4 * i), small (4 * i + 1), small (4 * i + 2), small (4 * i + 3)),
      block_words-AreWords n (i + 1) m h,
    )

sum_state-IsState : (s v : State) → IsState (sum_state s v)
unfolding sum_state
sum_state-IsState s v = record {
  a_word = omega arith;
  b_word = omega arith;
  c_word = omega arith;
  d_word = omega arith;
  e_word = omega arith;
  f_word = omega arith;
  g_word = omega arith;
  h_word = omega arith;
}

turned : (x y : ℕ) → u32 (x + y) ≡ (y + x) % 2 ^ 32
turned x y = omega arith

add_state-sum_state : (s v : State) → add_state s v ≡ sum_state s v
unfolding add_state sum_state
add_state-sum_state s v = λ i. record {
  a = turned s.a v.a i;
  b = turned s.b v.b i;
  c = turned s.c v.c i;
  d = turned s.d v.d i;
  e = turned s.e v.e i;
  f = turned s.f v.f i;
  g = turned s.g v.g i;
  h = turned s.h v.h i;
}

compress-digest_block :
    (s : State) (block : List ℕ)
    → IsState s
    → AreBytes block
    → compress s block ≡ digest_block s block
unfolding compress digest_block
compress-digest_block s block h bytes =
    let ws = block_words 16 0 block in
    ap (λ xs. add_state s (all_rounds constants (schedule 64 xs) s))
      (words_from-block_words 16 0 block bytes)
    ∙ ap (λ xs. add_state s (all_rounds constants xs s))
        (schedule-message_schedule 64 ws (block_words-AreWords 16 0 block bytes))
    ∙ ap (add_state s) (all_rounds-all_steps constants (message_schedule 64 ws) s h)
    ∙ add_state-sum_state s (all_steps constants (message_schedule 64 ws) s)

take-AreBytes : (n : ℕ) (m : List ℕ) → AreBytes m → AreBytes (take n m)
take-AreBytes zero m h = tt
take-AreBytes (suc n) [] h = tt
take-AreBytes (suc n) (x ∷ m) h = (h.0, take-AreBytes n m h.1)

drop-AreBytes : (n : ℕ) (m : List ℕ) → AreBytes m → AreBytes (drop n m)
drop-AreBytes zero m h = h
drop-AreBytes (suc n) [] h = tt
drop-AreBytes (suc n) (x ∷ m) h = drop-AreBytes n m h.1

zeros-AreBytes : (n : ℕ) → AreBytes (replicate n 0)
zeros-AreBytes zero = tt
zeros-AreBytes (suc n) = (omega arith, zeros-AreBytes n)

compress_blocks-digest_blocks :
    (n : ℕ) (m : List ℕ) (s : State)
    → IsState s
    → AreBytes m
    → compress_blocks n m s ≡ digest_blocks n m s
unfolding compress_blocks digest_blocks digest_block
compress_blocks-digest_blocks zero m s h bytes = refl
compress_blocks-digest_blocks (suc n) m s h bytes =
    let block = take 64 m in
    ap (compress_blocks n (drop 64 m)) (compress-digest_block s block h (take-AreBytes 64 m bytes))
    ∙ compress_blocks-digest_blocks n (drop 64 m) (digest_block s block)
        (sum_state-IsState s (all_steps constants (message_schedule 64 (block_words 16 0 block)) s))
        (drop-AreBytes 64 m bytes)

big_endian-AreBytes : (w : ℕ) → AreBytes (big_endian w)
unfolding big_endian
big_endian-AreBytes w = omega arith

padded-AreBytes : (m : List ℕ) → AreBytes m → AreBytes (padded m)
unfolding padded
padded-AreBytes m h =
    let bits = 8 * length m in
    let n = (119 - length m % 64) % 64 in
    let is_byte = λ (b : ℕ). b < 256 in
    All-append is_byte (m ++ (0x80 ∷ replicate n 0)) (big_endian (bits / 2 ^ 32) ++ big_endian bits)
      (All-append is_byte m (0x80 ∷ replicate n 0) h (omega arith, zeros-AreBytes n))
      (All-append is_byte (big_endian (bits / 2 ^ 32)) (big_endian bits)
        (big_endian-AreBytes (bits / 2 ^ 32)) (big_endian-AreBytes bits))

initial-IsState : IsState initial
initial-IsState = record {
  a_word = omega arith;
  b_word = omega arith;
  c_word = omega arith;
  d_word = omega arith;
  e_word = omega arith;
  f_word = omega arith;
  g_word = omega arith;
  h_word = omega arith;
}

-- For a buffer of 64 bytes and a message of fewer than 2 ^ 61 bytes, initializing, writing the message
-- and finalizing gives the digest of FIPS 180-4.
pub sha256_lem :
    (buf m : List ℕ)
    → length buf ≡ 64
    → length m < 2 ^ 61
    → AreBytes m
    → (finalize (write (initialize buf) m)).0 ≡ digest m
unfolding sha256 digest
sha256_lem buf m hb hm bytes =
    digest_lem buf m hb hm
    ∙ ap digest_bytes (
        compress_blocks-digest_blocks (length (padded m) / 64) (padded m) initial initial-IsState
          (padded-AreBytes m bytes))
