-- ===== src/Secp/Ecdsa/RoundTrip.antt =====
-- Parsing what was serialized.
use tinychain.Base.{
  ℕ, zero, suc, ◌+◌, ◌-◌, ◌*◌, ◌/◌, ◌%◌, ◌^◌, ◌≤◌, ◌<◌, ◌≡◌, inl, inr, refl, sym, ap, ◌∙◌, arith,
  true, false, Bool-cases, ltb, ◌==◌, bit_and, some, List, [], ◌∷◌, ◌++◌, length, length-append,
  append-nil,
}
use tinychain.Base.Bits.Fields.{bit_and_shifted}
use tinychain.Secp.Scalar.{Scalar}
use tinychain.Secp.Scalar.Value.{IsScalar}
use tinychain.Secp.Scalar.Bytes.{set_b32, get_b32, bytes_of}
use tinychain.Secp.Scalar.Bytes.RoundTrip.{set_b32-get_b32}
use tinychain.Base.Integers.{ℤ}
use tinychain.Secp.Ecdsa.{
  parse_length, parse_pair, Parsed, then_parse, peek, der_read_len, has_padding, skip_zeros, split,
  zeros, scalar_of, parse_content, der_parse_integer, sig_parse, trim, sig_serialize,
}
use tinychain.Secp.Ecdsa.Safety.{AreBytes}
use tinychain.Secp.Ecdsa.Serialize.{length-get_b32, length-trim}

-- The sign bit of a byte.
sign_bit : (b : ℕ) → b < 256 → bit_and b 0x80 ≡ bit_and (b / 2 ^ 7) 1 * 2 ^ 7
sign_bit b h =
    ap (λ (x : ℕ). bit_and x 0x80) (omega arith)
    ∙ bit_and_shifted 7 (b / 2 ^ 7) (b % 2 ^ 7) 1 (omega arith)

sign_bit_clear : (b : ℕ) → b < 0x80 → bit_and b 0x80 ≡ 0
sign_bit_clear b h =
    let high : b / 2 ^ 7 ≡ 0 = omega arith in
    sign_bit b (omega arith) ∙ ap (λ (x : ℕ). bit_and x 1 * 2 ^ 7) high

sign_bit_set : (b : ℕ) → 0x80 ≤ b → b < 256 → bit_and b 0x80 ≡ 0x80
sign_bit_set b low h =
    let high : b / 2 ^ 7 ≡ 1 = omega arith in
    sign_bit b h ∙ ap (λ (x : ℕ). bit_and x 1 * 2 ^ 7) high

-- What `trim` leaves: 0 alone, a 0 before a byte with the sign bit, or a first byte without it. The
-- index says which bytes the number itself has.
data Trimmed : (kept number : List ℕ) → Type 0 where
  only_zero : Trimmed (0 ∷ []) []
  zero_first : (b : ℕ) (u : List ℕ) → 0x80 ≤ b → b < 256 → Trimmed (0 ∷ b ∷ u) (b ∷ u)
  plain : (a : ℕ) (u : List ℕ) → 1 ≤ a → a < 0x80 → Trimmed (a ∷ u) (a ∷ u)

trim-Trimmed :
    (a : ℕ) (s : List ℕ)
    → a < 0x80
    → AreBytes s
    → (k : ℕ) × (number : List ℕ) × Trimmed (trim (a ∷ s)) number
      × (a ∷ s ≡ zeros k ++ trim (a ∷ s))
unfolding trim zeros AreBytes
trim-Trimmed zero [] h bs = (0, [], only_zero, refl)
trim-Trimmed (suc a) [] h bs = (0, suc a ∷ [], plain (suc a) [] (omega arith) h, refl)
trim-Trimmed zero (b ∷ s) h bs = elim (Bool-cases (ltb b 0x80)) [
  | inl low ↦
      let (k, number, t, e) = trim-Trimmed b s (ground arith) bs.1 in
      rw low ((suc k), number, t, ap (λ xs. 0 ∷ xs) e)
  | inr high ↦ rw high (0, b ∷ s, zero_first b s (ground arith) bs.0, refl)
]
trim-Trimmed (suc a) (b ∷ s) h bs =
    let not_zero : (suc a == 0) ≡ false = ground arith in
    rw not_zero (0, suc a ∷ b ∷ s, plain (suc a) (b ∷ s) (omega arith) h, refl)

length-zeros : (k : ℕ) → length (zeros k) ≡ k
unfolding zeros
length-zeros zero = refl
length-zeros (suc k) = omega (arith, length-zeros k)

zeros_last : (k : ℕ) (u : List ℕ) → zeros k ++ (0 ∷ u) ≡ 0 ∷ (zeros k ++ u)
unfolding zeros
zeros_last zero u = refl
zeros_last (suc k) u = ap (λ xs. 0 ∷ xs) (zeros_last k u)

split-append : (xs rest : List ℕ) → split (length xs) (xs ++ rest) ≡ Parsed.parsed (xs, rest)
unfolding split then_parse
split-append [] rest = refl
split-append (x ∷ xs) rest = rw (split-append xs rest) refl

content_lem :
    (kept number rest : List ℕ)
    → Trimmed kept number
    → parse_content (length kept) (kept ++ rest) ≡ Parsed.parsed (scalar_of false number, rest)
unfolding parse_content has_padding skip_zeros then_parse peek
content_lem kept number rest only_zero = rw (split-append [] rest) refl
content_lem kept number rest (zero_first b u low lt) =
    let several : ltb 1 (suc (suc (length u))) ≡ true = ground arith in
    let not_zero : (b == 0) ≡ false = ground arith in
    rw (several, sign_bit_set b low lt, not_zero, split-append (b ∷ u) rest) refl
content_lem kept number rest (plain a u pos lt) =
    let not_zero : (a == 0) ≡ false = ground arith in
    let not_ones : (a == 0xFF) ≡ false = ground arith in
    rw (not_zero, not_ones, split-append (a ∷ u) rest, sign_bit_clear a lt) refl

tails : (g xs : List ℕ) → Path (List ℕ) (0 ∷ g) (0 ∷ xs) → g ≡ xs
tails g xs e = cc

counted :
    (k : ℕ) (xs g : List ℕ)
    → g ≡ zeros k ++ xs
    → length g ≡ 32
    → (length xs ≤ 32) × (zeros (32 - length xs) ++ xs ≡ g)
counted k xs g e l =
    let total = length-append (zeros k) xs in
    let same : 32 - length xs ≡ k = omega (arith, ap length e, length-zeros k) in
    (omega (arith, ap length e, length-zeros k), rw same (sym e))

-- The zeros that the parser puts before the bytes of the number make up the 32 bytes.
refill :
    (kept number : List ℕ)
    → Trimmed kept number
    → (k : ℕ) (g : List ℕ) → 0 ∷ g ≡ zeros k ++ kept
    → length g ≡ 32
    → (length number ≤ 32) × (zeros (32 - length number) ++ number ≡ g)
unfolding zeros
refill kept number only_zero k g e l =
    counted k [] g (tails g (zeros k ++ []) (e ∙ zeros_last k [])) l
refill kept number (zero_first b u low lt) k g e l =
    counted k (b ∷ u) g (tails g (zeros k ++ (b ∷ u)) (e ∙ zeros_last k (b ∷ u))) l
refill kept number (plain a u pos lt) zero g e l =
    let none_left : 0 ≡ a = cc in absurd (omega arith)
refill kept number (plain a u pos lt) (suc k) g e l =
    counted k (a ∷ u) g (tails g (zeros k ++ (a ∷ u)) e) l

scalar_of-number :
    (number g : List ℕ) (r : Scalar)
    → (length number ≤ 32) × (zeros (32 - length number) ++ number ≡ g)
    → set_b32 g ≡ (r, 0)
    → scalar_of false number ≡ r
unfolding scalar_of
scalar_of-number number g r (le, e) h =
    let short : ltb 32 (length number) ≡ false = ground arith in rw (e, h, short) refl

get_b32-AreBytes : (a : Scalar) → AreBytes (get_b32 a)
unfolding AreBytes get_b32 bytes_of
get_b32-AreBytes a = omega arith

kept_length : (kept number : List ℕ) → Trimmed kept number → 1 ≤ length kept
kept_length kept number only_zero = omega arith
kept_length kept number (zero_first b u low lt) = omega arith
kept_length kept number (plain a u pos lt) = omega arith

-- A length below 128 is one byte.
short_length :
    (n : ℕ) (s : List ℕ) → n < 128 → der_read_len (n % 256 ∷ s) ≡ Parsed.parsed (ℤ.pos n, s)
unfolding der_read_len
short_length n s h =
    let same : n % 256 ≡ n = omega arith in
    let not_ones : (n == 0xFF) ≡ false = ground arith in
    let clear : bit_and n 0x80 ≡ 0 = sign_bit_clear n h in rw (same, not_ones, clear) refl

integer_lem :
    (a : Scalar) (rest : List ℕ)
    → IsScalar a
    → let t = trim (0 ∷ get_b32 a) in
      der_parse_integer (0x02 ∷ length t % 256 ∷ (t ++ rest)) ≡ Parsed.parsed (a, rest)
unfolding der_parse_integer parse_length then_parse
integer_lem a rest h =
    let t = trim (0 ∷ get_b32 a) in
    let (k, number, shape, e) = trim-Trimmed 0 (get_b32 a) (omega arith) (get_b32-AreBytes a) in
    let most = length-trim (0 ∷ get_b32 a) in
    let size = length-get_b32 a in
    let least = kept_length t number shape in
    let some_bytes : (length t == 0) ≡ false = ground arith in
    let all = length-append t rest in
    let inside : ltb (length (t ++ rest)) (length t) ≡ false = ground arith in
    let same =
      scalar_of-number number (get_b32 a) a (refill t number shape k (get_b32 a) e size)
        (set_b32-get_b32 a h) in
    rw
      (
        short_length (length t) (t ++ rest) (omega arith),
        some_bytes,
        inside,
        content_lem t number rest shape,
        same,
      )
      refl

-- The bytes that `sig_serialize` writes for two scalars below the order, given room for 72 of them,
-- are parsed back to the scalars by `sig_parse`.
pub sig_parse-sig_serialize :
    (r s : Scalar)
    → IsScalar r
    → IsScalar s
    → (bytes : List ℕ) × ((sig_serialize 72 r s).0 ≡ some bytes)
      × (sig_parse bytes ≡ Parsed.parsed (r, s))
unfolding sig_serialize sig_parse parse_pair then_parse
sig_parse-sig_serialize r s hr hs =
    let rs = trim (0 ∷ get_b32 r) in
    let ss = trim (0 ∷ get_b32 s) in
    let r_most = length-trim (0 ∷ get_b32 r) in
    let s_most = length-trim (0 ∷ get_b32 s) in
    let r_size = length-get_b32 r in
    let s_size = length-get_b32 s in
    let last : List ℕ = 0x02 ∷ length ss % 256 ∷ ss in
    let body : List ℕ = 0x02 ∷ length rs % 256 ∷ (rs ++ last) in
    let n = 4 + length ss + length rs in
    let room : ltb 72 (6 + length ss + length rs) ≡ false = ground arith in
    let total : n ≡ length body = omega (arith, length-append rs last) in
    let fits : (n == length body) ≡ true = ground arith in
    let first = integer_lem r last hr in
    let second : der_parse_integer last ≡ Parsed.parsed (s, []) =
      ap (λ xs. der_parse_integer (0x02 ∷ length ss % 256 ∷ xs)) (sym (append-nil ss))
      ∙ integer_lem s [] hs in
    (
      0x30 ∷ n % 256 ∷ body,
      rw room refl,
      rw (short_length n body (omega arith), fits, first, second) refl,
    )
