-- ===== src/Secp/Ecdsa.antt =====
-- Signatures in DER: the parser and the serializer of ecdsa_impl.h. A pointer with its end is the
-- list of the bytes that are left, each below 256. A read past the end is a result of its own.
pub mod Safety
pub mod Serialize
pub mod RoundTrip
mod Tests
use tinychain.Base.{
  ℕ, zero, suc, ◌+◌, ◌*◌, ◌-◌, ◌%◌, ◌^◌, bit_and, bit_or, u64, ◌<<<◌, List, [], ◌∷◌, ◌++◌, length,
  Bool, true, false, ◌&&◌, ◌||◌, not, ltb, leb, ◌==◌, if◌then◌else◌, Option, none, some,
}
use tinychain.Base.Integers.{ℤ, pos, negsuc}
use tinychain.Secp.Scalar.{Scalar, set_int}
use tinychain.Secp.Scalar.Bytes.{set_b32, get_b32}

-- What a parsing function comes to: its result, the error return, or a read out of bounds.
pub data Parsed {ℓ} (A : Type ℓ) : Type ℓ where
  parsed : A → Parsed A
  rejected : Parsed A
  overread : Parsed A

unfoldable pub then_parse {ℓ ℓ'} : {A : Type ℓ} {B : Type ℓ'} → Parsed A → (A → Parsed B) → Parsed B
then_parse (Parsed.parsed a) f = f a
then_parse Parsed.rejected f = Parsed.rejected
then_parse Parsed.overread f = Parsed.overread

-- `**sigp`
unfoldable pub peek : List ℕ → Parsed ℕ
peek [] = Parsed.overread
peek (b ∷ s) = Parsed.parsed b

-- `while (lenleft > 0)` of the long form; `size_t` has 64 bits.
unfoldable pub read_octets : ℕ → ℕ → List ℕ → Parsed (ℕ × List ℕ)
read_octets zero ret s = Parsed.parsed (ret, s)
read_octets (suc lenleft) ret [] = Parsed.overread
read_octets (suc lenleft) ret (b ∷ s) =
    let next = bit_or (u64 (ret <<< 8)) b in
    let rest = read_octets lenleft next s in
    if ltb (suc (length s)) (u64 (next + suc lenleft)) then Parsed.rejected else rest

-- The shortest form is asked for: no length below 128 in the long form.
unfoldable pub read_long : ℕ → List ℕ → Parsed (ℕ × List ℕ)
read_long lenleft s =
    if ltb (length s) lenleft
    then Parsed.rejected
    else then_parse (peek s) λ first.
      if (first == 0) || ltb 8 lenleft
      then Parsed.rejected
      else then_parse (read_octets lenleft 0 s)
          λ r. if ltb r.0 128 then Parsed.rejected else Parsed.parsed r

-- `return ret`, a size_t, as an int of 32 bits
unfoldable pub to_int : ℕ → ℤ
to_int ret =
    let low = ret % 2 ^ 32 in if ltb low (2 ^ 31) then pos low else negsuc (2 ^ 32 - 1 - low)

-- `secp256k1_der_read_len`: the length, an int, and what follows it; the result -1 is the error return.
unfoldable pub der_read_len : List ℕ → Parsed (ℤ × List ℕ)
der_read_len [] = Parsed.rejected
der_read_len (b1 ∷ s) =
    if b1 == 0xFF
    then Parsed.rejected
    else (if bit_and b1 0x80 == 0
        then Parsed.parsed (pos b1, s)
        else (if b1 == 0x80
            then Parsed.rejected
            else then_parse (read_long (bit_and b1 0x7F) s) λ r. Parsed.parsed (to_int r.0, r.1)))

-- `**sig == x && rlen > 1 && ((*sig)[1] & 0x80) == high`, the padding that is refused.
unfoldable pub has_padding : ℕ → ℕ → ℕ → List ℕ → Parsed Bool
has_padding x high rlen [] = Parsed.overread
has_padding x high rlen (b ∷ s) =
    if (b == x) && ltb 1 rlen
    then then_parse (peek s) (λ next. Parsed.parsed (bit_and next 0x80 == high))
    else Parsed.parsed false

-- `while (rlen > 0 && **sig == 0)`: the bytes left of the number, and what follows them.
unfoldable pub skip_zeros : ℕ → List ℕ → Parsed (ℕ × List ℕ)
skip_zeros zero s = Parsed.parsed (0, s)
skip_zeros (suc rlen) [] = Parsed.overread
skip_zeros (suc rlen) (b ∷ s) =
    let rest = skip_zeros rlen s in if b == 0 then rest else Parsed.parsed (suc rlen, b ∷ s)

-- The first `n` bytes, and what follows them.
unfoldable pub split : ℕ → List ℕ → Parsed (List ℕ × List ℕ)
split zero s = Parsed.parsed ([], s)
split (suc n) [] = Parsed.overread
split (suc n) (b ∷ s) = then_parse (split n s) (λ r. Parsed.parsed (b ∷ r.0, r.1))

unfoldable pub zeros : ℕ → List ℕ
zeros zero = []
zeros (suc n) = 0 ∷ zeros n

-- The scalar of the bytes `bs`: 0 if it overflows, as for a negative number.
unfoldable pub scalar_of : Bool → List ℕ → Scalar
scalar_of negative bs =
    let r = set_b32 (zeros (32 - length bs) ++ bs) in
    if negative || ltb 32 (length bs) || not (r.1 == 0) then set_int 0 else r.0

-- The content of an integer of `rlen` bytes.
unfoldable pub parse_content : ℕ → List ℕ → Parsed (Scalar × List ℕ)
parse_content rlen s = then_parse (has_padding 0x00 0x00 rlen s) λ zero_padded.
    if zero_padded
    then Parsed.rejected
    else then_parse (has_padding 0xFF 0x80 rlen s) λ one_padded.
      if one_padded
      then Parsed.rejected
      else then_parse (peek s) λ first. then_parse (skip_zeros rlen s) λ left.
        then_parse (split left.0 left.1)
          λ r. Parsed.parsed (scalar_of (bit_and first 0x80 == 0x80) r.0, r.1)

-- `rlen <= 0 || (*sig) + rlen > sigend`, and the content.
unfoldable pub parse_length : ℤ → List ℕ → Parsed (Scalar × List ℕ)
parse_length (pos rlen) s =
    if (rlen == 0) || ltb (length s) rlen then Parsed.rejected else parse_content rlen s
parse_length (negsuc n) s = Parsed.rejected

-- `secp256k1_der_parse_integer`
unfoldable pub der_parse_integer : List ℕ → Parsed (Scalar × List ℕ)
der_parse_integer [] = Parsed.rejected
der_parse_integer (tag ∷ s) =
    if not (tag == 0x02)
    then Parsed.rejected
    else then_parse (der_read_len s) (λ l. parse_length l.0 l.1)

-- `rlen < 0 || sig + rlen > sigend`, `sig + rlen != sigend`, and the two integers.
unfoldable pub parse_pair : ℤ → List ℕ → Parsed (Scalar × Scalar)
parse_pair (negsuc n) s = Parsed.rejected
parse_pair (pos rlen) s =
    if not (rlen == length s)
    then Parsed.rejected
    else then_parse (der_parse_integer s) λ r.
      then_parse (der_parse_integer r.1)
        λ t. if length t.1 == 0 then Parsed.parsed (r.0, t.0) else Parsed.rejected

-- `secp256k1_ecdsa_sig_parse`
unfoldable pub sig_parse : List ℕ → Parsed (Scalar × Scalar)
sig_parse [] = Parsed.rejected
sig_parse (tag ∷ s) =
    if not (tag == 0x30)
    then Parsed.rejected
    else then_parse (der_read_len s) (λ l. parse_pair l.0 l.1)

-- `while (lenR > 1 && rp[0] == 0 && rp[1] < 0x80)`
unfoldable pub trim : List ℕ → List ℕ
trim [] = []
trim (a ∷ []) = a ∷ []
trim (a ∷ b ∷ s) = let rest = trim (b ∷ s) in if (a == 0) && ltb b 0x80 then rest else a ∷ b ∷ s

-- `secp256k1_ecdsa_sig_serialize`: the bytes if `size` allows them, and the size stored.
unfoldable pub sig_serialize : ℕ → Scalar → Scalar → Option (List ℕ) × ℕ
sig_serialize size ar a_s =
    let r = trim (0 ∷ get_b32 ar) in
    let s = trim (0 ∷ get_b32 a_s) in
    let total = 6 + length s + length r in
    (
      if ltb size total
          then none
          else some (
              0x30
              ∷ (4 + length s + length r) % 256
              ∷ 0x02
              ∷ length r % 256
              ∷ (r ++ (0x02 ∷ length s % 256 ∷ s))),
      total,
    )
