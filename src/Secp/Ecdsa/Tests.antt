-- ===== src/Secp/Ecdsa/Tests.antt =====
-- Runs of the parser and the serializer, and the theorems at concrete signatures.
use tinychain.Base.{
  ℕ, ◌+◌, ◌-◌, ◌^◌, ◌≤◌, ◌<◌, ◌≡◌, ◌≢◌, ◌⊎◌, refl, none, some, List, [], ◌∷◌, length, arith,
}
use tinychain.Secp.Scalar.{Scalar}
use tinychain.Secp.Scalar.Bytes.{get_b32, bytes_of}
use tinychain.Secp.Ecdsa.{Parsed, sig_parse, to_int, trim, sig_serialize}
use tinychain.Base.Integers.{pos, negsuc}
use tinychain.Secp.Ecdsa.Safety.{AreBytes, sig_parse_in_bounds}
use tinychain.Secp.Ecdsa.Serialize.{sig_serialize_lem}
use tinychain.Secp.Ecdsa.RoundTrip.{sig_parse-sig_serialize}

abbrev seven : Scalar
seven = record { d0 = 7; d1 = 0; d2 = 0; d3 = 0 }

abbrev high_byte : Scalar
high_byte = record { d0 = 0x80; d1 = 0; d2 = 0; d3 = 0 }

-- A sequence of the integers 7 and 128.
abbrev signature : List ℕ
signature = 0x30 ∷ 7 ∷ 0x02 ∷ 1 ∷ 7 ∷ 0x02 ∷ 2 ∷ 0 ∷ 0x80 ∷ []

sig_serialize-seven : sig_serialize 72 seven high_byte ≡ (some signature, 9)
unfolding sig_serialize trim get_b32 bytes_of
sig_serialize-seven = refl

-- A length of 2 ^ 32 + 5 is returned as 5, and one of 2 ^ 31 as a negative number.
long_lengths : (to_int (2 ^ 32 + 5) ≡ pos 5) × (to_int (2 ^ 31) ≡ negsuc (2 ^ 31 - 1))
unfolding to_int
long_lengths = (refl, refl)

-- The sequence is cut off inside the second integer.
abbrev cut_off : List ℕ
cut_off = 0x30 ∷ 7 ∷ 0x02 ∷ 1 ∷ 7 ∷ 0x02 ∷ 2 ∷ []

cut_off-AreBytes : AreBytes cut_off
unfolding AreBytes
cut_off-AreBytes = omega arith

sig_parse_in_bounds_example : sig_parse cut_off ≢ Parsed.overread
sig_parse_in_bounds_example = sig_parse_in_bounds cut_off cut_off-AreBytes

sig_serialize_lem_example :
    let out = sig_serialize 8 seven high_byte in
    (out.1 ≤ 72)
    × (((8 < out.1) × (out.0 ≡ none))
        ⊎ ((out.1 ≤ 8) × ((bytes : List ℕ) × (out.0 ≡ some bytes) × (length bytes ≡ out.1))))
sig_serialize_lem_example = sig_serialize_lem 8 seven high_byte

sig_parse-sig_serialize_example :
    (bytes : List ℕ) × ((sig_serialize 72 seven high_byte).0 ≡ some bytes)
    × (sig_parse bytes ≡ Parsed.parsed (seven, high_byte))
sig_parse-sig_serialize_example =
    sig_parse-sig_serialize seven high_byte (omega arith) (omega arith)
