-- ===== src/Secp/Ecdsa/Serialize.antt =====
-- The size of a serialized signature, and the capacity check.
use tinychain.Base.{
  ℕ, ◌+◌, ◌%◌, ◌≤◌, ◌<◌, ◌≡◌, ◌⊎◌, inl, inr, refl, none, some, List, [], ◌∷◌, ◌++◌, length,
  length-append, ◌&&◌, arith, ltb, ltb→lt, ◌==◌, Bool-cases,
}
use tinychain.Secp.Scalar.{Scalar}
use tinychain.Secp.Scalar.Bytes.{get_b32, bytes_of}
use tinychain.Secp.Ecdsa.{trim, sig_serialize}

pub length-get_b32 : (a : Scalar) → length (get_b32 a) ≡ 32
unfolding get_b32 bytes_of
length-get_b32 a = refl

pub length-trim : (s : List ℕ) → length (trim s) ≤ length s
unfolding trim
length-trim [] = omega arith
length-trim (a ∷ []) = omega arith
length-trim (a ∷ b ∷ s) = elim (Bool-cases ((a == 0) && ltb b 0x80)) [
  | inl h ↦ rw h (omega (arith, length-trim (b ∷ s)))
  | inr h ↦ rw h (omega arith)
]

-- The size stored is at most 72. With less capacity nothing is written; otherwise as many bytes are
-- written as the size says.
pub sig_serialize_lem :
    (size : ℕ) (r s : Scalar)
    → let out = sig_serialize size r s in
      (out.1 ≤ 72)
      × (((size < out.1) × (out.0 ≡ none))
          ⊎ ((out.1 ≤ size) × ((bytes : List ℕ) × (out.0 ≡ some bytes) × (length bytes ≡ out.1))))
unfolding sig_serialize
sig_serialize_lem size r s =
    let rs = trim (0 ∷ get_b32 r) in
    let ss = trim (0 ∷ get_b32 s) in
    let r_length = length-trim (0 ∷ get_b32 r) in
    let s_length = length-trim (0 ∷ get_b32 s) in
    let r_all = length-get_b32 r in
    let s_all = length-get_b32 s in
    let both = length-append rs (0x02 ∷ length ss % 256 ∷ ss) in
    let total = 6 + length ss + length rs in
    let bytes =
      0x30
      ∷ (4 + length ss + length rs) % 256
      ∷ 0x02
      ∷ length rs % 256
      ∷ (rs ++ (0x02 ∷ length ss % 256 ∷ ss)) in
    (
      omega arith,
      elim (Bool-cases (ltb size total)) [
        | inl h ↦ inl (ltb→lt size total h, rw h refl)
        | inr h ↦ inr (ground arith, (bytes, rw h refl, omega arith))
      ],
    )
