-- ===== src/Secp/Scalar/Bytes.antt =====
-- Scalars as 32 bytes, most significant first: `set_b32` and `get_b32` of scalar_4x64_impl.h.
pub mod RoundTrip
use tinychain.Base.{ℕ, zero, suc, ◌+◌, ◌%◌, bit_or, ◌<<<◌, ◌>>>◌, List, [], ◌∷◌, ◌++◌}
use tinychain.Secp.Scalar.{Scalar, settle}

-- `b32[i]` of an array of 32 bytes.
unfoldable pub byte : List ℕ → ℕ → ℕ
byte [] i = 0
byte (b ∷ bs) zero = b
byte (b ∷ bs) (suc i) = byte bs i

-- The word whose most significant byte is `b32[i]`.
unfoldable pub word_at : List ℕ → ℕ → ℕ
word_at b i =
    bit_or
      (bit_or
        (bit_or
          (bit_or
            (bit_or
              (bit_or (bit_or (byte b (i + 7)) (byte b (i + 6) <<< 8)) (byte b (i + 5) <<< 16))
              (byte b (i + 4) <<< 24))
            (byte b (i + 3) <<< 32))
          (byte b (i + 2) <<< 40))
        (byte b (i + 1) <<< 48))
      (byte b i <<< 56)

-- The scalar, and the overflow that the pointer argument receives.
unfoldable pub set_b32 : List ℕ → Scalar × ℕ
set_b32 b =
    let r : Scalar = record {
      d0 = word_at b 24;
      d1 = word_at b 16;
      d2 = word_at b 8;
      d3 = word_at b 0;
    } in
    settle r 0

-- The eight bytes of a word, each cut to `unsigned char`.
unfoldable pub bytes_of : ℕ → List ℕ
bytes_of w =
    (w >>> 56) % 256
    ∷ (w >>> 48) % 256
    ∷ (w >>> 40) % 256
    ∷ (w >>> 32) % 256
    ∷ (w >>> 24) % 256
    ∷ (w >>> 16) % 256
    ∷ (w >>> 8) % 256
    ∷ w % 256
    ∷ []

unfoldable pub get_b32 : Scalar → List ℕ
get_b32 a = bytes_of a.d3 ++ (bytes_of a.d2 ++ (bytes_of a.d1 ++ bytes_of a.d0))
