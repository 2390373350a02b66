-- ===== src/Secp/Scalar32/Bytes.antt =====
-- Scalars as 32 bytes, most significant first: `set_b32` and `get_b32` of scalar_8x32_impl.h.
pub mod RoundTrip
use tinychain.Base.{ℕ, ◌+◌, ◌%◌, bit_or, ◌<<<◌, ◌>>>◌, List, [], ◌∷◌, ◌++◌}
use tinychain.Secp.Scalar.Bytes.{byte}
use tinychain.Secp.Scalar32.{Scalar, settle}

-- The word whose most significant byte is `b32[i]`.
unfoldable pub word_at : List ℕ → ℕ → ℕ
word_at b i =
    bit_or (bit_or (bit_or (byte b (i + 3)) (byte b (i + 2) <<< 8)) (byte b (i + 1) <<< 16))
      (byte b i <<< 24)

-- The scalar, and the overflow that the pointer argument receives.
unfoldable pub set_b32 : List ℕ → Scalar × ℕ
set_b32 b =
    let r : Scalar = record {
      d0 = word_at b 28;
      d1 = word_at b 24;
      d2 = word_at b 20;
      d3 = word_at b 16;
      d4 = word_at b 12;
      d5 = word_at b 8;
      d6 = word_at b 4;
      d7 = word_at b 0;
    } in
    settle r 0

-- The four bytes of a word, each cut to `unsigned char`.
unfoldable pub bytes_of : ℕ → List ℕ
bytes_of w = (w >>> 24) % 256 ∷ (w >>> 16) % 256 ∷ (w >>> 8) % 256 ∷ w % 256 ∷ []

unfoldable pub get_b32 : Scalar → List ℕ
get_b32 a =
    bytes_of a.d7
    ++ (bytes_of a.d6
        ++ (bytes_of a.d5
            ++ (bytes_of a.d4
                ++ (bytes_of a.d3 ++ (bytes_of a.d2 ++ (bytes_of a.d1 ++ (bytes_of a.d0)))))))
