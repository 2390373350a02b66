-- ===== src/Secp/Hash.antt =====
-- SHA-256 of core/vm/evm/crypto/secp256k1/libsecp256k1/src/hash_impl.h: the macros, the round and
-- the transformation of one block. A word is a number below 2 ^ 32; memory is a list of bytes, and
-- a word in memory has its least significant byte first, so that BE32 swaps the bytes.
pub mod Transform
pub mod Sha256
pub mod Message
pub mod Macros
pub mod Hmac
pub mod Standard
pub mod Words
pub mod Digest
pub mod Keyed
pub mod Nonces
pub mod Generator
pub mod Fips
mod Tests
use tinychain.Base.{
  ℕ, zero, suc, ◌+◌, ◌*◌, ◌%◌, ◌^◌, bit_and, bit_or, bit_xor, List, [], ◌∷◌, ◌<<<◌, ◌>>>◌,
}

abbrev pub u32 : ℕ → ℕ
u32 n = n % 2 ^ 32

unfoldable pub ch : ℕ → ℕ → ℕ → ℕ
ch x y z = bit_xor z (bit_and x (bit_xor y z))

unfoldable pub maj : ℕ → ℕ → ℕ → ℕ
maj x y z = bit_or (bit_and x y) (bit_and z (bit_or x y))

-- `x >> k | x << (32 - k)`, the second shift given.
unfoldable pub rotated : ℕ → ℕ → ℕ → ℕ
rotated right left x = bit_or (x >>> right) (u32 (x <<< left))

unfoldable pub big_sigma0 : ℕ → ℕ
big_sigma0 x = bit_xor (bit_xor (rotated 2 30 x) (rotated 13 19 x)) (rotated 22 10 x)

unfoldable pub big_sigma1 : ℕ → ℕ
big_sigma1 x = bit_xor (bit_xor (rotated 6 26 x) (rotated 11 21 x)) (rotated 25 7 x)

unfoldable pub small_sigma0 : ℕ → ℕ
small_sigma0 x = bit_xor (bit_xor (rotated 7 25 x) (rotated 18 14 x)) (x >>> 3)

unfoldable pub small_sigma1 : ℕ → ℕ
small_sigma1 x = bit_xor (bit_xor (rotated 17 15 x) (rotated 19 13 x)) (x >>> 10)

-- The eight words `s[0]` to `s[7]`, and the variables a to h of a round.
pub record State : Type 0 where
  pub a : ℕ
  pub b : ℕ
  pub c : ℕ
  pub d : ℕ
  pub e : ℕ
  pub f : ℕ
  pub g : ℕ
  pub h : ℕ

-- One round: it changes d and h. The next round takes the variables turned by one place, and so
-- does the result.
unfoldable pub round : State → ℕ → ℕ → State
round v k w =
    let t1 = u32 (v.h + big_sigma1 v.e + ch v.e v.f v.g + k + w) in
    let t2 = u32 (big_sigma0 v.a + maj v.a v.b v.c) in
    record {
      a = u32 (t1 + t2);
      b = v.a;
      c = v.b;
      d = v.c;
      e = u32 (v.d + t1);
      f = v.e;
      g = v.f;
      h = v.g;
    }

-- `byte[i]` in memory.
unfoldable pub byte : List ℕ → ℕ → ℕ
byte [] i = 0
byte (x ∷ xs) zero = x
byte (x ∷ xs) (suc i) = byte xs i

-- The word at index `i`.
unfoldable pub load : List ℕ → ℕ → ℕ
load m i =
    byte m (4 * i)
    + byte m (4 * i + 1) * 2 ^ 8
    + byte m (4 * i + 2) * 2 ^ 16
    + byte m (4 * i + 3) * 2 ^ 24

-- BE32 on a little-endian machine.
unfoldable pub be32 : ℕ → ℕ
be32 p =
    bit_or
      (bit_or (bit_or (bit_and p 0xFF <<< 24) (bit_and p 0xFF00 <<< 8)) (bit_and p 0xFF0000 >>> 8))
      (bit_and p 0xFF000000 >>> 24)

-- The words w0 to w15.
pub record Window : Type 0 where
  pub w0 : ℕ
  pub w1 : ℕ
  pub w2 : ℕ
  pub w3 : ℕ
  pub w4 : ℕ
  pub w5 : ℕ
  pub w6 : ℕ
  pub w7 : ℕ
  pub w8 : ℕ
  pub w9 : ℕ
  pub w10 : ℕ
  pub w11 : ℕ
  pub w12 : ℕ
  pub w13 : ℕ
  pub w14 : ℕ
  pub w15 : ℕ

unfoldable pub window : List ℕ → Window
window chunk = record {
  w0 = be32 (load chunk 0);
  w1 = be32 (load chunk 1);
  w2 = be32 (load chunk 2);
  w3 = be32 (load chunk 3);
  w4 = be32 (load chunk 4);
  w5 = be32 (load chunk 5);
  w6 = be32 (load chunk 6);
  w7 = be32 (load chunk 7);
  w8 = be32 (load chunk 8);
  w9 = be32 (load chunk 9);
  w10 = be32 (load chunk 10);
  w11 = be32 (load chunk 11);
  w12 = be32 (load chunk 12);
  w13 = be32 (load chunk 13);
  w14 = be32 (load chunk 14);
  w15 = be32 (load chunk 15);
}

-- `w0 += sigma1(w14) + w9 + sigma0(w1)` and so on to w15. The last pass does not assign w14 and w15,
-- which are not read again; the words it hands to the rounds are the same.
unfoldable pub next_window : Window → Window
next_window w =
    let w0 = u32 (w.w0 + (small_sigma1 w.w14 + w.w9 + small_sigma0 w.w1)) in
    let w1 = u32 (w.w1 + (small_sigma1 w.w15 + w.w10 + small_sigma0 w.w2)) in
    let w2 = u32 (w.w2 + (small_sigma1 w0 + w.w11 + small_sigma0 w.w3)) in
    let w3 = u32 (w.w3 + (small_sigma1 w1 + w.w12 + small_sigma0 w.w4)) in
    let w4 = u32 (w.w4 + (small_sigma1 w2 + w.w13 + small_sigma0 w.w5)) in
    let w5 = u32 (w.w5 + (small_sigma1 w3 + w.w14 + small_sigma0 w.w6)) in
    let w6 = u32 (w.w6 + (small_sigma1 w4 + w.w15 + small_sigma0 w.w7)) in
    let w7 = u32 (w.w7 + (small_sigma1 w5 + w0 + small_sigma0 w.w8)) in
    let w8 = u32 (w.w8 + (small_sigma1 w6 + w1 + small_sigma0 w.w9)) in
    let w9 = u32 (w.w9 + (small_sigma1 w7 + w2 + small_sigma0 w.w10)) in
    let w10 = u32 (w.w10 + (small_sigma1 w8 + w3 + small_sigma0 w.w11)) in
    let w11 = u32 (w.w11 + (small_sigma1 w9 + w4 + small_sigma0 w.w12)) in
    let w12 = u32 (w.w12 + (small_sigma1 w10 + w5 + small_sigma0 w.w13)) in
    let w13 = u32 (w.w13 + (small_sigma1 w11 + w6 + small_sigma0 w.w14)) in
    let w14 = u32 (w.w14 + (small_sigma1 w12 + w7 + small_sigma0 w.w15)) in
    let w15 = u32 (w.w15 + (small_sigma1 w13 + w8 + small_sigma0 w0)) in
    record {
      w0 = w0;
      w1 = w1;
      w2 = w2;
      w3 = w3;
      w4 = w4;
      w5 = w5;
      w6 = w6;
      w7 = w7;
      w8 = w8;
      w9 = w9;
      w10 = w10;
      w11 = w11;
      w12 = w12;
      w13 = w13;
      w14 = w14;
      w15 = w15;
    }
