-- ===== src/Secp/Scalar32.antt =====
-- The integers modulo the group order in 8 limbs of 32 bits: scalar_8x32_impl.h, without the
-- products. An accumulator `t` is a `uint64_t`, a limb a `uint32_t`.
pub mod Value
pub mod Sum
pub mod Accumulator
pub mod Product
pub mod Bytes
pub mod Shifts
mod Tests
use tinychain.Base.{ℕ, ◌+◌, ◌-◌, ◌*◌, ◌/◌, ◌%◌, ◌^◌, Bool, true, false, ◌&&◌, ◌||◌, not}
use tinychain.Base.{bit_and, bit_or, bit_xor, u64, ◌<<<◌, ◌>>>◌, low_bits, to_int}
use tinychain.Base.{ltb, leb, ◌==◌, if◌then◌else◌}

-- `secp256k1_scalar`
pub record Scalar : Type 0 where
  pub d0 : ℕ
  pub d1 : ℕ
  pub d2 : ℕ
  pub d3 : ℕ
  pub d4 : ℕ
  pub d5 : ℕ
  pub d6 : ℕ
  pub d7 : ℕ

abbrev pub u32 : ℕ → ℕ
u32 n = n % 2 ^ 32

-- SECP256K1_N_0 to SECP256K1_N_7
abbrev pub n_0 : ℕ
n_0 = 0xD0364141

abbrev pub n_1 : ℕ
n_1 = 0xBFD25E8C

abbrev pub n_2 : ℕ
n_2 = 0xAF48A03B

abbrev pub n_3 : ℕ
n_3 = 0xBAAEDCE6

abbrev pub n_4 : ℕ
n_4 = 0xFFFFFFFE

abbrev pub n_5 : ℕ
n_5 = 0xFFFFFFFF

abbrev pub n_6 : ℕ
n_6 = 0xFFFFFFFF

abbrev pub n_7 : ℕ
n_7 = 0xFFFFFFFF

-- `~x` of a limb
abbrev pub complement : ℕ → ℕ
complement x = 2 ^ 32 - 1 - x

-- SECP256K1_N_C_0 to SECP256K1_N_C_4
abbrev pub n_c_0 : ℕ
n_c_0 = complement n_0 + 1

abbrev pub n_c_1 : ℕ
n_c_1 = complement n_1

abbrev pub n_c_2 : ℕ
n_c_2 = complement n_2

abbrev pub n_c_3 : ℕ
n_c_3 = complement n_3

abbrev pub n_c_4 : ℕ
n_c_4 = 1

-- SECP256K1_N_H_0 to SECP256K1_N_H_7
abbrev pub n_h_0 : ℕ
n_h_0 = 0x681B20A0

abbrev pub n_h_1 : ℕ
n_h_1 = 0xDFE92F46

abbrev pub n_h_2 : ℕ
n_h_2 = 0x57A4501D

abbrev pub n_h_3 : ℕ
n_h_3 = 0x5D576E73

abbrev pub n_h_4 : ℕ
n_h_4 = 0xFFFFFFFF

abbrev pub n_h_5 : ℕ
n_h_5 = 0xFFFFFFFF

abbrev pub n_h_6 : ℕ
n_h_6 = 0xFFFFFFFF

abbrev pub n_h_7 : ℕ
n_h_7 = 0x7FFFFFFF

unfoldable pub clear : Scalar
clear = record { d0 = 0; d1 = 0; d2 = 0; d3 = 0; d4 = 0; d5 = 0; d6 = 0; d7 = 0 }

unfoldable pub set_int : ℕ → Scalar
set_int v = record { d0 = v; d1 = 0; d2 = 0; d3 = 0; d4 = 0; d5 = 0; d6 = 0; d7 = 0 }

-- `yes` and `no` are 0 or 1 in the source, where `&`, `|` and `~` act on their lowest bit.
unfoldable pub check_overflow : Scalar → Bool
check_overflow a =
    let no7 = ltb a.d7 n_7 in
    let no6 = no7 || ltb a.d6 n_6 in
    let no5 = no6 || ltb a.d5 n_5 in
    let no4 = no5 || ltb a.d4 n_4 in
    let yes4 = ltb n_4 a.d4 && not no4 in
    let no3 = no4 || (ltb a.d3 n_3 && not yes4) in
    let yes3 = yes4 || (ltb n_3 a.d3 && not no3) in
    let no2 = no3 || (ltb a.d2 n_2 && not yes3) in
    let yes2 = yes3 || (ltb n_2 a.d2 && not no2) in
    let no1 = no2 || (ltb a.d1 n_1 && not yes2) in
    let yes1 = yes2 || (ltb n_1 a.d1 && not no1) in yes1 || (leb n_0 a.d0 && not no1)

-- The order is subtracted `overflow` times, by adding 2 ^ 256 minus the order.
unfoldable pub reduce : Scalar → ℕ → Scalar
reduce r overflow =
    let t0 = u64 (r.d0 + u32 (overflow * n_c_0)) in
    let t1 = u64 ((t0 >>> 32) + (r.d1 + u32 (overflow * n_c_1))) in
    let t2 = u64 ((t1 >>> 32) + (r.d2 + u32 (overflow * n_c_2))) in
    let t3 = u64 ((t2 >>> 32) + (r.d3 + u32 (overflow * n_c_3))) in
    let t4 = u64 ((t3 >>> 32) + (r.d4 + u32 (overflow * n_c_4))) in
    let t5 = u64 ((t4 >>> 32) + (r.d5)) in
    let t6 = u64 ((t5 >>> 32) + (r.d6)) in
    let t7 = u64 ((t6 >>> 32) + (r.d7)) in
    record {
      d0 = low_bits t0 32;
      d1 = low_bits t1 32;
      d2 = low_bits t2 32;
      d3 = low_bits t3 32;
      d4 = low_bits t4 32;
      d5 = low_bits t5 32;
      d6 = low_bits t6 32;
      d7 = low_bits t7 32;
    }

-- The limbs of a sum, and the carry out of the top one.
unfoldable pub add_limbs : Scalar → Scalar → Scalar × ℕ
add_limbs a b =
    let t0 = u64 (a.d0 + b.d0) in
    let t1 = u64 ((t0 >>> 32) + (a.d1 + b.d1)) in
    let t2 = u64 ((t1 >>> 32) + (a.d2 + b.d2)) in
    let t3 = u64 ((t2 >>> 32) + (a.d3 + b.d3)) in
    let t4 = u64 ((t3 >>> 32) + (a.d4 + b.d4)) in
    let t5 = u64 ((t4 >>> 32) + (a.d5 + b.d5)) in
    let t6 = u64 ((t5 >>> 32) + (a.d6 + b.d6)) in
    let t7 = u64 ((t6 >>> 32) + (a.d7 + b.d7)) in
    (
      record {
        d0 = low_bits t0 32;
        d1 = low_bits t1 32;
        d2 = low_bits t2 32;
        d3 = low_bits t3 32;
        d4 = low_bits t4 32;
        d5 = low_bits t5 32;
        d6 = low_bits t6 32;
        d7 = low_bits t7 32;
      },
      t7 >>> 32,
    )

-- The order is subtracted if the number with the carry `c` reaches it.
unfoldable pub settle : Scalar → ℕ → Scalar × ℕ
settle r c = let overflow = c + to_int (check_overflow r) in (reduce r overflow, overflow)

-- `secp256k1_scalar_add`: the sum, and the overflow that the function returns.
unfoldable pub add : Scalar → Scalar → Scalar × ℕ
add a b = let s = add_limbs a b in settle s.0 s.1

unfoldable pub is_zero : Scalar → Bool
is_zero a =
    bit_or
      (bit_or (bit_or (bit_or (bit_or (bit_or (bit_or a.d0 (a.d1)) (a.d2)) (a.d3)) (a.d4)) (a.d5))
        (a.d6))
      (a.d7)
    == 0

unfoldable pub is_one : Scalar → Bool
is_one a =
    bit_or
      (bit_or
        (bit_or (bit_or (bit_or (bit_or (bit_or ((bit_xor a.d0 1)) (a.d1)) (a.d2)) (a.d3)) (a.d4))
          (a.d5))
        (a.d6))
      (a.d7)
    == 0

unfoldable pub eq : Scalar → Scalar → Bool
eq a b =
    bit_or
      (bit_or
        (bit_or
          (bit_or
            (bit_or (bit_or (bit_or ((bit_xor a.d0 b.d0)) (bit_xor a.d1 b.d1)) (bit_xor a.d2 b.d2))
              (bit_xor a.d3 b.d3))
            (bit_xor a.d4 b.d4))
          (bit_xor a.d5 b.d5))
        (bit_xor a.d6 b.d6))
      (bit_xor a.d7 b.d7)
    == 0

unfoldable pub negate : Scalar → Scalar
negate a =
    let nonzero = u32 (0xFFFFFFFF * to_int (not (is_zero a))) in
    let t0 = u64 (complement a.d0 + n_0 + 1) in
    let t1 = u64 ((t0 >>> 32) + (complement a.d1 + n_1)) in
    let t2 = u64 ((t1 >>> 32) + (complement a.d2 + n_2)) in
    let t3 = u64 ((t2 >>> 32) + (complement a.d3 + n_3)) in
    let t4 = u64 ((t3 >>> 32) + (complement a.d4 + n_4)) in
    let t5 = u64 ((t4 >>> 32) + (complement a.d5 + n_5)) in
    let t6 = u64 ((t5 >>> 32) + (complement a.d6 + n_6)) in
    let t7 = u64 ((t6 >>> 32) + (complement a.d7 + n_7)) in
    record {
      d0 = bit_and t0 nonzero;
      d1 = bit_and t1 nonzero;
      d2 = bit_and t2 nonzero;
      d3 = bit_and t3 nonzero;
      d4 = bit_and t4 nonzero;
      d5 = bit_and t5 nonzero;
      d6 = bit_and t6 nonzero;
      d7 = bit_and t7 nonzero;
    }

-- Whether the scalar is above half the order, again with flags of one bit.
unfoldable pub is_high : Scalar → Bool
is_high a =
    let no7 = ltb a.d7 n_h_7 in
    let yes7 = ltb n_h_7 a.d7 && not no7 in
    let no6 = no7 || (ltb a.d6 n_h_6 && not yes7) in
    let no5 = no6 || (ltb a.d5 n_h_5 && not yes7) in
    let no4 = no5 || (ltb a.d4 n_h_4 && not yes7) in
    let no3 = no4 || (ltb a.d3 n_h_3 && not yes7) in
    let yes3 = yes7 || (ltb n_h_3 a.d3 && not no3) in
    let no2 = no3 || (ltb a.d2 n_h_2 && not yes3) in
    let yes2 = yes3 || (ltb n_h_2 a.d2 && not no2) in
    let no1 = no2 || (ltb a.d1 n_h_1 && not yes2) in
    let yes1 = yes2 || (ltb n_h_1 a.d1 && not no1) in yes1 || (ltb n_h_0 a.d0 && not no1)
