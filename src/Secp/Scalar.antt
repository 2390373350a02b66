-- ===== src/Secp/Scalar.antt =====
-- The integers modulo the group order in 4 limbs of 64 bits: scalar_4x64_impl.h, without the
-- products. An accumulator `t` is a `uint128_t`, a limb a `uint64_t`.
pub mod Value
pub mod Sum
pub mod Sign
pub mod Accumulator
pub mod Product
pub mod Inverse
pub mod Bytes
mod Tests
use tinychain.Base.{ℕ, ◌+◌, ◌-◌, ◌*◌, ◌/◌, ◌%◌, ◌^◌, Bool, true, false, ◌&&◌, ◌||◌, not}
use tinychain.Base.{bit_and, bit_or, bit_xor, u64, u128, ◌<<<◌, ◌>>>◌, low_bits, to_int}
use tinychain.Base.{ltb, leb, ◌==◌, if◌then◌else◌}

-- `secp256k1_scalar`
pub record Scalar : Type 0 where
  pub d0 : ℕ
  pub d1 : ℕ
  pub d2 : ℕ
  pub d3 : ℕ

-- SECP256K1_N_0 to SECP256K1_N_3
abbrev pub n_0 : ℕ
n_0 = 0xBFD25E8CD0364141

abbrev pub n_1 : ℕ
n_1 = 0xBAAEDCE6AF48A03B

abbrev pub n_2 : ℕ
n_2 = 0xFFFFFFFFFFFFFFFE

abbrev pub n_3 : ℕ
n_3 = 0xFFFFFFFFFFFFFFFF

-- `~x` of a limb
abbrev pub complement : ℕ → ℕ
complement x = 2 ^ 64 - 1 - x

-- SECP256K1_N_C_0 to SECP256K1_N_C_2
abbrev pub n_c_0 : ℕ
n_c_0 = complement n_0 + 1

abbrev pub n_c_1 : ℕ
n_c_1 = complement n_1

abbrev pub n_c_2 : ℕ
n_c_2 = 1

-- SECP256K1_N_H_0 to SECP256K1_N_H_3
abbrev pub n_h_0 : ℕ
n_h_0 = 0xDFE92F46681B20A0

abbrev pub n_h_1 : ℕ
n_h_1 = 0x5D576E7357A4501D

abbrev pub n_h_2 : ℕ
n_h_2 = 0xFFFFFFFFFFFFFFFF

abbrev pub n_h_3 : ℕ
n_h_3 = 0x7FFFFFFFFFFFFFFF

unfoldable pub clear : Scalar
clear = record { d0 = 0; d1 = 0; d2 = 0; d3 = 0 }

unfoldable pub set_int : ℕ → Scalar
set_int v = record { d0 = v; d1 = 0; d2 = 0; d3 = 0 }

-- `yes` and `no` are 0 or 1 in the source, where `&`, `|` and `~` act on their lowest bit.
unfoldable pub check_overflow : Scalar → Bool
check_overflow a =
    let no = ltb a.d3 n_3 in
    let no2 = no || ltb a.d2 n_2 in
    let yes = ltb n_2 a.d2 && not no2 in
    let no1 = no2 || ltb a.d1 n_1 in
    let yes1 = yes || (ltb n_1 a.d1 && not no1) in yes1 || (leb n_0 a.d0 && not no1)

-- The order is subtracted `overflow` times, by adding 2 ^ 256 minus the order.
unfoldable pub reduce : Scalar → ℕ → Scalar
reduce r overflow =
    let t0 = u128 (r.d0 + u64 (overflow * n_c_0)) in
    let t1 = u128 ((t0 >>> 64) + (r.d1 + u64 (overflow * n_c_1))) in
    let t2 = u128 ((t1 >>> 64) + (r.d2 + overflow * n_c_2)) in
    let t3 = u128 ((t2 >>> 64) + r.d3) in
    record { d0 = low_bits t0 64; d1 = low_bits t1 64; d2 = low_bits t2 64; d3 = low_bits t3 64 }

-- The limbs of a sum, and the carry out of the top one.
unfoldable pub add_limbs : Scalar → Scalar → Scalar × ℕ
add_limbs a b =
    let t0 = u128 (a.d0 + b.d0) in
    let t1 = u128 ((t0 >>> 64) + (a.d1 + b.d1)) in
    let t2 = u128 ((t1 >>> 64) + (a.d2 + b.d2)) in
    let t3 = u128 ((t2 >>> 64) + (a.d3 + b.d3)) in
    (
      record { d0 = low_bits t0 64; d1 = low_bits t1 64; d2 = low_bits t2 64; d3 = low_bits t3 64 },
      t3 >>> 64,
    )

-- The order is subtracted if the number with the carry `c` reaches it.
unfoldable pub settle : Scalar → ℕ → Scalar × ℕ
settle r c = let overflow = c + to_int (check_overflow r) in (reduce r overflow, overflow)

-- `secp256k1_scalar_add`: the sum, and the overflow that the function returns.
unfoldable pub add : Scalar → Scalar → Scalar × ℕ
add a b = let s = add_limbs a b in settle s.0 s.1

unfoldable pub is_zero : Scalar → Bool
is_zero a = bit_or (bit_or (bit_or a.d0 a.d1) a.d2) a.d3 == 0

unfoldable pub is_one : Scalar → Bool
is_one a = bit_or (bit_or (bit_or (bit_xor a.d0 1) a.d1) a.d2) a.d3 == 0

unfoldable pub is_even : Scalar → Bool
is_even a = low_bits a.d0 1 == 0

unfoldable pub negate : Scalar → Scalar
negate a =
    let nonzero = u64 (0xFFFFFFFFFFFFFFFF * to_int (not (is_zero a))) in
    let t0 = u128 (complement a.d0 + n_0 + 1) in
    let t1 = u128 ((t0 >>> 64) + (complement a.d1 + n_1)) in
    let t2 = u128 ((t1 >>> 64) + (complement a.d2 + n_2)) in
    let t3 = u128 ((t2 >>> 64) + (complement a.d3 + n_3)) in
    record {
      d0 = bit_and t0 nonzero;
      d1 = bit_and t1 nonzero;
      d2 = bit_and t2 nonzero;
      d3 = bit_and t3 nonzero;
    }

-- Whether the scalar is above half the order, again with flags of one bit.
unfoldable pub is_high : Scalar → Bool
is_high a =
    let no = ltb a.d3 n_h_3 in
    let yes = ltb n_h_3 a.d3 && not no in
    let no2 = no || (ltb a.d2 n_h_2 && not yes) in
    let no1 = no2 || (ltb a.d1 n_h_1 && not yes) in
    let yes1 = yes || (ltb n_h_1 a.d1 && not no1) in yes1 || (ltb n_h_0 a.d0 && not no1)

-- `mask` is all ones for a set flag; the second component is the -1 or 1 returned, as its
-- 32-bit word.
unfoldable pub cond_negate : Scalar → Bool → Scalar × ℕ
cond_negate r flag =
    let mask = u64 (to_int (not flag) + 2 ^ 64 - 1) in
    let nonzero = u64 (to_int (not (is_zero r)) * (2 ^ 64 - 1)) in
    let t0 = u128 (bit_xor r.d0 mask + bit_and (n_0 + 1) mask) in
    let t1 = u128 ((t0 >>> 64) + (bit_xor r.d1 mask + bit_and n_1 mask)) in
    let t2 = u128 ((t1 >>> 64) + (bit_xor r.d2 mask + bit_and n_2 mask)) in
    let t3 = u128 ((t2 >>> 64) + (bit_xor r.d3 mask + bit_and n_3 mask)) in
    (
      record {
        d0 = bit_and t0 nonzero;
        d1 = bit_and t1 nonzero;
        d2 = bit_and t2 nonzero;
        d3 = bit_and t3 nonzero;
      },
      (2 * to_int (mask == 0) + 2 ^ 32 - 1) % 2 ^ 32,
    )

-- The bits shifted out, and the scalar shifted down by `n` from 1 to 15.
unfoldable pub shr_int : Scalar → ℕ → Scalar × ℕ
shr_int r n = (
  record {
    d0 = u64 ((r.d0 >>> n) + u64 (r.d1 <<< (64 - n)));
    d1 = u64 ((r.d1 >>> n) + u64 (r.d2 <<< (64 - n)));
    d2 = u64 ((r.d2 >>> n) + u64 (r.d3 <<< (64 - n)));
    d3 = r.d3 >>> n;
  },
  low_bits r.d0 n,
)

-- `secp256k1_scalar_split_128`
unfoldable pub split_128 : Scalar → Scalar × Scalar
split_128 a = (
  record { d0 = a.d0; d1 = a.d1; d2 = 0; d3 = 0 },
  record { d0 = a.d2; d1 = a.d3; d2 = 0; d3 = 0 },
)

unfoldable pub eq : Scalar → Scalar → Bool
eq a b =
    bit_or (bit_or (bit_or (bit_xor a.d0 b.d0) (bit_xor a.d1 b.d1)) (bit_xor a.d2 b.d2))
      (bit_xor a.d3 b.d3)
    == 0

-- `1 << (bit & 0x3F)` in the limb `bit >> 6`; a clear flag moves the bit out of the scalar.
unfoldable pub cadd_bit : Scalar → ℕ → Bool → Scalar
cadd_bit r bit flag =
    let at = bit + (if flag then 0 else 0x100) in
    let one : ℕ → ℕ = λ k. u64 (to_int ((at >>> 6) == k) <<< low_bits at 6) in
    let t0 = u128 (r.d0 + one 0) in
    let t1 = u128 ((t0 >>> 64) + (r.d1 + one 1)) in
    let t2 = u128 ((t1 >>> 64) + (r.d2 + one 2)) in
    let t3 = u128 ((t2 >>> 64) + (r.d3 + one 3)) in
    record { d0 = low_bits t0 64; d1 = low_bits t1 64; d2 = low_bits t2 64; d3 = low_bits t3 64 }
