-- ===== src/Secp/Field.antt =====
-- The field of the curve in 5 limbs of 52 bits: field_5x52_impl.h. A limb is a `uint64_t`, and
-- every sum, product and difference of limbs wraps at 2 ^ 64.
pub mod Value
pub mod Carry
pub mod Normalize
pub mod Zero
pub mod Linear
pub mod Equal
pub mod Product
pub mod Chain
pub mod Storage
mod Tests
use tinychain.Base.{ℕ, ◌+◌, ◌-◌, ◌*◌, ◌/◌, ◌%◌, ◌^◌, Bool, true, false, ◌&&◌, ◌||◌, not}
use tinychain.Base.{bit_and, bit_or, bit_xor, u64, sub64, ◌<<<◌, ◌>>>◌, low_bits, to_int}
use tinychain.Base.{ltb, leb, ◌==◌, if◌then◌else◌}

-- `secp256k1_fe`, without the fields `magnitude` and `normalized` of a VERIFY build.
pub record Fe : Type 0 where
  pub n0 : ℕ
  pub n1 : ℕ
  pub n2 : ℕ
  pub n3 : ℕ
  pub n4 : ℕ

-- 0x1000003D1, which is 2 ^ 256 modulo the characteristic.
abbrev pub reduction : ℕ
reduction = 0x1000003D1

abbrev pub limb_mask : ℕ
limb_mask = 0xFFFFFFFFFFFFF

abbrev pub top_mask : ℕ
top_mask = 0x0FFFFFFFFFFFF

-- One pass: `t0 += x * 0x1000003D1`, then the carries up to `t4`, which keeps its own.
unfoldable pub carry : Fe → ℕ → Fe
carry r x =
    let t0 = u64 (r.n0 + u64 (x * reduction)) in
    let t1 = u64 (r.n1 + (t0 >>> 52)) in
    let t2 = u64 (r.n2 + (t1 >>> 52)) in
    let t3 = u64 (r.n3 + (t2 >>> 52)) in
    let t4 = u64 (r.n4 + (t3 >>> 52)) in
    record {
      n0 = low_bits t0 52;
      n1 = low_bits t1 52;
      n2 = low_bits t2 52;
      n3 = low_bits t3 52;
      n4 = t4;
    }

-- The first pass: the bits of `t4` from 48 up are folded in.
unfoldable pub normalize_weak : Fe → Fe
normalize_weak r = carry (record r { n4 = low_bits r.n4 48 }) (r.n4 >>> 48)

-- The test for a value of at least the characteristic; `m` is the conjunction of the middle limbs.
unfoldable pub final_reduction : Fe → ℕ
final_reduction t =
    let m = bit_and (bit_and t.n1 t.n2) t.n3 in
    bit_or (t.n4 >>> 48)
      (to_int ((t.n4 == top_mask) && (m == limb_mask) && leb 0xFFFFEFFFFFC2F t.n0))

-- `secp256k1_fe_normalize`: the final reduction is always applied, by 0 or 1.
unfoldable pub normalize : Fe → Fe
normalize r =
    let t = normalize_weak r in
    let u = carry t (final_reduction t) in record u { n4 = low_bits u.n4 48 }

-- `secp256k1_fe_normalize_var`: the final reduction is applied if it is needed.
unfoldable pub normalize_var : Fe → Fe
normalize_var r =
    let t = normalize_weak r in
    if final_reduction t == 0 then t else (let u = carry t 1 in record u { n4 = low_bits u.n4 48 })

-- `z0` is 0 for a raw value of 0, `z1` is all ones for a raw value of the characteristic.
unfoldable pub normalizes_to_zero : Fe → Bool
normalizes_to_zero r =
    let t = normalize_weak r in
    let z0 = bit_or (bit_or (bit_or (bit_or t.n0 t.n1) t.n2) t.n3) t.n4 in
    let z1 =
      bit_and (bit_and (bit_and (bit_and (bit_xor t.n0 0x1000003D0) t.n1) t.n2) t.n3)
        (bit_xor t.n4 0xF000000000000) in
    (z0 == 0) || (z1 == limb_mask)

-- The same test with a fast return on the lowest limb.
unfoldable pub normalizes_to_zero_var : Fe → Bool
normalizes_to_zero_var r =
    let x = r.n4 >>> 48 in
    let t0 = u64 (r.n0 + u64 (x * reduction)) in
    let z0 = low_bits t0 52 in
    let z1 = bit_xor z0 0x1000003D0 in
    if not (z0 == 0) && not (z1 == limb_mask)
    then false
    else (let t1 = u64 (r.n1 + (t0 >>> 52)) in
        let t2 = u64 (r.n2 + (t1 >>> 52)) in
        let l1 = low_bits t1 52 in
        let t3 = u64 (r.n3 + (t2 >>> 52)) in
        let l2 = low_bits t2 52 in
        let t4 = u64 (low_bits r.n4 48 + (t3 >>> 52)) in
        let l3 = low_bits t3 52 in
        let w0 = bit_or (bit_or (bit_or (bit_or z0 l1) l2) l3) t4 in
        let w1 = bit_and (bit_and (bit_and (bit_and z1 l1) l2) l3) (bit_xor t4 0xF000000000000) in
        (w0 == 0) || (w1 == limb_mask))

unfoldable pub set_int : ℕ → Fe
set_int a = record { n0 = a; n1 = 0; n2 = 0; n3 = 0; n4 = 0 }

unfoldable pub is_zero : Fe → Bool
is_zero a = bit_or (bit_or (bit_or (bit_or a.n0 a.n1) a.n2) a.n3) a.n4 == 0

unfoldable pub is_odd : Fe → ℕ
is_odd a = low_bits a.n0 1

unfoldable pub clear : Fe
clear = record { n0 = 0; n1 = 0; n2 = 0; n3 = 0; n4 = 0 }

unfoldable pub negate : Fe → ℕ → Fe
negate a m = record {
  n0 = sub64 (u64 (0xFFFFEFFFFFC2F * 2 * (m + 1))) a.n0;
  n1 = sub64 (u64 (limb_mask * 2 * (m + 1))) a.n1;
  n2 = sub64 (u64 (limb_mask * 2 * (m + 1))) a.n2;
  n3 = sub64 (u64 (limb_mask * 2 * (m + 1))) a.n3;
  n4 = sub64 (u64 (top_mask * 2 * (m + 1))) a.n4;
}

unfoldable pub mul_int : Fe → ℕ → Fe
mul_int r a = record {
  n0 = u64 (r.n0 * a);
  n1 = u64 (r.n1 * a);
  n2 = u64 (r.n2 * a);
  n3 = u64 (r.n3 * a);
  n4 = u64 (r.n4 * a);
}

unfoldable pub add : Fe → Fe → Fe
add r a = record {
  n0 = u64 (r.n0 + a.n0);
  n1 = u64 (r.n1 + a.n1);
  n2 = u64 (r.n2 + a.n2);
  n3 = u64 (r.n3 + a.n3);
  n4 = u64 (r.n4 + a.n4);
}

-- field_impl.h: both compare `b - a` with 0.
unfoldable pub equal : Fe → Fe → Bool
equal a b = normalizes_to_zero (add (negate a 1) b)

unfoldable pub equal_var : Fe → Fe → Bool
equal_var a b = normalizes_to_zero_var (add (negate a 1) b)
