-- ===== src/Secp/Field32.antt =====
-- The field of the curve in 10 limbs of 26 bits: field_10x26_impl.h, without the products. A limb is a
-- `uint32_t`, and every sum, product and difference of limbs wraps at 2 ^ 32.
pub mod Value
pub mod Normalize
mod Flags
pub mod Zero
pub mod Linear
pub mod Storage
mod Tests
use tinychain.Base.{ℕ, ◌+◌, ◌-◌, ◌*◌, ◌/◌, ◌%◌, ◌^◌, Bool, true, false, ◌&&◌, ◌||◌, not}
use tinychain.Base.{
  bit_and, bit_or, bit_xor, ◌<<<◌, ◌>>>◌, low_bits, to_int, ltb, ◌==◌, if◌then◌else◌,
}

-- `secp256k1_fe`, without the fields `magnitude` and `normalized` of a VERIFY build.
pub record Fe : Type 0 where
  pub n0 : ℕ
  pub n1 : ℕ
  pub n2 : ℕ
  pub n3 : ℕ
  pub n4 : ℕ
  pub n5 : ℕ
  pub n6 : ℕ
  pub n7 : ℕ
  pub n8 : ℕ
  pub n9 : ℕ

abbrev pub u32 : ℕ → ℕ
u32 n = n % 2 ^ 32

abbrev pub limb_mask : ℕ
limb_mask = 0x3FFFFFF

abbrev pub top_mask : ℕ
top_mask = 0x3FFFFF

-- One pass: `x` added to the lowest limb and `y` to the next, then the carries up to `t9`, which keeps
-- its own.
unfoldable pub carry : Fe → ℕ → ℕ → Fe
carry r x y =
    let t0 = u32 (r.n0 + x) in
    let t1 = u32 (u32 (r.n1 + y) + (t0 >>> 26)) in
    let t2 = u32 (r.n2 + (t1 >>> 26)) in
    let t3 = u32 (r.n3 + (t2 >>> 26)) in
    let t4 = u32 (r.n4 + (t3 >>> 26)) in
    let t5 = u32 (r.n5 + (t4 >>> 26)) in
    let t6 = u32 (r.n6 + (t5 >>> 26)) in
    let t7 = u32 (r.n7 + (t6 >>> 26)) in
    let t8 = u32 (r.n8 + (t7 >>> 26)) in
    let t9 = u32 (r.n9 + (t8 >>> 26)) in
    record {
      n0 = low_bits t0 26;
      n1 = low_bits t1 26;
      n2 = low_bits t2 26;
      n3 = low_bits t3 26;
      n4 = low_bits t4 26;
      n5 = low_bits t5 26;
      n6 = low_bits t6 26;
      n7 = low_bits t7 26;
      n8 = low_bits t8 26;
      n9 = t9;
    }

-- The first pass: the bits of `t9` from 22 up are folded in.
unfoldable pub normalize_weak : Fe → Fe
normalize_weak r =
    let x = r.n9 >>> 22 in carry (record r { n9 = low_bits r.n9 22 }) (x * 0x3D1) (u32 (x <<< 6))

-- The test for a value of at least the characteristic; `m` is the conjunction of the limbs t2 to t8.
unfoldable pub final_reduction : Fe → ℕ
final_reduction t =
    let m =
      bit_and (bit_and (bit_and (bit_and (bit_and (bit_and t.n2 t.n3) t.n4) t.n5) t.n6) t.n7)
        t.n8 in
    bit_or (t.n9 >>> 22) (
      to_int (
        (t.n9 == top_mask)
        && (m == limb_mask)
        && ltb limb_mask (t.n1 + 0x40 + ((t.n0 + 0x3D1) >>> 26))))

-- `secp256k1_fe_normalize`: the final reduction is always applied, by 0 or 1.
unfoldable pub normalize : Fe → Fe
normalize r =
    let t = normalize_weak r in
    let x = final_reduction t in
    let u = carry t (x * 0x3D1) (u32 (x <<< 6)) in record u { n9 = low_bits u.n9 22 }

-- `secp256k1_fe_normalize_var`: the final reduction is applied if it is needed.
unfoldable pub normalize_var : Fe → Fe
normalize_var r =
    let t = normalize_weak r in
    let x = final_reduction t in
    if x == 0
    then t
    else (let u = carry t 0x3D1 (u32 (x <<< 6)) in record u { n9 = low_bits u.n9 22 })

-- `z0` is 0 for a raw value of 0, `z1` is all ones for a raw value of the characteristic.
unfoldable pub normalizes_to_zero : Fe → Bool
normalizes_to_zero r =
    let t = normalize_weak r in
    let z0 =
      bit_or
        (bit_or
          (bit_or
            (bit_or (bit_or (bit_or (bit_or (bit_or (bit_or t.n0 t.n1) t.n2) t.n3) t.n4) t.n5) t.n6)
            t.n7)
          t.n8)
        t.n9 in
    let z1 =
      bit_and
        (bit_and
          (bit_and
            (bit_and
              (bit_and
                (bit_and
                  (bit_and (bit_and (bit_and ((bit_xor t.n0 0x3D0)) (bit_xor t.n1 0x40)) t.n2) t.n3)
                  t.n4)
                t.n5)
              t.n6)
            t.n7)
          t.n8)
        (bit_xor t.n9 0x3C00000) in
    (z0 == 0) || (z1 == limb_mask)

-- The same test with a fast return on the lowest limb.
unfoldable pub normalizes_to_zero_var : Fe → Bool
normalizes_to_zero_var r =
    let x = r.n9 >>> 22 in
    let t0 = u32 (r.n0 + x * 0x3D1) in
    let z0 = low_bits t0 26 in
    let z1 = bit_xor z0 0x3D0 in
    if not (z0 == 0) && not (z1 == limb_mask)
    then false
    else (let t1 = u32 (u32 (r.n1 + u32 (x <<< 6)) + (t0 >>> 26)) in
        let t2 = u32 (r.n2 + (t1 >>> 26)) in
        let l1 = low_bits t1 26 in
        let t3 = u32 (r.n3 + (t2 >>> 26)) in
        let l2 = low_bits t2 26 in
        let t4 = u32 (r.n4 + (t3 >>> 26)) in
        let l3 = low_bits t3 26 in
        let t5 = u32 (r.n5 + (t4 >>> 26)) in
        let l4 = low_bits t4 26 in
        let t6 = u32 (r.n6 + (t5 >>> 26)) in
        let l5 = low_bits t5 26 in
        let t7 = u32 (r.n7 + (t6 >>> 26)) in
        let l6 = low_bits t6 26 in
        let t8 = u32 (r.n8 + (t7 >>> 26)) in
        let l7 = low_bits t7 26 in
        let t9 = u32 (low_bits r.n9 22 + (t8 >>> 26)) in
        let l8 = low_bits t8 26 in
        let w0 =
          (bit_or
            (bit_or
              (bit_or (bit_or (bit_or (bit_or (bit_or (bit_or (bit_or z0 l1) l2) l3) l4) l5) l6) l7)
              l8)
            t9) in
        let w1 =
          (bit_and
            (bit_and
              (bit_and
                (bit_and
                  (bit_and (bit_and (bit_and (bit_and (bit_and z1 (bit_xor l1 0x40)) l2) l3) l4) l5)
                  l6)
                l7)
              l8)
            (bit_xor t9 0x3C00000)) in
        (w0 == 0) || (w1 == limb_mask))

unfoldable pub set_int : ℕ → Fe
set_int a = record {
  n0 = a;
  n1 = 0;
  n2 = 0;
  n3 = 0;
  n4 = 0;
  n5 = 0;
  n6 = 0;
  n7 = 0;
  n8 = 0;
  n9 = 0;
}

unfoldable pub is_zero : Fe → Bool
is_zero t =
    bit_or
      (bit_or
        (bit_or
          (bit_or (bit_or (bit_or (bit_or (bit_or (bit_or t.n0 t.n1) t.n2) t.n3) t.n4) t.n5) t.n6)
          t.n7)
        t.n8)
      t.n9
    == 0

unfoldable pub is_odd : Fe → ℕ
is_odd a = low_bits a.n0 1

unfoldable pub clear : Fe
clear = record { n0 = 0; n1 = 0; n2 = 0; n3 = 0; n4 = 0; n5 = 0; n6 = 0; n7 = 0; n8 = 0; n9 = 0 }

unfoldable pub negate : Fe → ℕ → Fe
negate a m =
    let minus : ℕ → ℕ → ℕ = λ c n. u32 (u32 (c * 2 * (m + 1)) + 2 ^ 32 - n) in
    record {
      n0 = minus 0x3FFFC2F a.n0;
      n1 = minus 0x3FFFFBF a.n1;
      n2 = minus 0x3FFFFFF a.n2;
      n3 = minus 0x3FFFFFF a.n3;
      n4 = minus 0x3FFFFFF a.n4;
      n5 = minus 0x3FFFFFF a.n5;
      n6 = minus 0x3FFFFFF a.n6;
      n7 = minus 0x3FFFFFF a.n7;
      n8 = minus 0x3FFFFFF a.n8;
      n9 = minus 0x3FFFFF a.n9;
    }

unfoldable pub mul_int : Fe → ℕ → Fe
mul_int r a = record {
  n0 = u32 (r.n0 * a);
  n1 = u32 (r.n1 * a);
  n2 = u32 (r.n2 * a);
  n3 = u32 (r.n3 * a);
  n4 = u32 (r.n4 * a);
  n5 = u32 (r.n5 * a);
  n6 = u32 (r.n6 * a);
  n7 = u32 (r.n7 * a);
  n8 = u32 (r.n8 * a);
  n9 = u32 (r.n9 * a);
}

unfoldable pub add : Fe → Fe → Fe
add r a = record {
  n0 = u32 (r.n0 + a.n0);
  n1 = u32 (r.n1 + a.n1);
  n2 = u32 (r.n2 + a.n2);
  n3 = u32 (r.n3 + a.n3);
  n4 = u32 (r.n4 + a.n4);
  n5 = u32 (r.n5 + a.n5);
  n6 = u32 (r.n6 + a.n6);
  n7 = u32 (r.n7 + a.n7);
  n8 = u32 (r.n8 + a.n8);
  n9 = u32 (r.n9 + a.n9);
}
