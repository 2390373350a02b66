-- ===== src/Secp/Scalar/Accumulator.antt =====
-- The accumulator of the products in scalar_4x64_impl.h: the macros `muladd`, `sumadd` and
-- `extract` on the number (c0, c1, c2) of 64, 64 and 32 bits. In `reduce_512` the
-- word c2 has 64 bits; a number below 2 ^ 160 fits both.
use tinychain.Base.{
  ℕ, ◌+◌, ◌-◌, ◌*◌, ◌/◌, ◌%◌, ◌^◌, ◌≤◌, ◌<◌, ◌≡◌, arith, to_int, ltb, u64, u128, ◌>>>◌, low_bits,
  ◌&&◌, ◌==◌,
}
use native.Mathlib.Nat.{mul-le-mul}

pub record Accumulator : Type 0 where
  pub c0 : ℕ
  pub c1 : ℕ
  pub c2 : ℕ

abbrev u32 : ℕ → ℕ
u32 n = n % 2 ^ 32

-- `c0 = x; c1 = 0; c2 = 0;`
unfoldable pub start : ℕ → Accumulator
start x = record { c0 = x; c1 = 0; c2 = 0 }

-- Adds a product whose low and high words are `tl` and `th`.
unfoldable pub add_words : ℕ → ℕ → Accumulator → Accumulator
add_words tl th c =
    let c0 = u64 (c.c0 + tl) in
    let th1 = u64 (th + to_int (ltb c0 tl)) in
    let c1 = u64 (c.c1 + th1) in record { c0 = c0; c1 = c1; c2 = u32 (c.c2 + to_int (ltb c1 th1)) }

unfoldable pub muladd : ℕ → ℕ → Accumulator → Accumulator
muladd a b c = let t = u128 (a * b) in add_words (low_bits t 64) (u64 (t >>> 64)) c

unfoldable pub muladd_fast : ℕ → ℕ → Accumulator → Accumulator
muladd_fast a b c =
    let t = u128 (a * b) in
    let tl = low_bits t 64 in
    let c0 = u64 (c.c0 + tl) in
    let th = u64 ((t >>> 64) + to_int (ltb c0 tl)) in record c { c0 = c0; c1 = u64 (c.c1 + th) }

-- Twice a product whose low and high words are `tl` and `th`.
unfoldable pub add_words_twice : ℕ → ℕ → Accumulator → Accumulator
add_words_twice tl th c =
    let th2 = u64 (th + th) in
    let k2 = u32 (c.c2 + to_int (ltb th2 th)) in
    let tl2 = u64 (tl + tl) in
    let th3 = u64 (th2 + to_int (ltb tl2 tl)) in
    let c0 = u64 (c.c0 + tl2) in
    let th4 = u64 (th3 + to_int (ltb c0 tl2)) in
    let l2 = u32 (k2 + to_int (ltb c0 tl2 && (th4 == 0))) in
    let c1 = u64 (c.c1 + th4) in record { c0 = c0; c1 = c1; c2 = u32 (l2 + to_int (ltb c1 th4)) }

unfoldable pub muladd2 : ℕ → ℕ → Accumulator → Accumulator
muladd2 a b c = let t = u128 (a * b) in add_words_twice (low_bits t 64) (u64 (t >>> 64)) c

unfoldable pub sumadd : ℕ → Accumulator → Accumulator
sumadd a c =
    let c0 = u64 (c.c0 + a) in
    let over = to_int (ltb c0 a) in
    let c1 = u64 (c.c1 + over) in
    record { c0 = c0; c1 = c1; c2 = u32 (c.c2 + to_int (ltb c1 over)) }

unfoldable pub sumadd_fast : ℕ → Accumulator → Accumulator
sumadd_fast a c =
    let c0 = u64 (c.c0 + a) in record c { c0 = c0; c1 = u64 (c.c1 + to_int (ltb c0 a)) }

-- What is left when the lowest word, `c0`, has been taken out.
unfoldable pub extract : Accumulator → Accumulator
extract c = record { c0 = c.c1; c1 = c.c2; c2 = 0 }

unfoldable pub extract_fast : Accumulator → Accumulator
extract_fast c = record c { c0 = c.c1; c1 = 0 }

abbrev pub number : Accumulator → ℕ
number c = c.c0 + c.c1 * 2 ^ 64 + c.c2 * 2 ^ 128

pub record HasWords (c : Accumulator) : Type 0 where
  pub word0 : c.c0 < 2 ^ 64
  pub word1 : c.c1 < 2 ^ 64
  pub word2 : c.c2 < 2 ^ 32

-- `c` holds `n`, in words of their sizes.
pub record Holds (n : ℕ) (c : Accumulator) : Type 0 where
  pub words : HasWords c
  pub holds : number c ≡ n

pub product_words : (a b : ℕ) → a < 2 ^ 64 → b < 2 ^ 64 → a * b ≤ (2 ^ 64 - 1) * (2 ^ 64 - 1)
product_words a b ha hb =
    let small_a : a ≤ 2 ^ 64 - 1 = omega arith in
    let small_b : b ≤ 2 ^ 64 - 1 = omega arith in mul-le-mul small_a small_b

add_words_lem :
    (tl th : ℕ) {n : ℕ} {c : Accumulator}
    → tl < 2 ^ 64
    → th < 2 ^ 64 - 1
    → Holds n c
    → n + tl + th * 2 ^ 64 < 2 ^ 160
    → Holds (n + tl + th * 2 ^ 64) (add_words tl th c)
unfolding add_words
add_words_lem tl th hl hh h lt = ground arith

pub muladd_lem :
    (a b : ℕ) {n : ℕ} {c : Accumulator}
    → a < 2 ^ 64
    → b < 2 ^ 64
    → Holds n c
    → n + a * b < 2 ^ 160
    → Holds (n + a * b) (muladd a b c)
unfolding muladd
muladd_lem a b ha hb h lt =
    let small = product_words a b ha hb in
    omega (
      arith,
      add_words_lem (low_bits (u128 (a * b)) 64) (u64 (u128 (a * b) >>> 64)) (omega arith)
          (omega arith) h (omega arith),
    )

add_words_twice_lem :
    (tl th : ℕ) {n : ℕ} {c : Accumulator}
    → tl < 2 ^ 64
    → th < 2 ^ 64 - 1
    → Holds n c
    → n + 2 * (tl + th * 2 ^ 64) < 2 ^ 160
    → Holds (n + 2 * (tl + th * 2 ^ 64)) (add_words_twice tl th c)
unfolding add_words_twice
add_words_twice_lem tl th hl hh h lt = ground arith

pub muladd2_lem :
    (a b : ℕ) {n : ℕ} {c : Accumulator}
    → a < 2 ^ 64
    → b < 2 ^ 64
    → Holds n c
    → n + 2 * (a * b) < 2 ^ 160
    → Holds (n + 2 * (a * b)) (muladd2 a b c)
unfolding muladd2
muladd2_lem a b ha hb h lt =
    let small = product_words a b ha hb in
    omega (
      arith,
      add_words_twice_lem (low_bits (u128 (a * b)) 64) (u64 (u128 (a * b) >>> 64)) (omega arith)
          (omega arith) h (omega arith),
    )

pub muladd_fast_lem :
    (a b : ℕ) {n : ℕ} {c : Accumulator}
    → a < 2 ^ 64
    → b < 2 ^ 64
    → Holds n c
    → n + a * b < 2 ^ 128
    → Holds (n + a * b) (muladd_fast a b c)
unfolding muladd_fast
muladd_fast_lem a b ha hb h lt = let small = product_words a b ha hb in ground arith

pub sumadd_lem :
    (a : ℕ) {n : ℕ} {c : Accumulator}
    → a < 2 ^ 64
    → Holds n c
    → n + a < 2 ^ 160
    → Holds (n + a) (sumadd a c)
unfolding sumadd
sumadd_lem a ha h lt = ground arith

pub sumadd_fast_lem :
    (a : ℕ) {n : ℕ} {c : Accumulator}
    → a < 2 ^ 64
    → Holds n c
    → n + a < 2 ^ 128
    → Holds (n + a) (sumadd_fast a c)
unfolding sumadd_fast
sumadd_fast_lem a ha h lt = ground arith

pub extract_lem :
    {n : ℕ} {c : Accumulator} → Holds n c → Holds (n / 2 ^ 64) (extract c) × (c.c0 ≡ n % 2 ^ 64)
unfolding extract
extract_lem h = omega arith

pub extract_fast_lem :
    {n : ℕ} {c : Accumulator}
    → Holds n c
    → n < 2 ^ 128
    → Holds (n / 2 ^ 64) (extract_fast c) × (c.c0 ≡ n % 2 ^ 64)
unfolding extract_fast
extract_fast_lem h lt = omega arith

pub start_lem : (x : ℕ) → x < 2 ^ 64 → Holds x (start x)
unfolding start
start_lem x h = omega arith
