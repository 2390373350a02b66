-- ===== src/Secp/Scalar32/Accumulator.antt =====
-- The accumulator of the products in scalar_8x32_impl.h: the macros `muladd`, `sumadd` and
-- `extract` on the number (c0, c1, c2) of three words of 32 bits.
use tinychain.Base.{
  ℕ, ◌+◌, ◌-◌, ◌*◌, ◌/◌, ◌%◌, ◌^◌, ◌≤◌, ◌<◌, ◌≡◌, arith, to_int, ltb, u64, ◌>>>◌, low_bits, ◌&&◌,
  ◌==◌,
}
use native.Mathlib.Nat.{mul-le-mul}
use tinychain.Secp.Scalar32.{u32}

pub record Accumulator : Type 0 where
  pub c0 : ℕ
  pub c1 : ℕ
  pub c2 : ℕ

-- `c0 = x; c1 = 0; c2 = 0;`
unfoldable pub start : ℕ → Accumulator
start x = record { c0 = x; c1 = 0; c2 = 0 }

-- Adds a product whose low and high words are `tl` and `th`.
unfoldable pub add_words : ℕ → ℕ → Accumulator → Accumulator
add_words tl th c =
    let c0 = u32 (c.c0 + tl) in
    let th1 = u32 (th + to_int (ltb c0 tl)) in
    let c1 = u32 (c.c1 + th1) in record { c0 = c0; c1 = c1; c2 = u32 (c.c2 + to_int (ltb c1 th1)) }

unfoldable pub muladd : ℕ → ℕ → Accumulator → Accumulator
muladd a b c = let t = u64 (a * b) in add_words (low_bits t 32) (u32 (t >>> 32)) c

unfoldable pub muladd_fast : ℕ → ℕ → Accumulator → Accumulator
muladd_fast a b c =
    let t = u64 (a * b) in
    let tl = low_bits t 32 in
    let c0 = u32 (c.c0 + tl) in
    let th = u32 ((t >>> 32) + to_int (ltb c0 tl)) in record c { c0 = c0; c1 = u32 (c.c1 + th) }

-- Twice a product whose low and high words are `tl` and `th`.
unfoldable pub add_words_twice : ℕ → ℕ → Accumulator → Accumulator
add_words_twice tl th c =
    let th2 = u32 (th + th) in
    let k2 = u32 (c.c2 + to_int (ltb th2 th)) in
    let tl2 = u32 (tl + tl) in
    let th3 = u32 (th2 + to_int (ltb tl2 tl)) in
    let c0 = u32 (c.c0 + tl2) in
    let th4 = u32 (th3 + to_int (ltb c0 tl2)) in
    let l2 = u32 (k2 + to_int (ltb c0 tl2 && (th4 == 0))) in
    let c1 = u32 (c.c1 + th4) in record { c0 = c0; c1 = c1; c2 = u32 (l2 + to_int (ltb c1 th4)) }

unfoldable pub muladd2 : ℕ → ℕ → Accumulator → Accumulator
muladd2 a b c = let t = u64 (a * b) in add_words_twice (low_bits t 32) (u32 (t >>> 32)) c

unfoldable pub sumadd : ℕ → Accumulator → Accumulator
sumadd a c =
    let c0 = u32 (c.c0 + a) in
    let over = to_int (ltb c0 a) in
    let c1 = u32 (c.c1 + over) in
    record { c0 = c0; c1 = c1; c2 = u32 (c.c2 + to_int (ltb c1 over)) }

unfoldable pub sumadd_fast : ℕ → Accumulator → Accumulator
sumadd_fast a c =
    let c0 = u32 (c.c0 + a) in record c { c0 = c0; c1 = u32 (c.c1 + to_int (ltb c0 a)) }

-- What is left when the lowest word, `c0`, has been taken out.
unfoldable pub extract : Accumulator → Accumulator
extract c = record { c0 = c.c1; c1 = c.c2; c2 = 0 }

unfoldable pub extract_fast : Accumulator → Accumulator
extract_fast c = record c { c0 = c.c1; c1 = 0 }

abbrev pub number : Accumulator → ℕ
number c = c.c0 + c.c1 * 2 ^ 32 + c.c2 * 2 ^ 64

pub record HasWords (c : Accumulator) : Type 0 where
  pub word0 : c.c0 < 2 ^ 32
  pub word1 : c.c1 < 2 ^ 32
  pub word2 : c.c2 < 2 ^ 32

-- `c` holds a carry `q` and the sum `s` of `k` products or words.
pub record Sum (k q s : ℕ) (c : Accumulator) : Type 0 where
  pub words : HasWords c
  pub holds : number c ≡ q + s
  pub bounded : q + s ≤ k * ((2 ^ 32 - 1) * (2 ^ 32 - 1)) + 2 ^ 36

pub product_words : (a b : ℕ) → a < 2 ^ 32 → b < 2 ^ 32 → a * b ≤ (2 ^ 32 - 1) * (2 ^ 32 - 1)
product_words a b ha hb =
    let small_a : a ≤ 2 ^ 32 - 1 = omega arith in
    let small_b : b ≤ 2 ^ 32 - 1 = omega arith in mul-le-mul small_a small_b

add_words_lem :
    (tl th : ℕ) {k q s : ℕ} {c : Accumulator}
    → tl < 2 ^ 32
    → th < 2 ^ 32 - 1
    → tl + th * 2 ^ 32 ≤ (2 ^ 32 - 1) * (2 ^ 32 - 1)
    → k < 16
    → Sum k q s c
    → Sum (k + 1) q (s + (tl + th * 2 ^ 32)) (add_words tl th c)
unfolding add_words
add_words_lem tl th hl hh top le h = ground arith

pub muladd_lem :
    (a b : ℕ) {k q s : ℕ} {c : Accumulator}
    → a < 2 ^ 32
    → b < 2 ^ 32
    → k < 16
    → Sum k q s c
    → Sum (k + 1) q (s + a * b) (muladd a b c)
unfolding muladd
muladd_lem a b ha hb le h =
    let small = product_words a b ha hb in
    omega (
      arith,
      add_words_lem (low_bits (u64 (a * b)) 32) (u32 (u64 (a * b) >>> 32)) (omega arith)
          (omega arith) (omega arith) le h,
    )

add_words_twice_lem :
    (tl th : ℕ) {k q s : ℕ} {c : Accumulator}
    → tl < 2 ^ 32
    → th < 2 ^ 32 - 1
    → tl + th * 2 ^ 32 ≤ (2 ^ 32 - 1) * (2 ^ 32 - 1)
    → k < 16
    → Sum k q s c
    → Sum (k + 2) q (s + 2 * (tl + th * 2 ^ 32)) (add_words_twice tl th c)
unfolding add_words_twice
add_words_twice_lem tl th hl hh top le h = ground arith

pub muladd2_lem :
    (a b : ℕ) {k q s : ℕ} {c : Accumulator}
    → a < 2 ^ 32
    → b < 2 ^ 32
    → k < 16
    → Sum k q s c
    → Sum (k + 2) q (s + 2 * (a * b)) (muladd2 a b c)
unfolding muladd2
muladd2_lem a b ha hb le h =
    let small = product_words a b ha hb in
    omega (
      arith,
      add_words_twice_lem (low_bits (u64 (a * b)) 32) (u32 (u64 (a * b) >>> 32)) (omega arith)
          (omega arith) (omega arith) le h,
    )

pub muladd_fast_lem :
    (a b : ℕ) {k q s : ℕ} {c : Accumulator}
    → a < 2 ^ 32
    → b < 2 ^ 32
    → q + (s + a * b) < 2 ^ 64
    → Sum k q s c
    → Sum (k + 1) q (s + a * b) (muladd_fast a b c)
unfolding muladd_fast
muladd_fast_lem a b ha hb lt h = let small = product_words a b ha hb in ground arith

pub sumadd_lem :
    (a : ℕ) {k q s : ℕ} {c : Accumulator}
    → a < 2 ^ 32
    → k < 16
    → Sum k q s c
    → Sum (k + 1) q (s + a) (sumadd a c)
unfolding sumadd
sumadd_lem a ha le h = ground arith

pub sumadd_fast_lem :
    (a : ℕ) {k q s : ℕ} {c : Accumulator}
    → a < 2 ^ 32
    → q + (s + a) < 2 ^ 64
    → Sum k q s c
    → Sum (k + 1) q (s + a) (sumadd_fast a c)
unfolding sumadd_fast
sumadd_fast_lem a ha lt h = ground arith

pub extract_lem :
    {k q s : ℕ} {c : Accumulator}
    → k < 15
    → Sum k q s c
    → Sum 0 ((q + s) / 2 ^ 32) 0 (extract c) × (c.c0 ≡ (q + s) % 2 ^ 32)
unfolding extract
extract_lem le h = omega arith

pub extract_fast_lem :
    {k q s : ℕ} {c : Accumulator}
    → q + s < 2 ^ 64
    → Sum k q s c
    → Sum 0 ((q + s) / 2 ^ 32) 0 (extract_fast c) × (c.c0 ≡ (q + s) % 2 ^ 32)
unfolding extract_fast
extract_fast_lem lt h = omega arith

pub start_lem : (x : ℕ) → x < 2 ^ 32 → Sum 0 x 0 (start x)
unfolding start
start_lem x h = omega arith

-- A carry of one word.
pub last_word : {q : ℕ} {c : Accumulator} → Sum 0 q 0 c → q < 2 ^ 32 → c.c0 ≡ q
last_word h lt = omega arith
