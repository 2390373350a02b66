-- ===== src/Secp/Hash/Digest.antt =====
-- The hash of a message against the hash over lists.
use tinychain.Base.{
  ℕ, zero, suc, ◌+◌, ◌-◌, ◌*◌, ◌/◌, ◌%◌, ◌^◌, ◌≤◌, ◌<◌, ◌≡◌, refl, sym, ap, ◌∙◌, arith, List, [],
  ◌∷◌, ◌++◌, length, take, drop, replicate, length-append, length-replicate, length-take,
  length-drop, take-append-drop, u64, ◌>>>◌, ◌<<<◌,
}
use tinychain.Secp.Hash.{State, be32}
use tinychain.Secp.Hash.Transform.{transform}
use tinychain.Secp.Hash.Words.{transform-compress}
use tinychain.Secp.Hash.Macros.{be32_lem}
use tinychain.Secp.Hash.Sha256.{
  Sha256, initialize, initial, memcpy, write, pad, store, out_bytes, sizedesc, finalize,
}
use tinychain.Secp.Hash.Message.{push_all, push_all-append, complete, write-push_all, write-append}
use tinychain.Secp.Hash.Standard.{big_endian, digest_bytes, padded, compress_blocks, sha256}

memcpy_whole : (xs m : List ℕ) → length xs ≡ length m → memcpy 0 xs m ≡ xs
unfolding memcpy
memcpy_whole [] [] h = refl
memcpy_whole [] (y ∷ m) h = absurd (omega arith)
memcpy_whole (x ∷ xs) [] h = absurd (omega arith)
memcpy_whole (x ∷ xs) (y ∷ m) h = ap (λ n. x ∷ n) (memcpy_whole xs m (omega arith))

-- Whole blocks, from an empty buffer.
push_all-blocks :
    (k : ℕ) (m : List ℕ) (s : State) (buf : List ℕ) (n : ℕ)
    → length m ≡ k * 64
    → length buf ≡ 64
    → n < 2 ^ 64
    → n % 64 ≡ 0
    → (push_all (record { s = s; buf = buf; bytes = n }) m).s ≡ compress_blocks k m s
unfolding compress_blocks push_all
push_all-blocks zero [] s buf n h l b e = refl
push_all-blocks zero (x ∷ m) s buf n h l b e = absurd (omega arith)
push_all-blocks (suc k) m s buf n h l b e =
    let start : Sha256 = record { s = s; buf = buf; bytes = n } in
    let block = take 64 m in
    let size = length-take 64 m (omega arith) in
    let rest_size = length-drop 64 m in
    let first = complete block s buf n b (omega arith) in
    let whole : memcpy (n % 64) block buf ≡ block = rw e (memcpy_whole block buf (omega arith)) in
    let rest =
      push_all-blocks k (drop 64 m) (transform s block) block (u64 (n + length block)) (omega arith)
        size (omega arith) (omega arith) in
    ap (λ (x : List ℕ). (push_all start x).s) (sym (take-append-drop 64 m))
    ∙ ap (λ (x : Sha256). x.s) (push_all-append start block (drop 64 m))
    ∙ ap (λ (x : Sha256). (push_all x (drop 64 m)).s) (rw whole at first)
    ∙ rest
    ∙ ap (compress_blocks k (drop 64 m)) (transform-compress s block)

store-be32 : (w : ℕ) → store (be32 w) ≡ big_endian w
unfolding store big_endian
store-be32 w =
    let swapped = be32_lem w in
    let b0 : be32 w % 256 ≡ w / 2 ^ 24 % 256 = omega arith in
    let b1 : (be32 w >>> 8) % 256 ≡ w / 2 ^ 16 % 256 = omega arith in
    let b2 : (be32 w >>> 16) % 256 ≡ w / 2 ^ 8 % 256 = omega arith in
    let b3 : (be32 w >>> 24) % 256 ≡ w % 256 = omega arith in rw (b0, b1, b2, b3) refl

out_bytes_lem : (s : State) → out_bytes s ≡ digest_bytes s
unfolding out_bytes digest_bytes
out_bytes_lem s =
    rw
      (
        store-be32 s.a,
        store-be32 s.b,
        store-be32 s.c,
        store-be32 s.d,
        store-be32 s.e,
        store-be32 s.f,
        store-be32 s.g,
        store-be32 s.h,
      )
      refl

sizedesc_lem : (n : ℕ) → n < 2 ^ 61 → sizedesc n ≡ big_endian (8 * n / 2 ^ 32) ++ big_endian (8 * n)
unfolding sizedesc
sizedesc_lem n h =
    let high : n >>> 29 ≡ 8 * n / 2 ^ 32 = omega arith in
    let low : u64 (n <<< 3) ≡ 8 * n = omega arith in
    rw (store-be32 (n >>> 29), store-be32 (u64 (n <<< 3)), high, low) refl

take-replicate : (n k : ℕ) (x : ℕ) → n ≤ k → take n (replicate k x) ≡ replicate n x
take-replicate zero k x h = refl
take-replicate (suc n) zero x h = absurd (omega arith)
take-replicate (suc n) (suc k) x h = ap (λ xs. x ∷ xs) (take-replicate n k x (omega arith))

padding : (n : ℕ) → n ≤ 63 → take (1 + n) pad ≡ 0x80 ∷ replicate n 0
padding n h =
    let next : 1 + n ≡ suc n = omega arith in
    rw next (ap (λ xs. 0x80 ∷ xs) (take-replicate n 63 0 h))

length-padded : (m : List ℕ) → length (padded m) % 64 ≡ 0
unfolding padded big_endian
length-padded m =
    let zeros : List ℕ = replicate ((119 - length m % 64) % 64) 0 in
    let bits = 8 * length m in
    omega (
      arith,
      length-append (m ++ (0x80 ∷ zeros)) (big_endian (bits / 2 ^ 32) ++ big_endian bits),
      length-append m (0x80 ∷ zeros),
      length-replicate ((119 - length m % 64) % 64) (zero),
    )

bytes-write : (buf m : List ℕ) → length m < 2 ^ 61 → (write (initialize buf) m).bytes ≡ length m
unfolding write initialize
bytes-write buf m h = omega arith

-- Hashing a message gives the blocks of the padded message, compressed in turn.
pub digest_lem :
    (buf m : List ℕ)
    → length buf ≡ 64
    → length m < 2 ^ 61
    → (finalize (write (initialize buf) m)).0 ≡ sha256 m
unfolding finalize sha256 padded initialize
digest_lem buf m hb hm =
    let start = initialize buf in
    let count : (write start m).bytes ≡ length m = bytes-write buf m hm in
    let z = (119 - length m % 64) % 64 in
    let size = big_endian (8 * length m / 2 ^ 32) ++ big_endian (8 * length m) in
    let zeros : List ℕ = 0x80 ∷ replicate z 0 in
    let once : write (write (write start m) zeros) size ≡ push_all start (padded m) =
      ap (λ (x : Sha256). write x size) (write-append start m zeros (omega arith))
      ∙ write-append start (m ++ zeros) size (omega arith)
      ∙ write-push_all start (padded m) (omega arith) in
    let blocks =
      push_all-blocks (length (padded m) / 64) (padded m) initial buf 0
        (omega (arith, length-padded m)) hb (omega arith) refl in
    let shown = λ (n : ℕ).
      out_bytes
        (write (write (write start m) (take (1 + (119 - n % 64) % 64) pad)) (sizedesc n)).s in
    ap shown count
    ∙ rw (padding z (omega arith), sizedesc_lem (length m) hm)
        (ap (λ (x : Sha256). out_bytes x.s) once
          ∙ ap out_bytes blocks
          ∙ out_bytes_lem (compress_blocks (length (padded m) / 64) (padded m) initial))
