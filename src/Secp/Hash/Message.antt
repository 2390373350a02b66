-- ===== src/Secp/Hash/Message.antt =====
-- Writing to the hash byte by byte, and in pieces.
use tinychain.Base.{
  true, false, ℕ, zero, suc, ◌+◌, ◌-◌, ◌/◌, ◌%◌, ◌^◌, ◌<◌, ◌≡◌, refl, sym, ap, ◌∙◌, bit_and, List,
  [], ◌∷◌, ◌++◌, leb, length, take, drop, if◌then◌else◌, arith, ◌==◌, take-append-drop, length-take,
  length-drop, u64,
}
use tinychain.Base.Bits.Mask.{bit_and_mask}
use tinychain.Secp.Hash.{State}
use tinychain.Secp.Hash.Transform.{transform}
use tinychain.Secp.Hash.Sha256.{Sha256, memcpy, write_loop, write}

-- One byte: it goes to the place that `bytes` says, and a full buffer is processed.
unfoldable pub push : Sha256 → ℕ → Sha256
push hash b =
    let buf = memcpy (hash.bytes % 64) (b ∷ []) hash.buf in
    record {
      s = if hash.bytes % 64 == 63 then transform hash.s buf else hash.s;
      buf = buf;
      bytes = u64 (hash.bytes + 1);
    }

unfoldable pub push_all : Sha256 → List ℕ → Sha256
push_all hash [] = hash
push_all hash (b ∷ input) = push_all (push hash b) input

pub push_all-append :
    (hash : Sha256) (xs ys : List ℕ) → push_all hash (xs ++ ys) ≡ push_all (push_all hash xs) ys
unfolding push_all
push_all-append hash [] ys = refl
push_all-append hash (x ∷ xs) ys = push_all-append (push hash x) xs ys

memcpy_none : (k : ℕ) (m : List ℕ) → memcpy k [] m ≡ m
unfolding memcpy
memcpy_none zero [] = refl
memcpy_none (suc k) [] = refl
memcpy_none zero (x ∷ m) = refl
memcpy_none (suc k) (x ∷ m) = ap (λ n. x ∷ n) (memcpy_none k m)

memcpy_next :
    (k b : ℕ) (input m : List ℕ)
    → memcpy (suc k) input (memcpy k (b ∷ []) m) ≡ memcpy k (b ∷ input) m
unfolding memcpy
memcpy_next zero b input [] = refl
memcpy_next (suc k) b input [] = refl
memcpy_next zero b input (x ∷ m) = ap (λ n. b ∷ memcpy zero input n) (memcpy_none zero m)
memcpy_next (suc k) b input (x ∷ m) = ap (λ n. x ∷ n) (memcpy_next k b input m)

-- Bytes that do not fill the buffer.
fill :
    (input : List ℕ) (s : State) (buf : List ℕ) (n : ℕ)
    → n < 2 ^ 64
    → n % 64 + length input < 64
    → push_all (record { s = s; buf = buf; bytes = n }) input
      ≡ record { s = s; buf = memcpy (n % 64) input buf; bytes = u64 (n + length input) }
unfolding push_all push
fill [] s buf n h l =
    let same : n ≡ u64 (n + 0) = omega arith in
    λ i. record { s = s; buf = sym (memcpy_none (n % 64) buf) i; bytes = same i }
fill (b ∷ input) s buf n h l =
    let open_place : (n % 64 == 63) ≡ false = ground arith in
    let next : u64 (n + 1) % 64 ≡ suc (n % 64) = omega arith in
    let total : u64 (u64 (n + 1) + length input) ≡ u64 (n + length (b ∷ input)) = omega arith in
    rw
      (
        open_place,
        fill input s (memcpy (n % 64) (b ∷ []) buf) (u64 (n + 1)) (omega arith) (omega arith),
        next,
        total,
        memcpy_next (n % 64) b input buf,
      )
      refl

-- Bytes that just fill it.
pub complete :
    (input : List ℕ) (s : State) (buf : List ℕ) (n : ℕ)
    → n < 2 ^ 64
    → n % 64 + length input ≡ 64
    → push_all (record { s = s; buf = buf; bytes = n }) input ≡ record {
      s = transform s (memcpy (n % 64) input buf);
      buf = memcpy (n % 64) input buf;
      bytes = u64 (n + length input);
    }
unfolding push_all push
complete [] s buf n h l = absurd (omega arith)
complete (b ∷ []) s buf n h l =
    let last_place : (n % 64 == 63) ≡ true = ground arith in rw last_place refl
complete (b ∷ c ∷ input) s buf n h l =
    let open_place : (n % 64 == 63) ≡ false = ground arith in
    let next : u64 (n + 1) % 64 ≡ suc (n % 64) = omega arith in
    let total : u64 (u64 (n + 1) + length (c ∷ input)) ≡ u64 (n + length (b ∷ c ∷ input)) =
      omega arith in
    let after = memcpy (n % 64) (b ∷ []) buf in
    let rest = complete (c ∷ input) s after (u64 (n + 1)) (omega arith) (omega arith) in
    rw (open_place, rest, next, total, memcpy_next (n % 64) b (c ∷ input) buf) refl

-- With as many rounds as blocks, the loop does what the bytes do one by one.
loop-push_all :
    (fuel : ℕ) (input : List ℕ) (s : State) (buf : List ℕ) (n : ℕ)
    → n < 2 ^ 64
    → (n % 64 + length input) / 64 ≡ fuel
    → push_all (record { s = s; buf = buf; bytes = n }) input ≡ record {
      s = (write_loop fuel (n % 64) input s buf).0;
      buf = (write_loop fuel (n % 64) input s buf).1;
      bytes = u64 (n + length input);
    }
unfolding write_loop
loop-push_all zero input s buf n h l = fill input s buf n h (omega arith)
loop-push_all (suc fuel) input s buf n h l =
    let k = 64 - n % 64 in
    let full = memcpy (n % 64) (take k input) buf in
    let taken = length-take k input (omega arith) in
    let dropped = length-drop k input in
    let large : leb 64 (n % 64 + length input) ≡ true = ground arith in
    let first = complete (take k input) s buf n h (omega arith) in
    let at_block : u64 (n + length (take k input)) % 64 ≡ 0 = omega arith in
    let total : u64 (u64 (n + length (take k input)) + length (drop k input))
        ≡ u64 (n + length input) =
      omega arith in
    let rest =
      loop-push_all fuel (drop k input) (transform s full) full (u64 (n + length (take k input)))
        (omega arith) (omega arith) in
    ap (push_all (record { s = s; buf = buf; bytes = n })) (sym (take-append-drop k input))
    ∙ push_all-append (record { s = s; buf = buf; bytes = n }) (take k input) (drop k input)
    ∙ ap (λ (x : Sha256). push_all x (drop k input)) first
    ∙ rest
    ∙ rw (large, at_block, total) refl

-- Writing is writing the bytes one at a time.
pub write-push_all :
    (hash : Sha256) (input : List ℕ) → hash.bytes < 2 ^ 64 → write hash input ≡ push_all hash input
unfolding write
write-push_all hash input h =
    let place : bit_and hash.bytes 0x3F ≡ hash.bytes % 64 =
      ap (λ (x : ℕ). bit_and x 0x3F) (omega arith)
      ∙ bit_and_mask 6 (hash.bytes / 64) (hash.bytes % 64) (omega arith) in
    rw place (
      sym (
        loop-push_all ((hash.bytes % 64 + length input) / 64) input hash.s hash.buf hash.bytes h
          refl))

bytes-push_all :
    (hash : Sha256) (input : List ℕ) → hash.bytes < 2 ^ 64 → (push_all hash input).bytes < 2 ^ 64
unfolding push_all push
bytes-push_all hash [] h = h
bytes-push_all hash (b ∷ input) h = bytes-push_all (push hash b) input (omega arith)

pub write-below : (hash : Sha256) (input : List ℕ) → (write hash input).bytes < 2 ^ 64
unfolding write
write-below hash input = omega arith

-- A message may be written in pieces.
pub write-append :
    (hash : Sha256) (xs ys : List ℕ)
    → hash.bytes < 2 ^ 64
    → write (write hash xs) ys ≡ write hash (xs ++ ys)
write-append hash xs ys h =
    ap (λ (x : Sha256). write x ys) (write-push_all hash xs h)
    ∙ write-push_all (push_all hash xs) ys (bytes-push_all hash xs h)
    ∙ sym (push_all-append hash xs ys)
    ∙ sym (write-push_all hash (xs ++ ys) h)
