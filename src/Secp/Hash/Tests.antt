-- ===== src/Secp/Hash/Tests.antt =====
-- Runs of the hash functions at published test vectors, and the theorems at concrete numbers.
use tinychain.Base.{ℕ, ◌+◌, ◌*◌, ◌^◌, List, [], ◌∷◌, ◌++◌, replicate, take, ◌≡◌, refl, arith, false}
use tinychain.Secp.Hash.Macros.{rotates}
use tinychain.Secp.Hash.Words.{transform-compress}
use tinychain.Secp.Hash.Message.{write-append}
use tinychain.Secp.Hash.Standard.{compress, digest_bytes, big_endian, padded, hmac, reseed}
use tinychain.Secp.Hash.Fips.{
  digest, digest_blocks, digest_block, sum_state, block_words, message_schedule, element, all_steps,
  round_step, lower_sigma1, lower_sigma0, upper_sigma1, upper_sigma0, majority, choice, complement,
  rotr,
}
use tinychain.Secp.Hash.Fips.Laws.{sha256_lem}
use tinychain.Secp.Hash.Hmac.{hmac_initialize, hmac_write, hmac_finalize}
use tinychain.Secp.Hash.Keyed.{hmac_lem}
use tinychain.Secp.Hash.Generator.{generator_initialize}
use tinychain.Secp.Hash.Nonces.{IsGenerator, generator_initialize_lem}
use tinychain.Secp.Hash.{
  ch, maj, rotated, big_sigma0, big_sigma1, small_sigma0, small_sigma1, round, byte, load, be32,
  window, next_window,
}
use tinychain.Secp.Hash.Transform.{rounds_0, rounds_16, rounds_32, rounds_48, add_state, transform}
use tinychain.Secp.Hash.Sha256.{
  initial, initialize, memcpy, write_loop, write, store, out_bytes, sizedesc, finalize,
}

abbrev zeros : List ℕ
zeros = replicate 64 0

-- SHA-256 of "abc" starts with ba 78 16 bf.
sha256_abc : load (finalize (write (initialize zeros) (97 ∷ 98 ∷ 99 ∷ []))).0 0 ≡ 0xbf1678ba
unfolding ch maj rotated big_sigma0 big_sigma1 small_sigma0 small_sigma1 round byte load be32 window
    next_window rounds_0 rounds_16 rounds_32 rounds_48 add_state transform initialize memcpy
    write_loop write store out_bytes sizedesc finalize
sha256_abc = refl

-- So does the digest as the standard states it.
digest_abc : take 4 (digest (97 ∷ 98 ∷ 99 ∷ [])) ≡ 0xba ∷ 0x78 ∷ 0x16 ∷ 0xbf ∷ []
unfolding digest digest_blocks digest_block sum_state block_words message_schedule element all_steps
    round_step lower_sigma1 lower_sigma0 upper_sigma1 upper_sigma0 majority choice complement rotr
    digest_bytes big_endian padded
digest_abc = refl

abbrev abc : List ℕ
abc = 97 ∷ 98 ∷ 99 ∷ []

transform-compress_example : transform initial zeros ≡ compress initial zeros
transform-compress_example = transform-compress initial zeros

write-append_example :
    write (write (initialize zeros) (replicate 60 7)) (replicate 70 9)
    ≡ write (initialize zeros) (replicate 60 7 ++ replicate 70 9)
unfolding initialize
write-append_example =
    write-append (initialize zeros) (replicate 60 7) (replicate 70 9) (omega arith)

sha256_lem_example : (finalize (write (initialize zeros) abc)).0 ≡ digest abc
sha256_lem_example = sha256_lem zeros abc refl (omega arith) (omega arith)

rotates_example : rotated 2 30 (5 * 2 ^ 2 + 3) ≡ 3 * 2 ^ 30 + 5
rotates_example = rotates 2 30 5 3 refl (omega arith) (omega arith)

hmac_lem_example :
    hmac_finalize (hmac_write (hmac_initialize zeros abc) (replicate 100 1))
    ≡ hmac abc (replicate 100 1)
hmac_lem_example = hmac_lem zeros refl abc (replicate 100 1) (omega arith) (omega arith)

generator_initialize_lem_example :
    let first = reseed (replicate 32 0) (replicate 32 1) (0 ∷ abc) in
    let second = reseed first.0 first.1 (1 ∷ abc) in
    (generator_initialize zeros abc ≡ record { v = second.1; k = second.0; retry = false })
    × IsGenerator (generator_initialize zeros abc)
generator_initialize_lem_example = generator_initialize_lem zeros refl abc (omega arith)
