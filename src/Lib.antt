-- ===== src/Lib.antt =====
-- tinychain is a blockchain node in Go: transactions and blocks come in from the network and wait in
-- pools, a consensus engine proposes blocks, an executor checks and runs them on a state kept in a
-- bucket Merkle tree. Its virtual machine is a copy of that of go-ethereum, whose signatures rest on
-- the C library libsecp256k1 that the repository bundles. This library models the arithmetic of the
-- C code and the first parts of the Go code.
--
-- libsecp256k1, below core/vm/evm/crypto/secp256k1/libsecp256k1/src:
-- * Secp.Field models field_5x52_impl.h: `Fe` is `secp256k1_fe`, each function keeps its name without
--   the prefix `secp256k1_fe_`. Secp.Field.Value gives the number that the limbs stand for and the
--   predicates of `secp256k1_fe_verify`; Carry, Normalize, Zero, Linear and Equal are about what the
--   operations do to it. Secp.Field.Storage has the packed form, the comparison and `cmov`.
-- * Secp.Field.Product models field_5x52_int128_impl.h: the sums of products of limbs (`mul_sums`,
--   `sqr_sums`) and the one way in which both functions fold them (`fold_upper`, `fold_lower`).
-- * Secp.Field.Chain models the addition chains of field_impl.h.
-- * Secp.Scalar models scalar_4x64_impl.h, Secp.Scalar.Accumulator its macros, Secp.Scalar.Product its
--   products and reductions, Secp.Scalar.Bytes its bytes, and Secp.Scalar.Inverse the chain of
--   scalar_impl.h. The helper `settle` is the final reduction that `add`, `set_b32` and `reduce_512`
--   share.
-- * Secp.Field32 models field_10x26_impl.h, limbs of 32 bits of which 26 are used, without its products
--   and its bytes.
-- * Secp.Scalar32 models scalar_8x32_impl.h in the same way, limbs of 32 bits and accumulators of 64;
--   Secp.Scalar32.Shifts has the conditional operations and the shifts. Secp.Residues is the
--   interface of scalar.h that the two limb sizes fill, with formulas over it.
-- * Secp.Hash models hash_impl.h: its macros and the schedule of words, Secp.Hash.Transform the 64
--   rounds, Secp.Hash.Sha256 the buffer, the padding and the result, Secp.Hash.Hmac the keyed hash and
--   Secp.Hash.Generator the nonces of RFC 6979. Secp.Hash.Standard states the hash over
--   lists with the macros of the code, and RFC 2104 and RFC 6979 over it; Secp.Hash.Fips states FIPS 180-4
--   without the code. The machine is little-endian. The loop of `write` runs as many rounds as blocks
--   are filled, that of `generate` as many as 32 bytes fit in what is asked for, rounded up.
-- * Secp.Ecdsa models the DER functions of ecdsa_impl.h. A pointer and its end are the list of the
--   bytes left, and a read past the end is a result of its own.
-- The words wrap at their width: a limb is taken modulo 2 ^ 64, an accumulator modulo 2 ^ 128. The
-- portable C is modelled, in both limb sizes; the assembly, the products of the field in 26-bit
-- limbs, the group and the checks of a VERIFY build are not.
--
-- The Go code:
-- * Txpool.TxList models core/txpool/tx_list.go. The map is `nil` or the list of its entries
--   (Base.Maps); a panic on a `nil` map is no result. The loop of `Ready` runs on as many rounds of
--   fuel as there are entries, and one more: each round but the last finds an entry that no later
--   round asks for. `All` and its cache, and the locks, are not modelled.
-- * Executor models core/executor/gasPool.go and the header checks of
--   core/executor/validator_block.go; the chain is a parameter, the two questions that are asked of it.
--   Executor.Validate models core/executor/validator_tx.go: the keys, the hash and the size of a
--   transaction come from libraries and are a parameter, the accounts are the nonce and balance that
--   the state answers. A panic on a `nil` value or balance is a verdict of its own.
--   Executor.Transition models core/executor/state_transition.go over State, with the virtual machine as
--   a parameter.
-- * Pow models the difficulty of consensus/pow/utils.go; a division by 0 is no result.
-- * Consensus.Bft models consensus/dpos_bft/bft.go with the state of engine.go: each part of a handler
--   between two waits is a function, and Consensus.Bft.Steps is the relation of the steps, in which the
--   order of the messages, the blocks found, the timeouts and the verdicts on a state are free, a block found has
--   the height asked for, and a panic ends the run.
--   Consensus.Producers models block_producers.go and peer_pool.go.
-- * State models core/state/statedb.go, journal.go and state_obj.go: objects and `big.Int`s stand in
--   stores under the numbers of their pointers, so that what two places share is changed for both.
--   State.Touched, Shows and Undo say what one change does and how its entry takes it back.
-- The pools, the tree, the other consensus engines, the network and the RPC layer are not
-- modelled.
--
-- Base passes on the names that all modules share, and holds machine words (Words), tests on numbers
-- (Tests), the laws of bit operations (Bits), maps (Maps), lists (Lists) and the integers of `big.Int`
-- (Integers). The modules called Tests hold runs on concrete data and the theorems applied to it.
pub mod Base
pub mod Secp
pub mod Txpool
pub mod Executor
pub mod Pow
pub mod Consensus
pub mod State
