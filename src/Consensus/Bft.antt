-- ===== src/Consensus/Bft.antt =====
-- The votes on a block: consensus/dpos_bft/bft.go, and the state of engine.go that its handlers share.
-- A handler runs in a goroutine of its own and stops where it waits for another part of the node; it
-- is a function for each part between two waits, with what it waits for as an argument; a panic in one
-- stops the node. Keys,
-- signatures, hashes and the encoding are those of libraries, a parameter. A vote counter does not
-- reach the bound of an `int`, and one part of a handler is not interleaved with another.
pub mod Steps
pub mod Due
pub mod Handlers
pub mod Safety
pub mod Alone
mod Tests
use tinychain.Base.{
  ℕ, ◌+◌, ◌*◌, ◌/◌, ◌≡◌, Bool, true, false, Option, none, some, List, [], ◌∷◌, ◌++◌, leb, ◌==◌,
  if◌then◌else◌, not, ◌||◌,
}
use tinychain.Base.Maps.{Entries, lookup, delete, store}

-- The fields of `types.Block` that the handlers read.
pub record Block : Type 0 where
  pub hash : ℕ
  pub height : ℕ

-- `msg.ConsensusMsg`
pub record ConsensusMsg : Type 0 where
  pub kind : ℕ
  pub seq_no : ℕ
  pub digest : List ℕ
  pub pub_key : List ℕ
  pub signature : List ℕ

abbrev pub propose : ℕ
propose = 0

abbrev pub pre_commit_kind : ℕ
pre_commit_kind = 1

abbrev pub commit_kind : ℕ
commit_kind = 2

-- A method of a key of `Self()`: the key is `nil`, on which the call panics, or it fails, or it gives
-- its result.
pub data Attempt {ℓ} (A : Type ℓ) : Type ℓ where
  nil_key : Attempt A
  fails : Attempt A
  gives : A → Attempt A

-- `Sha256` of the bytes of a hash, `UnmarshalPublicKey`, `Verify`, the own keys' `Sign` and `Bytes`, and
-- whether `Marshal` succeeds; no result is an error. `same_bytes` is `bytes.Compare` giving 0.
pub record Library : Type 1 where
  pub Key : Type 0
  pub sha256 : ℕ → List ℕ
  pub unmarshal_public_key : List ℕ → Option Key
  pub verify : Key → List ℕ → List ℕ → Option Bool
  pub sign : List ℕ → Attempt (List ℕ)
  pub own_key : Attempt (List ℕ)
  pub marshals : ConsensusMsg → Bool
  pub same_bytes : List ℕ → List ℕ → Bool

-- `config.RoundSize`, and the peers that `getBPs` gives.
pub record Config : Type 0 where
  pub round_size : ℕ
  pub producers : List ℕ

-- The fields of `Engine` that the handlers write; `sync.Map` is a map from heights.
pub record Engine : Type 0 where
  pub seq_no : ℕ
  pub bft_state : ℕ
  pub pre_commit_votes : ℕ
  pub commit_votes : ℕ
  pub receipts : Entries ℕ

pub data BftError : Type 0 where
  peer_id_not_found : BftError
  unknown_type : BftError
  digest_not_match : BftError
  signature_invalid : BftError
  process_block_timeout : BftError
  commit_timeout : BftError
  commit_height_differs : BftError
  state_invalid : BftError
  fetch_timeout : BftError
  library_error : BftError

-- What is posted: messages to the producers, blocks to the executor, and `Drop` of the pool.
pub data Output : Type 0 where
  multicast : ConsensusMsg → Output
  exec_block : Block → Output
  commit_block : Block → Output
  drop_txs : Output
  multicast_block : Block → Output

-- Where a handler waits: `fetchBlockLoop` for a height, or a channel.
pub data Thread : Type 0 where
  start_fetch : ℕ → Thread
  pre_commit_fetch : ℕ → ConsensusMsg → Thread
  pre_commit_exec : Block → ConsensusMsg → Thread
  commit_fetch : ℕ → Thread
  commit_wait : Thread

-- How a part of a handler ends: it returns, it waits, or it panics and the node stops.
pub data Next : Type 0 where
  returns : Option BftError → Next
  waits : Thread → Next
  panics : Next

abbrev pub Segment : Type 0
Segment = Engine × List Output × Next

-- Whether more than two thirds of a round are not reached: `votes <= RoundSize*2/3`.
unfoldable pub quorum : Config → ℕ
quorum config = config.round_size * 2 / 3

-- The loop of `Run` over the producers.
unfoldable pub is_producer : List ℕ → ℕ → Bool
is_producer [] pid = false
is_producer (bp ∷ bps) pid = (bp == pid) || is_producer bps pid

-- `preCommit`, up to `fetchBlockLoop`
unfoldable pub pre_commit : Config → ConsensusMsg → Engine → Segment
pre_commit config message e =
    let votes = e.pre_commit_votes + 1 in
    (
      record e { pre_commit_votes = votes },
      [],
      if leb votes (quorum config)
          then returns none
          else waits (pre_commit_fetch message.seq_no message),
    )

-- `commit`, up to `fetchBlockLoop`
unfoldable pub commit : Config → Engine → Segment
commit config e =
    let votes = e.commit_votes + 1 in
    (
      record e { commit_votes = votes },
      [],
      if leb votes (quorum config) then returns none else waits (commit_fetch e.seq_no),
    )

-- `Run`, on a message that is decoded
unfoldable pub run : Config → ℕ → ConsensusMsg → Engine → Segment
run config pid message e =
    if not (is_producer config.producers pid)
    then (e, [], returns (some BftError.peer_id_not_found))
    else (if message.kind == pre_commit_kind
        then pre_commit config message e
        else (if message.kind == commit_kind
            then commit config e
            else (e, [], returns (some BftError.unknown_type))))

-- `init` at the next round, with the height of the last final block
unfoldable pub next_bft_round : ℕ → Engine → Engine
next_bft_round final e = record e {
  seq_no = final + 1;
  bft_state = propose;
  pre_commit_votes = 0;
  commit_votes = 0;
  receipts = delete e.receipts e.seq_no;
}

-- `setReceipts`
unfoldable pub set_receipts : ℕ → ℕ → Engine → Engine
set_receipts height receipts e = record e { receipts = store e.receipts height receipts }

-- `multicast` of a block that is new or proposed, once it is serialized
unfoldable pub block_sent : Block → Engine → Engine × List Output
block_sent block e = (record e { bft_state = pre_commit_kind }, multicast_block block ∷ [])

-- Whether receipts are found and `ValidateState`, which answers `valid`, refuses the block.
unfoldable pub is_refused : Option ℕ → Bool → Bool
is_refused none valid = false
is_refused (some receipts) valid = not valid

module _ (library : Library) where
  unfoldable pub check_signature : Option Bool → Option BftError
  check_signature none = some BftError.library_error
  check_signature (some false) = some BftError.signature_invalid
  check_signature (some true) = none

  unfoldable pub check_key : Block → ConsensusMsg → Option library.Key → Option BftError
  check_key block message none = some BftError.library_error
  check_key block message (some key) =
      if not (library.same_bytes (library.sha256 block.hash) message.digest)
      then some BftError.digest_not_match
      else check_signature (library.verify key message.digest message.signature)

  -- `checkPreCommit`; no result is a `nil` error.
  unfoldable pub check_pre_commit : Block → ConsensusMsg → Option BftError
  check_pre_commit block message =
      check_key block message (library.unmarshal_public_key message.pub_key)

  -- `multicastConsensus`
  unfoldable pub multicast_consensus : ConsensusMsg → Engine → Segment
  multicast_consensus message e =
      if library.marshals message
      then (e, multicast message ∷ [], returns none)
      else (e, [], returns (some BftError.library_error))

  -- `computeConsensusInfo`, as the message of the given kind that is made of it
  unfoldable pub consensus_msg :
      ℕ → ℕ → Block → Attempt (List ℕ) → Attempt (List ℕ) → Attempt ConsensusMsg
  consensus_msg kind seq_no block nil_key key = nil_key
  consensus_msg kind seq_no block fails key = fails
  consensus_msg kind seq_no block (gives signature) nil_key = nil_key
  consensus_msg kind seq_no block (gives signature) fails = fails
  consensus_msg kind seq_no block (gives signature) (gives key) = gives (record {
    kind = kind;
    seq_no = seq_no;
    digest = library.sha256 block.hash;
    pub_key = key;
    signature = signature;
  })

  unfoldable pub compute_consensus_info : ℕ → ℕ → Block → Attempt ConsensusMsg
  compute_consensus_info kind seq_no block =
      consensus_msg kind seq_no block (library.sign (library.sha256 block.hash)) library.own_key

  -- The store of the period, and the message.
  unfoldable pub announce : ℕ → Attempt ConsensusMsg → Engine → Segment
  announce kind nil_key e = (e, [], panics)
  announce kind fails e = (e, [], returns (some BftError.library_error))
  announce kind (gives message) e = multicast_consensus message (record e { bft_state = kind })

  -- `startBFT`, after `fetchBlockLoop`
  unfoldable pub start_fetched : Option Block → Engine → Segment
  start_fetched none e = (e, [], returns (some BftError.fetch_timeout))
  start_fetched (some block) e =
      announce pre_commit_kind (compute_consensus_info pre_commit_kind e.seq_no block) e

  -- `preCommit`, after `checkPreCommit`
  unfoldable pub pre_commit_checked : ConsensusMsg → Block → Option BftError → Engine → Segment
  pre_commit_checked message block (some err) e = (e, [], returns (some err))
  pre_commit_checked message block none e =
      (e, exec_block block ∷ [], waits (pre_commit_exec block message))

  -- `preCommit`, after `fetchBlockLoop`
  unfoldable pub pre_commit_fetched : ConsensusMsg → Option Block → Engine → Segment
  pre_commit_fetched message none e = (e, [], returns (some BftError.fetch_timeout))
  pre_commit_fetched message (some block) e =
      pre_commit_checked message block (check_pre_commit block message) e

  -- `preCommit`, after `execCompleteChan`
  unfoldable pub pre_commit_executed : Block → ConsensusMsg → Bool → Engine → Segment
  pre_commit_executed block message valid e =
      if is_refused (lookup e.receipts message.seq_no) valid
      then (e, [], returns (some BftError.state_invalid))
      else announce commit_kind (compute_consensus_info commit_kind e.seq_no block) e

  -- `commit`, after `fetchBlockLoop`
  unfoldable pub commit_fetched : Option Block → Engine → Segment
  commit_fetched none e = (e, [], returns (some BftError.fetch_timeout))
  commit_fetched (some block) e = (e, commit_block block ∷ [], waits commit_wait)

  -- The rest of `commit`: the next round, at which `startBFT` waits for its block.
  unfoldable pub next_start : ℕ → Attempt ConsensusMsg → Engine → Segment
  next_start final nil_key e = (e, [], panics)
  next_start final fails e = (e, [], returns (some BftError.library_error))
  next_start final (gives message) e =
      if library.marshals message
      then (
        next_bft_round final e,
        multicast message ∷ drop_txs ∷ [],
        waits (start_fetch (next_bft_round final e).seq_no),
      )
      else (e, [], returns (some BftError.library_error))

  -- `commit`, after `commitCompleteSub`
  unfoldable pub commit_completed : Block → ℕ → Engine → Segment
  commit_completed block final e =
      if not (block.height == e.seq_no)
      then (e, [], returns (some BftError.commit_height_differs))
      else next_start final (compute_consensus_info commit_kind e.seq_no block) e

-- `preCommit`, at its timeout
unfoldable pub pre_commit_timed_out : ℕ → Engine → Segment
pre_commit_timed_out final e =
    (next_bft_round final e, drop_txs ∷ [], returns (some BftError.process_block_timeout))
