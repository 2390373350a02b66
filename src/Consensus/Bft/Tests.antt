-- ===== src/Consensus/Bft/Tests.antt =====
-- A round with two of three producers, and the theorems on it.

use tinychain.Base.{All, ℕ, ◌≡◌, refl, Bool, true, false, some, List, [], ◌∷◌, ◌==◌}
use tinychain.Consensus.Bft.{
  Block, ConsensusMsg, Library, Config, Engine, Thread, nil_key, gives, propose, commit_kind,
  pre_commit_kind, quorum, is_producer, run, pre_commit, pre_commit_fetched, pre_commit_checked,
  check_pre_commit, check_key, check_signature, exec_block, commit_block, start_fetch,
}
use tinychain.Consensus.Bft.Steps.{
  Event, Run, System, received, other, start, receive, pre_commit_finds, here, next,
}
use tinychain.Consensus.Bft.Due.{votes, IsDue}
use tinychain.Consensus.Bft.Safety.{bft_outputs_lem}
use tinychain.Consensus.Bft.Alone.{IsRepeated, lone_producer_commits}

abbrev same_first : List ℕ → List ℕ → Bool
same_first (x ∷ xs) (y ∷ ys) = x == y
same_first xs ys = false

-- The digest is the hash itself, and the key 5 signs with its own number.
abbrev toy : Library
toy = record {
  Key = ℕ;
  sha256 = λ n. n ∷ [];
  unmarshal_public_key = λ bytes. some 5;
  verify = λ key digest signature. some (same_first signature (key ∷ []));
  sign = λ digest. gives (5 ∷ []);
  own_key = nil_key;
  marshals = λ message. true;
  same_bytes = same_first;
}

abbrev pair : Config
pair = record { round_size = 3; producers = 7 ∷ 8 ∷ 9 ∷ [] }

abbrev block : Block
block = record { hash = 11; height = 1 }

abbrev vote_of : ℕ → ConsensusMsg
vote_of kind = record {
  kind = kind;
  seq_no = 1;
  digest = 11 ∷ [];
  pub_key = 5 ∷ [];
  signature = 5 ∷ [];
}

abbrev first_vote : ConsensusMsg
first_vote = vote_of pre_commit_kind

abbrev counted_votes : ℕ → Engine
counted_votes k = record {
  seq_no = 1;
  bft_state = propose;
  pre_commit_votes = k;
  commit_votes = 0;
  receipts = [];
}

three_votes :
    Run toy pair
      (start 0)
      (other ∷ received 9 first_vote ∷ received 8 first_vote ∷ received 7 first_vote ∷ [])
      (exec_block block ∷ [])
      (record {
        engine = counted_votes 3;
        threads = Thread.pre_commit_exec block first_vote ∷ start_fetch 1 ∷ [];
        signal = false;
        running = true;
      })
unfolding run pre_commit is_producer quorum pre_commit_fetched pre_commit_checked check_pre_commit
    check_key check_signature
three_votes =
    let init = start 0 in
    let one = next here (receive init 7 first_vote refl) in
    let two = next one (receive (record init { engine = counted_votes 1 }) 8 first_vote refl) in
    let three = next two (receive (record init { engine = counted_votes 2 }) 9 first_vote refl) in
    next three (
      pre_commit_finds (counted_votes 3) [] (start_fetch 1 ∷ []) false 1 first_vote (some block)
        refl)

bft_outputs_lem_example :
    (3
      ≡ votes pair pre_commit_kind
          (other ∷ received 9 first_vote ∷ received 8 first_vote ∷ received 7 first_vote ∷ []))
    × (0
        ≡ votes pair commit_kind
            (other ∷ received 9 first_vote ∷ received 8 first_vote ∷ received 7 first_vote ∷ []))
    × All
        (IsDue toy pair
          (other ∷ received 9 first_vote ∷ received 8 first_vote ∷ received 7 first_vote ∷ []))
        (exec_block block ∷ [])
bft_outputs_lem_example = bft_outputs_lem 0 three_votes

lone_producer_commits_example :
    (events : List Event) × (t : System) × All (IsRepeated 8 (vote_of commit_kind)) events
    × Run toy pair (start 0) events (commit_block block ∷ []) t
unfolding is_producer
lone_producer_commits_example =
    lone_producer_commits toy pair 8 (vote_of commit_kind) 0 refl refl block refl
