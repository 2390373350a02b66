-- ===== src/Consensus/Bft/Alone.antt =====
-- The votes are counted and not the voters: what one producer can do by itself.
use mathlib.Core.Path.{subst}
use tinychain.Base.{
  All, ℕ, zero, suc, ◌+◌, ◌≤◌, ◌≡◌, ◌∙◌, refl, none, true, false, some, List, [], ◌∷◌, leb, ◌==◌,
  arith,
}
use tinychain.Consensus.Bft.{
  Block, ConsensusMsg, Library, Config, Engine, Segment, propose, commit_kind, pre_commit_kind,
  quorum, is_producer, returns, waits, start_fetch, commit_fetch, commit_block, run, commit,
  commit_fetched,
}
use tinychain.Consensus.Bft.Steps.{
  System, Event, Step, Run, received, round_ends, other, settle, start, receive, commit_finds, here,
  next,
}

-- The one message, from the one peer, or a part of a handler.
abbrev pub IsRepeated : ℕ → ConsensusMsg → Event → Type 0
IsRepeated pid message (received sender sent) = (sender ≡ pid) × (sent ≡ message)
IsRepeated pid message round_ends = Unit
IsRepeated pid message other = Unit

module _ (library : Library) (config : Config) (pid : ℕ) (message : ConsensusMsg) (final : ℕ)
    (known : is_producer config.producers pid ≡ true) (second : message.kind ≡ commit_kind) where
  run-commit : (e : Engine) → run config pid message e ≡ commit config e
  unfolding run
  run-commit e =
      let not_first : (message.kind == pre_commit_kind) ≡ false = ground arith in
      let is_second : (message.kind == commit_kind) ≡ true = ground arith in
      rw (known, not_first, is_second) refl

  -- The engine after `k` votes.
  abbrev counting : ℕ → Engine
  counting k = record {
    seq_no = final + 1;
    bft_state = propose;
    pre_commit_votes = 0;
    commit_votes = k;
    receipts = [];
  }

  abbrev waiting : ℕ → System
  waiting k = record {
    engine = counting k;
    threads = start_fetch (final + 1) ∷ [];
    signal = false;
    running = true;
  }

  -- A vote, whatever the segment that the handler comes to.
  vote :
      (k : ℕ) (r : Segment)
      → commit config (counting k) ≡ r
      → Step library config
          (waiting k)
          (received pid message)
          r.1
          (settle r (start_fetch (final + 1) ∷ []) false)
  vote k r e =
      subst
        (λ r.
          Step library config (waiting k) (received pid message) r.1
            (settle r (start_fetch (final + 1) ∷ []) false))
        (run-commit (counting k) ∙ e) (receive (waiting k) pid message refl)

  few_votes :
      (k : ℕ)
      → k + 1 ≤ quorum config
      → commit config (counting k) ≡ (counting (suc k), [], returns none)
  unfolding commit
  few_votes k le =
      let few : leb (k + 1) (quorum config) ≡ true = ground arith in
      let same : k + 1 ≡ suc k = omega arith in rw (few, same) refl

  last_vote :
      commit config (counting (quorum config))
      ≡ (counting (quorum config + 1), [], waits (commit_fetch (final + 1)))
  unfolding commit
  last_vote =
      let many : leb (quorum config + 1) (quorum config) ≡ false = ground arith in rw many refl

  votes_alone :
      (k : ℕ)
      → k ≤ quorum config
      → (events : List Event) × All (IsRepeated pid message) events
        × Run library config (start final) events [] (waiting k)
  votes_alone zero le = ([], tt, here)
  votes_alone (suc k) le =
      let (events, from, r) = votes_alone k (omega arith) in
      (
        received pid message ∷ events,
        ((refl, refl), from),
        next r (vote k (counting (suc k), [], returns none) (few_votes k (omega arith))),
      )

  -- One producer that sends the same second vote again and again, a message of any height, digest, key
  -- and signature, has the block of the next height handed on to be committed, in a run in which no
  -- other message comes.
  pub lone_producer_commits :
      (block : Block)
      → block.height ≡ final + 1
      → (events : List Event) × (t : System) × All (IsRepeated pid message) events
        × Run library config (start final) events (commit_block block ∷ []) t
  unfolding commit_fetched
  lone_producer_commits block found =
      let (events, from, r) = votes_alone (quorum config) (omega arith) in
      let e = counting (quorum config + 1) in
      let voted =
        next r (vote (quorum config) (e, [], waits (commit_fetch (final + 1))) last_vote) in
      (
        other ∷ received pid message ∷ events,
        settle (commit_fetched library (some block) e) (start_fetch (final + 1) ∷ []) false,
        (tt, ((refl, refl), from)),
        next voted
            (commit_finds e [] (start_fetch (final + 1) ∷ []) false (final + 1) (some block) found),
      )
