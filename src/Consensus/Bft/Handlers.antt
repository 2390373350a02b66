-- ===== src/Consensus/Bft/Handlers.antt =====
-- What each part of a handler posts and waits for, and why it may.
use tinychain.Base.{
  All, ℕ, ◌+◌, ◌≡◌, sym, inl, inr, refl, Bool, true, false, Option, none, some, List, ◌∷◌, leb,
  ◌==◌, arith, Bool-cases,
}
use tinychain.Base.Maps.{lookup}
use tinychain.Consensus.Bft.{
  Block, ConsensusMsg, Library, Config, Engine, Attempt, nil_key, fails, gives, BftError, Next,
  Segment, pre_commit_kind, commit_kind, quorum, is_producer, returns, waits, panics, run,
  pre_commit, commit, start_fetched, pre_commit_checked, pre_commit_fetched, pre_commit_executed,
  pre_commit_timed_out, commit_fetched, commit_completed, next_bft_round, next_start, announce,
  consensus_msg, compute_consensus_info, multicast_consensus, is_refused, check_pre_commit,
  check_key, check_signature,
}
use tinychain.Consensus.Bft.Steps.{Event, received, round_ends, other, round_after, IsOfHeight}
use tinychain.Consensus.Bft.Due.{
  votes, Decided, Vouches, PreCommitted, Committed, ThreadIsDue, IsDue,
}

module _ (library : Library) (config : Config) where
  -- The counters are the votes that have come in the round.
  pub record Counted (events : List Event) (e : Engine) : Type 0 where
    pub pre_commits : e.pre_commit_votes ≡ votes config pre_commit_kind events
    pub commits : e.commit_votes ≡ votes config commit_kind events

  abbrev pub NextIsDue : List Event → Next → Type 0
  NextIsDue events (returns err) = Unit
  NextIsDue events (waits t) = ThreadIsDue library config events t
  NextIsDue events panics = Unit

  -- What a part of a handler must give.
  pub record SegmentIsDue (events : List Event) (r : Segment) : Type 0 where
    pub pre_commits : r.0.pre_commit_votes ≡ votes config pre_commit_kind events
    pub commits : r.0.commit_votes ≡ votes config commit_kind events
    pub posted : All (IsDue library config events) r.1
    pub then_waits : NextIsDue events r.2

  check_signature_lem : (o : Option Bool) → check_signature library o ≡ none → o ≡ some true
  unfolding check_signature
  check_signature_lem none h = absurd cc
  check_signature_lem (some false) h = absurd cc
  check_signature_lem (some true) h = refl

  check_key_lem :
      (block : Block) (message : ConsensusMsg) (o : Option library.Key)
      → o ≡ library.unmarshal_public_key message.pub_key
      → block.height ≡ message.seq_no
      → check_key library block message o ≡ none
      → Vouches library message block
  unfolding check_key
  check_key_lem block message none read found h = absurd cc
  check_key_lem block message (some key) read found h =
      elim (Bool-cases (library.same_bytes (library.sha256 block.hash) message.digest)) [
        | inl same ↦ record {
          key = key;
          key_read = sym read;
          same_digest = same;
          signed =
              check_signature_lem (library.verify key message.digest message.signature)
                (rw same at h);
          same_height = found;
        }
        | inr differs ↦ let k : some BftError.digest_not_match ≡ none = rw differs at h in absurd cc
      ]

  -- No error of `checkPreCommit` means that the message vouches for the block.
  check_pre_commit_lem :
      (block : Block) (message : ConsensusMsg)
      → block.height ≡ message.seq_no
      → check_pre_commit library block message ≡ none
      → Vouches library message block
  unfolding check_pre_commit
  check_pre_commit_lem block message found h =
      check_key_lem block message (library.unmarshal_public_key message.pub_key) refl found h

  pub run-SegmentIsDue :
      (events : List Event) (pid : ℕ) (message : ConsensusMsg) (e : Engine)
      → Counted events e
      → SegmentIsDue (received pid message ∷ events) (run config pid message e)
  unfolding run pre_commit commit
  run-SegmentIsDue events pid message e h = elim (Bool-cases (is_producer config.producers pid)) [
    | inr stranger ↦ rw stranger (ground (arith, h))
    | inl known ↦ elim (Bool-cases (message.kind == pre_commit_kind)) [
      | inl first ↦ elim (Bool-cases (leb (e.pre_commit_votes + 1) (quorum config))) [
        | inl few ↦ rw (known, first, few) (ground (arith, h))
        | inr many ↦
            let one_more : votes config pre_commit_kind (received pid message ∷ events)
                ≡ e.pre_commit_votes + 1 =
              rw (known, first) (ground (arith, h.pre_commits)) in
            let kind : message.kind ≡ pre_commit_kind = ground (arith, first) in
            let vote : Decided config pre_commit_kind message (received pid message ∷ events) =
              Decided.now pid events known kind (ground (arith, many, one_more)) in
            rw (known, first, many) (ground (arith, h, vote))
      ]
      | inr k ↦ elim (Bool-cases (message.kind == commit_kind)) [
        | inl second ↦ elim (Bool-cases (leb (e.commit_votes + 1) (quorum config))) [
          | inl few ↦ rw (known, k, second, few) (ground (arith, h))
          | inr many ↦
              let one_more : votes config commit_kind (received pid message ∷ events)
                  ≡ e.commit_votes + 1 =
                rw (known, second) (ground (arith, h.commits)) in
              let kind : message.kind ≡ commit_kind = ground (arith, second) in
              let vote : Decided config commit_kind message (received pid message ∷ events) =
                Decided.now pid events known kind (ground (arith, many, one_more)) in
              rw (known, k, second, many)
                (record {
                  pre_commits = ground (arith, h);
                  commits = ground (arith, h);
                  posted = tt;
                  then_waits = (message, vote);
                })
        ]
        | inr unknown ↦ rw (known, k, unknown) (ground (arith, h))
      ]
    ]
  ]

  announce-SegmentIsDue :
      (events : List Event) (kind seq_no : ℕ) (block : Block) (o p : Attempt (List ℕ)) (e : Engine)
      → (kind ≡ commit_kind → PreCommitted library config events)
      → Counted events e
      → SegmentIsDue events (announce library kind (consensus_msg library kind seq_no block o p) e)
  unfolding announce consensus_msg multicast_consensus
  announce-SegmentIsDue events kind seq_no block nil_key p e due h = ground (arith, h)
  announce-SegmentIsDue events kind seq_no block fails p e due h = ground (arith, h)
  announce-SegmentIsDue events kind seq_no block (gives x) nil_key e due h = ground (arith, h)
  announce-SegmentIsDue events kind seq_no block (gives x) fails e due h = ground (arith, h)
  announce-SegmentIsDue events kind seq_no block (gives x) (gives y) e due h =
      let message : ConsensusMsg = record {
        kind = kind;
        seq_no = seq_no;
        digest = library.sha256 block.hash;
        pub_key = y;
        signature = x;
      } in
      elim (Bool-cases (library.marshals message)) [
        | inl sent ↦ rw sent (record {
          pre_commits = h.pre_commits;
          commits = h.commits;
          posted = ((λ k. inl (due k)), tt);
          then_waits = tt;
        })
        | inr lost ↦ rw lost (record {
          pre_commits = h.pre_commits;
          commits = h.commits;
          posted = tt;
          then_waits = tt;
        })
      ]

  pub start_fetched-SegmentIsDue :
      (events : List Event) (o : Option Block) (e : Engine)
      → Counted events e
      → SegmentIsDue events (start_fetched library o e)
  unfolding start_fetched compute_consensus_info
  start_fetched-SegmentIsDue events none e h = ground (arith, h)
  start_fetched-SegmentIsDue events (some block) e h =
      announce-SegmentIsDue events pre_commit_kind e.seq_no block
        (library.sign (library.sha256 block.hash)) library.own_key e (λ k. absurd (omega arith)) h

  pre_commit_checked-SegmentIsDue :
      (events : List Event) (message : ConsensusMsg) (block : Block) (o : Option BftError)
      (e : Engine)
      → check_pre_commit library block message ≡ o
      → block.height ≡ message.seq_no
      → Decided config pre_commit_kind message events
      → Counted events e
      → SegmentIsDue events (pre_commit_checked library message block o e)
  unfolding pre_commit_checked
  pre_commit_checked-SegmentIsDue events message block (some err) e c found d h = ground (arith, h)
  pre_commit_checked-SegmentIsDue events message block none e passed found d h =
      let vouches = check_pre_commit_lem block message found passed in
      record {
        pre_commits = h.pre_commits;
        commits = h.commits;
        posted = ((message, d, vouches), tt);
        then_waits = (message, d, vouches);
      }

  pub pre_commit_fetched-SegmentIsDue :
      (events : List Event) (message : ConsensusMsg) (o : Option Block) (e : Engine)
      → IsOfHeight message.seq_no o
      → Decided config pre_commit_kind message events
      → Counted events e
      → SegmentIsDue events (pre_commit_fetched library message o e)
  unfolding pre_commit_fetched
  pre_commit_fetched-SegmentIsDue events message none e found d h = ground (arith, h)
  pre_commit_fetched-SegmentIsDue events message (some block) e found d h =
      pre_commit_checked-SegmentIsDue events message block (check_pre_commit library block message)
        e refl found d h

  pub pre_commit_executed-SegmentIsDue :
      (events : List Event) (block : Block) (message : ConsensusMsg) (valid : Bool) (e : Engine)
      → PreCommitted library config events
      → Counted events e
      → SegmentIsDue events (pre_commit_executed library block message valid e)
  unfolding pre_commit_executed compute_consensus_info
  pre_commit_executed-SegmentIsDue events block message valid e p h =
      elim (Bool-cases (is_refused (lookup e.receipts message.seq_no) valid)) [
        | inl refused ↦ rw refused (record {
          pre_commits = h.pre_commits;
          commits = h.commits;
          posted = tt;
          then_waits = tt;
        })
        | inr passed ↦ rw passed (
            announce-SegmentIsDue events commit_kind e.seq_no block
              (library.sign (library.sha256 block.hash)) library.own_key e (λ k. p) h)
      ]

  pub pre_commit_timed_out-SegmentIsDue :
      (events : List Event) (final : ℕ) (e : Engine)
      → PreCommitted library config events
      → SegmentIsDue (round_ends ∷ events) (pre_commit_timed_out final e)
  unfolding pre_commit_timed_out next_bft_round
  pre_commit_timed_out-SegmentIsDue events final e (m, d) = record {
    pre_commits = refl;
    commits = refl;
    posted = (inl (m, Decided.earlier round_ends events d), tt);
    then_waits = tt;
  }

  pub commit_fetched-SegmentIsDue :
      (events : List Event) (o : Option Block) (e : Engine)
      → Committed library config events
      → Counted events e
      → SegmentIsDue events (commit_fetched library o e)
  unfolding commit_fetched
  commit_fetched-SegmentIsDue events none e c h = ground (arith, h)
  commit_fetched-SegmentIsDue events (some block) e c h = ground (arith, h)

  next_start-SegmentIsDue :
      (events : List Event) (final : ℕ) (o : Attempt ConsensusMsg) (e : Engine)
      → Committed library config events
      → Counted events e
      → SegmentIsDue
          (round_after (next_start library final o e).2 ∷ events)
          (next_start library final o e)
  unfolding next_start next_bft_round
  next_start-SegmentIsDue events final nil_key e c h = ground (arith, h)
  next_start-SegmentIsDue events final fails e c h = ground (arith, h)
  next_start-SegmentIsDue events final (gives message) e (m, d) h =
      elim (Bool-cases (library.marshals message)) [
        | inl sent ↦
            let c : Committed library config (round_ends ∷ events) =
              (m, Decided.earlier round_ends events d) in
            rw sent (record {
              pre_commits = refl;
              commits = refl;
              posted = ((λ k. inr c), (inr c, tt));
              then_waits = tt;
            })
        | inr lost ↦ rw lost (record {
          pre_commits = h.pre_commits;
          commits = h.commits;
          posted = tt;
          then_waits = tt;
        })
      ]

  pub commit_completed-SegmentIsDue :
      (events : List Event) (block : Block) (final : ℕ) (e : Engine)
      → Committed library config events
      → Counted events e
      → SegmentIsDue
          (round_after (commit_completed library block final e).2 ∷ events)
          (commit_completed library block final e)
  unfolding commit_completed
  commit_completed-SegmentIsDue events block final e c h =
      elim (Bool-cases (block.height == e.seq_no)) [
        | inl same ↦ rw same (
            next_start-SegmentIsDue events final
              (compute_consensus_info library commit_kind e.seq_no block) e c h)
        | inr differs ↦ rw differs (record {
          pre_commits = h.pre_commits;
          commits = h.commits;
          posted = tt;
          then_waits = tt;
        })
      ]

  pub Counted-other :
      (events : List Event) (e : Engine) → Counted events e → Counted (other ∷ events) e
  Counted-other events e h = record { pre_commits = h.pre_commits; commits = h.commits }
