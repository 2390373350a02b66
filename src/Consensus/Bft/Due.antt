-- ===== src/Consensus/Bft/Due.antt =====
-- What the events so far say of a handler that waits and of what is posted.
use tinychain.Base.{
  All, ℕ, ◌+◌, ◌<◌, ◌≡◌, ◌⊎◌, inl, inr, true, some, List, [], ◌∷◌, ◌==◌, ◌&&◌, if◌then◌else◌,
}
use tinychain.Consensus.Bft.{
  Block, ConsensusMsg, Library, Config, Output, Thread, pre_commit_kind, commit_kind, quorum,
  is_producer, start_fetch, pre_commit_fetch, pre_commit_exec, commit_fetch, commit_wait, multicast,
  exec_block, commit_block, drop_txs, multicast_block,
}
use tinychain.Consensus.Bft.Steps.{Event, received, round_ends, other}

-- How many messages of a kind have come from producers since the last end of a round, the latest
-- event first.
abbrev pub votes : Config → ℕ → List Event → ℕ
votes config kind [] = 0
votes config kind (received pid message ∷ events) =
    votes config kind events
    + (if is_producer config.producers pid && message.kind == kind then 1 else 0)
votes config kind (round_ends ∷ events) = 0
votes config kind (other ∷ events) = votes config kind events

-- The message of a kind, sent by a producer, with which the votes of this kind in one round came to
-- more than two thirds.
pub data Decided (config : Config) (kind : ℕ) (message : ConsensusMsg) : List Event → Type 0 where
  now :
      (pid : ℕ) (events : List Event)
      → is_producer config.producers pid ≡ true
      → message.kind ≡ kind
      → quorum config < votes config kind (received pid message ∷ events)
      → Decided config kind message (received pid message ∷ events)
  earlier :
      (event : Event) (events : List Event)
      → Decided config kind message events
      → Decided config kind message (event ∷ events)

-- A message that carries the digest of the block, signed with the key that it carries.
pub record Vouches (library : Library) (message : ConsensusMsg) (block : Block) : Type 0 where
  pub key : library.Key
  pub key_read : library.unmarshal_public_key message.pub_key ≡ some key
  pub same_digest : library.same_bytes (library.sha256 block.hash) message.digest ≡ true
  pub signed : library.verify key message.digest message.signature ≡ some true
  pub same_height : block.height ≡ message.seq_no

module _ (library : Library) (config : Config) where
  -- More than two thirds in one round, of first votes or of second votes.
  abbrev pub PreCommitted : List Event → Type 0
  PreCommitted events = (message : ConsensusMsg) × Decided config pre_commit_kind message events

  abbrev pub Committed : List Event → Type 0
  Committed events = (message : ConsensusMsg) × Decided config commit_kind message events

  -- The first vote that decided a round is for the block, by its digest.
  abbrev pub Backed : Block → List Event → Type 0
  Backed block events =
      (message : ConsensusMsg) × Decided config pre_commit_kind message events
      × Vouches library message block

  -- What is true of the events when a handler waits, and when something is posted.
  abbrev pub ThreadIsDue : List Event → Thread → Type 0
  ThreadIsDue events (start_fetch height) = Unit
  ThreadIsDue events (pre_commit_fetch height message) =
      Decided config pre_commit_kind message events × (height ≡ message.seq_no)
  ThreadIsDue events (pre_commit_exec block message) = Backed block events
  ThreadIsDue events (commit_fetch height) = Committed events
  ThreadIsDue events commit_wait = Committed events

  abbrev pub IsDue : List Event → Output → Type 0
  IsDue events (multicast message) =
      message.kind ≡ commit_kind → PreCommitted events ⊎ Committed events
  IsDue events (exec_block block) = Backed block events
  IsDue events (commit_block block) = Committed events
  IsDue events (multicast_block block) = Unit
  IsDue events drop_txs = PreCommitted events ⊎ Committed events

  either_still :
      (event : Event) (events : List Event)
      → PreCommitted events ⊎ Committed events
      → PreCommitted (event ∷ events) ⊎ Committed (event ∷ events)
  either_still event events (inl (m, d)) = inl (m, Decided.earlier event events d)
  either_still event events (inr (m, d)) = inr (m, Decided.earlier event events d)

  output_still :
      (event : Event) (events : List Event) (o : Output) → IsDue events o → IsDue (event ∷ events) o
  output_still event events (multicast message) h = λ k. either_still event events (h k)
  output_still event events (exec_block block) (m, d, v) = (m, Decided.earlier event events d, v)
  output_still event events (commit_block block) (m, d) = (m, Decided.earlier event events d)
  output_still event events (multicast_block block) h = tt
  output_still event events drop_txs h = either_still event events h

  thread_still :
      (event : Event) (events : List Event) (t : Thread)
      → ThreadIsDue events t
      → ThreadIsDue (event ∷ events) t
  thread_still event events (start_fetch height) h = tt
  thread_still event events (pre_commit_fetch height message) (d, e) =
      (Decided.earlier event events d, e)
  thread_still event events (pre_commit_exec block message) (m, d, v) =
      (m, Decided.earlier event events d, v)
  thread_still event events (commit_fetch height) (m, d) = (m, Decided.earlier event events d)
  thread_still event events commit_wait (m, d) = (m, Decided.earlier event events d)

  pub outputs_still :
      (event : Event) (events : List Event) (os : List Output)
      → All (IsDue events) os
      → All (IsDue (event ∷ events)) os
  outputs_still event events [] h = tt
  outputs_still event events (o ∷ os) h =
      (output_still event events o h.0, outputs_still event events os h.1)

  pub threads_still :
      (event : Event) (events : List Event) (ts : List Thread)
      → All (ThreadIsDue events) ts
      → All (ThreadIsDue (event ∷ events)) ts
  threads_still event events [] h = tt
  threads_still event events (t ∷ ts) h =
      (thread_still event events t h.0, threads_still event events ts h.1)
