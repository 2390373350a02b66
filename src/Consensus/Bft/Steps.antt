-- ===== src/Consensus/Bft/Steps.antt =====
-- The handlers of consensus/dpos_bft run together: each step is a message, a receipt, or one part of a
-- handler that has what it waited for. The other parts of the node choose the order and the answers.

use tinychain.Base.{ℕ, ◌+◌, ◌≡◌, Bool, true, false, Option, none, some, List, [], ◌∷◌, ◌++◌}
use tinychain.Consensus.Bft.{
  Block, ConsensusMsg, Library, Config, Engine, Output, Thread, Next, Segment, propose, returns,
  waits, panics, start_fetch, pre_commit_fetch, pre_commit_exec, commit_fetch, commit_wait, run,
  set_receipts, block_sent, start_fetched, pre_commit_fetched, pre_commit_executed,
  pre_commit_timed_out, commit_fetched, commit_completed,
}

-- The engine, the handlers that wait, whether `listen` waits to hand on `execCompleteChan`, and whether
-- no handler has panicked.
pub record System : Type 0 where
  pub engine : Engine
  pub threads : List Thread
  pub signal : Bool
  pub running : Bool

-- What happens, as the counters see it: a message from a peer, the end of a round, or anything else.
pub data Event : Type 0 where
  received : ℕ → ConsensusMsg → Event
  round_ends : Event
  other : Event

abbrev pub after : Next → List Thread → List Thread
after (returns err) threads = threads
after (waits t) threads = t ∷ threads
after panics threads = threads

abbrev pub runs_on : Next → Bool
runs_on (returns err) = true
runs_on (waits t) = true
runs_on panics = false

-- The rest of `commit` ends the round when it comes to `startBFT`, which waits.
abbrev pub round_after : Next → Event
round_after (returns err) = other
round_after (waits t) = round_ends
round_after panics = other

-- What the block pool answers to a height: no block in time, or a block of this height.
abbrev pub IsOfHeight : ℕ → Option Block → Type 0
IsOfHeight height none = Unit
IsOfHeight height (some block) = block.height ≡ height

-- The system after a part of a handler, with the handlers that were waiting beside it.
abbrev pub settle : Segment → List Thread → Bool → System
settle r threads signal = record {
  engine = r.0;
  threads = after r.2 threads;
  signal = signal;
  running = runs_on r.2;
}

-- `Start` of a producer: `init`, and `startBFT` waits for its block.
abbrev pub start : ℕ → System
start final = record {
  engine = record {
    seq_no = final + 1;
    bft_state = propose;
    pre_commit_votes = 0;
    commit_votes = 0;
    receipts = [];
  };
  threads = start_fetch (final + 1) ∷ [];
  signal = false;
  running = true;
}

pub data Step (library : Library) (config : Config)
    : System → Event → List Output → System → Type 1 where
  receive :
      (s : System) (pid : ℕ) (message : ConsensusMsg)
      → s.running ≡ true
      → Step library config s
          (received pid message)
          (run config pid message s.engine).1
          (settle (run config pid message s.engine) s.threads s.signal)
  -- `listen` takes receipts only when it has handed on the ones before.
  receipts_come :
      (s : System) (height receipts : ℕ)
      → s.signal ≡ false
      → s.running ≡ true
      → Step library config s other []
          (record s { engine = set_receipts height receipts s.engine; signal = true })
  -- `listen` sends a block on to the producers.
  block_goes_out :
      (s : System) (block : Block)
      → s.running ≡ true
      → Step library config s other
          (block_sent block s.engine).1
          (record s { engine = (block_sent block s.engine).0 })
  start_goes_on :
      (e : Engine) (before later : List Thread) (signal : Bool) (height : ℕ) (found : Option Block)
      → IsOfHeight height found
      → Step library config
          (record {
            engine = e;
            threads = before ++ (start_fetch height ∷ later);
            signal = signal;
            running = true;
          })
          other
          (start_fetched library found e).1
          (settle (start_fetched library found e) (before ++ later) signal)
  pre_commit_finds :
      (e : Engine) (before later : List Thread) (signal : Bool) (height : ℕ)
      (message : ConsensusMsg) (found : Option Block)
      → IsOfHeight height found
      → Step library config
          (record {
            engine = e;
            threads = before ++ (pre_commit_fetch height message ∷ later);
            signal = signal;
            running = true;
          })
          other
          (pre_commit_fetched library message found e).1
          (settle (pre_commit_fetched library message found e) (before ++ later) signal)
  pre_commit_goes_on :
      (e : Engine) (before later : List Thread) (block : Block) (message : ConsensusMsg)
      (valid : Bool)
      → Step library config
          (record {
            engine = e;
            threads = before ++ (pre_commit_exec block message ∷ later);
            signal = true;
            running = true;
          })
          other
          (pre_commit_executed library block message valid e).1
          (settle (pre_commit_executed library block message valid e) (before ++ later) false)
  pre_commit_gives_up :
      (e : Engine) (before later : List Thread) (signal : Bool) (block : Block)
      (message : ConsensusMsg) (final : ℕ)
      → Step library config
          (record {
            engine = e;
            threads = before ++ (pre_commit_exec block message ∷ later);
            signal = signal;
            running = true;
          })
          round_ends
          (pre_commit_timed_out final e).1
          (settle (pre_commit_timed_out final e) (before ++ later) signal)
  commit_finds :
      (e : Engine) (before later : List Thread) (signal : Bool) (height : ℕ) (found : Option Block)
      → IsOfHeight height found
      → Step library config
          (record {
            engine = e;
            threads = before ++ (commit_fetch height ∷ later);
            signal = signal;
            running = true;
          })
          other
          (commit_fetched library found e).1
          (settle (commit_fetched library found e) (before ++ later) signal)
  commit_goes_on :
      (e : Engine) (before later : List Thread) (signal : Bool) (block : Block) (final : ℕ)
      → Step library config
          (record {
            engine = e;
            threads = before ++ (commit_wait ∷ later);
            signal = signal;
            running = true;
          })
          (round_after (commit_completed library block final e).2)
          (commit_completed library block final e).1
          (settle (commit_completed library block final e) (before ++ later) signal)
  commit_gives_up :
      (e : Engine) (before later : List Thread) (signal : Bool)
      → Step library config
          (record {
            engine = e;
            threads = before ++ (commit_wait ∷ later);
            signal = signal;
            running = true;
          })
          other
          []
          (record { engine = e; threads = before ++ later; signal = signal; running = true })

-- A run from a system: what happened, what was posted, the latest first, and the system then.
pub data Run (library : Library) (config : Config) (s : System)
    : List Event → List Output → System → Type 1 where
  here : Run library config s [] [] s
  next :
      {events : List Event} {outputs posted : List Output} {t u : System} {event : Event}
      → Run library config s events outputs t
      → Step library config t event posted u
      → Run library config s (event ∷ events) (posted ++ outputs) u
