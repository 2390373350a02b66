-- ===== src/Consensus/Bft/Safety.antt =====
-- What has to have happened before a block is executed or committed.

use mathlib.Core.Path.{subst}
use tinychain.Base.{
  All, All-append, All-split, ℕ, ◌≡◌, Bool, true, false, none, List, [], ◌∷◌, ◌++◌, arith,
}
use tinychain.Consensus.Bft.{
  Library, Config, Engine, Output, Thread, Next, Segment, pre_commit_kind, commit_kind, returns,
  waits, panics, start_fetch, pre_commit_fetch, pre_commit_exec, commit_fetch, commit_wait, run,
  set_receipts, block_sent, start_fetched, pre_commit_fetched, pre_commit_executed,
  pre_commit_timed_out, commit_fetched, commit_completed,
}
use tinychain.Consensus.Bft.Steps.{
  System, Event, Step, Run, IsOfHeight, received, round_ends, round_after, other, after, settle,
  start, receive, receipts_come, block_goes_out, start_goes_on, pre_commit_finds,
  pre_commit_goes_on, pre_commit_gives_up, commit_finds, commit_goes_on, commit_gives_up, here,
  next,
}
use tinychain.Consensus.Bft.Due.{votes, Decided, ThreadIsDue, IsDue, outputs_still, threads_still}
use tinychain.Consensus.Bft.Handlers.{
  Counted, SegmentIsDue, NextIsDue, run-SegmentIsDue, start_fetched-SegmentIsDue,
  pre_commit_fetched-SegmentIsDue, pre_commit_executed-SegmentIsDue,
  pre_commit_timed_out-SegmentIsDue, commit_fetched-SegmentIsDue, commit_completed-SegmentIsDue,
  Counted-other,
}

module _ (library : Library) (config : Config) where
  -- What holds along a run.
  record Inv (events : List Event) (outputs : List Output) (s : System) : Type 0 where
    pre_commits_heard : s.engine.pre_commit_votes ≡ votes config pre_commit_kind events
    commits_heard : s.engine.commit_votes ≡ votes config commit_kind events
    threads_due : All (ThreadIsDue library config events) s.threads
    outputs_due : All (IsDue library config events) outputs

  All-after :
      (events : List Event) (n : Next) (ts : List Thread)
      → NextIsDue library config events n
      → All (ThreadIsDue library config events) ts
      → All (ThreadIsDue library config events) (after n ts)
  All-after events (returns err) ts h hs = hs
  All-after events (waits t) ts h hs = (h, hs)
  All-after events panics ts h hs = hs

  Inv-Counted :
      {events : List Event} {outputs : List Output} {s : System}
      → Inv events outputs s
      → Counted library config events s.engine
  Inv-Counted inv = record { pre_commits = inv.pre_commits_heard; commits = inv.commits_heard }

  -- The handler that goes on, and the others, at the next event.
  split :
      (events : List Event) (before : List Thread) (t : Thread) (later : List Thread)
      → All (ThreadIsDue library config events) (before ++ (t ∷ later))
      → ThreadIsDue library config events t
        × All (ThreadIsDue library config events) (before ++ later)
  split events before t later h = All-split (ThreadIsDue library config events) before t later h

  settled :
      (events : List Event) (outputs : List Output) (r : Segment) (ts : List Thread) (signal : Bool)
      → SegmentIsDue library config events r
      → All (ThreadIsDue library config events) ts
      → All (IsDue library config events) outputs
      → Inv events (r.1 ++ outputs) (settle r ts signal)
  settled events outputs r ts signal h threads outs = record {
    pre_commits_heard = h.pre_commits;
    commits_heard = h.commits;
    threads_due = All-after events r.2 ts h.then_waits threads;
    outputs_due = All-append (IsDue library config events) r.1 outputs h.posted outs;
  }

  -- The next part of a handler that waited.
  goes_on :
      (events : List Event) (outputs : List Output) (r : Segment) (before : List Thread)
      (t : Thread) (later : List Thread) (e : Engine) (was signal : Bool) (event : Event)
      → Inv events outputs
          (record { engine = e; threads = before ++ (t ∷ later); signal = was; running = true })
      → (ThreadIsDue library config events t
          → Counted library config events e
          → SegmentIsDue library config (event ∷ events) r)
      → Inv (event ∷ events) (r.1 ++ outputs) (settle r (before ++ later) signal)
  goes_on events outputs r before t later e was signal event inv part =
      let (due, rest) = split events before t later inv.threads_due in
      settled (event ∷ events) outputs r (before ++ later) signal (part due (Inv-Counted inv))
        (threads_still library config event events (before ++ later) rest)
        (outputs_still library config event events outputs inv.outputs_due)

  -- Every step keeps it.
  Step-Inv :
      {events : List Event} {outputs : List Output} {s : System} {event : Event}
      {posted : List Output} {t : System}
      → Inv events outputs s
      → Step library config s event posted t
      → Inv (event ∷ events) (posted ++ outputs) t
  Step-Inv {events} {outputs} inv (receive s pid message on) =
      settled (received pid message ∷ events) outputs (run config pid message s.engine) s.threads
        s.signal (run-SegmentIsDue library config events pid message s.engine (Inv-Counted inv))
        (threads_still library config (received pid message) events s.threads inv.threads_due)
        (outputs_still library config (received pid message) events outputs inv.outputs_due)
  Step-Inv {events} {outputs} inv (receipts_come s height receipts free on) =
      let counts = Counted-other library config events s.engine (Inv-Counted inv) in
      record {
        pre_commits_heard = unfold set_receipts in counts.pre_commits;
        commits_heard = unfold set_receipts in counts.commits;
        threads_due = threads_still library config other events s.threads inv.threads_due;
        outputs_due = outputs_still library config other events outputs inv.outputs_due;
      }
  Step-Inv {events} {outputs} inv (block_goes_out s block on) =
      let counts = Counted-other library config events s.engine (Inv-Counted inv) in
      record {
        pre_commits_heard = unfold block_sent in counts.pre_commits;
        commits_heard = unfold block_sent in counts.commits;
        threads_due = threads_still library config other events s.threads inv.threads_due;
        outputs_due =
            unfold block_sent in
            (tt, outputs_still library config other events outputs inv.outputs_due);
      }
  Step-Inv {events} {outputs} inv (start_goes_on e before later signal height found at) =
      goes_on events outputs (start_fetched library found e) before (start_fetch height) later e
        signal signal other inv
        (λ due counts.
          start_fetched-SegmentIsDue library config (other ∷ events) found e
            (Counted-other library config events e counts))
  Step-Inv {events} {outputs} inv (pre_commit_finds e before later signal height message found at) =
      goes_on events outputs (pre_commit_fetched library message found e) before
        (pre_commit_fetch height message) later e signal signal other inv
        (λ due counts.
          pre_commit_fetched-SegmentIsDue library config (other ∷ events) message found e
            (subst (λ n. IsOfHeight n found) due.1 at) (Decided.earlier other events due.0)
            (Counted-other library config events e counts))
  Step-Inv {events} {outputs} inv (pre_commit_goes_on e before later block message valid) =
      goes_on events outputs (pre_commit_executed library block message valid e) before
        (pre_commit_exec block message) later e true false other inv
        (λ due counts.
          pre_commit_executed-SegmentIsDue library config (other ∷ events) block message valid e
            (due.0, Decided.earlier other events due.1)
            (Counted-other library config events e counts))
  Step-Inv {events} {outputs} inv (pre_commit_gives_up e before later signal block message final) =
      goes_on events outputs (pre_commit_timed_out final e) before (pre_commit_exec block message)
        later e signal signal round_ends inv
        (λ due counts.
          pre_commit_timed_out-SegmentIsDue library config events final e (due.0, due.1))
  Step-Inv {events} {outputs} inv (commit_finds e before later signal height found at) =
      goes_on events outputs (commit_fetched library found e) before (commit_fetch height) later e
        signal signal other inv
        (λ due counts.
          commit_fetched-SegmentIsDue library config (other ∷ events) found e
            (due.0, Decided.earlier other events due.1)
            (Counted-other library config events e counts))
  Step-Inv {events} {outputs} inv (commit_goes_on e before later signal block final) =
      goes_on events outputs (commit_completed library block final e) before commit_wait later e
        signal signal (round_after (commit_completed library block final e).2) inv
        (λ due counts. commit_completed-SegmentIsDue library config events block final e due counts)
  Step-Inv {events} {outputs} inv (commit_gives_up e before later signal) =
      goes_on events outputs (e, [], returns none) before commit_wait later e signal signal other
        inv
        (λ due counts. record {
          pre_commits = counts.pre_commits;
          commits = counts.commits;
          posted = tt;
          then_waits = tt;
        })

  Run-Inv :
      (final : ℕ) {events : List Event} {outputs : List Output} {t : System}
      → Run library config (start final) events outputs t
      → Inv events outputs t
  Run-Inv final here = ground arith
  Run-Inv final (next r st) = Step-Inv (Run-Inv final r) st

-- In every run from the start, whatever the order of the messages and of the waiting handlers, the two
-- counters are the votes of their kind that have come from producers since the last round ended. A
-- block is handed to the executor only after a first vote of a producer with which the first votes of
-- one round came to more than two thirds, and this vote is for the height and the digest of the block,
-- with a valid signature. A second vote is sent, and a round ended, only after the first or the second
-- votes of one round came to more than two thirds, and a block is handed on to be committed only after
-- its second votes did.
pub bft_outputs_lem :
    {library : Library} {config : Config} (final : ℕ) {events : List Event} {outputs : List Output}
    {t : System}
    → Run library config (start final) events outputs t
    → (t.engine.pre_commit_votes ≡ votes config pre_commit_kind events)
      × (t.engine.commit_votes ≡ votes config commit_kind events)
      × All (IsDue library config events) outputs
bft_outputs_lem {library} {config} final r =
    let inv = Run-Inv library config final r in
    (inv.pre_commits_heard, inv.commits_heard, inv.outputs_due)
