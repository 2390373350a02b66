-- ===== src/Consensus/Producers/Turns.antt =====
-- When the turn comes round: `reachSelfTurn` at each tick of `proposeLoop`.
use tinychain.Base.{
  ℕ, zero, suc, ◌+◌, ◌-◌, ◌≤◌, ◌<◌, ◌≡◌, refl, ◌∙◌, ap, true, false, Option, none, some, List, [],
  ◌∷◌, ◌++◌, map, length, length-map, length-append, get_elem?, ltb, arith, append-nil,
}
use tinychain.Consensus.Producers.{
  BlockProducer, Library, PeerPool, Turn, panics, not_yet, own, cmp, passed_on, at_turn, turn_among,
  reach_self_turn, ticked, ticks,
}

-- Producers that are compared with the own one, and differ.
abbrev pub AllDiffer : Library → BlockProducer → List BlockProducer → Type 0
AllDiffer library self [] = Unit
AllDiffer library self (bp ∷ bps) = (cmp library bp self ≡ some false) × AllDiffer library self bps

-- The element at a place before the end.
nth :
    (library : Library) (self : BlockProducer) (before later : List BlockProducer) (k : ℕ)
    → k < length before
    → AllDiffer library self before
    → (bp : BlockProducer) × (get_elem? (map some (before ++ later)) k ≡ some (some bp))
      × (cmp library bp self ≡ some false)
nth library self [] later k lt h = absurd (omega arith)
nth library self (bp ∷ before) later zero lt h = (bp, refl, h.0)
nth library self (bp ∷ before) later (suc k) lt h =
    nth library self before later k (omega arith) h.1

nth_here :
    (before : List BlockProducer) (bp : BlockProducer) (later : List BlockProducer)
    → get_elem? (map some (before ++ (bp ∷ later))) (length before) ≡ some (some bp)
nth_here [] bp later = refl
nth_here (x ∷ before) bp later = nth_here before bp later

nth_end : (bps : List BlockProducer) → get_elem? (map some bps) (length bps) ≡ none
nth_end [] = refl
nth_end (x ∷ bps) = nth_end bps

module _ (library : Library) (pool : PeerPool) (before later : List BlockProducer)
    (cache : pool.bps_cache ≡ some (map some (before ++ later))) (first : pool.curr_ind ≡ 0)
    (differ : AllDiffer library pool.self before) where
  abbrev at : ℕ → PeerPool
  at k = record pool { curr_ind = k }

  one_turn :
      (k : ℕ) (o : Option (Option BlockProducer))
      → get_elem? (map some (before ++ later)) k ≡ o
      → reach_self_turn library (at k)
        ≡ at_turn library (at k) (length (map some (before ++ later))) o
  unfolding reach_self_turn turn_among
  one_turn k o e = rw (cache, e) refl

  passes : (k : ℕ) → k < length before → reach_self_turn library (at k) ≡ not_yet (at (suc k))
  unfolding at_turn passed_on
  passes k lt =
      let (bp, e, d) = nth library pool.self before later k lt differ in
      let short : ltb (length (map some (before ++ later))) (k + 1) ≡ false =
        ground (arith, length-map some (before ++ later), length-append before later) in
      let same : k + 1 ≡ suc k = omega arith in
      one_turn k (some (some bp)) e ∙ rw (d, short, same) refl

  -- As many ticks as producers differ.
  pub ticks_pass : (k : ℕ) → k ≤ length before → ticks library k pool ≡ not_yet (at k)
  unfolding ticks ticked
  ticks_pass zero le = ap not_yet (λ i. record pool { curr_ind = first i })
  ticks_pass (suc k) le = rw (ticks_pass k (omega arith)) (passes k (omega arith))

-- From a tick on, the same thing at every tick.
stays :
    (library : Library) (pool : PeerPool) (k : ℕ) (r : Turn)
    → ticked library r ≡ r
    → ticks library (suc k) pool ≡ r
    → (n : ℕ) → ticks library (suc (k + n)) pool ≡ r
unfolding ticks
stays library pool k r again e zero = let same : k + 0 ≡ k = omega arith in rw same e
stays library pool k r again e (suc n) =
    let same : k + suc n ≡ suc (k + n) = omega arith in
    rw (same, stays library pool k r again e n) again

-- With a selection kept and the index at 0: when the producers before the own one are compared and
-- differ, each of as many ticks passes a turn on, and from the next tick on, at every tick, it is the
-- own turn; the index stays.
pub turn_comes :
    (library : Library) (pool : PeerPool) (before : List BlockProducer) (bp : BlockProducer)
    (later : List BlockProducer)
    → pool.bps_cache ≡ some (map some (before ++ (bp ∷ later)))
    → pool.curr_ind ≡ 0
    → AllDiffer library pool.self before
    → cmp library bp pool.self ≡ some true
    → ((k : ℕ) → k ≤ length before → ticks library k pool ≡ not_yet (record pool { curr_ind = k }))
      × ((n : ℕ)
          → ticks library (suc (length before + n)) pool
            ≡ own (record pool { curr_ind = length before }))
unfolding ticks ticked at_turn passed_on
turn_comes library pool before bp later cache first differ same =
    let p : PeerPool = record pool { curr_ind = length before } in
    let mine : reach_self_turn library p ≡ own p =
      one_turn library pool before (bp ∷ later) cache first differ (length before) (some (some bp))
        (nth_here before bp later)
      ∙ rw same refl in
    let passed = ticks_pass library pool before (bp ∷ later) cache first differ in
    let next = ap (ticked library) (passed (length before) (omega arith)) ∙ mine in
    (passed, λ n. stays library pool (length before) (own p) mine next n)

-- When no producer of the selection is the own one and all can be compared, the ticks pass to the end
-- of the selection, and the one after it panics, the index being out of range.
pub turns_run_out :
    (library : Library) (pool : PeerPool) (bps : List BlockProducer)
    → pool.bps_cache ≡ some (map some bps)
    → pool.curr_ind ≡ 0
    → AllDiffer library pool.self bps
    → (n : ℕ)
    → (n ≤ length bps → ticks library n pool ≡ not_yet (record pool { curr_ind = n }))
      × (length bps < n → ticks library n pool ≡ panics)
unfolding ticks ticked at_turn
turns_run_out library pool bps cache first differ n =
    let whole : pool.bps_cache ≡ some (map some (bps ++ [])) = rw append-nil cache in
    let p : PeerPool = record pool { curr_ind = length bps } in
    let passed = ticks_pass library pool bps [] whole first differ in
    let missing : get_elem? (map some (bps ++ [])) (length bps) ≡ none =
      rw append-nil (nth_end bps) in
    let over : reach_self_turn library p ≡ panics =
      one_turn library pool bps [] whole first differ (length bps) none missing in
    (
      passed n,
      λ lt.
          let m : n ≡ suc (length bps + (n - suc (length bps))) = omega arith in
          rw m (
            stays library pool (length bps) panics refl
              (ap (ticked library) (passed (length bps) (omega arith)) ∙ over)
              (n - suc (length bps))),
    )
