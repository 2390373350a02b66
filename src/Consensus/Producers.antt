-- ===== src/Consensus/Producers.antt =====
-- The producers and whose turn it is: consensus/dpos_bft/block_producers.go and peer_pool.go. The order
-- in which Go walks a map, `sort.Sort` by a test, `rand.Shuffle` and the capacity of a slice that `append` has
-- grown are those of the language and its library, a parameter. No result is a panic.
pub mod Turns
pub mod Chosen
mod Tests
use tinychain.Base.{
  ℕ, zero, suc, ◌+◌, ◌-◌, Bool, true, false, Option, none, some, List, [], ◌∷◌, ◌++◌, map, length,
  get_elem?, take, replicate, ltb, leb, ◌==◌, ◌&&◌, if◌then◌else◌,
}
use tinychain.Base.Maps.{Entries, lookup, delete, store}

-- `blockProducer`; a key is `nil` or has its bytes.
pub record BlockProducer : Type 0 where
  pub id : ℕ
  pub pub_key : Option (List ℕ)
  pub votes : ℕ

pub record Library : Type 0 where
  pub sort : (BlockProducer → BlockProducer → Bool) → List BlockProducer → List BlockProducer
  pub shuffle : List BlockProducer → List BlockProducer
  pub capacity : ℕ → ℕ
  pub same_bytes : List ℕ → List ℕ → Bool

-- `ProducersInfo`
pub record ProducersInfo : Type 0 where
  pub all : Entries BlockProducer
  pub round_size : ℕ

-- `p[i].votes > p[j].votes`
unfoldable pub less : BlockProducer → BlockProducer → Bool
less p q = ltb q.votes p.votes

-- The loop of `getAll` over the map.
unfoldable pub values : Entries BlockProducer → List BlockProducer
values [] = []
values (e ∷ m) = e.1 ∷ values m

unfoldable pub get : ProducersInfo → ℕ → Option BlockProducer
get info id = lookup info.all id

unfoldable pub add : ProducersInfo → BlockProducer → ProducersInfo
add info bp = record info { all = store info.all bp.id bp }

unfoldable pub remove : ProducersInfo → ℕ → ProducersInfo
remove info id = record info { all = delete info.all id }

unfoldable pub len : ProducersInfo → ℕ
len info = length info.all

-- `bps[:n]`: the bound is the capacity, and `nil` stands where nothing was appended.
unfoldable pub slice_to : (ℕ → ℕ) → List BlockProducer → ℕ → Option (List (Option BlockProducer))
slice_to capacity bps n =
    if leb n (capacity (length bps))
    then some (take n (map some bps ++ replicate (n - length bps) none))
    else none

-- `Cmp` of two producers.
unfoldable pub cmp_keys :
    (List ℕ → List ℕ → Bool) → Option (List ℕ) → Option (List ℕ) → Bool → Option Bool
cmp_keys same_bytes none key same_id = none
cmp_keys same_bytes (some k) none same_id = none
cmp_keys same_bytes (some k) (some l) same_id = some (same_bytes k l && same_id)

-- `peerPool`, with `bpsCache` as it is read; the shuffle does not depend on the last block.
pub record PeerPool : Type 0 where
  pub dpos_active : Bool
  pub bps_info : ProducersInfo
  pub curr_ind : ℕ
  pub bps_cache : Option (List (Option BlockProducer))
  pub self : BlockProducer

-- What `reachSelfTurn` comes to: a panic, `nil`, or the own producer, with the pool after it.
pub data Turn : Type 0 where
  panics : Turn
  not_yet : PeerPool → Turn
  own : PeerPool → Turn

module _ (library : Library) where
  unfoldable pub get_all : ProducersInfo → List BlockProducer
  get_all info = library.sort less (values info.all)

  unfoldable pub get_dpos_bps : ProducersInfo → Option (List (Option BlockProducer))
  get_dpos_bps info = slice_to library.capacity (get_all info) info.round_size

  unfoldable pub get_random_bps : ProducersInfo → Option (List (Option BlockProducer))
  get_random_bps info = slice_to library.capacity (library.shuffle (get_all info)) info.round_size

  -- The pool with a selection kept.
  unfoldable pub cached :
      PeerPool
      → Option (List (Option BlockProducer))
      → Option (PeerPool × List (Option BlockProducer))
  cached pool none = none
  cached pool (some bps) = some (record pool { curr_ind = 0; bps_cache = some bps }, bps)

  unfoldable pub select_bps : PeerPool → Option (PeerPool × List (Option BlockProducer))
  select_bps pool =
      cached pool
        (if pool.dpos_active then get_dpos_bps pool.bps_info else get_random_bps pool.bps_info)

  -- `getBPs`
  unfoldable pub get_bps : PeerPool → Option (PeerPool × List (Option BlockProducer))
  get_bps pool = elim pool.bps_cache [ some bps ↦ some (pool, bps) | none ↦ select_bps pool ]

  unfoldable pub cmp : BlockProducer → BlockProducer → Option Bool
  cmp bp p = cmp_keys library.same_bytes bp.pub_key p.pub_key (bp.id == p.id)

  -- `pl.selectBPs()` where its result is not used.
  unfoldable pub after_selection : Option (PeerPool × List (Option BlockProducer)) → Turn
  after_selection none = panics
  after_selection (some (pool, bps)) = not_yet pool

  unfoldable pub passed_on : PeerPool → ℕ → Option Bool → Turn
  passed_on pool n none = panics
  passed_on pool n (some true) = own pool
  passed_on pool n (some false) =
      let next = record pool { curr_ind = pool.curr_ind + 1 } in
      if ltb n next.curr_ind then after_selection (select_bps next) else not_yet next

  -- `bps[pl.currInd]`, out of range, `nil` or a producer.
  unfoldable pub at_turn : PeerPool → ℕ → Option (Option BlockProducer) → Turn
  at_turn pool n none = panics
  at_turn pool n (some none) = panics
  at_turn pool n (some (some bp)) = passed_on pool n (cmp bp pool.self)

  -- `reachSelfTurn`: without a selection, `producers` stays `nil` and its conversion panics.
  unfoldable pub turn_among : PeerPool → Option (List (Option BlockProducer)) → Turn
  turn_among pool none = panics
  turn_among pool (some bps) = at_turn pool (length bps) (get_elem? bps pool.curr_ind)

  unfoldable pub reach_self_turn : PeerPool → Turn
  reach_self_turn pool = turn_among pool pool.bps_cache

  -- The ticks of `proposeLoop`, with what the last of them comes to.
  unfoldable pub ticked : Turn → Turn
  ticked panics = panics
  ticked (not_yet pool) = reach_self_turn pool
  ticked (own pool) = reach_self_turn pool

  unfoldable pub ticks : ℕ → PeerPool → Turn
  ticks zero pool = not_yet pool
  ticks (suc n) pool = ticked (ticks n pool)
