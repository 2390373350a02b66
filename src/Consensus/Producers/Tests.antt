-- ===== src/Consensus/Producers/Tests.antt =====
-- Three producers in a map, and the theorems on them.
use mathlib.Core.List.{Perm}
use mathlib.Core.List.Perm
use tinychain.Base.{
  ℕ, suc, ◌+◌, ◌≤◌, ◌<◌, ◌≡◌, refl, Bool, true, false, none, some, List, [], ◌∷◌, ◌++◌, map, length,
  ◌==◌, if◌then◌else◌, arith,
}
use tinychain.Consensus.Producers.{
  BlockProducer, Library, ProducersInfo, PeerPool, panics, not_yet, own, less, values, slice_to,
  get_all, get_dpos_bps, cmp, cmp_keys, ticks,
}
use tinychain.Consensus.Producers.Chosen.{Outvotes, IsSortedBy, get_dpos_bps_lem}
use tinychain.Consensus.Producers.Turns.{turn_comes, turns_run_out}

abbrev producer : ℕ → ℕ → BlockProducer
producer id votes = record { id = id; pub_key = some (id ∷ []); votes = votes }

-- A place among producers sorted by a test.
insert_producer :
    (BlockProducer → BlockProducer → Bool) → BlockProducer → List BlockProducer → List BlockProducer
insert_producer test b [] = b ∷ []
insert_producer test b (c ∷ bs) =
    let rest = insert_producer test b bs in if test c b then c ∷ rest else b ∷ c ∷ bs

sort_producers : (BlockProducer → BlockProducer → Bool) → List BlockProducer → List BlockProducer
unfolding insert_producer
sort_producers test [] = []
sort_producers test (b ∷ bs) = insert_producer test b (sort_producers test bs)

abbrev same_first : List ℕ → List ℕ → Bool
same_first (x ∷ xs) (y ∷ ys) = x == y
same_first xs ys = false

abbrev toy : Library
toy = record {
  sort = sort_producers;
  shuffle = λ bps. bps;
  capacity = λ n. n + 1;
  same_bytes = same_first;
}

abbrev info : ProducersInfo
info = record {
  all = (1, producer 1 10) ∷ (2, producer 2 30) ∷ (3, producer 3 20) ∷ [];
  round_size = 2;
}

best_two : get_dpos_bps toy info ≡ some (some (producer 2 30) ∷ some (producer 3 20) ∷ [])
unfolding get_dpos_bps get_all slice_to values sort_producers less
best_two = refl

-- One more than there are producers is within the capacity: the slice has a `nil` at its end.
nil_at_end :
    get_dpos_bps toy (record info { round_size = 4 })
    ≡ some (some (producer 2 30) ∷ some (producer 3 20) ∷ some (producer 1 10) ∷ none ∷ [])
unfolding get_dpos_bps get_all slice_to values sort_producers less
nil_at_end = refl

sorted_info :
    Perm (sort_producers less (values info.all)) (values info.all)
    × IsSortedBy less (sort_producers less (values info.all))
unfolding values sort_producers less
sorted_info = (
  Perm.trans (Perm.cons (producer 2 30) (Perm.swap (producer 1 10) (producer 3 20) []))
      (Perm.swap (producer 1 10) (producer 2 30) (producer 3 20 ∷ [])),
  (refl, (refl, tt)),
)

get_dpos_bps_lem_example :
    (chosen : List BlockProducer) × (rest : List BlockProducer) × (get_dpos_bps toy info
      ≡ some (map some chosen))
    × (length chosen ≡ 2)
    × Perm (chosen ++ rest) (values info.all)
    × Outvotes chosen rest
unfolding values
get_dpos_bps_lem_example =
    get_dpos_bps_lem toy info sorted_info.0 sorted_info.1 (λ n. omega arith) (omega arith)

-- The pool of the producer 3, with 1, 2 and 3 selected in this order.
abbrev pool : PeerPool
pool = record {
  dpos_active = true;
  bps_info = info;
  curr_ind = 0;
  bps_cache = some (map some (producer 1 10 ∷ producer 2 30 ∷ producer 3 20 ∷ []));
  self = producer 3 0;
}

turn_comes_example :
    ((k : ℕ) → k ≤ 2 → ticks toy k pool ≡ not_yet (record pool { curr_ind = k }))
    × ((n : ℕ) → ticks toy (suc (2 + n)) pool ≡ own (record pool { curr_ind = 2 }))
unfolding cmp cmp_keys
turn_comes_example =
    turn_comes toy pool (producer 1 10 ∷ producer 2 30 ∷ []) (producer 3 20) [] refl refl
      (refl, (refl, tt)) refl

abbrev stranger : PeerPool
stranger = record pool { self = producer 4 0 }

turns_run_out_example :
    (4 ≤ 3 → ticks toy 4 stranger ≡ not_yet (record stranger { curr_ind = 4 }))
    × (3 < 4 → ticks toy 4 stranger ≡ panics)
unfolding cmp cmp_keys
turns_run_out_example =
    turns_run_out toy stranger (producer 1 10 ∷ producer 2 30 ∷ producer 3 20 ∷ []) refl refl
      (refl, (refl, (refl, tt))) 4
