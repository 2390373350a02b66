-- ===== src/Txpool/TxList/Tests.antt =====
-- Runs on a small list, and the theorems on it.
use tinychain.Base.{
  ℕ, ◌+◌, ◌-◌, ◌^◌, ◌≤◌, ◌<◌, ◌≡◌, ◌⊎◌, refl, true, false, ◌&&◌, none, some, List, [], ◌∷◌, length,
  ltb, leb, if◌then◌else◌, arith,
}
use tinychain.Base.Maps.{Entries, lookup, delete}
use tinychain.Txpool.TxList.{
  Transaction, TxMap, TxList, entries, new_tx_list, get, put, put_map, add, filter, ready,
  ready_loop, list_len, remove, remove_all, bound_gas,
}
use tinychain.Txpool.TxList.Filter.{IsKeyed, kept, filter_lem}
use tinychain.Txpool.TxList.Insert.{IsInserted, tx_list_add_lem}
use tinychain.Txpool.TxList.Ready.{IsRun, ready_lem}

-- A transaction of the nonce `n` that asks for `gas`.
abbrev tx_of : ℕ → ℕ → Transaction
tx_of n gas = record { nonce = n; gas_price = 1; gas_limit = gas; value = 5; content = 0 }

abbrev three_entries : Entries Transaction
three_entries = (4, tx_of 4 100) ∷ (7, tx_of 7 100) ∷ (3, tx_of 3 100) ∷ []

abbrev three_txs : TxList
three_txs = record { txs = TxMap.made three_entries; cache = none }

three_txs-IsKeyed : IsKeyed (entries three_txs.txs)
unfolding IsKeyed entries lookup
three_txs-IsKeyed = (((tt, refl, refl), refl, refl), refl, refl)

no_last_nonce : get three_txs (2 ^ 64 - 1) ≡ none
unfolding get entries lookup
no_last_nonce = refl

-- The first transaction of an account: the map of a new list is `nil`.
put-new_tx_list : put new_tx_list (tx_of 0 21) ≡ none
unfolding put put_map new_tx_list
put-new_tx_list = refl

ready_three :
    ready three_txs 3
    ≡ some (
      record { txs = TxMap.made ((7, tx_of 7 100) ∷ []); cache = none },
      tx_of 3 100 ∷ tx_of 4 100 ∷ [],
    )
unfolding ready ready_loop list_len entries lookup remove_all remove delete
ready_three = refl

filter_lem_example :
    get (filter (λ tx. ltb tx.nonce 5) three_txs).0 7
    ≡ kept (λ tx. ltb tx.nonce 5) (get three_txs 7)
filter_lem_example = filter_lem (λ tx. ltb tx.nonce 5) three_txs 7 three_txs-IsKeyed

tx_list_add_lem_example :
    ((old : Transaction) × (get three_txs 4 ≡ some old)
      × (105 < bound_gas old 10)
      × (add three_txs (tx_of 4 105) 10 ≡ some (three_txs, false, none)))
    ⊎ ((after : TxList) × (add three_txs (tx_of 4 105) 10 ≡ some (after, true, none))
        × ((old : Transaction) → get three_txs 4 ≡ some old → bound_gas old 10 ≤ 105)
        × IsInserted three_txs (tx_of 4 105) after)
tx_list_add_lem_example = tx_list_add_lem three_txs three_entries (tx_of 4 105) 10 refl

ready_lem_example :
    (after : TxList) × (txs : List Transaction) × (ready three_txs 3 ≡ some (after, txs))
    × IsRun (entries three_txs.txs) 3 txs
    × ((n : ℕ)
        → get after n ≡ (if leb 3 n && ltb n (3 + length txs) then none else get three_txs n))
    × IsKeyed (entries after.txs)
ready_lem_example = ready_lem three_txs 3 three_txs-IsKeyed no_last_nonce (omega arith)
