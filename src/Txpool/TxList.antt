-- ===== src/Txpool/TxList.antt =====
-- The transactions of one account by nonce: core/txpool/tx_list.go. The locks are left out: each
-- operation runs whole.
pub mod Ready
pub mod Filter
pub mod Insert
mod Tests
use tinychain.Base.{
  ℕ, zero, suc, ◌+◌, ◌*◌, ◌/◌, ◌^◌, u64, Bool, true, false, Option, none, some, List, [], ◌∷◌,
  length, ltb, leb, if◌then◌else◌,
}
use tinychain.Base.Maps.{Entries, lookup, delete, store}

-- The fields of `types.Transaction` that the list reads. `value` is not negative, as the validator
-- of transactions has it; `content` stands for the other fields.
pub record Transaction : Type 0 where
  pub nonce : ℕ
  pub gas_price : ℕ
  pub gas_limit : ℕ
  pub value : ℕ
  pub content : ℕ

-- `Transaction.Cost` of core/types/transaction.go
unfoldable pub cost : Transaction → ℕ
cost tx = tx.value + tx.gas_limit

-- The map field, which is `nil` until somebody makes it.
pub data TxMap : Type 0 where
  nil : TxMap
  made : Entries Transaction → TxMap

-- What reading the map sees: a `nil` map has no entries.
unfoldable pub entries : TxMap → Entries Transaction
entries TxMap.nil = []
entries (TxMap.made m) = m

-- `delete` of the language, which does nothing on a `nil` map.
unfoldable pub remove : TxMap → ℕ → TxMap
remove TxMap.nil nonce = TxMap.nil
remove (TxMap.made m) nonce = TxMap.made (delete m nonce)

pub record TxList : Type 0 where
  pub txs : TxMap
  pub cache : Option (List Transaction)

unfoldable pub new_tx_list : TxList
new_tx_list = record { txs = TxMap.nil; cache = none }

unfoldable pub get : TxList → ℕ → Option Transaction
get list nonce = lookup (entries list.txs) nonce

-- No result is the panic of an assignment to an entry of a `nil` map.
unfoldable pub put_map : TxMap → Transaction → Option TxList
put_map TxMap.nil tx = none
put_map (TxMap.made m) tx = some record { txs = TxMap.made (store m tx.nonce tx); cache = none }

unfoldable pub put : TxList → Transaction → Option TxList
put list tx = put_map list.txs tx

-- The gas limit that a replacement has to reach; the product wraps, as `uint64` does.
unfoldable pub bound_gas : Transaction → ℕ → ℕ
bound_gas old price_bump = u64 (old.gas_limit * u64 (100 + price_bump)) / 100

-- Whether the transaction may be IsInserted. The second result of the source is always `nil`: the
-- `old` found is declared anew inside the `if`.
unfoldable pub can_replace : Option Transaction → Transaction → ℕ → Bool × Option Transaction
can_replace none tx price_bump = (true, none)
can_replace (some old) tx price_bump =
    if ltb tx.gas_limit (bound_gas old price_bump) then (false, none) else (true, none)

unfoldable pub can_insert : TxList → Transaction → ℕ → Bool × Option Transaction
can_insert list tx price_bump = can_replace (get list tx.nonce) tx price_bump

-- `add`: the new list, whether the transaction was taken, and the one it replaced.
unfoldable pub add : TxList → Transaction → ℕ → Option (TxList × Bool × Option Transaction)
add list tx price_bump =
    let can = can_insert list tx price_bump in
    if can.0
    then (elim (put list tx) [ none ↦ none | some after ↦ some (after, true, can.1) ])
    else some (list, false, none)

-- `Del`
unfoldable pub del : TxList → ℕ → TxList
del list nonce = elim (get list nonce) [
  | none ↦ list
  | some old ↦ record { txs = remove list.txs nonce; cache = none }
]

-- `Len`
unfoldable pub list_len : TxList → ℕ
list_len list = length (entries list.txs)

-- The entries that the predicate takes, and those it does not, in the order of the iteration.
unfoldable pub matching : (Transaction → Bool) → Entries Transaction → List Transaction
matching f [] = []
matching f (e ∷ m) = let rest = matching f m in if f e.1 then e.1 ∷ rest else rest

unfoldable pub unmatching : (Transaction → Bool) → Entries Transaction → List Transaction
unmatching f [] = []
unmatching f (e ∷ m) = let rest = unmatching f m in if f e.1 then rest else e.1 ∷ rest

-- `for _, tx := range results { delete(list.txs, tx.Nonce) }`
unfoldable pub remove_all : TxMap → List Transaction → TxMap
remove_all m [] = m
remove_all m (tx ∷ txs) = remove_all (remove m tx.nonce) txs

-- `filter`: the list after it, the transactions kept and those removed.
unfoldable pub filter : (Transaction → Bool) → TxList → TxList × List Transaction × List Transaction
filter f list =
    let match_txs = matching f (entries list.txs) in
    let unmatch_txs = unmatching f (entries list.txs) in
    (record { txs = remove_all list.txs unmatch_txs; cache = none }, match_txs, unmatch_txs)

-- The loop of `Ready`; without fuel there is no result.
unfoldable pub ready_loop : ℕ → ℕ → Entries Transaction → Option (List Transaction)
ready_loop zero nonce m = none
ready_loop (suc fuel) nonce m =
    let rest = ready_loop fuel (u64 (nonce + 1)) m in
    elim (lookup m nonce) [
      | none ↦ some []
      | some tx ↦ elim rest [ none ↦ none | some txs ↦ some (tx ∷ txs) ]
    ]

-- `Ready`, on as much fuel as there are entries, and one round more.
unfoldable pub ready : TxList → ℕ → Option (TxList × List Transaction)
ready list start = elim (ready_loop (suc (list_len list)) start (entries list.txs)) [
  | none ↦ none
  | some results ↦ some (record { txs = remove_all list.txs results; cache = none }, results)
]

-- `Forget`
unfoldable pub forget : TxList → ℕ → TxList × List Transaction
forget list bound = let out = filter (λ tx. leb bound tx.nonce) list in (out.0, out.2)

-- `Release`
unfoldable pub release : TxList → ℕ → TxList × List Transaction
release list balance = let out = filter (λ tx. leb (cost tx) balance) list in (out.0, out.2)
