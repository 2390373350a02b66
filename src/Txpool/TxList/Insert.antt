-- ===== src/Txpool/TxList/Insert.antt =====
-- What `Put`, `Del` and `add` do to the entries.
use tinychain.Base.{
  ℕ, ◌≤◌, ◌<◌, ◌≡◌, ◌⊎◌, refl, true, false, none, some, Option-cases, ◌==◌, if◌then◌else◌, ltb,
  arith, Bool-cases, inl, inr, ltb→lt,
}
use tinychain.Base.Maps.{Entries, lookup, store, lookup-delete}
use tinychain.Txpool.TxList.{
  Transaction, TxMap, TxList, entries, get, put_map, put, bound_gas, can_replace, can_insert, add,
}
use tinychain.Txpool.TxList.Filter.{IsKeyed, store-IsKeyed}

lookup-store :
    (m : Entries Transaction) (tx : Transaction) (n : ℕ)
    → lookup (store m tx.nonce tx) n ≡ (if tx.nonce == n then some tx else lookup m n)
unfolding lookup store
lookup-store m tx n = ground (arith, lookup-delete m tx.nonce n)

-- The list after a successful insertion.
abbrev pub IsInserted : TxList → Transaction → TxList → Type 0
IsInserted list tx after =
    (IsKeyed (entries list.txs) → IsKeyed (entries after.txs))
    × ((n : ℕ) → get after n ≡ (if tx.nonce == n then some tx else get list n))

put_lem :
    (list : TxList) (m : Entries Transaction) (tx : Transaction)
    → list.txs ≡ TxMap.made m
    → (after : TxList) × (put list tx ≡ some after) × IsInserted list tx after
unfolding put put_map get entries
put_lem list m tx h =
    let after : TxList = record { txs = TxMap.made (store m tx.nonce tx); cache = none } in
    (after, rw h refl, rw h (λ k. store-IsKeyed m tx k, λ n. lookup-store m tx n))

can_insert_cases :
    (list : TxList) (tx : Transaction) (price_bump : ℕ)
    → ((can_insert list tx price_bump ≡ (true, none))
        × ((old : Transaction)
            → get list tx.nonce ≡ some old
            → bound_gas old price_bump ≤ tx.gas_limit))
      ⊎ ((old : Transaction) × (get list tx.nonce ≡ some old)
          × (tx.gas_limit < bound_gas old price_bump)
          × (can_insert list tx price_bump ≡ (false, none)))
unfolding can_insert can_replace
can_insert_cases list tx price_bump = elim (Option-cases (get list tx.nonce)) [
  | inl e ↦ inl (rw e refl, λ old k. absurd (cc (e, k)))
  | inr (old, e) ↦ elim (Bool-cases (ltb tx.gas_limit (bound_gas old price_bump))) [
    | inl c ↦ inr (old, e, ltb→lt tx.gas_limit (bound_gas old price_bump) c, rw (e, c) refl)
    | inr c ↦ inl (
      rw (e, c) refl,
      λ other k. let same : other ≡ old = cc (e, k) in rw same (ground (arith, c)),
    )
  ]
]

-- On a map that is made, `add` refuses exactly when a transaction of the same nonce stands in the
-- list and the bound on its gas limit is above that of the new one; the list is then as before.
-- Otherwise it keeps the map well formed, puts the new transaction under its nonce and leaves the
-- other nonces alone. It never names the transaction replaced.
pub tx_list_add_lem :
    (list : TxList) (m : Entries Transaction) (tx : Transaction) (price_bump : ℕ)
    → list.txs ≡ TxMap.made m
    → ((old : Transaction) × (get list tx.nonce ≡ some old)
        × (tx.gas_limit < bound_gas old price_bump)
        × (add list tx price_bump ≡ some (list, false, none)))
      ⊎ ((after : TxList) × (add list tx price_bump ≡ some (after, true, none))
          × ((old : Transaction)
              → get list tx.nonce ≡ some old
              → bound_gas old price_bump ≤ tx.gas_limit)
          × IsInserted list tx after)
unfolding add
tx_list_add_lem list m tx price_bump h =
    let stored = put_lem list m tx h in
    elim (can_insert_cases list tx price_bump) [
      | inl can ↦ inr (stored.0, rw (can.0, stored.1, can.0) refl, can.1, stored.2)
      | inr (old, e, lt, can) ↦ inl (old, e, lt, rw can refl)
    ]
