-- ===== src/Txpool/TxList/Filter.antt =====
-- What `filter`, `Forget` and `Release` leave under each nonce.
use tinychain.Base.{
  ℕ, ◌≡◌, refl, ◌∙◌, Bool, false, not, ◌||◌, Option, none, some, List, [], ◌∷◌, ◌==◌, ==_iff,
  if◌then◌else◌, leb, arith, Bool-cases, inl, inr,
}
use tinychain.Base.Maps.{Entries, lookup, delete, store, lookup-delete}
use tinychain.Txpool.TxList.{
  Transaction, TxMap, TxList, entries, remove, remove_all, get, unmatching, filter, forget,
}

-- What the list keeps true of its map: a transaction stands under its own nonce, and no nonce twice.
unfoldable pub IsKeyed : Entries Transaction → Type 0
IsKeyed [] = Unit
IsKeyed (e ∷ m) = IsKeyed m × (lookup m e.0 ≡ none) × (e.0 ≡ e.1.nonce)

-- Whether one of the transactions has the nonce.
unfoldable pub has_nonce : List Transaction → ℕ → Bool
has_nonce [] n = false
has_nonce (tx ∷ txs) n = (tx.nonce == n) || has_nonce txs n

lookup-remove :
    (m : TxMap) (k n : ℕ)
    → lookup (entries (remove m k)) n ≡ (if k == n then none else lookup (entries m) n)
unfolding entries remove lookup
lookup-remove TxMap.nil k n = ground arith
lookup-remove (TxMap.made m) k n = lookup-delete m k n

pub lookup-remove_all :
    (txs : List Transaction) (m : TxMap) (n : ℕ)
    → lookup (entries (remove_all m txs)) n
      ≡ (if has_nonce txs n then none else lookup (entries m) n)
unfolding remove_all has_nonce
lookup-remove_all [] m n = refl
lookup-remove_all (tx ∷ txs) m n =
    ground (arith, lookup-remove_all txs (remove m tx.nonce) n, lookup-remove m tx.nonce n)

-- What a predicate leaves of an entry.
abbrev pub kept : (Transaction → Bool) → Option Transaction → Option Transaction
kept f none = none
kept f (some tx) = if f tx then some tx else none

abbrev dropped : (Transaction → Bool) → Option Transaction → Bool
dropped f none = false
dropped f (some tx) = not (f tx)

has_nonce-unmatching :
    (f : Transaction → Bool) (m : Entries Transaction) (n : ℕ)
    → IsKeyed m
    → has_nonce (unmatching f m) n ≡ dropped f (lookup m n)
unfolding has_nonce unmatching lookup IsKeyed
has_nonce-unmatching f [] n h = refl
has_nonce-unmatching f (e ∷ m) n h =
    let rest = has_nonce-unmatching f m n h.0 in ground (arith, rest, h.1, h.2, ==_iff (e.0) n)

kept_lem :
    (f : Transaction → Bool) (o : Option Transaction) → (if dropped f o then none else o) ≡ kept f o
kept_lem f none = refl
kept_lem f (some tx) = ground arith

-- For a map in which each transaction stands under its own nonce and no nonce twice, `filter` keeps
-- exactly the transactions that the predicate takes.
pub filter_lem :
    (f : Transaction → Bool) (list : TxList) (n : ℕ)
    → IsKeyed (entries list.txs)
    → get (filter f list).0 n ≡ kept f (get list n)
unfolding filter get
filter_lem f list n h =
    lookup-remove_all (unmatching f (entries list.txs)) list.txs n
    ∙ rw (has_nonce-unmatching f (entries list.txs) n h) (kept_lem f (lookup (entries list.txs) n))

kept-lookup :
    (bound n : ℕ) (m : Entries Transaction)
    → IsKeyed m
    → kept (λ tx. leb bound tx.nonce) (lookup m n) ≡ (if leb bound n then lookup m n else none)
unfolding lookup IsKeyed
kept-lookup bound n [] h = ground arith
kept-lookup bound n (e ∷ m) h =
    let rest = kept-lookup bound n m h.0 in ground (arith, rest, h.2, ==_iff (e.0) n)

-- For a map in which each transaction stands under its own nonce and no nonce twice, `forget` removes
-- exactly the transactions whose nonce is below the bound.
pub forget_lem :
    (list : TxList) (bound n : ℕ)
    → IsKeyed (entries list.txs)
    → get (forget list bound).0 n ≡ (if leb bound n then get list n else none)
unfolding forget get
forget_lem list bound n h =
    filter_lem (λ tx. leb bound tx.nonce) list n h ∙ kept-lookup bound n (entries list.txs) h

delete-IsKeyed : (m : Entries Transaction) (k : ℕ) → IsKeyed m → IsKeyed (delete m k)
unfolding delete IsKeyed
delete-IsKeyed [] k h = tt
delete-IsKeyed (e ∷ m) k h =
    let rest = delete-IsKeyed m k h.0 in
    let fresh : lookup (delete m k) e.0 ≡ none = ground (arith, lookup-delete m k (e.0), h.1) in
    elim (Bool-cases (e.0 == k)) [ inl c ↦ rw c rest | inr c ↦ rw c (rest, fresh, h.2) ]

remove-IsKeyed : (m : TxMap) (k : ℕ) → IsKeyed (entries m) → IsKeyed (entries (remove m k))
unfolding remove entries
remove-IsKeyed TxMap.nil k h = h
remove-IsKeyed (TxMap.made m) k h = delete-IsKeyed m k h

-- Removing transactions keeps the map well formed.
pub remove_all-IsKeyed :
    (txs : List Transaction) (m : TxMap)
    → IsKeyed (entries m)
    → IsKeyed (entries (remove_all m txs))
unfolding remove_all
remove_all-IsKeyed [] m h = h
remove_all-IsKeyed (tx ∷ txs) m h =
    remove_all-IsKeyed txs (remove m tx.nonce) (remove-IsKeyed m tx.nonce h)

pub store-IsKeyed :
    (m : Entries Transaction) (tx : Transaction) → IsKeyed m → IsKeyed (store m tx.nonce tx)
unfolding store IsKeyed
store-IsKeyed m tx h =
    (delete-IsKeyed m tx.nonce h, ground (arith, lookup-delete m tx.nonce tx.nonce), refl)
