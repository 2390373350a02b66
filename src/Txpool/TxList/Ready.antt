-- ===== src/Txpool/TxList/Ready.antt =====
-- The run of nonces that `Ready` takes out.
use tinychain.Base.{
  ℕ, zero, suc, ◌+◌, ◌-◌, ◌^◌, ◌≤◌, ◌<◌, ◌≡◌, refl, ◌∙◌, u64, ◌&&◌, none, some, Option-cases, sym,
  ap, get_elem?, List, [], ◌∷◌, length, ◌==◌, ==_iff, if◌then◌else◌, leb, ltb, arith, Bool-cases,
  inl, inr,
}
use native.Mathlib.Nat.{add-zero}
use tinychain.Base.Maps.{Entries, lookup}
use tinychain.Txpool.TxList.{
  Transaction, TxList, entries, remove_all, get, list_len, ready_loop, ready,
}
use tinychain.Txpool.TxList.Filter.{IsKeyed, has_nonce, lookup-remove_all, remove_all-IsKeyed}

-- How many entries have at least this nonce.
entries_from : ℕ → Entries Transaction → ℕ
entries_from n [] = 0
entries_from n (e ∷ m) = (if leb n e.0 then 1 else 0) + entries_from n m

entries_from_le : (n : ℕ) (m : Entries Transaction) → entries_from n m ≤ length m
unfolding entries_from
entries_from_le n [] = omega arith
entries_from_le n (e ∷ m) = ground (arith, entries_from_le n m)

entries_from-suc : (n : ℕ) (m : Entries Transaction) → entries_from (suc n) m ≤ entries_from n m
unfolding entries_from
entries_from-suc n [] = omega arith
entries_from-suc n (e ∷ m) = ground (arith, entries_from-suc n m)

-- An entry under the nonce counts for it and not for the next one.
found-entries_from :
    (n : ℕ) (m : Entries Transaction) (tx : Transaction)
    → lookup m n ≡ some tx
    → entries_from (suc n) m < entries_from n m
unfolding lookup entries_from
found-entries_from n [] tx h = cc
found-entries_from n (e ∷ m) tx h = elim (Bool-cases (e.0 == n)) [
  | inl c ↦ ground (arith, ==_iff (e.0) n, entries_from-suc n m, c)
  | inr c ↦
      let later : lookup m n ≡ some tx = rw c at h in
      ground (arith, ==_iff (e.0) n, found-entries_from n m tx later, c)
]

-- The loop collects what stands under `start` and the nonces after it, up to the first missing one.
pub IsRun : Entries Transaction → ℕ → List Transaction → Type 0
IsRun m start txs = (i : ℕ) → i ≤ length txs → get_elem? txs i ≡ lookup m (start + i)

empty-IsRun : (m : Entries Transaction) (start : ℕ) → lookup m start ≡ none → IsRun m start []
unfolding IsRun
empty-IsRun m start h zero le = rw (add-zero start) (sym h)
empty-IsRun m start h (suc i) le = absurd (omega arith)

cons-IsRun :
    (m : Entries Transaction) (start : ℕ) (tx : Transaction) (txs : List Transaction)
    → lookup m start ≡ some tx
    → IsRun m (suc start) txs
    → IsRun m start (tx ∷ txs)
unfolding IsRun
cons-IsRun m start tx txs h k zero le = rw (add-zero start) (sym h)
cons-IsRun m start tx txs h k (suc i) le =
    let next : suc start + i ≡ start + suc i = omega arith in k i (omega arith) ∙ ap (lookup m) next

ready_loop_step :
    (fuel start : ℕ) (m : Entries Transaction) (tx : Transaction) (txs : List Transaction)
    → lookup m start ≡ some tx
    → ready_loop fuel (u64 (start + 1)) m ≡ some txs
    → ready_loop (suc fuel) start m ≡ some (tx ∷ txs)
unfolding ready_loop
ready_loop_step fuel start m tx txs h k = rw (ready_loop, h, k) refl

-- The loop ends on fuel for each entry from `start` on, and one round more.
ready_loop_lem :
    (fuel start : ℕ) (m : Entries Transaction)
    → lookup m (2 ^ 64 - 1) ≡ none
    → start < 2 ^ 64
    → entries_from start m < fuel
    → (txs : List Transaction) × (ready_loop fuel start m ≡ some txs) × IsRun m start txs
unfolding ready_loop
ready_loop_lem zero start m top lt enough = absurd (omega arith)
ready_loop_lem (suc fuel) start m top lt enough = elim (Option-cases (lookup m start)) [
  | inl h ↦ ([], rw (ready_loop, h) refl, empty-IsRun m start h)
  | inr (tx, h) ↦
      let below : start < 2 ^ 64 - 1 = elim (Bool-cases (start == 2 ^ 64 - 1)) [
        | inl c ↦ absurd (cc (top, h, (==_iff start (2 ^ 64 - 1)).0 c))
        | inr c ↦ ground (arith, c)
      ] in
      let next : u64 (start + 1) ≡ suc start = omega arith in
      let fewer = found-entries_from start m tx h in
      let rest = ready_loop_lem fuel (suc start) m top (omega arith) (omega arith) in
      (
        tx ∷ rest.0,
        ready_loop_step fuel start m tx rest.0 h (ap (λ n. ready_loop fuel n m) next ∙ rest.1),
        cons-IsRun m start tx rest.0 h rest.2,
      )
]

found_nonce :
    (m : Entries Transaction) (n : ℕ) (tx : Transaction)
    → IsKeyed m
    → lookup m n ≡ some tx
    → tx.nonce ≡ n
unfolding lookup IsKeyed
found_nonce [] n tx h k = cc
found_nonce (e ∷ m) n tx h k = elim (Bool-cases (e.0 == n)) [
  | inl c ↦ let same : some e.1 ≡ some tx = rw c at k in cc ((==_iff (e.0) n).0 c, same, h.2)
  | inr c ↦ let later : lookup m n ≡ some tx = rw c at k in found_nonce m n tx h.0 later
]

-- A run has the nonces from `start` on, as many as it has transactions.
run_nonces :
    (m : Entries Transaction) (start : ℕ) (txs : List Transaction) (n : ℕ)
    → IsKeyed m
    → IsRun m start txs
    → has_nonce txs n ≡ (leb start n && ltb n (start + length txs))
unfolding has_nonce IsRun
run_nonces m start [] n h k = ground arith
run_nonces m start (tx ∷ txs) n h k =
    let first : some tx ≡ lookup m start = k 0 (omega arith) ∙ ap (lookup m) (add-zero start) in
    let own = found_nonce m start tx h (sym first) in
    let later : IsRun m (suc start) txs = λ i le.
      let next : start + suc i ≡ suc start + i = omega arith in
      k (suc i) (omega arith) ∙ ap (lookup m) next in
    let rest = run_nonces m (suc start) txs n h later in ground (arith, own, rest)

-- For a map in which each transaction stands under its own nonce, no nonce twice and none at the
-- last number of 64 bits, and for a start of 64 bits, `ready` has a result: it collects the
-- transactions under `start` and the nonces after it up to the first missing one, removes exactly
-- these, and keeps the map so.
pub ready_lem :
    (list : TxList) (start : ℕ)
    → IsKeyed (entries list.txs)
    → get list (2 ^ 64 - 1) ≡ none
    → start < 2 ^ 64
    → (after : TxList) × (txs : List Transaction) × (ready list start ≡ some (after, txs))
      × IsRun (entries list.txs) start txs
      × ((n : ℕ)
          → get after n ≡ (if leb start n && ltb n (start + length txs) then none else get list n))
      × IsKeyed (entries after.txs)
unfolding ready get list_len
ready_lem list start h top lt =
    let m = entries list.txs in
    let enough : entries_from start m < suc (length m) = omega (arith, entries_from_le start m) in
    let loop = ready_loop_lem (suc (length m)) start m top lt enough in
    let after : TxList = record { txs = remove_all list.txs loop.0; cache = none } in
    (
      after,
      loop.0,
      rw (ready, loop.1) refl,
      loop.2,
      λ n. lookup-remove_all loop.0 list.txs n ∙ rw (run_nonces m start loop.0 n h loop.2) refl,
      remove_all-IsKeyed loop.0 list.txs h,
    )
