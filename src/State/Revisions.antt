-- ===== src/State/Revisions.antt =====
-- The revisions: which snapshots there are to come back to. And what `SubBalance` does.
use tinychain.Base.{
  ℕ, zero, suc, ◌+◌, ◌≤◌, ◌<◌, ◌≡◌, ◌≢◌, refl, sym, ap, ◌∙◌, true, false, none, some, List, [], ◌∷◌,
  ◌++◌, length, length-append, length-take, take, get_elem?, leb, ◌==◌, arith, Bool-cases, ◌⊎◌, inl,
  inr,
}
use tinychain.Base.Integers.{◌+ℤ◌, negated, is_zero_ℤ, sub-negated}
use tinychain.State.{
  World, StateDb, obj_balance, obj_sub_balance, unwind, snapshot, first_from, revision_at, reverted,
  revert_to_snapshot, sub_balance, write_int, append, balance_change,
}
use tinychain.State.Touched.{Fits, update_here, update_there}
use tinychain.State.Shows.{sub_balance-Shows}
use tinychain.State.Undo.{Live, get_or_new-Live}
use tinychain.State.Revert.{IsNumbered}

first_from-hit :
    (k id : ℕ) (revisions : List (ℕ × ℕ))
    → IsNumbered k revisions
    → k ≤ id
    → id < k + length revisions
    → (j : ℕ) × (first_from revisions id ≡ some (id, j))
unfolding first_from
first_from-hit k id [] h le lt = absurd (omega arith)
first_from-hit k id ((i, j) ∷ revisions) h le lt = elim (Bool-cases (leb id i)) [
  | inl low ↦ let same : i ≡ id = ground (arith, h.0) in (j, rw low (λ x. some (same x, j)))
  | inr high ↦
      let (j', e) = first_from-hit (suc k) id revisions h.1 (ground (arith, h.0)) (omega arith) in
      (j', rw high e)
]

first_from-miss :
    (k id : ℕ) (revisions : List (ℕ × ℕ))
    → IsNumbered k revisions
    → k + length revisions ≤ id
    → first_from revisions id ≡ none
unfolding first_from
first_from-miss k id [] h le = refl
first_from-miss k id ((i, j) ∷ revisions) h le =
    let high : leb id i ≡ false = ground (arith, h.0) in
    rw high (first_from-miss (suc k) id revisions h.1 (omega arith))

take-IsNumbered :
    (n k : ℕ) (revisions : List (ℕ × ℕ)) → IsNumbered k revisions → IsNumbered k (take n revisions)
take-IsNumbered zero k revisions h = tt
take-IsNumbered (suc n) k [] h = tt
take-IsNumbered (suc n) k (r ∷ revisions) h = (h.0, take-IsNumbered n (suc k) revisions h.1)

append-IsNumbered :
    (k j id : ℕ) (revisions : List (ℕ × ℕ))
    → IsNumbered k revisions
    → id ≡ k + length revisions
    → IsNumbered k (revisions ++ ((id, j) ∷ []))
append-IsNumbered k j id [] h e = (omega arith, tt)
append-IsNumbered k j id (r ∷ revisions) h e =
    (h.0, append-IsNumbered (suc k) j id revisions h.1 (omega arith))

-- The first revision of all is not one that is missing.
first-miss :
    (id : ℕ) (revisions : List (ℕ × ℕ))
    → IsNumbered 0 revisions
    → length revisions ≤ id
    → (get_elem? revisions 0 ≡ none)
      ⊎ ((i : ℕ) × (j : ℕ) × (get_elem? revisions 0 ≡ some (i, j)) × ((i == id) ≡ false))
first-miss id [] h le = inl refl
first-miss id ((i, j) ∷ revisions) h le = inr (i, j, refl, ground (arith, h.0))

-- The ids are the places, and the next id is the number of revisions.
abbrev pub IsOrdered : StateDb → Type 0
IsOrdered s = IsNumbered 0 s.revisions × (s.next_revision_id ≡ length s.revisions)

-- With the ids as the places: a snapshot keeps them so and gives the next id; a revert to an id panics
-- exactly when there is no revision of it, and else drops the revisions from it on and keeps the ids
-- so.
pub revisions_lem :
    (world : World) (s : StateDb) (id : ℕ)
    → IsOrdered s
    → (IsOrdered (snapshot s).0 × ((snapshot s).1 ≡ length s.revisions))
      × (length s.revisions ≤ id → revert_to_snapshot world s id ≡ none)
      × (id < length s.revisions
          → (u : StateDb) × (revert_to_snapshot world s id ≡ some u)
            × IsOrdered u
            × (length u.revisions ≡ id))
unfolding snapshot revert_to_snapshot reverted revision_at
revisions_lem world s id (numbered, ids) = (
  (
    (
      append-IsNumbered 0 (length s.journal) s.next_revision_id s.revisions numbered (omega arith),
      omega (arith, length-append s.revisions ((s.next_revision_id, length s.journal) ∷ [])),
    ),
    ids,
  ),
  (λ le.
      let miss = first_from-miss 0 id s.revisions numbered (omega arith) in
      elim (first-miss id s.revisions numbered le) [
        | inl empty ↦ rw (miss, empty) refl
        | inr (i, j, e, differs) ↦ rw (miss, e, differs) refl
      ]),
  (λ lt.
      let (j, hit) = first_from-hit 0 id s.revisions numbered (omega arith) (omega arith) in
      let same : (id == id) ≡ true = ground arith in
      let long = length-take id s.revisions (omega arith) in
      (
        record (unwind world s.journal j s) {
          revisions = take id s.revisions;
          next_revision_id = id;
        },
        rw (hit, same) refl,
        (take-IsNumbered id 0 s.revisions numbered, sym long),
        long,
      )),
)

-- For an account in memory whose balance is not zero, and an amount that is another `big.Int`:
-- SubBalance adds the amount to the balance, and turns the sign of the caller's amount.
pub sub_balance_lem :
    (world : World) (s : StateDb) (addr p amount : ℕ)
    → Live s addr p
    → Fits s
    → amount < s.next_int
    → amount ≢ (s.objs p).balance
    → is_zero_ℤ (obj_balance s p) ≡ false
    → let u = sub_balance world s addr amount in
      (obj_balance u p ≡ obj_balance s p +ℤ s.ints amount)
      × (u.ints amount ≡ negated (s.ints amount))
unfolding sub_balance
sub_balance_lem world s addr p amount live fits lt apart more =
    let b : StateDb =
      append (write_int s amount (negated (s.ints amount))) (balance_change addr amount) in
    let x = negated (s.ints amount) in
    let paid : b.ints amount ≡ x = unfold append write_int in update_here s.ints amount x in
    let same : obj_balance b p ≡ obj_balance s p =
      unfold obj_balance append write_int in
      update_there s.ints amount x (s.objs p).balance (λ e. apart (sym e)) in
    let (a, h) =
      sub_balance-Shows p b (b.ints amount) (obj_balance s p +ℤ s.ints amount)
        (unfold append write_int in fits)
        (λ zero. let k : true ≡ false = sym zero ∙ ap is_zero_ℤ same ∙ more in absurd cc)
        (λ m. rw (same, paid) (sub-negated (obj_balance s p) (s.ints amount))) in
    let done : (obj_balance (obj_sub_balance b p (b.ints amount)) p
          ≡ obj_balance s p +ℤ s.ints amount)
        × ((obj_sub_balance b p (b.ints amount)).ints amount ≡ x) =
      (h.balance_is, a.ints amount (unfold append write_int in lt) ∙ paid) in
    rw (get_or_new-Live world live) (unfold append write_int in done)
