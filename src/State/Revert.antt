-- ===== src/State/Revert.antt =====
-- What `RevertToSnapshot` gives back.
use tinychain.Base.{
  ℕ, suc, ◌+◌, ◌≡◌, refl, ap, ◌∙◌, true, false, some, List, [], ◌∷◌, ◌++◌, length, length-append,
  take, take-append, leb, ◌==◌, arith,
}
use tinychain.State.{
  World, StateDb, Change, obj_balance, undo, unwind, snapshot, first_from, revision_at, reverted,
  revert_to_snapshot,
}
use tinychain.State.Touched.{Fits, Undone}
use tinychain.State.Undo.{Op, Live, perform, entry, IsReversible, op-TakesBack, op-Logs}

Undone-refl : (s : StateDb) → Fits s → Undone s s
Undone-refl s fits = record {
  same_objects = refl;
  nonce = λ p. refl;
  code = λ p. refl;
  suicided = λ p. refl;
  deleted = λ p. refl;
  balance = λ p. refl;
  ints = λ x lt. refl;
  grown = omega arith;
  fits = fits;
}

-- Changes one after the other, with their entries, the latest first.
pub data Run (world : World) (s : StateDb) : List Change → StateDb → Type 0 where
  here : Run world s [] s
  next :
      {cs : List Change} {t : StateDb} (op : Op) (addr p : ℕ)
      → Run world s cs t
      → Live t addr p
      → IsReversible world op t p
      → Run world s (entry world op t addr p ∷ cs) (perform world op addr t)

-- The ids are the places.
abbrev pub IsNumbered : ℕ → List (ℕ × ℕ) → Type 0
IsNumbered k [] = Unit
IsNumbered k ((i, j) ∷ revisions) = (i ≡ k) × IsNumbered (suc k) revisions

module _ (world : World) where
  undo_all : List Change → StateDb → StateDb
  undo_all [] s = s
  undo_all (c ∷ cs) s = undo_all cs (undo world c s)

  unwind_below :
      (js : List Change) (s : StateDb) → unwind world js (length js) s ≡ record s { journal = js }
  unfolding unwind
  unwind_below [] s = refl
  unwind_below (j ∷ js) s =
      let low : leb (length (j ∷ js)) (length (j ∷ js)) ≡ true = ground arith in rw low refl

  unwind_lem :
      (cs js : List Change) (s : StateDb)
      → unwind world (cs ++ js) (length js) s ≡ record (undo_all cs s) { journal = js }
  unfolding unwind undo_all
  unwind_lem [] js s = unwind_below js s
  unwind_lem (c ∷ cs) js s =
      let high : leb (length (c ∷ (cs ++ js))) (length js) ≡ false =
        ground (arith, length-append cs js) in
      rw high (unwind_lem cs js (undo world c s))

  -- What a run leaves to be undone.
  record HasRun (s : StateDb) (cs : List Change) (t : StateDb) : Type 0 where
    fits : Fits t
    logged : t.journal ≡ cs ++ s.journal
    same_revisions : t.revisions ≡ s.revisions
    undoes : (u : StateDb) → Undone t u → Undone s (undo_all cs u)

  Run-HasRun :
      {s : StateDb} {cs : List Change} {t : StateDb} → Fits s → Run world s cs t → HasRun s cs t
  unfolding undo_all
  Run-HasRun fits here = record {
    fits = fits;
    logged = refl;
    same_revisions = refl;
    undoes = λ u h. h;
  }
  Run-HasRun {s} fits (next {cs} {t} op addr p r live ok) =
      let before = Run-HasRun fits r in
      let (a, back) = op-TakesBack world op t addr p live before.fits ok in
      let (logs, revisions) = op-Logs world op t addr p live in
      record {
        fits = a.fits;
        logged = logs ∙ ap (λ l. entry world op t addr p ∷ l) before.logged;
        same_revisions = revisions ∙ before.same_revisions;
        undoes = λ u h. before.undoes (undo world (entry world op t addr p) u) (back u h);
      }

-- The search comes to the revision that is the last.
first_from-last :
    (k j : ℕ) (revisions : List (ℕ × ℕ))
    → IsNumbered k revisions
    → first_from (revisions ++ ((k + length revisions, j) ∷ [])) (k + length revisions)
      ≡ some (k + length revisions, j)
unfolding first_from
first_from-last k j [] h = let same : leb (k + 0) (k + 0) ≡ true = ground arith in rw same refl
first_from-last k j ((i, l) ∷ revisions) h =
    let above : leb (k + length ((i, l) ∷ revisions)) i ≡ false = ground (arith, h.0) in
    let e : k + length ((i, l) ∷ revisions) ≡ suc k + length revisions = omega arith in
    rw above (rw e (first_from-last (suc k) j revisions h.1))

-- With the revisions numbered by their places: after a snapshot and changes to accounts in memory
-- whose entries can take them back, RevertToSnapshot does not panic, every account shows the nonce, the
-- code, the balance and the mark that it showed before, and the journal and the revisions are those
-- before the snapshot.
pub revert_lem :
    (world : World) (s : StateDb) {cs : List Change} {t : StateDb}
    → Fits s
    → IsNumbered 0 s.revisions
    → s.next_revision_id ≡ length s.revisions
    → Run world (snapshot s).0 cs t
    → (u : StateDb) × (revert_to_snapshot world t (snapshot s).1 ≡ some u)
      × Undone s u
      × (u.journal ≡ s.journal)
      × (u.revisions ≡ s.revisions)
      × (u.next_revision_id ≡ s.next_revision_id)
unfolding revert_to_snapshot reverted revision_at snapshot
revert_lem world s {cs} {t} fits numbered ids r =
    let n = s.next_revision_id in
    let done = Run-HasRun world fits r in
    let w = undo_all world cs t in
    let u : StateDb = record w {
      journal = s.journal;
      revisions = s.revisions;
      next_revision_id = n;
    } in
    let revisions : t.revisions ≡ s.revisions ++ ((length s.revisions, length s.journal) ∷ []) =
      done.same_revisions ∙ ap (λ k. s.revisions ++ ((k, length s.journal) ∷ [])) ids in
    let here : first_from t.revisions n ≡ some (length s.revisions, length s.journal) =
      let plain : 0 + length s.revisions ≡ length s.revisions = omega arith in
      let found = first_from-last 0 (length s.journal) s.revisions numbered in
      rw (revisions, ids) (rw plain at found) in
    let hit : (length s.revisions == n) ≡ true = ground arith in
    let cut : take n t.revisions ≡ s.revisions =
      rw (revisions, ids) (take-append s.revisions ((length s.revisions, length s.journal) ∷ [])) in
    let back : unwind world t.journal (length s.journal) t ≡ record w { journal = s.journal } =
      ap (λ l. unwind world l (length s.journal) t) done.logged ∙ unwind_lem world cs s.journal t in
    let undone = done.undoes t (Undone-refl t done.fits) in
    (
      u,
      rw (here, hit, cut, back) refl,
      record {
        same_objects = undone.same_objects;
        nonce = undone.nonce;
        code = undone.code;
        suicided = undone.suicided;
        deleted = undone.deleted;
        balance = unfold obj_balance in undone.balance;
        ints = undone.ints;
        grown = undone.grown;
        fits = undone.fits;
      },
      refl,
      refl,
      refl,
    )
