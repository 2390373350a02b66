-- ===== src/State/Undo.antt =====
-- Each entry of the journal takes its change back, for the changes that it can.
use tinychain.Base.{
  ℕ, ◌<◌, ◌≡◌, refl, sym, ap, ◌∙◌, inl, inr, Bool, true, false, List, ◌∷◌, if◌then◌else◌, arith,
  Bool-cases, some,
}
use tinychain.Base.Integers.{ℤ, pos, ◌+ℤ◌, ◌-ℤ◌, is_zero_ℤ, add-sub, sub-add, add_zero}
use tinychain.Base.Maps.{lookup}
use tinychain.State.{
  World, StateDb, Change, write_obj, new_int, append, on_dirty, obj_set_balance, obj_balance,
  obj_set_new, obj_add_balance, obj_sub_balance, obj_set_nonce, obj_mark_suicided, obj_set_code,
  get_state_obj, found, get_or_new_state_obj, or_new, undo, undo_over, nonce_change, balance_change,
  gas_change, code_change, suicide_change, set_nonce, add_balance, charge_gas, charge_over,
  set_code, suicide, suicide_over,
}
use tinychain.State.Touched.{Fits, Touched, Undone, Touched-trans, append-Touched, restored}
use tinychain.State.Shows.{
  Shows, obj_set_new-Touched, obj_set_new-Shows, set_nonce-Shows, set_code-Shows, new_balance-Shows,
  sub_balance-Shows, mark-Shows, set_balance-Shows,
}

sub_balance-Logs :
    (s : StateDb) (p : ℕ) (x : ℤ)
    → let u = obj_sub_balance s p x in (u.journal ≡ s.journal) × (u.revisions ≡ s.revisions)
unfolding obj_sub_balance on_dirty obj_set_new obj_set_balance write_obj new_int
sub_balance-Logs s p x = elim (Bool-cases (is_zero_ℤ (obj_balance s p))) [
  | inl zero ↦ rw zero (refl, refl)
  | inr more ↦ rw more (refl, refl)
]

-- An account in memory: its object, which is not deleted.
pub record Live (s : StateDb) (addr p : ℕ) : Type 0 where
  pub listed : lookup s.state_objects addr ≡ some p
  pub kept : (s.objs p).deleted ≡ false

pub Live-Touched : {s u : StateDb} {addr p : ℕ} → Live s addr p → Touched p s u → Live u addr p
Live-Touched {s} {u} {addr} live a = record {
  listed = ap (λ m. lookup m addr) a.same_objects ∙ live.listed;
  kept = a.still ∙ live.kept;
}

Live-Undone : {s t : StateDb} {addr p : ℕ} → Live s addr p → Undone s t → Live t addr p
Live-Undone {s} {t} {addr} {p} live a = record {
  listed = ap (λ m. lookup m addr) a.same_objects ∙ live.listed;
  kept = a.deleted p ∙ live.kept;
}

-- The changes that an entry can take back, on a live account.
pub data Op : Type 0 where
  nonce_to : ℕ → Op
  balance_by : ℕ → Op
  gas_of : ℕ → Op
  code_to : List ℕ → Op
  suicides : Op

module _ (world : World) where
  abbrev pub perform : Op → ℕ → StateDb → StateDb
  perform (nonce_to nonce) addr s = set_nonce world s addr nonce
  perform (balance_by amount) addr s = add_balance world s addr amount
  perform (gas_of amount) addr s = charge_gas world s addr amount
  perform (code_to code) addr s = set_code world s addr code
  perform suicides addr s = (suicide world s addr).0

  pub get-Live :
      {s : StateDb} {addr p : ℕ} → Live s addr p → get_state_obj world s addr ≡ (s, some p)
  unfolding get_state_obj found
  get-Live live = rw (live.listed, live.kept) refl

  pub get_or_new-Live :
      {s : StateDb} {addr p : ℕ} → Live s addr p → get_or_new_state_obj world s addr ≡ (s, p)
  unfolding get_or_new_state_obj or_new
  get_or_new-Live live = rw (get-Live live, live.kept) refl

  -- What it is that an entry takes a change back.
  abbrev pub TakesBack : ℕ → StateDb → Change → StateDb → Type 0
  TakesBack p s c s1 = Touched p s s1 × ((t : StateDb) → Undone s1 t → Undone s (undo world c t))

  -- The part of the proof that is the same for all changes.
  from_the_entry :
      (addr p : ℕ) (s : StateDb) (c : Change) (s1 : StateDb)
      → Live s addr p
      → Fits s
      → Touched p s s1
      → ((t : StateDb) → undo world c t ≡ undo_over world c (get_state_obj world t addr))
      → ((t : StateDb)
          → Undone s1 t
          → let u = undo_over world c (t, some p) in
            Touched p t u
            × ((u.objs p).nonce ≡ (s.objs p).nonce)
            × ((u.objs p).code ≡ (s.objs p).code)
            × ((u.objs p).suicided ≡ (s.objs p).suicided)
            × (obj_balance u p ≡ obj_balance s p))
      → TakesBack p s c s1
  from_the_entry addr p s c s1 live fits a over part = (
    a,
    λ t undone.
        let there : Live t addr p = Live-Undone (Live-Touched live a) undone in
        let (b, n, c1, z, v) = part t undone in
        let u = undo_over world c (t, some p) in
        let same : undo world c t ≡ u = over t ∙ ap (λ r. undo_over world c r) (get-Live there) in
        rw same (restored p s s1 t u fits a undone b (n, c1, z, v)),
  )

  -- What the account shows in a state in which the later changes are undone.
  Shows-again :
      (p : ℕ) (s1 t : StateDb) {nonce : ℕ} {code : List ℕ} {suicided : Bool} {balance : ℤ}
      → Shows s1 p nonce code suicided balance
      → Undone s1 t
      → Shows t p nonce code suicided balance
  Shows-again p s1 t h undone = record {
    nonce_is = undone.nonce p ∙ h.nonce_is;
    code_is = undone.code p ∙ h.code_is;
    suicided_is = undone.suicided p ∙ h.suicided_is;
    balance_is = undone.balance p ∙ h.balance_is;
  }

  nonce-TakesBack :
      (s : StateDb) (addr p nonce : ℕ)
      → Live s addr p
      → Fits s
      → TakesBack p s (nonce_change addr (s.objs p).nonce) (set_nonce world s addr nonce)
  unfolding set_nonce obj_balance undo undo_over append
  nonce-TakesBack s addr p nonce live fits =
      let c = nonce_change addr (s.objs p).nonce in
      let b = append-Touched p s c fits in
      let (a, h) = set_nonce-Shows p (append s c) nonce b.fits in
      let s1 = obj_set_nonce (append s c) p nonce in
      let done : TakesBack p s c s1 =
        from_the_entry addr p s c s1 live fits (Touched-trans b a) (λ t. refl)
          (λ t undone.
            let again = Shows-again p s1 t h undone in
            let (z, k) = set_nonce-Shows p t (s.objs p).nonce undone.fits in
            unfold undo_over append in
            (
              z,
              k.nonce_is,
              k.code_is ∙ again.code_is,
              k.suicided_is ∙ again.suicided_is,
              k.balance_is ∙ again.balance_is,
            )) in
      rw (get_or_new-Live live) done

  code-TakesBack :
      (s : StateDb) (addr p : ℕ) (code : List ℕ)
      → Live s addr p
      → Fits s
      → TakesBack p s
          (code_change addr (s.objs p).code (s.objs p).code_hash)
          (set_code world s addr code)
  unfolding set_code obj_balance undo undo_over append
  code-TakesBack s addr p code live fits =
      let c = code_change addr (s.objs p).code (s.objs p).code_hash in
      let b = append-Touched p s c fits in
      let (a, h) = set_code-Shows world p (append s c) code b.fits in
      let s1 = obj_set_code world (append s c) p code in
      let done : TakesBack p s c s1 =
        from_the_entry addr p s c s1 live fits (Touched-trans b a) (λ t. refl)
          (λ t undone.
            let again = Shows-again p s1 t h undone in
            let (z, k) = set_code-Shows world p t (s.objs p).code undone.fits in
            (
              z,
              k.nonce_is ∙ again.nonce_is,
              k.code_is,
              k.suicided_is ∙ again.suicided_is,
              k.balance_is ∙ again.balance_is,
            )) in
      rw (get_or_new-Live live) done

  -- A balance that the addition brings to zero is left there, so the amount has to be zero then.
  balance-TakesBack :
      (s : StateDb) (addr p amount : ℕ)
      → Live s addr p
      → Fits s
      → amount < s.next_int
      → (is_zero_ℤ (obj_balance s p +ℤ s.ints amount) ≡ true → is_zero_ℤ (s.ints amount) ≡ true)
      → TakesBack p s (balance_change addr amount) (add_balance world s addr amount)
  unfolding add_balance obj_add_balance undo undo_over append obj_balance
  balance-TakesBack s addr p amount live fits lt safe =
      let c = balance_change addr amount in
      let b = append-Touched p s c fits in
      let before = obj_balance s p in
      let x = s.ints amount in
      let (a, h) = new_balance-Shows p (append s c) (before +ℤ x) b.fits in
      let s1 = obj_add_balance (append s c) p x in
      let done : TakesBack p s c s1 =
        from_the_entry addr p s c s1 live fits (Touched-trans b a) (λ t. refl)
          (λ t undone.
            let again = Shows-again p s1 t h undone in
            let same : t.ints amount ≡ x =
              undone.ints amount (omega (arith, a.grown)) ∙ a.ints amount lt in
            let sum : obj_balance t p ≡ before +ℤ x = again.balance_is in
            let (z, k) =
              sub_balance-Shows p t (t.ints amount) before undone.fits
                (λ zero. sum ∙ add_zero before x (safe (ap is_zero_ℤ (sym sum) ∙ zero)))
                (λ more. rw (sum, same) (add-sub before x)) in
            (
              z,
              k.nonce_is ∙ again.nonce_is,
              k.code_is ∙ again.code_is,
              k.suicided_is ∙ again.suicided_is,
              k.balance_is,
            )) in
      rw (get_or_new-Live live) done

  -- Gas that is charged to a balance of zero is not taken, so there has to be none then.
  gas-TakesBack :
      (s : StateDb) (addr p amount : ℕ)
      → Live s addr p
      → Fits s
      → (is_zero_ℤ (obj_balance s p) ≡ true → amount ≡ 0)
      → TakesBack p s (gas_change addr amount) (charge_gas world s addr amount)
  unfolding charge_gas charge_over undo undo_over append obj_balance obj_add_balance
  gas-TakesBack s addr p amount live fits safe =
      let c = gas_change addr amount in
      let b = append-Touched p s c fits in
      let before = obj_balance s p in
      let left = if is_zero_ℤ before then before else before -ℤ pos amount in
      let (a, h) =
        sub_balance-Shows p (append s c) (pos amount) left b.fits (λ zero. rw zero refl)
          (λ more. rw more refl) in
      let s1 = obj_sub_balance (append s c) p (pos amount) in
      let back : left +ℤ pos amount ≡ before = elim (Bool-cases (is_zero_ℤ before)) [
        | inl zero ↦ rw (zero, safe zero) (add_zero before (pos 0) (unfold is_zero_ℤ in refl))
        | inr more ↦ rw more (sub-add before (pos amount))
      ] in
      let done : TakesBack p s c s1 =
        from_the_entry addr p s c s1 live fits (Touched-trans b a) (λ t. refl)
          (λ t undone.
            let again = Shows-again p s1 t h undone in
            let (z, k) = new_balance-Shows p t (obj_balance t p +ℤ pos amount) undone.fits in
            (
              z,
              k.nonce_is ∙ again.nonce_is,
              k.code_is ∙ again.code_is,
              k.suicided_is ∙ again.suicided_is,
              k.balance_is ∙ ap (λ v. v +ℤ pos amount) again.balance_is ∙ back,
            )) in
      rw (get-Live live) done

  suicide-TakesBack :
      (s : StateDb) (addr p : ℕ)
      → Live s addr p
      → Fits s
      → TakesBack p s
          (suicide_change addr (s.objs p).suicided (s.objs p).balance)
          (suicide world s addr).0
  unfolding suicide suicide_over undo undo_over append obj_balance
  suicide-TakesBack s addr p live fits =
      let mark = (s.objs p).suicided in
      let prev = (s.objs p).balance in
      let c = suicide_change addr mark prev in
      let b = append-Touched p s c fits in
      let (a, h) = mark-Shows p (append s c) true b.fits in
      let marked = obj_mark_suicided (append s c) p true in
      let a' = obj_set_new-Touched p marked (pos 0) a.fits in
      let h' = obj_set_new-Shows p marked (pos 0) in
      let s1 = obj_set_new marked p (pos 0) in
      let whole = Touched-trans (Touched-trans b a) a' in
      let done : TakesBack p s c s1 =
        from_the_entry addr p s c s1 live fits whole (λ t. refl)
          (λ t undone.
            let again = Shows-again p s1 t h' undone in
            let (y, j) = mark-Shows p t mark undone.fits in
            let unmarked = obj_mark_suicided t p mark in
            let there : prev < unmarked.next_int =
              omega (arith, fits p, whole.grown, undone.grown, y.grown) in
            let (z, k) = set_balance-Shows p unmarked prev y.fits there in
            let kept : unmarked.ints prev ≡ s.ints prev =
              y.ints prev (omega (arith, fits p, whole.grown, undone.grown))
              ∙ undone.ints prev (omega (arith, fits p, whole.grown))
              ∙ whole.ints prev (fits p) in
            (
              Touched-trans y z,
              k.nonce_is ∙ j.nonce_is ∙ again.nonce_is ∙ h.nonce_is,
              k.code_is ∙ j.code_is ∙ again.code_is ∙ h.code_is,
              k.suicided_is ∙ j.suicided_is,
              k.balance_is ∙ kept,
            )) in
      rw (get-Live live) done

  -- The entry that a change leaves.
  abbrev pub entry : Op → StateDb → ℕ → ℕ → Change
  entry (nonce_to nonce) s addr p = nonce_change addr (s.objs p).nonce
  entry (balance_by amount) s addr p = balance_change addr amount
  entry (gas_of amount) s addr p = gas_change addr amount
  entry (code_to code) s addr p = code_change addr (s.objs p).code (s.objs p).code_hash
  entry suicides s addr p = suicide_change addr (s.objs p).suicided (s.objs p).balance

  -- When its entry can take it back: an addition of a `big.Int` that there is, which does not bring a
  -- balance to zero, and gas from a balance that is not zero, or none of either.
  abbrev pub IsReversible : Op → StateDb → ℕ → Type 0
  IsReversible (nonce_to nonce) s p = Unit
  IsReversible (balance_by amount) s p =
      (amount < s.next_int)
      × (is_zero_ℤ (obj_balance s p +ℤ s.ints amount) ≡ true → is_zero_ℤ (s.ints amount) ≡ true)
  IsReversible (gas_of amount) s p = is_zero_ℤ (obj_balance s p) ≡ true → amount ≡ 0
  IsReversible (code_to code) s p = Unit
  IsReversible suicides s p = Unit

  pub op-TakesBack :
      (op : Op) (s : StateDb) (addr p : ℕ)
      → Live s addr p
      → Fits s
      → IsReversible op s p
      → TakesBack p s (entry op s addr p) (perform op addr s)
  op-TakesBack (nonce_to nonce) s addr p live fits r = nonce-TakesBack s addr p nonce live fits
  op-TakesBack (balance_by amount) s addr p live fits r =
      balance-TakesBack s addr p amount live fits r.0 r.1
  op-TakesBack (gas_of amount) s addr p live fits r = gas-TakesBack s addr p amount live fits r
  op-TakesBack (code_to code) s addr p live fits r = code-TakesBack s addr p code live fits
  op-TakesBack suicides s addr p live fits r = suicide-TakesBack s addr p live fits

  -- The journal has the entry on top, and the revisions are as they were.
  abbrev pub Logs : StateDb → Change → StateDb → Type 0
  Logs s c u = (u.journal ≡ c ∷ s.journal) × (u.revisions ≡ s.revisions)

  gas-Logs :
      (s : StateDb) (addr p amount : ℕ)
      → Live s addr p
      → Logs s (gas_change addr amount) (charge_gas world s addr amount)
  unfolding charge_gas charge_over
  gas-Logs s addr p amount live =
      let logs = sub_balance-Logs (append s (gas_change addr amount)) p (pos amount) in
      rw (get-Live live) (unfold append in logs)

  suicide-Logs :
      (s : StateDb) (addr p : ℕ)
      → Live s addr p
      → Logs s (suicide_change addr (s.objs p).suicided (s.objs p).balance) (suicide world s addr).0
  unfolding suicide suicide_over append obj_set_new obj_set_balance obj_mark_suicided on_dirty
      write_obj new_int
  suicide-Logs s addr p live = rw (get-Live live) (refl, refl)

  pub op-Logs :
      (op : Op) (s : StateDb) (addr p : ℕ)
      → Live s addr p
      → Logs s (entry op s addr p) (perform op addr s)
  unfolding set_nonce add_balance set_code suicide suicide_over append obj_set_nonce obj_add_balance
      obj_set_new obj_set_balance obj_mark_suicided obj_set_code on_dirty write_obj new_int
  op-Logs (nonce_to nonce) s addr p live = rw (get_or_new-Live live) (refl, refl)
  op-Logs (balance_by amount) s addr p live = rw (get_or_new-Live live) (refl, refl)
  op-Logs (gas_of amount) s addr p live = gas-Logs s addr p amount live
  op-Logs (code_to code) s addr p live = rw (get_or_new-Live live) (refl, refl)
  op-Logs suicides s addr p live = suicide-Logs s addr p live
