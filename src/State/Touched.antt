-- ===== src/State/Touched.antt =====
-- What one method of an account changes, and what makes two states the same to the outside.
use tinychain.Base.{
  ℕ, ◌≤◌, ◌<◌, ◌≡◌, ◌≢◌, refl, ap, ◌∙◌, ◌⊎◌, inl, inr, true, false, ◌==◌, arith, Bool-cases,
}
use tinychain.Base.Integers.{ℤ}
use tinychain.State.{
  Object, StateDb, Change, update, write_obj, new_int, append, on_dirty, obj_balance,
}

-- Every balance is a `big.Int` that there is.
abbrev pub Fits : StateDb → Type 0
Fits s = (p : ℕ) → (s.objs p).balance < s.next_int

-- `u` comes from `s` by changes to the object under `p` and to new numbers.
pub record Touched (p : ℕ) (s u : StateDb) : Type 0 where
  pub same_objects : u.state_objects ≡ s.state_objects
  pub others : (q : ℕ) → q ≢ p → u.objs q ≡ s.objs q
  pub ints : (x : ℕ) → x < s.next_int → u.ints x ≡ s.ints x
  pub grown : s.next_int ≤ u.next_int
  pub fits : Fits u
  pub still : (u.objs p).deleted ≡ (s.objs p).deleted

-- `t` shows for every object what `s` shows, and keeps the numbers that `s` has.
pub record Undone (s t : StateDb) : Type 0 where
  pub same_objects : t.state_objects ≡ s.state_objects
  pub nonce : (p : ℕ) → (t.objs p).nonce ≡ (s.objs p).nonce
  pub code : (p : ℕ) → (t.objs p).code ≡ (s.objs p).code
  pub suicided : (p : ℕ) → (t.objs p).suicided ≡ (s.objs p).suicided
  pub deleted : (p : ℕ) → (t.objs p).deleted ≡ (s.objs p).deleted
  pub balance : (p : ℕ) → obj_balance t p ≡ obj_balance s p
  pub ints : (x : ℕ) → x < s.next_int → t.ints x ≡ s.ints x
  pub grown : s.next_int ≤ t.next_int
  pub fits : Fits t

pub update_here {ℓ} : {A : Type ℓ} (f : ℕ → A) (p : ℕ) (a : A) → update f p a p ≡ a
unfolding update
update_here f p a = let same : (p == p) ≡ true = ground arith in rw same refl

pub update_there {ℓ} :
    {A : Type ℓ} (f : ℕ → A) (p : ℕ) (a : A) (q : ℕ) → q ≢ p → update f p a q ≡ f q
unfolding update
update_there f p a q ne = let differs : (q == p) ≡ false = ground arith in rw differs refl

pub same_or_not : (q p : ℕ) → (q ≡ p) ⊎ (q ≢ p)
same_or_not q p = elim (Bool-cases (q == p)) [
  | inl same ↦ inl (ground arith)
  | inr differs ↦ inr (λ e. ground arith)
]

pub Touched-trans : {p : ℕ} {s t u : StateDb} → Touched p s t → Touched p t u → Touched p s u
Touched-trans a b = record {
  same_objects = b.same_objects ∙ a.same_objects;
  others = λ q ne. b.others q ne ∙ a.others q ne;
  ints = λ x lt. b.ints x (omega (arith, a.grown)) ∙ a.ints x lt;
  grown = omega (arith, a.grown, b.grown);
  fits = b.fits;
  still = b.still ∙ a.still;
}

pub new_int-Touched : (p : ℕ) (s : StateDb) (v : ℤ) → Fits s → Touched p s (new_int s v)
unfolding new_int
new_int-Touched p s v h = record {
  same_objects = refl;
  others = λ q ne. refl;
  ints = λ x lt. update_there s.ints s.next_int v x (λ e. omega arith);
  grown = omega arith;
  fits = λ q. omega (arith, h q);
  still = refl;
}

pub append-Touched : (p : ℕ) (s : StateDb) (c : Change) → Fits s → Touched p s (append s c)
unfolding append
append-Touched p s c h = record {
  same_objects = refl;
  others = λ q ne. refl;
  ints = λ x l. refl;
  grown = omega arith;
  fits = h;
  still = refl;
}

-- A write to the object, with a balance that there is.
pub write_obj-Touched :
    (p : ℕ) (s : StateDb) (o : Object)
    → Fits s
    → o.balance < s.next_int
    → o.deleted ≡ (s.objs p).deleted
    → Touched p s (write_obj s p o)
unfolding write_obj
write_obj-Touched p s o h lt e = record {
  same_objects = refl;
  others = update_there s.objs p o;
  ints = λ x l. refl;
  grown = omega arith;
  fits = λ q. elim (same_or_not q p) [
    | inl same ↦ rw (same, update_here s.objs p o) lt
    | inr ne ↦ rw (update_there s.objs p o q ne) (h q)
  ];
  still = rw (update_here s.objs p o) e;
}

pub on_dirty-Touched : (p : ℕ) (s : StateDb) → Fits s → Touched p s (on_dirty s p)
unfolding on_dirty
on_dirty-Touched p s h = record {
  same_objects = refl;
  others = λ q ne. refl;
  ints = λ x l. refl;
  grown = omega arith;
  fits = h;
  still = refl;
}

-- What is shown before is shown again, if it is for the object that was changed.
pub restored :
    (p : ℕ) (s s1 t u : StateDb)
    → Fits s
    → Touched p s s1
    → Undone s1 t
    → Touched p t u
    → ((u.objs p).nonce ≡ (s.objs p).nonce)
      × ((u.objs p).code ≡ (s.objs p).code)
      × ((u.objs p).suicided ≡ (s.objs p).suicided)
      × (obj_balance u p ≡ obj_balance s p)
    → Undone s u
unfolding obj_balance
restored p s s1 t u fits a undone b here = record {
  same_objects = b.same_objects ∙ undone.same_objects ∙ a.same_objects;
  nonce = λ q. elim (same_or_not q p) [
    | inl e ↦ rw e here.0
    | inr ne ↦
        ap (λ o. o.nonce) (b.others q ne) ∙ undone.nonce q ∙ ap (λ o. o.nonce) (a.others q ne)
  ];
  code = λ q. elim (same_or_not q p) [
    | inl e ↦ rw e here.1
    | inr ne ↦ ap (λ o. o.code) (b.others q ne) ∙ undone.code q ∙ ap (λ o. o.code) (a.others q ne)
  ];
  suicided = λ q. elim (same_or_not q p) [
    | inl e ↦ rw e here.2
    | inr ne ↦
        ap (λ o. o.suicided) (b.others q ne)
        ∙ undone.suicided q
        ∙ ap (λ o. o.suicided) (a.others q ne)
  ];
  deleted = λ q. elim (same_or_not q p) [
    | inl e ↦ rw e (b.still ∙ undone.deleted p ∙ a.still)
    | inr ne ↦
        ap (λ o. o.deleted) (b.others q ne) ∙ undone.deleted q ∙ ap (λ o. o.deleted) (a.others q ne)
  ];
  balance = λ q. elim (same_or_not q p) [
    | inl e ↦ rw e here.3
    | inr ne ↦
        ap (λ o. u.ints o.balance) (b.others q ne)
        ∙ b.ints (t.objs q).balance (undone.fits q)
        ∙ undone.balance q
        ∙ ap (λ o. s1.ints o.balance) (a.others q ne)
        ∙ a.ints (s.objs q).balance (fits q)
  ];
  ints = λ x lt.
      b.ints x (omega (arith, a.grown, undone.grown))
      ∙ undone.ints x (omega (arith, a.grown))
      ∙ a.ints x lt;
  grown = omega (arith, a.grown, undone.grown, b.grown);
  fits = b.fits;
}
