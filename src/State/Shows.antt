-- ===== src/State/Shows.antt =====
-- What an account shows after each method that changes it.
use tinychain.Base.{
  ℕ, ◌<◌, ◌≡◌, refl, ap, ◌∙◌, inl, inr, Bool, true, false, List, arith, Bool-cases,
}
use tinychain.Base.Integers.{ℤ, ◌-ℤ◌, is_zero_ℤ}
use tinychain.State.{
  World, Object, StateDb, update, write_obj, new_int, on_dirty, obj_set_balance, obj_balance,
  obj_set_new, obj_sub_balance, obj_set_nonce, obj_mark_suicided, obj_set_code,
}
use tinychain.State.Touched.{
  Fits, Touched, update_here, Touched-trans, new_int-Touched, write_obj-Touched, on_dirty-Touched,
}

pub obj_set_new-Touched : (p : ℕ) (s : StateDb) (v : ℤ) → Fits s → Touched p s (obj_set_new s p v)
unfolding obj_set_new obj_set_balance
obj_set_new-Touched p s v h =
    let t = new_int s v in
    let a = new_int-Touched p s v h in
    let o : Object = record (t.objs p) { balance = s.next_int } in
    let b = write_obj-Touched p t o a.fits (unfold new_int in omega arith) refl in
    Touched-trans (Touched-trans a b) (on_dirty-Touched p (write_obj t p o) b.fits)

-- What an account shows: its nonce, code, mark and balance.
pub record Shows (u : StateDb) (p nonce : ℕ) (code : List ℕ) (suicided : Bool) (balance : ℤ)
    : Type 0 where
  pub nonce_is : (u.objs p).nonce ≡ nonce
  pub code_is : (u.objs p).code ≡ code
  pub suicided_is : (u.objs p).suicided ≡ suicided
  pub balance_is : obj_balance u p ≡ balance

pub obj_set_new-Shows :
    (p : ℕ) (s : StateDb) (v : ℤ)
    → Shows (obj_set_new s p v) p (s.objs p).nonce (s.objs p).code (s.objs p).suicided v
unfolding obj_balance obj_set_new obj_set_balance on_dirty write_obj new_int
obj_set_new-Shows p s v =
    let o : Object = record (s.objs p) { balance = s.next_int } in
    let e = update_here s.objs p o in
    record {
      nonce_is = ap (λ x. x.nonce) e;
      code_is = ap (λ x. x.code) e;
      suicided_is = ap (λ x. x.suicided) e;
      balance_is =
          ap (λ x. update s.ints s.next_int v x.balance) e ∙ update_here s.ints s.next_int v;
    }

-- A write to the object that keeps the balance.
written :
    (p : ℕ) (s : StateDb) (o : Object)
    → Fits s
    → o.balance ≡ (s.objs p).balance
    → o.deleted ≡ (s.objs p).deleted
    → let u = on_dirty (write_obj s p o) p in
      Touched p s u × Shows u p o.nonce o.code o.suicided (obj_balance s p)
unfolding obj_balance
written p s o fits b d =
    let w = write_obj-Touched p s o fits (omega (arith, fits p)) d in
    (
      Touched-trans w (on_dirty-Touched p (write_obj s p o) w.fits),
      unfold on_dirty write_obj in
          (let e = update_here s.objs p o in
            record {
              nonce_is = ap (λ x. x.nonce) e;
              code_is = ap (λ x. x.code) e;
              suicided_is = ap (λ x. x.suicided) e;
              balance_is = ap (λ x. s.ints x.balance) e ∙ ap s.ints b;
            }),
    )

pub set_nonce-Shows :
    (p : ℕ) (s : StateDb) (nonce : ℕ)
    → Fits s
    → let u = obj_set_nonce s p nonce in
      Touched p s u × Shows u p nonce (s.objs p).code (s.objs p).suicided (obj_balance s p)
unfolding obj_set_nonce
set_nonce-Shows p s nonce fits = written p s (record (s.objs p) { nonce = nonce }) fits refl refl

pub set_code-Shows :
    (world : World) (p : ℕ) (s : StateDb) (code : List ℕ)
    → Fits s
    → let u = obj_set_code world s p code in
      Touched p s u × Shows u p (s.objs p).nonce code (s.objs p).suicided (obj_balance s p)
unfolding obj_set_code
set_code-Shows world p s code fits =
    written p s
      (record (s.objs p) { code = code; code_hash = world.sha256 code; dirty_code = true }) fits
      refl refl

-- A new balance, as `AddBalance` and `SubBalance` set it.
pub new_balance-Shows :
    (p : ℕ) (s : StateDb) (v : ℤ)
    → Fits s
    → let u = on_dirty (obj_set_new s p v) p in
      Touched p s u × Shows u p (s.objs p).nonce (s.objs p).code (s.objs p).suicided v
new_balance-Shows p s v fits =
    let a = obj_set_new-Touched p s v fits in
    let h = obj_set_new-Shows p s v in
    (
      Touched-trans a (on_dirty-Touched p (obj_set_new s p v) a.fits),
      unfold on_dirty obj_balance in
          (record {
            nonce_is = h.nonce_is;
            code_is = h.code_is;
            suicided_is = h.suicided_is;
            balance_is = h.balance_is;
          }),
    )

pub Touched-refl : (p : ℕ) (s : StateDb) → Fits s → Touched p s s
Touched-refl p s fits = record {
  same_objects = refl;
  others = λ q ne. refl;
  ints = λ x l. refl;
  grown = omega arith;
  fits = fits;
  still = refl;
}

-- `SubBalance` gives the difference, or leaves a balance of zero.
pub sub_balance-Shows :
    (p : ℕ) (s : StateDb) (x v : ℤ)
    → Fits s
    → (is_zero_ℤ (obj_balance s p) ≡ true → obj_balance s p ≡ v)
    → (is_zero_ℤ (obj_balance s p) ≡ false → obj_balance s p -ℤ x ≡ v)
    → let u = obj_sub_balance s p x in
      Touched p s u × Shows u p (s.objs p).nonce (s.objs p).code (s.objs p).suicided v
unfolding obj_sub_balance
sub_balance-Shows p s x v fits none_left some_left =
    elim (Bool-cases (is_zero_ℤ (obj_balance s p))) [
      | inl zero ↦ rw zero (
        Touched-refl p s fits,
        record { nonce_is = refl; code_is = refl; suicided_is = refl; balance_is = none_left zero },
      )
      | inr more ↦
          let (a, h) = new_balance-Shows p s (obj_balance s p -ℤ x) fits in
          rw more (
            a,
            record {
              nonce_is = h.nonce_is;
              code_is = h.code_is;
              suicided_is = h.suicided_is;
              balance_is = h.balance_is ∙ some_left more;
            },
          )
    ]

pub mark-Shows :
    (p : ℕ) (s : StateDb) (m : Bool)
    → Fits s
    → let u = obj_mark_suicided s p m in
      Touched p s u × Shows u p (s.objs p).nonce (s.objs p).code m (obj_balance s p)
unfolding obj_mark_suicided obj_balance
mark-Shows p s m fits =
    let o : Object = record (s.objs p) { suicided = m } in
    let e = update_here s.objs p o in
    (
      write_obj-Touched p s o fits (fits p) refl,
      unfold write_obj in
          (record {
            nonce_is = ap (λ x. x.nonce) e;
            code_is = ap (λ x. x.code) e;
            suicided_is = ap (λ x. x.suicided) e;
            balance_is = ap (λ x. s.ints x.balance) e;
          }),
    )

-- A balance that is a `big.Int` that there is.
pub set_balance-Shows :
    (p : ℕ) (s : StateDb) (amount : ℕ)
    → Fits s
    → amount < s.next_int
    → let u = obj_set_balance s p amount in
      Touched p s u × Shows u p (s.objs p).nonce (s.objs p).code (s.objs p).suicided (s.ints amount)
unfolding obj_set_balance obj_balance
set_balance-Shows p s amount fits lt =
    let o : Object = record (s.objs p) { balance = amount } in
    let e = update_here s.objs p o in
    let w = write_obj-Touched p s o fits lt refl in
    (
      Touched-trans w (on_dirty-Touched p (write_obj s p o) w.fits),
      unfold on_dirty write_obj in
          (record {
            nonce_is = ap (λ x. x.nonce) e;
            code_is = ap (λ x. x.code) e;
            suicided_is = ap (λ x. x.suicided) e;
            balance_is = ap (λ x. s.ints x.balance) e;
          }),
    )
