-- ===== src/Executor/Transition/Laws.antt =====
-- Which transactions are applied, and what the sender pays.
use tinychain.Base.{
  ℕ, ◌+◌, ◌-◌, ◌*◌, ◌^◌, ◌<◌, ◌≡◌, refl, sym, ap, ◌∙◌, u64, Bool, true, false, some, ltb, arith,
}
use tinychain.Base.Integers.{pos, ◌+ℤ◌, ◌-ℤ◌, is_zero_ℤ, is_negative_ℤ}
use tinychain.Executor.{add_gas}
use tinychain.State.{
  World, StateDb, get_nonce, nonce_over, charge_gas, charge_over, obj_balance, append, gas_change,
}
use tinychain.State.Touched.{Fits, append-Touched}
use tinychain.State.Shows.{sub_balance-Shows}
use tinychain.State.Undo.{Live, get-Live}
use tinychain.Executor.Transition.{
  Transaction, Vm, VmResult, TransitionError, Outcome, failed, applied, or_created, from_account,
  bought, buy_gas, settled, executed, after_buying, checked, process,
}

-- The price of all the gas, as `buyGas` computes it.
abbrev pub charge : Transaction → ℕ
charge tx = u64 (tx.gas_limit * tx.gas_price)

module _ (world : World) where
  from_account-Live :
      {s : StateDb} {p : ℕ} (tx : Transaction) → Live s tx.from p → from_account world tx s ≡ s
  unfolding from_account or_created
  from_account-Live tx live = rw (get-Live world live) refl

  get_nonce-Live :
      {s : StateDb} {addr p : ℕ} → Live s addr p → get_nonce world s addr ≡ (s, (s.objs p).nonce)
  unfolding get_nonce nonce_over
  get_nonce-Live live = rw (get-Live world live) refl

  pub charge_gas_lem :
      (s : StateDb) (addr p amount : ℕ)
      → Live s addr p
      → Fits s
      → is_zero_ℤ (obj_balance s p) ≡ false
      → obj_balance (charge_gas world s addr amount) p ≡ obj_balance s p -ℤ pos amount
  unfolding charge_gas charge_over
  charge_gas_lem s addr p amount live fits more =
      let b = append s (gas_change addr amount) in
      let same : obj_balance b p ≡ obj_balance s p = unfold append obj_balance in refl in
      let (a, h) =
        sub_balance-Shows p b (pos amount) (obj_balance s p -ℤ pos amount)
          (append-Touched p s (gas_change addr amount) fits).fits
          (λ zero. let k : true ≡ false = sym zero ∙ ap is_zero_ℤ same ∙ more in absurd cc)
          (λ m. ap (λ v. v -ℤ pos amount) same) in
      rw (get-Live world live) (h.balance_is)

  buy_gas-Live :
      (tx : Transaction) (s : StateDb) (p : ℕ)
      → Live s tx.from p
      → buy_gas world tx s ≡ bought world tx (charge tx) (s, some p)
  unfolding buy_gas
  buy_gas-Live tx s p live = rw (from_account-Live tx live, get-Live world live) refl

  -- For an account in memory and a limit of 64 bits, `process` ends by the first of these that is so: the
  -- nonce of the transaction is above that of the account, or below, or the balance is less than the
  -- price of all the gas, each with its error and the state as it was. Otherwise the price is charged
  -- and the machine runs.
  pub process_errors_lem :
      (vm : Vm) (tx : Transaction) (s : StateDb) (p : ℕ)
      → Live s tx.from p
      → tx.gas_limit < 2 ^ 64
      → let nonce = (s.objs p).nonce in
        let short = is_negative_ℤ (obj_balance s p -ℤ pos (charge tx)) in
        (nonce < tx.nonce → process world vm tx s ≡ (s, failed TransitionError.nonce_too_high))
        × (tx.nonce < nonce → process world vm tx s ≡ (s, failed TransitionError.nonce_too_low))
        × (nonce ≡ tx.nonce
            → short ≡ true
            → process world vm tx s ≡ (s, failed TransitionError.balance_not_enough))
        × (nonce ≡ tx.nonce
            → short ≡ false
            → process world vm tx s
              ≡ settled world tx tx.gas_limit
                  (executed world vm tx (charge_gas world s tx.from (charge tx))))
  unfolding process checked after_buying bought add_gas
  process_errors_lem vm tx s p live small =
      let nonce = (s.objs p).nonce in
      (
        (λ above.
            let t : ltb nonce tx.nonce ≡ true = ground arith in rw (get_nonce-Live live, t) refl),
        (λ below.
            let t : ltb nonce tx.nonce ≡ false = ground arith in
            let u : ltb tx.nonce nonce ≡ true = ground arith in
            rw (get_nonce-Live live, t, u) refl),
        (λ same short.
            let t : ltb nonce tx.nonce ≡ false = ground arith in
            let u : ltb tx.nonce nonce ≡ false = ground arith in
            rw (get_nonce-Live live, t, u, buy_gas-Live tx s p live, short) refl),
        (λ same enough.
            let t : ltb nonce tx.nonce ≡ false = ground arith in
            let u : ltb tx.nonce nonce ≡ false = ground arith in
            let fits : ltb (2 ^ 64 - 1 - tx.gas_limit) 0 ≡ false = ground arith in
            let sum : u64 (0 + tx.gas_limit) ≡ tx.gas_limit = omega arith in
            rw (get_nonce-Live live, t, u, buy_gas-Live tx s p live, enough, fits, sum) refl),
      )

  -- The sender's balance with the units of the gas that is left, and the gas used.
  abbrev pub Settles : Transaction → VmResult → ℕ → StateDb × Outcome → Type 0
  Settles tx r p (t, o) =
      (obj_balance t p ≡ obj_balance r.after p +ℤ pos r.left_gas)
      × ((vm_failed : Bool) × (o ≡ applied r.ret (tx.gas_limit - r.left_gas) vm_failed))
