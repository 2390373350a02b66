-- ===== src/Executor/Transition.antt =====
-- One transaction applied to the state: core/executor/state_transition.go, over the accounts of State and
-- the gas pool of Executor. The virtual machine is a parameter.
pub mod Laws
mod Tests
use tinychain.Base.{
  ℕ, ◌+◌, ◌-◌, ◌*◌, ◌^◌, u64, Bool, true, false, Option, none, some, List, ltb, ◌==◌, if◌then◌else◌,
}
use tinychain.Base.Integers.{ℤ, pos, ◌-ℤ◌, is_negative_ℤ}
use tinychain.Executor.{add_gas, sub_gas}
use tinychain.State.{
  World, StateDb, get_state_obj, create_account, get_nonce, set_nonce, charge_gas, add_balance,
  new_int, obj_balance,
}

-- The fields of `types.Transaction` that are read; the address 0 is `Nil`.
pub record Transaction : Type 0 where
  pub from : ℕ
  pub to : ℕ
  pub nonce : ℕ
  pub gas_limit : ℕ
  pub gas_price : ℕ
  pub value : ℤ
  pub payload : List ℕ

pub data VmError : Type 0 where
  insufficient_balance : VmError
  other_error : VmError

pub record VmResult : Type 0 where
  pub after : StateDb
  pub ret : List ℕ
  pub left_gas : ℕ
  pub err : Option VmError

-- `vm.Create` and `vm.Call` on a state, with the transaction.
pub record Vm : Type 0 where
  pub create : Transaction → StateDb → VmResult
  pub call : Transaction → StateDb → VmResult

pub data TransitionError : Type 0 where
  nonce_too_high : TransitionError
  nonce_too_low : TransitionError
  balance_not_enough : TransitionError
  vm_error : TransitionError

-- What `Process` returns: an error, or the bytes, the gas used, and whether the machine failed; a panic
-- of the gas pool or of a `nil` balance is a result of its own.
pub data Outcome : Type 0 where
  failed : TransitionError → Outcome
  applied : List ℕ → ℕ → Bool → Outcome
  panicked : Outcome

module _ (world : World) where
  unfoldable pub or_created : ℕ → StateDb × Option ℕ → StateDb
  or_created addr (s, none) = create_account world s addr
  or_created addr (s, some p) = s

  -- `from`: the sender's account is there after it.
  unfoldable pub from_account : Transaction → StateDb → StateDb
  from_account tx s = or_created tx.from (get_state_obj world s tx.from)

  -- The state, the gas pool, and how buying ends; no result is a panic.
  unfoldable pub bought : Transaction → ℕ → StateDb × Option ℕ → Option (StateDb × ℕ × Bool)
  bought tx amount (s, none) = none
  bought tx amount (s, some p) =
      if is_negative_ℤ (obj_balance s p -ℤ pos amount)
      then some (s, 0, false)
      else (elim (add_gas 0 tx.gas_limit) [
        | none ↦ none
        | some pool ↦ some (charge_gas world s tx.from amount, pool, true)
      ])

  -- `buyGas`: the product of two `uint64` wraps.
  unfoldable pub buy_gas : Transaction → StateDb → Option (StateDb × ℕ × Bool)
  buy_gas tx s =
      bought tx (u64 (tx.gas_limit * tx.gas_price))
        (get_state_obj world (from_account tx s) tx.from)

  -- `refundGas`, of a new `big.Int` with the units that the pool has.
  unfoldable pub refund_gas : Transaction → ℕ → StateDb → StateDb
  refund_gas tx pool s =
      let t = from_account tx s in add_balance world (new_int t (pos pool)) tx.from t.next_int

  -- `SubGas`, whose error is dropped.
  unfoldable pub spent : ℕ → Option ℕ → ℕ
  spent pool none = pool
  spent pool (some rest) = rest

  -- The gas used is taken from the pool, and the deferred refund gives back the rest.
  unfoldable pub ended : Transaction → ℕ → VmResult → Bool → StateDb × Outcome
  ended tx pool r vm_failed =
      let used = u64 (tx.gas_limit + 2 ^ 64 - r.left_gas) in
      (refund_gas tx (spent pool (sub_gas pool used)) r.after, applied r.ret used vm_failed)

  unfoldable pub settled_by : Transaction → ℕ → VmResult → Option VmError → StateDb × Outcome
  settled_by tx pool r (some insufficient_balance) =
      (refund_gas tx pool r.after, failed TransitionError.vm_error)
  settled_by tx pool r (some other_error) = ended tx pool r true
  settled_by tx pool r none = ended tx pool r false

  -- The end of `Process`
  unfoldable pub settled : Transaction → ℕ → VmResult → StateDb × Outcome
  settled tx pool r = settled_by tx pool r r.err

  -- The nonce of the sender, raised before a call.
  unfoldable pub raised : Transaction → StateDb → StateDb
  raised tx s =
      let (t, nonce) = get_nonce world (from_account tx s) tx.from in
      set_nonce world t tx.from (u64 (nonce + 1))

  -- The machine creates a contract, or calls, for which `from` is asked once more.
  unfoldable pub executed : Vm → Transaction → StateDb → VmResult
  executed vm tx s =
      if tx.to == 0 then vm.create tx s else vm.call tx (from_account tx (raised tx s))

  unfoldable pub after_buying :
      Vm → Transaction → StateDb → Option (StateDb × ℕ × Bool) → StateDb × Outcome
  after_buying vm tx s none = (s, panicked)
  after_buying vm tx s (some (t, pool, false)) = (t, failed TransitionError.balance_not_enough)
  after_buying vm tx s (some (t, pool, true)) = settled tx pool (executed vm tx t)

  unfoldable pub checked : Vm → Transaction → StateDb × ℕ → StateDb × Outcome
  checked vm tx (s, nonce) =
      if ltb nonce tx.nonce
      then (s, failed TransitionError.nonce_too_high)
      else (if ltb tx.nonce nonce
          then (s, failed TransitionError.nonce_too_low)
          else after_buying vm tx s (buy_gas tx s))

  -- `Process`, from `preCheck` on
  unfoldable pub process : Vm → Transaction → StateDb → StateDb × Outcome
  process vm tx s = checked vm tx (get_nonce world s tx.from)
