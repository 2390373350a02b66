-- ===== src/Executor/Transition/Tests.antt =====
-- A call that uses 8 of 10 units of gas at a price of 3, and the theorems on it.
use tinychain.Base.{◌<◌, ◌≡◌, refl, true, false, none, [], ◌∷◌, length, arith}
use tinychain.Base.Integers.{pos, ◌-ℤ◌, is_negative_ℤ}
use tinychain.Base.Maps.{lookup}
use tinychain.State.{World, Object, StateDb, obj_balance, charge_gas}
use tinychain.State.Undo.{Live}
use tinychain.Executor.Transition.{
  Transaction, Vm, TransitionError, failed, executed, process, settled,
}
use tinychain.Executor.Transition.Laws.{charge, process_errors_lem}

abbrev blank : World
blank = record { load = λ addr. none; get_code = λ hash. none; sha256 = λ code. length code }

abbrev account : Object
account = record {
  address = 100;
  nonce = 4;
  balance = 0;
  code_hash = 0;
  code = [];
  dirty_code = false;
  suicided = false;
  deleted = false;
}

abbrev rich : StateDb
rich = record {
  ints = λ x. pos 50;
  next_int = 1;
  objs = λ p. account;
  next_obj = 1;
  state_objects = (100, 0) ∷ [];
  dirty = [];
  cache = [];
  journal = [];
  revisions = [];
  next_revision_id = 0;
}

abbrev tx : Transaction
tx = record {
  from = 100;
  to = 200;
  nonce = 4;
  gas_limit = 10;
  gas_price = 3;
  value = pos 0;
  payload = [];
}

abbrev idle : Vm
idle = record {
  create = λ tx s. record { after = s; ret = []; left_gas = 2; err = none };
  call = λ tx s. record { after = s; ret = []; left_gas = 2; err = none };
}

rich-Live : Live rich 100 0
unfolding lookup
rich-Live = record { listed = refl; kept = refl }

abbrev early : Transaction
early = record tx { nonce = 9 }

process_errors_lem_example :
    let short = is_negative_ℤ (obj_balance rich 0 -ℤ pos (charge early)) in
    (account.nonce < early.nonce
      → process blank idle early rich ≡ (rich, failed TransitionError.nonce_too_high))
    × (early.nonce < account.nonce
        → process blank idle early rich ≡ (rich, failed TransitionError.nonce_too_low))
    × (account.nonce ≡ early.nonce
        → short ≡ true
        → process blank idle early rich ≡ (rich, failed TransitionError.balance_not_enough))
    × (account.nonce ≡ early.nonce
        → short ≡ false
        → process blank idle early rich
          ≡ settled blank early 10
              (executed blank idle early (charge_gas blank rich 100 (charge early))))
process_errors_lem_example = process_errors_lem blank idle early rich 0 rich-Live (omega arith)

abbrev paid : StateDb
paid = charge_gas blank rich 100 30
