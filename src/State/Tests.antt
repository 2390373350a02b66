-- ===== src/State/Tests.antt =====
-- Two accounts in memory, and the theorems on them.
use tinychain.Base.{
  ℕ, ◌+◌, ◌≤◌, ◌<◌, ◌≡◌, refl, false, none, some, List, [], ◌∷◌, length, ◌==◌, if◌then◌else◌, arith,
}
use tinychain.Base.Integers.{pos, ◌+ℤ◌, negated, is_zero_ℤ}
use tinychain.Base.Maps.{lookup, store, delete}
use tinychain.State.{
  World, Object, StateDb, Change, update, write_obj, new_int, append, on_dirty, obj_set_balance,
  obj_balance, obj_set_new, obj_add_balance, obj_sub_balance, get_state_obj, found,
  get_or_new_state_obj, or_new, add_balance, sub_balance, charge_gas, charge_over, snapshot,
  revert_to_snapshot, undo, undo_over, create_account, create_state_obj, change_over, carry_balance,
  new_object, set_state_obj, from_cache, loaded,
}
use tinychain.State.Touched.{Fits, Undone}
use tinychain.State.Undo.{Live, nonce_to, balance_by}
use tinychain.State.Revert.{Run, here, next, revert_lem}
use tinychain.State.Revisions.{IsOrdered, revisions_lem, sub_balance_lem}

-- Nothing on the disk.
abbrev blank : World
blank = record { load = λ addr. none; get_code = λ hash. none; sha256 = λ code. length code }

abbrev object_of : ℕ → Object
object_of p = record {
  address = 100 + p;
  nonce = 3;
  balance = p;
  code_hash = 0;
  code = [];
  dirty_code = false;
  suicided = false;
  deleted = false;
}

-- The accounts 100 and 101 have 50 each, and there is a `big.Int` of 5 for an amount.
abbrev two_accounts : StateDb
two_accounts = record {
  ints = λ x. if x == 2 then pos 5 else pos 50;
  next_int = 3;
  objs = λ p. if p == 0 then object_of 0 else object_of 1;
  next_obj = 2;
  state_objects = (100, 0) ∷ (101, 1) ∷ [];
  dirty = [];
  cache = [];
  journal = [];
  revisions = [];
  next_revision_id = 0;
}

two_accounts-Fits : Fits two_accounts
two_accounts-Fits p = ground arith

first-Live : Live two_accounts 100 0
unfolding lookup
first-Live = record { listed = refl; kept = refl }

-- After a snapshot, 100 gets 5, and its nonce is raised.
two_changes : (cs : List Change) × (t : StateDb) × Run blank (snapshot two_accounts).0 cs t
unfolding lookup snapshot add_balance get_or_new_state_obj or_new get_state_obj found append
    obj_add_balance obj_set_new obj_set_balance obj_balance new_int write_obj on_dirty update ◌+ℤ◌
    is_zero_ℤ
two_changes =
    let start = (snapshot two_accounts).0 in
    let none_yet : Run blank start [] start = here in
    let one =
      next (balance_by 2) 100 0 none_yet (record { listed = refl; kept = refl })
        (omega arith, λ zero. absurd cc) in
    let two = next (nonce_to 9) 100 0 one (record { listed = refl; kept = refl }) tt in (_, _, two)

revert_lem_example :
    (u : StateDb) × (revert_to_snapshot blank two_changes.1 (snapshot two_accounts).1 ≡ some u)
    × Undone two_accounts u
    × (u.journal ≡ [])
    × (u.revisions ≡ [])
    × (u.next_revision_id ≡ 0)
revert_lem_example = revert_lem blank two_accounts two_accounts-Fits tt refl two_changes.2

revisions_lem_example :
    (IsOrdered (snapshot two_accounts).0 × ((snapshot two_accounts).1 ≡ 0))
    × (0 ≤ 4 → revert_to_snapshot blank two_accounts 4 ≡ none)
    × (4 < 0
        → (u : StateDb) × (revert_to_snapshot blank two_accounts 4 ≡ some u)
          × IsOrdered u
          × (length u.revisions ≡ 4))
revisions_lem_example = revisions_lem blank two_accounts 4 (tt, refl)

sub_balance_lem_example :
    let u = sub_balance blank two_accounts 100 2 in
    (obj_balance u 0 ≡ pos 55) × (u.ints 2 ≡ negated (pos 5))
unfolding obj_balance ◌+ℤ◌ is_zero_ℤ
sub_balance_lem_example =
    sub_balance_lem blank two_accounts 100 0 2 first-Live two_accounts-Fits (omega arith)
      (λ e. absurd cc) refl

-- An account that is created and taken back is still found in the cache.
created_and_undone :
    (get_state_obj blank
      (undo blank (Change.create_object 7) (create_account blank two_accounts 7))
      7).1
    ≡ some 2
unfolding get_state_obj found from_cache loaded undo create_account create_state_obj change_over
    carry_balance new_object set_state_obj append new_int lookup store delete update
created_and_undone = refl

-- Gas charged to a balance of 0 is not taken, and giving it back makes money.
abbrev poor : StateDb
poor = record two_accounts { ints = λ x. pos 0 }

gas_from_nothing :
    obj_balance (undo blank (Change.gas_change 100 21) (charge_gas blank poor 100 21)) 0 ≡ pos 21
unfolding get_state_obj found undo undo_over charge_gas charge_over obj_sub_balance obj_add_balance
    obj_set_new obj_set_balance obj_balance on_dirty write_obj append new_int lookup update ◌+ℤ◌
    is_zero_ℤ
gas_from_nothing = refl
