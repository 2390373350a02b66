-- ===== src/State.antt =====
-- The accounts in memory and the journal that takes changes back: core/state/statedb.go, journal.go and
-- state_obj.go. A `big.Int` and a `stateObject` are shared by pointer: each stands in a store under the
-- number of its pointer, and what is new gets the next number. The tree, the data base of codes and the
-- hash are a parameter, and so is the content of the cache, a map; no entry is evicted between two
-- commits. Storage, logs, and the commit are not modelled.
pub mod Touched
pub mod Shows
pub mod Undo
pub mod Revert
pub mod Revisions
mod Tests
use tinychain.Base.{
  ℕ, zero, suc, ◌+◌, ◌-◌, Bool, true, false, Option, none, some, List, [], ◌∷◌, ◌++◌, length, take,
  get_elem?, leb, ltb, ◌==◌, if◌then◌else◌, not, ◌&&◌,
}
use tinychain.Base.Integers.{ℤ, pos, ◌+ℤ◌, ◌-ℤ◌, negated, is_zero_ℤ}
use tinychain.Base.Maps.{Entries, lookup, delete, store}

-- `Account`, as the tree holds it.
pub record Account : Type 0 where
  pub nonce : ℕ
  pub balance : ℤ
  pub code_hash : ℕ

-- `bmt.Get` with `Deserialize`, `GetCode` and `Sha256`; no result is an error.
pub record World : Type 0 where
  pub load : ℕ → Option Account
  pub get_code : ℕ → Option (List ℕ)
  pub sha256 : List ℕ → ℕ

-- `stateObject` with its account; the balance is the number of a `big.Int`.
pub record Object : Type 0 where
  pub address : ℕ
  pub nonce : ℕ
  pub balance : ℕ
  pub code_hash : ℕ
  pub code : List ℕ
  pub dirty_code : Bool
  pub suicided : Bool
  pub deleted : Bool

-- The entries of the journal; `reset_object` names the object that was there.
pub data Change : Type 0 where
  create_object : ℕ → Change
  reset_object : ℕ → Change
  suicide_change : ℕ → Bool → ℕ → Change
  balance_change : ℕ → ℕ → Change
  gas_change : ℕ → ℕ → Change
  nonce_change : ℕ → ℕ → Change
  code_change : ℕ → List ℕ → ℕ → Change

-- `StateDB`, with the journal latest entry first, and revisions as pairs of id and index.
pub record StateDb : Type 0 where
  pub ints : ℕ → ℤ
  pub next_int : ℕ
  pub objs : ℕ → Object
  pub next_obj : ℕ
  pub state_objects : Entries ℕ
  pub dirty : List ℕ
  pub cache : Entries ℕ
  pub journal : List Change
  pub revisions : List (ℕ × ℕ)
  pub next_revision_id : ℕ

unfoldable pub update {ℓ} : {A : Type ℓ} → (ℕ → A) → ℕ → A → ℕ → A
update f p a q = if q == p then a else f q

-- What is written through a pointer.
unfoldable pub write_int : StateDb → ℕ → ℤ → StateDb
write_int s p v = record s { ints = update s.ints p v }

unfoldable pub write_obj : StateDb → ℕ → Object → StateDb
write_obj s p o = record s { objs = update s.objs p o }

-- A new `big.Int`, under `next_int`.
unfoldable pub new_int : StateDb → ℤ → StateDb
new_int s v = record s { ints = update s.ints s.next_int v; next_int = s.next_int + 1 }

unfoldable pub append : StateDb → Change → StateDb
append s c = record s { journal = c ∷ s.journal }

-- The methods of `stateObject`, on the object under `p`; `onDirty` is `setDirty`.
unfoldable pub on_dirty : StateDb → ℕ → StateDb
on_dirty s p = record s { dirty = (s.objs p).address ∷ s.dirty }

unfoldable pub obj_set_balance : StateDb → ℕ → ℕ → StateDb
obj_set_balance s p amount = on_dirty (write_obj s p (record (s.objs p) { balance = amount })) p

unfoldable pub obj_balance : StateDb → ℕ → ℤ
obj_balance s p = s.ints (s.objs p).balance

-- `SetBalance` of a new `big.Int`
unfoldable pub obj_set_new : StateDb → ℕ → ℤ → StateDb
obj_set_new s p v = obj_set_balance (new_int s v) p s.next_int

unfoldable pub obj_add_balance : StateDb → ℕ → ℤ → StateDb
obj_add_balance s p amount = on_dirty (obj_set_new s p (obj_balance s p +ℤ amount)) p

unfoldable pub obj_sub_balance : StateDb → ℕ → ℤ → StateDb
obj_sub_balance s p amount =
    if is_zero_ℤ (obj_balance s p)
    then s
    else on_dirty (obj_set_new s p (obj_balance s p -ℤ amount)) p

unfoldable pub obj_set_nonce : StateDb → ℕ → ℕ → StateDb
obj_set_nonce s p nonce = on_dirty (write_obj s p (record (s.objs p) { nonce = nonce })) p

unfoldable pub obj_mark_suicided : StateDb → ℕ → Bool → StateDb
obj_mark_suicided s p b = write_obj s p (record (s.objs p) { suicided = b })

unfoldable pub set_state_obj : StateDb → ℕ → StateDb
set_state_obj s p =
    let a = (s.objs p).address in
    record s { state_objects = store s.state_objects a p; cache = store s.cache a p }

-- `newStateObject`, under `next_obj`, of an account with a new balance.
unfoldable pub new_object : StateDb → ℕ → Account → StateDb
new_object s addr account =
    let t = new_int s account.balance in
    record t {
      objs = update t.objs t.next_obj (record {
        address = addr;
        nonce = account.nonce;
        balance = s.next_int;
        code_hash = account.code_hash;
        code = [];
        dirty_code = false;
        suicided = false;
        deleted = false;
      });
      next_obj = t.next_obj + 1;
    }

module _ (world : World) where
  unfoldable pub obj_set_code : StateDb → ℕ → List ℕ → StateDb
  obj_set_code s p code =
      on_dirty
        (write_obj s p
          (record (s.objs p) { code = code; code_hash = world.sha256 code; dirty_code = true }))
        p

  unfoldable pub with_code : StateDb → ℕ → Option (List ℕ) → StateDb
  with_code s p none = s
  with_code s p (some code) = obj_set_code s p code

  -- `GetStateObj`: what the tree gives becomes an object, what the cache gives is kept.
  unfoldable pub loaded : StateDb → ℕ → Option Account → StateDb × Option ℕ
  loaded s addr none = (s, none)
  loaded s addr (some account) =
      let t = with_code (new_object s addr account) s.next_obj (world.get_code account.code_hash) in
      (set_state_obj t s.next_obj, some s.next_obj)

  unfoldable pub from_cache : StateDb → ℕ → Option ℕ → StateDb × Option ℕ
  from_cache s addr none = loaded s addr (world.load addr)
  from_cache s addr (some p) = (record s { state_objects = store s.state_objects addr p }, some p)

  unfoldable pub found : StateDb → ℕ → Option ℕ → StateDb × Option ℕ
  found s addr none = from_cache s addr (lookup s.cache addr)
  found s addr (some p) = (s, if (s.objs p).deleted then none else some p)

  unfoldable pub get_state_obj : StateDb → ℕ → StateDb × Option ℕ
  get_state_obj s addr = found s addr (lookup s.state_objects addr)

  -- The entry for what was there: nothing, or an object.
  unfoldable pub change_over : ℕ → Option ℕ → Change
  change_over addr none = create_object addr
  change_over addr (some prev) = reset_object prev

  -- `createStateObj`: the new object, and the one before.
  unfoldable pub create_state_obj : StateDb → ℕ → StateDb × ℕ × Option ℕ
  create_state_obj s addr =
      let (t, prev) = get_state_obj s addr in
      let u = new_object t addr (record { nonce = 0; balance = pos 0; code_hash = 0 }) in
      (set_state_obj (append u (change_over addr prev)) t.next_obj, t.next_obj, prev)

  unfoldable pub carry_balance : StateDb × ℕ × Option ℕ → StateDb
  carry_balance (s, p, none) = s
  carry_balance (s, p, some prev) = obj_set_balance s p (s.objs prev).balance

  -- `CreateAccount`: the balance carried over is the same `big.Int`.
  unfoldable pub create_account : StateDb → ℕ → StateDb
  create_account s addr = carry_balance (create_state_obj s addr)

  unfoldable pub created : StateDb × ℕ × Option ℕ → StateDb × ℕ
  created (s, p, prev) = (s, p)

  unfoldable pub or_new : ℕ → StateDb × Option ℕ → StateDb × ℕ
  or_new addr (s, none) = created (create_state_obj s addr)
  or_new addr (s, some p) = if (s.objs p).deleted then created (create_state_obj s addr) else (s, p)

  -- `GetOrNewStateObj`
  unfoldable pub get_or_new_state_obj : StateDb → ℕ → StateDb × ℕ
  get_or_new_state_obj s addr = or_new addr (get_state_obj s addr)

  unfoldable pub nonce_over : StateDb × Option ℕ → StateDb × ℕ
  nonce_over (s, none) = (s, 0)
  nonce_over (s, some p) = (s, (s.objs p).nonce)

  unfoldable pub get_nonce : StateDb → ℕ → StateDb × ℕ
  get_nonce s addr = nonce_over (get_state_obj s addr)

  unfoldable pub set_nonce : StateDb → ℕ → ℕ → StateDb
  set_nonce s addr nonce =
      let (t, p) = get_or_new_state_obj s addr in
      obj_set_nonce (append t (nonce_change addr (t.objs p).nonce)) p nonce

  -- `SetBalance`: `prev.Sub(target, prev)` writes to the balance that is being replaced.
  unfoldable pub set_balance : StateDb → ℕ → ℕ → StateDb
  set_balance s addr target =
      let (t, p) = get_or_new_state_obj s addr in
      let prev = (t.objs p).balance in
      let u = write_int t prev (t.ints target -ℤ t.ints prev) in
      obj_set_balance (append u (balance_change addr prev)) p target

  unfoldable pub add_balance : StateDb → ℕ → ℕ → StateDb
  add_balance s addr amount =
      let (t, p) = get_or_new_state_obj s addr in
      obj_add_balance (append t (balance_change addr amount)) p (t.ints amount)

  -- `SubBalance`: `amount.Mul(amount, -1)` writes to the amount.
  unfoldable pub sub_balance : StateDb → ℕ → ℕ → StateDb
  sub_balance s addr amount =
      let (t, p) = get_or_new_state_obj s addr in
      let u = write_int t amount (negated (t.ints amount)) in
      obj_sub_balance (append u (balance_change addr amount)) p (u.ints amount)

  unfoldable pub charge_over : ℕ → ℕ → StateDb × Option ℕ → StateDb
  charge_over addr amount (s, none) = s
  charge_over addr amount (s, some p) =
      obj_sub_balance (append s (gas_change addr amount)) p (pos amount)

  -- `ChargeGas`
  unfoldable pub charge_gas : StateDb → ℕ → ℕ → StateDb
  charge_gas s addr amount = charge_over addr amount (get_state_obj s addr)

  unfoldable pub set_code : StateDb → ℕ → List ℕ → StateDb
  set_code s addr code =
      let (t, p) = get_or_new_state_obj s addr in
      obj_set_code (append t (code_change addr (t.objs p).code (t.objs p).code_hash)) p code

  unfoldable pub suicide_over : ℕ → StateDb × Option ℕ → StateDb × Bool
  suicide_over addr (s, none) = (s, false)
  suicide_over addr (s, some p) =
      let o = s.objs p in
      let t = append s (suicide_change addr o.suicided o.balance) in
      (obj_set_new (obj_mark_suicided t p true) p (pos 0), true)

  unfoldable pub suicide : StateDb → ℕ → StateDb × Bool
  suicide s addr = suicide_over addr (get_state_obj s addr)

  -- The `undo` of an entry, on the object that `GetStateObj` gives.
  unfoldable pub undo_over : Change → StateDb × Option ℕ → StateDb
  undo_over c (s, none) = s
  undo_over (create_object addr) (s, some p) = s
  undo_over (reset_object prev) (s, some p) = s
  undo_over (suicide_change addr prev balance) (s, some p) =
      obj_set_balance (obj_mark_suicided s p prev) p balance
  undo_over (balance_change addr amount) (s, some p) = obj_sub_balance s p (s.ints amount)
  undo_over (gas_change addr amount) (s, some p) = obj_add_balance s p (pos amount)
  undo_over (nonce_change addr nonce) (s, some p) = obj_set_nonce s p nonce
  undo_over (code_change addr code hash) (s, some p) = obj_set_code s p code

  -- `delete(s.stateObjectsDirty, addr)`
  unfoldable pub undirtied : List ℕ → ℕ → List ℕ
  undirtied [] addr = []
  undirtied (a ∷ l) addr = let rest = undirtied l addr in if a == addr then rest else a ∷ rest

  unfoldable pub undo : Change → StateDb → StateDb
  undo (create_object addr) s = record s {
    state_objects = delete s.state_objects addr;
    dirty = undirtied s.dirty addr;
  }
  undo (reset_object prev) s = set_state_obj s prev
  undo (suicide_change addr prev balance) s =
      undo_over (suicide_change addr prev balance) (get_state_obj s addr)
  undo (balance_change addr amount) s =
      undo_over (balance_change addr amount) (get_state_obj s addr)
  undo (gas_change addr amount) s = undo_over (gas_change addr amount) (get_state_obj s addr)
  undo (nonce_change addr nonce) s = undo_over (nonce_change addr nonce) (get_state_obj s addr)
  undo (code_change addr code hash) s =
      undo_over (code_change addr code hash) (get_state_obj s addr)

  -- The loop of `journal.revert`, over the entries from the latest on.
  unfoldable pub unwind : List Change → ℕ → StateDb → StateDb
  unwind [] n s = record s { journal = [] }
  unwind (c ∷ cs) n s =
      let rest = unwind cs n (undo c s) in
      if leb (length (c ∷ cs)) n then record s { journal = c ∷ cs } else rest

-- `Snapshot`
unfoldable pub snapshot : StateDb → StateDb × ℕ
snapshot s = (
  record s {
    next_revision_id = s.next_revision_id + 1;
    revisions = s.revisions ++ ((s.next_revision_id, length s.journal) ∷ []);
  },
  s.next_revision_id,
)

-- The loop of `RevertToSnapshot`: the first revision whose id is not below, or the first one of all.
unfoldable pub first_from : List (ℕ × ℕ) → ℕ → Option (ℕ × ℕ)
first_from [] id = none
first_from ((i, j) ∷ revisions) id =
    let rest = first_from revisions id in if leb id i then some (i, j) else rest

unfoldable pub revision_at : List (ℕ × ℕ) → Option (ℕ × ℕ) → Option (ℕ × ℕ)
revision_at revisions (some r) = some r
revision_at revisions none = get_elem? revisions 0

unfoldable pub reverted : World → StateDb → ℕ → Option (ℕ × ℕ) → Option StateDb
reverted world s id none = none
reverted world s id (some (i, j)) =
    if i == id
    then some (record (unwind world s.journal j s) {
      revisions = take id s.revisions;
      next_revision_id = id;
    })
    else none

-- `RevertToSnapshot`: no result is the panic.
unfoldable pub revert_to_snapshot : World → StateDb → ℕ → Option StateDb
revert_to_snapshot world s id =
    reverted world s id (revision_at s.revisions (first_from s.revisions id))
