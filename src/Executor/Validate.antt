-- ===== src/Executor/Validate.antt =====
-- The checks of a transaction before it enters the pool: core/executor/validator_tx.go, with
-- GetNonce and GetBalance of core/state/statedb.go. Keys, signatures, hashes and the encoding whose
-- length is the size are those of libraries, a parameter.
pub mod Laws
mod Tests
use tinychain.Base.{
  ℕ, ◌+◌, ◌-◌, ◌*◌, Bool, true, false, Option, none, some, List, [], ◌∷◌, ◌++◌, ltb, ◌==◌,
  if◌then◌else◌,
}
use tinychain.Base.Integers.{ℤ, pos, negsuc}

-- `x.Sign() < 0`
unfoldable pub is_negative : ℤ → Bool
is_negative (pos n) = false
is_negative (negsuc n) = true

-- `new(big.Int).Add(x, new(big.Int).SetUint64(n))`
unfoldable pub add_gas_units : ℤ → ℕ → ℤ
add_gas_units (pos m) n = pos (m + n)
add_gas_units (negsuc m) n = if ltb m n then pos (n - (m + 1)) else negsuc (m - n)

-- `x.Cmp(y) < 0`
unfoldable pub is_below : ℤ → ℤ → Bool
is_below (pos m) (pos n) = ltb m n
is_below (pos m) (negsuc n) = false
is_below (negsuc m) (pos n) = true
is_below (negsuc m) (negsuc n) = ltb n m

-- The fields of `types.Transaction` that the checks read; the value may be `nil`.
pub record Transaction : Type 0 where
  pub nonce : ℕ
  pub gas_limit : ℕ
  pub value : Option ℤ
  pub from : ℕ
  pub pub_key : List ℕ
  pub signature : List ℕ

-- `Cost`; no result is the panic on a `nil` value.
unfoldable pub cost_of : ℕ → Option ℤ → Option ℤ
cost_of gas_limit none = none
cost_of gas_limit (some value) = some (add_gas_units value gas_limit)

unfoldable pub cost : Transaction → Option ℤ
cost tx = cost_of tx.gas_limit tx.value

-- `UnmarshalPublicKey`, `GenAddrByPubkey`, `Verify`, `Hash` and `Size`; no result is an error.
pub record Library : Type 1 where
  pub Key : Type 0
  pub unmarshal_public_key : List ℕ → Option Key
  pub gen_addr_by_pubkey : Key → Option ℕ
  pub verify : Key → ℕ → List ℕ → Option Bool
  pub hash : Transaction → ℕ
  pub size : Transaction → ℕ

-- `GetNonce` and `GetBalance` of the state; the balance of an address without an account is `nil`.
pub record Accounts : Type 0 where
  pub get_nonce : ℕ → ℕ
  pub get_balance : ℕ → Option ℤ

pub data TxError : Type 0 where
  tx_too_large : TxError
  negative_value : TxError
  library_error : TxError
  invalid_sender : TxError
  sign_mismatch : TxError
  nonce_too_low : TxError
  balance_not_enough : TxError

-- A `nil` error, an error, or a panic.
pub data Verdict : Type 0 where
  accepted : Verdict
  refused : TxError → Verdict
  panics : Verdict

-- `types.MaxTxSize`
abbrev pub max_tx_size : ℕ
max_tx_size = 32 * 1024

module _ (library : Library) (state : Accounts) (tx : Transaction) where
  unfoldable pub check_cost : ℤ → Option ℤ → Verdict
  check_cost balance none = panics
  check_cost balance (some cost) =
      if is_below balance cost then refused TxError.balance_not_enough else accepted

  -- `Cmp` reads the fields of a `nil` balance.
  unfoldable pub check_balance : Option ℤ → Verdict
  check_balance none = panics
  check_balance (some balance) = check_cost balance (cost tx)

  unfoldable pub check_nonce : Verdict
  check_nonce =
      if ltb tx.nonce (state.get_nonce tx.from)
      then refused TxError.nonce_too_low
      else check_balance (state.get_balance tx.from)

  unfoldable pub check_match : Option Bool → Verdict
  check_match none = refused TxError.library_error
  check_match (some false) = refused TxError.sign_mismatch
  check_match (some true) = check_nonce

  unfoldable pub check_address : library.Key → Option ℕ → Verdict
  check_address key none = refused TxError.library_error
  check_address key (some addr) =
      if addr == tx.from
      then check_match (library.verify key (library.hash tx) tx.signature)
      else refused TxError.invalid_sender

  unfoldable pub check_key : Option library.Key → Verdict
  check_key none = refused TxError.library_error
  check_key (some key) = check_address key (library.gen_addr_by_pubkey key)

  -- `Sign` reads the fields of a `nil` value.
  unfoldable pub check_value : Option ℤ → Verdict
  check_value none = panics
  check_value (some value) =
      if is_negative value
      then refused TxError.negative_value
      else check_key (library.unmarshal_public_key tx.pub_key)

  -- `ValidateTx`
  unfoldable pub validate_tx : Verdict
  validate_tx =
      if ltb max_tx_size (library.size tx)
      then refused TxError.tx_too_large
      else check_value tx.value

-- `ValidateTxs`: the valid and the invalid ones; no result is a panic.
module _ (library : Library) (state : Accounts) where
  unfoldable pub sorted_in :
      Transaction
      → Verdict
      → Option (List Transaction × List Transaction)
      → Option (List Transaction × List Transaction)
  sorted_in tx panics rest = none
  sorted_in tx (refused e) none = none
  sorted_in tx (refused e) (some (valid, invalid)) = some (valid, tx ∷ invalid)
  sorted_in tx accepted none = none
  sorted_in tx accepted (some (valid, invalid)) = some (tx ∷ valid, invalid)

  unfoldable pub validate_txs : List Transaction → Option (List Transaction × List Transaction)
  validate_txs [] = some ([], [])
  validate_txs (tx ∷ txs) = sorted_in tx (validate_tx library state tx) (validate_txs txs)
