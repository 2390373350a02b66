-- ===== src/Executor/Validate/Tests.antt =====
-- The checks of a transaction on concrete accounts.
use tinychain.Base.{
  ℕ, ◌+◌, ◌≤◌, ◌≡◌, ◌↔◌, ◌⊎◌, ◌*◌, refl, none, some, [], ◌∷◌, ◌==◌, if◌then◌else◌, length,
}
use tinychain.Base.Integers.{pos}
use tinychain.Executor.Validate.{
  Transaction, Library, Accounts, accepted, panics, validate_tx, validate_txs, is_negative,
  is_below, add_gas_units, cost, cost_of, check_value, check_balance, check_cost, check_nonce,
  check_match, check_address, check_key,
}
use tinychain.Executor.Validate.Laws.{Authentic, Covers, Outcome, validate_tx_iff, validate_txs_lem}

-- A key is its address, and a signature the key and the hash.
abbrev plain : Library
plain = record {
  Key = ℕ;
  unmarshal_public_key = λ b. some (length b);
  gen_addr_by_pubkey = λ k. some k;
  verify = λ k h s. some (length s == k + h);
  hash = λ tx. tx.nonce;
  size = λ tx. length tx.pub_key;
}

-- Only the account 2 exists.
abbrev accounts : Accounts
accounts = record {
  get_nonce = λ a. if a == 2 then 1 else 0;
  get_balance = λ a. if a == 2 then some (pos 100) else none;
}

abbrev payment : Transaction
payment = record {
  nonce = 1;
  gas_limit = 30;
  value = some (pos 70);
  from = 2;
  pub_key = 0 ∷ 0 ∷ [];
  signature = 0 ∷ 0 ∷ 0 ∷ [];
}

abbrev from_nobody : Transaction
from_nobody = record {
  nonce = 0;
  gas_limit = 0;
  value = some (pos 0);
  from = 1;
  pub_key = 0 ∷ [];
  signature = 0 ∷ [];
}

payment_passes : validate_tx plain accounts payment ≡ accepted
unfolding validate_tx check_value check_key check_address check_match check_nonce check_balance
    check_cost cost cost_of add_gas_units is_below is_negative
payment_passes = refl

-- A transaction without a value stops the node before its signature is read.
no_value_panics : validate_tx plain accounts (record payment { value = none }) ≡ panics
unfolding validate_tx check_value
no_value_panics = refl

from_nobody_panics : validate_tx plain accounts from_nobody ≡ panics
unfolding validate_tx check_value check_key check_address check_match check_nonce check_balance
    check_cost cost cost_of add_gas_units is_below is_negative
from_nobody_panics = refl

validate_tx_iff_example :
    ((validate_tx plain accounts payment ≡ accepted)
      ↔ (Authentic plain payment × (1 ≤ 1) × Covers accounts payment))
    × ((validate_tx plain accounts payment ≡ panics) ↔ (
        ((2 ≤ 32 * 1024) × (some (pos 70) ≡ none))
        ⊎ (Authentic plain payment × (1 ≤ 1) × (some (pos 100) ≡ none))))
validate_tx_iff_example = validate_tx_iff plain accounts payment

validate_txs_lem_example :
    Outcome plain accounts
      (payment ∷ payment ∷ [])
      (validate_txs plain accounts (payment ∷ payment ∷ []))
validate_txs_lem_example = validate_txs_lem plain accounts (payment ∷ payment ∷ [])
