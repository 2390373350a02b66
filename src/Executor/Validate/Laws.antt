-- ===== src/Executor/Validate/Laws.antt =====
-- Which transactions pass the checks.
use tinychain.Base.{
  ap, ◌⊎◌, ◌∙◌, ℕ, ◌+◌, ◌≤◌, ◌≡◌, ◌↔◌, refl, Bool, true, false, Option, none, some, List, [], ◌∷◌,
  arith, inl, inr, Bool-cases, ltb, ◌==◌,
}
use tinychain.Base.Integers.{ℤ, pos, negsuc}
use tinychain.Executor.Validate.{
  is_negative, is_below, add_gas_units, cost, cost_of, Transaction, Library, Accounts, Verdict,
  TxError, accepted, refused, panics, max_tx_size, check_value, check_balance, check_cost,
  check_nonce, check_match, check_address, check_key, sorted_in, validate_txs, validate_tx,
}

-- The checks before those of the state.
pub record Authentic (library : Library) (tx : Transaction) : Type 0 where
  pub small : library.size tx ≤ max_tx_size
  pub amount : ℕ
  pub amount_read : tx.value ≡ some (pos amount)
  pub key : library.Key
  pub key_read : library.unmarshal_public_key tx.pub_key ≡ some key
  pub own_address : library.gen_addr_by_pubkey key ≡ some tx.from
  pub signed : library.verify key (library.hash tx) tx.signature ≡ some true

module _ (library : Library) (state : Accounts) (tx : Transaction) (r : Verdict)
    (passed : (e : TxError) → ¬ (refused e ≡ r)) where
  match_passed :
      (m : Option Bool)
      → check_match library state tx m ≡ r
      → (m ≡ some true) × (check_nonce library state tx ≡ r)
  unfolding check_match
  match_passed none h = absurd (passed TxError.library_error h)
  match_passed (some false) h = absurd (passed TxError.sign_mismatch h)
  match_passed (some true) h = (refl, h)

  address_passed :
      (key : library.Key) (a : Option ℕ)
      → check_address library state tx key a ≡ r
      → (a ≡ some tx.from)
        × (library.verify key (library.hash tx) tx.signature ≡ some true)
        × (check_nonce library state tx ≡ r)
  unfolding check_address
  address_passed key none h = absurd (passed TxError.library_error h)
  address_passed key (some a) h = elim (Bool-cases (a == tx.from)) [
    | inl e ↦
        let same : a ≡ tx.from = ground arith in
        let rest = match_passed (library.verify key (library.hash tx) tx.signature) (rw e at h) in
        ((λ i. some (same i)), rest.0, rest.1)
    | inr e ↦ absurd (passed TxError.invalid_sender (rw e at h))
  ]

  key_passed :
      (k : Option library.Key)
      → check_key library state tx k ≡ r
      → (key : library.Key) × (k ≡ some key)
        × (check_address library state tx key (library.gen_addr_by_pubkey key) ≡ r)
  unfolding check_key
  key_passed none h = absurd (passed TxError.library_error h)
  key_passed (some key) h = (key, refl, h)

  value_passed :
      (x : Option ℤ)
      → check_value library state tx x ≡ r
      → ((x ≡ none) × (panics ≡ r))
        ⊎ ((n : ℕ) × (x ≡ some (pos n))
            × (check_key library state tx (library.unmarshal_public_key tx.pub_key) ≡ r))
  unfolding check_value is_negative
  value_passed none h = inl (refl, h)
  value_passed (some (pos n)) h = inr (n, refl, h)
  value_passed (some (negsuc n)) h = absurd (passed TxError.negative_value h)

  all_passed :
      validate_tx library state tx ≡ r
      → ((library.size tx ≤ max_tx_size) × (tx.value ≡ none) × (panics ≡ r))
        ⊎ (Authentic library tx × (check_nonce library state tx ≡ r))
  unfolding validate_tx
  all_passed h = elim (Bool-cases (ltb max_tx_size (library.size tx))) [
    | inl large ↦ absurd (passed TxError.tx_too_large (rw large at h))
    | inr small ↦ elim (value_passed tx.value (rw small at h)) [
      | inl (nil, stopped) ↦ inl (ground arith, nil, stopped)
      | inr (n, whole, k) ↦
          let (key, read, found) = key_passed (library.unmarshal_public_key tx.pub_key) k in
          let rest = address_passed key (library.gen_addr_by_pubkey key) found in
          inr (
            record {
              small = ground arith;
              amount = n;
              amount_read = whole;
              key = key;
              key_read = read;
              own_address = rest.0;
              signed = rest.1;
            },
            rest.2,
          )
    ]
  ]

Authentic-check_nonce :
    (library : Library) (state : Accounts) (tx : Transaction)
    → Authentic library tx
    → validate_tx library state tx ≡ check_nonce library state tx
unfolding validate_tx check_value check_key check_address check_match is_negative
Authentic-check_nonce library state tx h =
    let small : ltb max_tx_size (library.size tx) ≡ false = ground (arith, h.small) in
    let same : (tx.from == tx.from) ≡ true = ground arith in
    rw small (
      ap (check_value library state tx) h.amount_read
      ∙ rw (h.key_read, h.own_address, same, h.signed) refl)

-- A balance that covers the cost of a transaction, its value and its limit of gas.
pub record Covers (state : Accounts) (tx : Transaction) : Type 0 where
  pub amount : ℕ
  pub balance : ℕ
  pub amount_read : tx.value ≡ some (pos amount)
  pub balance_read : state.get_balance tx.from ≡ some (pos balance)
  pub enough : amount + tx.gas_limit ≤ balance

module _ (library : Library) (state : Accounts) (tx : Transaction) where
  enough_balance :
      (b : Option ℤ)
      → (v : ℕ) → tx.value ≡ some (pos v)
      → check_balance library state tx b ≡ accepted
      → (n : ℕ) × (b ≡ some (pos n)) × (v + tx.gas_limit ≤ n)
  unfolding check_balance check_cost cost cost_of add_gas_units is_below
  enough_balance none v e h = absurd cc
  enough_balance (some (negsuc n)) v e h =
      let k : refused TxError.balance_not_enough ≡ accepted = rw e at h in absurd cc
  enough_balance (some (pos n)) v e h = elim (Bool-cases (ltb n (v + tx.gas_limit))) [
    | inl low ↦
        let k : refused TxError.balance_not_enough ≡ accepted = rw (e, low) at h in absurd cc
    | inr le ↦ (n, refl, ground arith)
  ]

  missing_balance :
      (b : Option ℤ)
      → (v : ℕ) → tx.value ≡ some (pos v)
      → check_balance library state tx b ≡ panics
      → b ≡ none
  unfolding check_balance check_cost cost cost_of add_gas_units is_below
  missing_balance none v e h = refl
  missing_balance (some b) v e h =
      elim (Bool-cases (is_below b (add_gas_units (pos v) tx.gas_limit))) [
        | inl low ↦
            let k : refused TxError.balance_not_enough ≡ panics = rw (e, low) at h in absurd cc
        | inr le ↦ let k : accepted ≡ panics = rw (e, le) at h in absurd cc
      ]

  nonce_accepted :
      Authentic library tx
      → check_nonce library state tx ≡ accepted
      → Authentic library tx × (state.get_nonce tx.from ≤ tx.nonce) × Covers state tx
  unfolding check_nonce
  nonce_accepted authentic found = elim (Bool-cases (ltb tx.nonce (state.get_nonce tx.from))) [
    | inl low ↦ let k : refused TxError.nonce_too_low ≡ accepted = rw low at found in absurd cc
    | inr fresh ↦
        let (n, read, le) =
          enough_balance (state.get_balance tx.from) authentic.amount authentic.amount_read
            (rw fresh at found) in
        (
          authentic,
          ground arith,
          record {
            amount = authentic.amount;
            balance = n;
            amount_read = authentic.amount_read;
            balance_read = read;
            enough = le;
          },
        )
  ]

  nonce_panicked :
      Authentic library tx
      → check_nonce library state tx ≡ panics
      → Authentic library tx
        × (state.get_nonce tx.from ≤ tx.nonce)
        × (state.get_balance tx.from ≡ none)
  unfolding check_nonce
  nonce_panicked authentic found = elim (Bool-cases (ltb tx.nonce (state.get_nonce tx.from))) [
    | inl low ↦ let k : refused TxError.nonce_too_low ≡ panics = rw low at found in absurd cc
    | inr fresh ↦ (
      authentic,
      ground arith,
      missing_balance (state.get_balance tx.from) authentic.amount authentic.amount_read
          (rw fresh at found),
    )
  ]

  -- A transaction passes exactly when it is small, of a value that is not negative, signed by the key of
  -- its sender, of a nonce that is not used yet, and covered by the balance. It makes the node panic
  -- exactly when it is small and has no value, or passes the other checks and its sender has no balance.
  pub validate_tx_iff :
      ((validate_tx library state tx ≡ accepted)
        ↔ (Authentic library tx × (state.get_nonce tx.from ≤ tx.nonce) × Covers state tx))
      × ((validate_tx library state tx ≡ panics) ↔ (
          ((library.size tx ≤ max_tx_size) × (tx.value ≡ none))
          ⊎ (Authentic library tx
              × (state.get_nonce tx.from ≤ tx.nonce)
              × (state.get_balance tx.from ≡ none))))
  unfolding validate_tx check_value check_nonce check_balance check_cost cost cost_of add_gas_units
      is_below
  validate_tx_iff = (
    (
      (λ h. elim (all_passed library state tx accepted (λ e k. cc) h) [
        | inl (small, nil, stopped) ↦ absurd cc
        | inr (authentic, found) ↦ nonce_accepted authentic found
      ]),
      (λ (authentic, fresh, covers).
          let next : ltb tx.nonce (state.get_nonce tx.from) ≡ false = ground (arith, fresh) in
          let enough : ltb covers.balance (covers.amount + tx.gas_limit) ≡ false =
            ground (arith, covers.enough) in
          Authentic-check_nonce library state tx authentic
          ∙ rw (next, covers.balance_read, covers.amount_read, enough) refl),
    ),
    (
      (λ h. elim (all_passed library state tx panics (λ e k. cc) h) [
        | inl (small, nil, stopped) ↦ inl (small, nil)
        | inr (authentic, found) ↦ inr (nonce_panicked authentic found)
      ]),
      (λ h. elim h [
        | inl (small, nil) ↦
            let fits : ltb max_tx_size (library.size tx) ≡ false = ground (arith, small) in
            rw fits (ap (check_value library state tx) nil)
        | inr (authentic, fresh, missing) ↦
            let next : ltb tx.nonce (state.get_nonce tx.from) ≡ false = ground (arith, fresh) in
            Authentic-check_nonce library state tx authentic ∙ rw (next, missing) refl
      ]),
    ),
  )

-- The list of transactions, dealt out in order to those that pass and those that do not.
pub data Dealt (library : Library) (state : Accounts)
    : (txs valid invalid : List Transaction) → Type 0 where
  nothing : Dealt library state [] [] []
  passes :
      {tx : Transaction} {txs valid invalid : List Transaction}
      → validate_tx library state tx ≡ accepted
      → Dealt library state txs valid invalid
      → Dealt library state (tx ∷ txs) (tx ∷ valid) invalid
  fails :
      {tx : Transaction} {txs valid invalid : List Transaction} {e : TxError}
      → validate_tx library state tx ≡ refused e
      → Dealt library state txs valid invalid
      → Dealt library state (tx ∷ txs) valid (tx ∷ invalid)

-- A list on which the node panics: some transaction of it makes it.
pub data SomePanics (library : Library) (state : Accounts) : List Transaction → Type 0 where
  here :
      {tx : Transaction} {txs : List Transaction}
      → validate_tx library state tx ≡ panics
      → SomePanics library state (tx ∷ txs)
  there :
      {tx : Transaction} {txs : List Transaction}
      → SomePanics library state txs
      → SomePanics library state (tx ∷ txs)

-- What comes of a list: a panic, or the two lists.
pub data Outcome (library : Library) (state : Accounts) (txs : List Transaction)
    : Option (List Transaction × List Transaction) → Type 0 where
  panicked : SomePanics library state txs → Outcome library state txs none
  dealt :
      {valid invalid : List Transaction}
      → Dealt library state txs valid invalid
      → Outcome library state txs (some (valid, invalid))

module _ (library : Library) (state : Accounts) where
  Verdict-cases : (r : Verdict) → (r ≡ accepted) ⊎ ((e : TxError) × (r ≡ refused e)) ⊎ (r ≡ panics)
  Verdict-cases accepted = inl refl
  Verdict-cases (refused e) = inr (inl (e, refl))
  Verdict-cases panics = inr (inr refl)

  sorted_in-Outcome :
      (tx : Transaction) (txs : List Transaction)
      (rest : Option (List Transaction × List Transaction))
      → Outcome library state txs rest
      → Outcome library state
          (tx ∷ txs)
          (sorted_in library state tx (validate_tx library state tx) rest)
  unfolding sorted_in
  sorted_in-Outcome tx txs none (panicked p) = elim (Verdict-cases (validate_tx library state tx)) [
    | inl h ↦ rw h (panicked (there p))
    | inr (inl (e, h)) ↦ rw h (panicked (there p))
    | inr (inr h) ↦ rw h (panicked (there p))
  ]
  sorted_in-Outcome tx txs (some (valid, invalid)) (dealt d) =
      elim (Verdict-cases (validate_tx library state tx)) [
        | inl h ↦ rw h (dealt (passes h d))
        | inr (inl (e, h)) ↦ rw h (dealt (fails h d))
        | inr (inr h) ↦ rw h (panicked (here h))
      ]

  -- A list of transactions is dealt out, in its order, to those that pass and those that are refused,
  -- unless one of them makes the node panic.
  pub validate_txs_lem :
      (txs : List Transaction) → Outcome library state txs (validate_txs library state txs)
  unfolding validate_txs
  validate_txs_lem [] = dealt nothing
  validate_txs_lem (tx ∷ txs) =
      sorted_in-Outcome tx txs (validate_txs library state txs) (validate_txs_lem txs)
