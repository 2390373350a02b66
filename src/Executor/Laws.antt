-- ===== src/Executor/Laws.antt =====
-- What the gas pool and the header checks decide.
use tinychain.Base.{
  ℕ, ◌+◌, ◌-◌, ◌^◌, ◌≤◌, ◌<◌, ◌≡◌, ◌↔◌, ◌⊎◌, inl, inr, refl, u64, Option, none, some, length, ltb,
  arith, Bool-cases,
}
use tinychain.Executor.{
  add_gas, sub_gas, Header, Chain, check_header, check_parent, check_unknown, validate_header,
}

-- For a pool and an amount of 64 bits: `add_gas` panics exactly when the sum has more than 64 bits
-- and adds otherwise, and `sub_gas` then gives the pool back.
pub gas_pool_lem :
    (pool amount : ℕ)
    → pool < 2 ^ 64
    → amount < 2 ^ 64
    → ((2 ^ 64 ≤ pool + amount) × (add_gas pool amount ≡ none))
      ⊎ ((pool + amount < 2 ^ 64)
          × (add_gas pool amount ≡ some (pool + amount))
          × (sub_gas (pool + amount) amount ≡ some pool))
unfolding add_gas sub_gas
gas_pool_lem pool amount h k = elim (Bool-cases (ltb (2 ^ 64 - 1 - amount) pool)) [
  | inl c ↦ inl (ground arith, rw c refl)
  | inr c ↦ inr (ground arith, ground arith, ground arith)
]

-- What a header has to satisfy against its parent.
pub record Follows (max_extra_length : ℕ) (parent header : Header) : Type 0 where
  pub later : parent.time < header.time
  pub within_limit : header.gas_used ≤ header.gas_limit
  pub next_height : header.height ≡ u64 (parent.height + 1)
  pub extra_fits : length header.extra ≤ max_extra_length

check_header_iff :
    (max_extra_length : ℕ) (parent header : Header)
    → (check_header max_extra_length parent header ≡ none) ↔ Follows max_extra_length parent header
unfolding check_header
check_header_iff max_extra_length parent header = (λ h. ground arith, λ h. ground arith)

-- The headers that are taken: one that the chain knows, one above height 0 with an unknown parent,
-- and one that follows its parent.
abbrev pub IsTaken : ℕ → Header → Option Header → Option Header → Type 0
IsTaken max_extra_length header (some known) parent = Unit
IsTaken max_extra_length header none none = 0 < header.height
IsTaken max_extra_length header none (some parent) = Follows max_extra_length parent header

decided :
    (max_extra_length : ℕ) (header : Header) (known parent : Option Header)
    → (check_unknown known (check_parent max_extra_length parent header) ≡ none)
      ↔ IsTaken max_extra_length header known parent
unfolding check_unknown check_parent
decided max_extra_length header (some known) parent = (λ h. tt, λ h. refl)
decided max_extra_length header none none = (λ h. ground arith, λ h. ground arith)
decided max_extra_length header none (some parent) = check_header_iff max_extra_length parent header

-- `validate_header` has no error exactly for a header that the chain knows, for one above height 0
-- whose parent is unknown, and for one that follows its known parent: later in time, of the next
-- height, with gas used within its limit and extra data within the maximum.
pub validate_header_iff :
    (chain : Chain) (max_extra_length : ℕ) (header : Header)
    → (validate_header chain max_extra_length header ≡ none)
      ↔ IsTaken max_extra_length header
          (chain.get_header header.hash header.height)
          (chain.get_header_by_hash header.parent_hash)
unfolding validate_header
validate_header_iff chain max_extra_length header =
    decided max_extra_length header (chain.get_header header.hash header.height)
      (chain.get_header_by_hash header.parent_hash)
