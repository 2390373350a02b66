-- ===== src/Executor.antt =====
-- Parts of core/executor: the gas pool of gasPool.go and the header checks of validator_block.go.
pub mod Laws
pub mod Validate
pub mod Transition
mod Tests
use tinychain.Base.{
  ℕ, ◌+◌, ◌-◌, ◌^◌, u64, not, Option, none, some, List, length, ltb, leb, ◌==◌, if◌then◌else◌,
}

-- `AddGas`: no result is the panic on more than 64 bits.
unfoldable pub add_gas : ℕ → ℕ → Option ℕ
add_gas pool amount = if ltb (2 ^ 64 - 1 - amount) pool then none else some (u64 (pool + amount))

-- `SubGas`: no result is `errGasLimitReached`.
unfoldable pub sub_gas : ℕ → ℕ → Option ℕ
sub_gas pool amount = if ltb pool amount then none else some (pool - amount)

-- The fields of `types.Header` that the checks read. `time` is a `big.Int` that is not negative.
pub record Header : Type 0 where
  pub hash : ℕ
  pub parent_hash : ℕ
  pub height : ℕ
  pub time : ℕ
  pub gas_used : ℕ
  pub gas_limit : ℕ
  pub extra : List ℕ

pub data HeaderError : Type 0 where
  timestamp_invalid : HeaderError
  gas_used_overflow : HeaderError
  parent_height_not_match : HeaderError
  extra_data_overflow : HeaderError
  parent_not_exist : HeaderError

-- `validateHeader`: no result is a `nil` error.
unfoldable pub check_header : ℕ → Header → Header → Option HeaderError
check_header max_extra_length parent header =
    if leb header.time parent.time
    then some HeaderError.timestamp_invalid
    else (if ltb header.gas_limit header.gas_used
        then some HeaderError.gas_used_overflow
        else (if not (header.height == u64 (parent.height + 1))
            then some HeaderError.parent_height_not_match
            else (if ltb max_extra_length (length header.extra)
                then some HeaderError.extra_data_overflow
                else none)))

-- The chain, as far as the validator asks it: `GetHeader` and `GetHeaderByHash`.
pub record Chain : Type 0 where
  pub get_header : ℕ → ℕ → Option Header
  pub get_header_by_hash : ℕ → Option Header

-- The branch on the parent in `ValidateHeader`.
unfoldable pub check_parent : ℕ → Option Header → Header → Option HeaderError
check_parent max_extra_length none header =
    if not (header.height == 0) then none else some HeaderError.parent_not_exist
check_parent max_extra_length (some parent) header = check_header max_extra_length parent header

-- The rest of it, when the chain has, or has not, the header already.
unfoldable pub check_unknown : Option Header → Option HeaderError → Option HeaderError
check_unknown (some known) result = none
check_unknown none result = result

-- `ValidateHeader`
unfoldable pub validate_header : Chain → ℕ → Header → Option HeaderError
validate_header chain max_extra_length header =
    check_unknown (chain.get_header header.hash header.height)
      (check_parent max_extra_length (chain.get_header_by_hash header.parent_hash) header)
