-- ===== src/Executor/Tests.antt =====
-- The theorems at concrete amounts and headers.
use tinychain.Base.{◌^◌, ◌≤◌, ◌<◌, ◌≡◌, ◌↔◌, ◌⊎◌, none, some, [], arith}
use tinychain.Executor.{add_gas, sub_gas, Header, Chain, validate_header}
use tinychain.Executor.Laws.{gas_pool_lem, IsTaken, validate_header_iff}

gas_pool_lem_example :
    ((2 ^ 64 ≤ 30) × (add_gas 10 20 ≡ none))
    ⊎ ((30 < 2 ^ 64) × (add_gas 10 20 ≡ some 30) × (sub_gas 30 20 ≡ some 10))
gas_pool_lem_example = gas_pool_lem 10 20 (omega arith) (omega arith)

abbrev genesis : Header
genesis = record {
  hash = 1;
  parent_hash = 0;
  height = 0;
  time = 100;
  gas_used = 0;
  gas_limit = 50;
  extra = [];
}

abbrev second : Header
second = record {
  hash = 2;
  parent_hash = 1;
  height = 1;
  time = 200;
  gas_used = 40;
  gas_limit = 50;
  extra = [];
}

-- A chain that holds the first block only.
abbrev short_chain : Chain
short_chain = record { get_header = λ h n. none; get_header_by_hash = λ h. some genesis }

validate_header_iff_example :
    (validate_header short_chain 32 second ≡ none) ↔ IsTaken 32 second none (some genesis)
validate_header_iff_example = validate_header_iff short_chain 32 second
