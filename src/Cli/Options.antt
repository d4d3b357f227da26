-- ===== src/Cli/Options.antt =====
-- eest_replay/cli.py: the options of the five commands as their decorators declare them, without the
-- help texts, and the parameters of their functions.
use buildoor_tester.Base.{Bool, true, false, Option, none, some, List, [], ◌∷◌, String, ℤ, pos}
use buildoor_tester.Export.Gas.{default_eoa_start}

-- The value of an option that is not given. `decimal` holds the digits of a float.
pub data Default : Type 0 where
  required : Default
  nothing : Default
  text : String → Default
  number : ℤ → Default
  decimal : String → Default
  off : Default
  on : Default
  count : Default

-- What the text of an option is read as.
pub data Kind : Type 0 where
  words : Kind
  integer : Kind
  real : Kind
  path : Kind
  existing_path : Kind
  flag : Kind
  counter : Kind

pub record Declared : Type 0 where
  pub flags : List String
  -- The name of the parameter, where the decorator gives one.
  pub named : Option String
  pub kind : Kind
  pub default : Default

-- A parameter of a command's function, and whether its annotation allows `None`.
pub record Parameter : Type 0 where
  pub name : String
  pub optional : Bool

pub record Command : Type 0 where
  pub name : String
  pub argument : String
  pub options : List Declared
  pub parameters : List Parameter

abbrev option : String → Kind → Default → Declared
option word kind default = record {
  flags = word ∷ [];
  named = none;
  kind = kind;
  default = default;
}

abbrev option_as : String → String → Kind → Default → Declared
option_as word name kind default = record {
  flags = word ∷ [];
  named = some name;
  kind = kind;
  default = default;
}

abbrev verbose : Declared
verbose = record { flags = "-v" ∷ "--verbose" ∷ []; named = none; kind = counter; default = count }

abbrev pub always : String → Parameter
always name = record { name = name; optional = false }

abbrev pub maybe : String → Parameter
maybe name = record { name = name; optional = true }

abbrev seed_key : Default
seed_key = text "0x04b9f63ecf84210c5366c66d68fa1f5da1fa4f634fad6dfc86178e4d79ff9e59"

abbrev specs_dir : Declared
specs_dir = option "--specs-dir" existing_path (text "../execution-specs")

unfoldable pub run_command : Command
run_command = record {
  name = "run";
  argument = "path";
  options =
      option "--work-dir" path nothing
      ∷ option "--payload-build-time" real (decimal "1.0")
      ∷ option_as "--buildoor" "buildoor_binary" existing_path nothing
      ∷ option "--report-json" path nothing
      ∷ option "--report-md" path nothing
      ∷ option "--stop-on-first-failure" flag off
      ∷ verbose
      ∷ [];
  parameters =
      always "path"
      ∷ maybe "work_dir"
      ∷ always "payload_build_time"
      ∷ maybe "buildoor_binary"
      ∷ maybe "report_json"
      ∷ maybe "report_md"
      ∷ always "stop_on_first_failure"
      ∷ always "verbose"
      ∷ [];
}

unfoldable pub export_command : Command
export_command = record {
  name = "export";
  argument = "test_selector";
  options =
      option "--fork" words required
      ∷ option_as "--output" "output_dir" path (text "export")
      ∷ specs_dir
      ∷ option "--work-dir" path nothing
      ∷ option "--chain-id" integer (number (pos 7928))
      ∷ option "--seed-key" words seed_key
      ∷ option "--eoa-start" words (text default_eoa_start)
      ∷ option "--tx-wait-timeout" integer (number (pos 60))
      ∷ option "--include-benchmark" flag off
      ∷ option "--gas-benchmark-values" words nothing
      ∷ option "--transaction-gas-limit" integer nothing
      ∷ option_as "-k" "k_filter" words nothing
      ∷ verbose
      ∷ [];
  parameters =
      always "test_selector"
      ∷ always "fork"
      ∷ always "output_dir"
      ∷ always "specs_dir"
      ∷ maybe "work_dir"
      ∷ always "chain_id"
      ∷ always "seed_key"
      ∷ always "eoa_start"
      ∷ always "tx_wait_timeout"
      ∷ always "include_benchmark"
      ∷ maybe "gas_benchmark_values"
      ∷ maybe "transaction_gas_limit"
      ∷ maybe "k_filter"
      ∷ always "verbose"
      ∷ [];
}

unfoldable pub submit_command : Command
submit_command = record {
  name = "submit";
  argument = "test_selector";
  options =
      option "--fork" words required
      ∷ option_as "--rpc" "rpc_url" words required
      ∷ option "--chain-id" integer required
      ∷ option "--seed-key" words seed_key
      ∷ specs_dir
      ∷ option_as "-k" "k_filter" words nothing
      ∷ option_as "--csv" "csv_path" path nothing
      ∷ option "--eoa-start" words nothing
      ∷ option "--tx-wait-timeout" integer (number (pos 120))
      ∷ option "--include-benchmark" flag off
      ∷ option "--gas-benchmark-values" words nothing
      ∷ option "--transaction-gas-limit" integer nothing
      ∷ option "--gas-price" integer nothing
      ∷ option "--max-fee-per-gas" integer nothing
      ∷ option "--max-priority-fee-per-gas" integer nothing
      ∷ record {
        flags = "--cleanup" ∷ "--no-cleanup" ∷ [];
        named = none;
        kind = flag;
        default = on;
      }
      ∷ option "--min-seed-balance" real nothing
      ∷ option "--meta-out" path nothing
      ∷ verbose
      ∷ [];
  parameters =
      always "test_selector"
      ∷ always "fork"
      ∷ always "rpc_url"
      ∷ always "chain_id"
      ∷ always "seed_key"
      ∷ always "specs_dir"
      ∷ maybe "k_filter"
      ∷ maybe "csv_path"
      ∷ always "eoa_start"
      ∷ always "tx_wait_timeout"
      ∷ always "include_benchmark"
      ∷ maybe "gas_benchmark_values"
      ∷ maybe "transaction_gas_limit"
      ∷ maybe "gas_price"
      ∷ maybe "max_fee_per_gas"
      ∷ maybe "max_priority_fee_per_gas"
      ∷ always "cleanup"
      ∷ maybe "min_seed_balance"
      ∷ maybe "meta_out"
      ∷ always "verbose"
      ∷ [];
}

unfoldable pub bloat_command : Command
bloat_command = record {
  name = "bloat";
  argument = "test_selector";
  options =
      option "--fork" words required
      ∷ option "--chain-id" integer (number (pos 1337))
      ∷ option_as "--state-actor" "state_actor_bin" existing_path nothing
      ∷ option "--target-size" words (text "200MB")
      ∷ option "--datadir" existing_path nothing
      ∷ option "--work-dir" path nothing
      ∷ option "--seed-key" words seed_key
      ∷ specs_dir
      ∷ option_as "-k" "k_filter" words nothing
      ∷ option_as "--csv" "csv_path" path nothing
      ∷ option "--tx-wait-timeout" integer (number (pos 120))
      ∷ option "--include-benchmark" flag off
      ∷ option "--gas-benchmark-values" words nothing
      ∷ option "--transaction-gas-limit" integer nothing
      ∷ option "--max-fee-per-gas" integer nothing
      ∷ option "--max-priority-fee-per-gas" integer nothing
      ∷ verbose
      ∷ [];
  parameters =
      always "test_selector"
      ∷ always "fork"
      ∷ always "chain_id"
      ∷ maybe "state_actor_bin"
      ∷ always "target_size"
      ∷ maybe "datadir"
      ∷ maybe "work_dir"
      ∷ always "seed_key"
      ∷ always "specs_dir"
      ∷ maybe "k_filter"
      ∷ maybe "csv_path"
      ∷ always "tx_wait_timeout"
      ∷ always "include_benchmark"
      ∷ maybe "gas_benchmark_values"
      ∷ maybe "transaction_gas_limit"
      ∷ maybe "max_fee_per_gas"
      ∷ maybe "max_priority_fee_per_gas"
      ∷ always "verbose"
      ∷ [];
}

unfoldable pub recover_command : Command
recover_command = record {
  name = "recover";
  argument = "";
  options =
      option_as "--rpc" "rpc_url" words required
      ∷ option_as "--to" "to_addr" words required
      ∷ option "--chain-id" integer required
      ∷ option "--meta" existing_path nothing
      ∷ option "--eoa-start" words nothing
      ∷ option "--key" words nothing
      ∷ option "--count" integer (number (pos 64))
      ∷ option "--max-fee-per-gas" integer (number (pos 5000000000))
      ∷ option "--max-priority-fee-per-gas" integer (number (pos 1000000000))
      ∷ verbose
      ∷ [];
  parameters =
      always "rpc_url"
      ∷ always "to_addr"
      ∷ always "chain_id"
      ∷ maybe "meta"
      ∷ maybe "eoa_start"
      ∷ maybe "key"
      ∷ always "count"
      ∷ always "max_fee_per_gas"
      ∷ always "max_priority_fee_per_gas"
      ∷ always "verbose"
      ∷ [];
}

-- The group `main`.
abbrev pub commands : List Command
commands = run_command ∷ export_command ∷ submit_command ∷ bloat_command ∷ recover_command ∷ []
