-- ===== src/Tests/Exports.antt =====
-- The genesis files, the export, the submit and the fixture files at concrete inputs.
use buildoor_tester.Base.{
  ◌^◌, ◌++◌, zero, suc, ap, Outcome, ℕ, suc, ◌+◌, ◌≡◌, ◌<◌, refl, true, false, none, some, List, [],
  ◌∷◌, length, get_elem?, String, pos, ◌-ℤ◌, ok, arith,
}
use buildoor_tester.Base.Numeral.{int_of}
use buildoor_tester.Base.Json.{Json, str, obj, Dict, empty, entry, get}
use buildoor_tester.Export.Gas.{
  fork_tx_gas_cap, random_eoa_start, curve_order, random_eoa_start-bounds,
}
use buildoor_tester.Export.Options.{read_options, asked_for, execute_command-asked_for}
use buildoor_tester.Base.Numeral.{decimal}
use buildoor_tester.Export.Command.{ExecuteArgs, execute_command}
use buildoor_tester.Export.Rows.{Row, enrich, enrich-rows, with_0x, to_int, input_length}
use buildoor_tester.Export.Submit.{
  Event, ask_balance, write_json, open_proxy, SubmitResult, recovery_meta, start_of, recovery_path,
}
use buildoor_tester.Export.Session.{submit_transactions}
use buildoor_tester.Export.Histories.{runs}
use buildoor_tester.Export.Outcomes.{submit-recoverable}
use buildoor_tester.Cli.{FixtureFile}
use buildoor_tester.FixtureFiles.{load_items, has_engine_format, Listed, load_items-Listed}
use buildoor_tester.Export.Stops.{step_submit, submit_transactions-Balanced}
use buildoor_tester.Process.Running.{Balanced}
use buildoor_tester.Tests.{five, world, submit_args}

osaka_cap : fork_tx_gas_cap world.cap_lookup "Osaka" ≡ some 16777216
unfolding fork_tx_gas_cap
osaka_cap = refl

abbrev no_bits : ℕ → ℕ
no_bits k = 0

below_power : (k : ℕ) → no_bits k < 2 ^ k
below_power zero = omega arith
below_power (suc k) = omega (arith, below_power k)

random_eoa_start-bounds_example :
    (n : ℕ) × (int_of 10 (random_eoa_start no_bits) ≡ some (pos n))
    × (0 < n)
    × (n + 7 < curve_order)
random_eoa_start-bounds_example = random_eoa_start-bounds no_bits 7 below_power (omega arith)

abbrev found_row : Row
found_row = record {
  seq = 0;
  block_number = none;
  tx_index = none;
  tx_hash = "0xaa";
  tx_type = none;
  sender = str "";
  to = str "";
  nonce = none;
  value = none;
  gas = none;
  gas_price = none;
  max_fee_per_gas = none;
  input_len = pos 0;
  raw = "0x02";
}

enriched : enrich world.digest world.rpc 0 ("0x02" ∷ []) ≡ ok (found_row ∷ [])
unfolding enrich get to_int input_length
enriched = refl

enrich-rows_example :
    (length (found_row ∷ []) ≡ 1)
    × (r : Row) × (get_elem? (found_row ∷ []) 0 ≡ some r)
    × (r.seq ≡ 0 + 0)
    × (r.raw ≡ with_0x "0x02")
enrich-rows_example = enrich-rows world.digest world.rpc ("0x02" ∷ []) 0 0 enriched refl

abbrev submitted : SubmitResult
submitted = record {
  execute_ok = true;
  submitted_count = some 1;
  csv_path = some "transactions.csv";
  error = none;
  spent_wei = some (pos 0);
  meta_path = some "transactions.recovery.json";
}

submitted_lem :
    (t : List Event) × (submit_transactions world (submit_args none) [] ≡ (ok submitted, t))
unfolding submit_transactions ◌-ℤ◌ enrich
submitted_lem = (_, refl)

recovery_at :
    recovery_path world.recovery_suffix none (some "transactions.csv")
    ≡ some "transactions.recovery.json"
unfolding recovery_path
recovery_at = refl

submit-recoverable_example :
    (url : String) × (rest : List Event) × (submitted_lem.0
      ≡ ask_balance "0xseed"
        ∷ write_json "transactions.recovery.json"
            (recovery_meta "0xseed" (start_of none five) (pos 1) "Osaka" "http://net")
        ∷ open_proxy "http://net"
        ∷ runs world (submit_args none) (start_of none five) url
        ∷ rest)
submit-recoverable_example =
    submit-recoverable world (submit_args none) [] {r = submitted} refl recovery_at submitted_lem.1
      refl

abbrev entry_of : String → Json
entry_of format = obj (entry "_info" (obj (entry "fixture-format" (str format) empty)) empty)

abbrev two_entries : Dict
two_entries =
    entry "a" (entry_of "state_test") (entry "b" (entry_of "blockchain_test_engine") empty)

abbrev any_fixture : Json → Outcome ℕ
any_fixture j = ok 5

loaded : load_items any_fixture two_entries ≡ record { yielded = ("b", 5) ∷ []; broken = none }
unfolding load_items has_engine_format get
loaded = refl

load_items-Listed_example :
    Listed any_fixture two_entries (load_items any_fixture two_entries).yielded
load_items-Listed_example =
    load_items-Listed any_fixture two_entries (ap (λ (f : FixtureFile ℕ). f.broken) loaded)

abbrev execute_args : ExecuteArgs
execute_args = record {
  test_selector = "tests/osaka";
  fork = "Osaka";
  chain_id = pos 1;
  seed_key = "0x01";
  eoa_start = "100";
  rpc_url = "http://net";
  tx_wait_timeout = pos 60;
  engine_url = none;
  jwt_path = some "/jwt.hex";
  include_benchmark = false;
  gas_benchmark_values = none;
  transaction_gas_limit = some (pos 16777216);
  k_filter = some "";
  skip_cleanup = true;
  gas_price = none;
  max_fee_per_gas = some (pos 5);
  max_priority_fee_per_gas = none;
}

read_words :
    asked_for execute_args
    ≡ ("--fork", some "Osaka")
      ∷ ("--rpc-endpoint", some "http://net")
      ∷ ("--chain-id", some "1")
      ∷ ("--rpc-seed-key", some "0x01")
      ∷ ("--eoa-start", some "100")
      ∷ ("--tx-wait-timeout", some "60")
      ∷ ("-p", some "no:randomly")
      ∷ ("--skip-cleanup", none)
      ∷ ("--default-max-fee-per-gas", some "5")
      ∷ ("--transaction-gas-limit", some "16777216")
      ∷ ("tests/osaka", none)
      ∷ []
unfolding asked_for decimal
read_words = refl

execute_command-asked_for_example :
    (words : List String) × (execute_command execute_args
      ≡ "uv" ∷ "run" ∷ "execute" ∷ "remote" ∷ words)
    × (read_options words ≡ asked_for execute_args)
execute_command-asked_for_example = execute_command-asked_for execute_args

submit_transactions-Balanced_example :
    (xs : List Event) × Balanced step_submit xs
    × ((submit_transactions world (submit_args none) []).1 ≡ [] ++ xs)
submit_transactions-Balanced_example = submit_transactions-Balanced world (submit_args none) []
