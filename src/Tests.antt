-- ===== src/Tests.antt =====
-- Concrete inputs: a model of the fixtures' types in which every value is a number, a client and a
-- builder that answer, and the other surroundings.
pub mod Replay
pub mod Parts
pub mod Processes
pub mod Commands
pub mod Bloated
pub mod Exports
pub mod Reclaim
pub mod Genesis
pub mod Runs
pub mod Exported
use buildoor_tester.Base.{
  ℕ, ◌+◌, Bool, true, false, not, Option, none, some, List, [], ◌∷◌, String, ◌==◌, str_eq, pos, ℤ,
  Outcome, ok, raised, runtime_error, value_error, if◌then◌else◌,
}
use buildoor_tester.Base.Numeral.{decimal, hex}
use buildoor_tester.Base.Json.{Json, str, obj, empty, entry}
use buildoor_tester.Testing.{Testing, EnginePayload, Fixture}
use buildoor_tester.Buildoor.{BuildReply, http_error}
use buildoor_tester.Runner.Calls.{Node, valid, ForkchoiceResponse}
use buildoor_tester.Runner.Drive.{Settings}
use buildoor_tester.Runner.Results.{FixtureResult}
use buildoor_tester.Genesis.Chainspec
use buildoor_tester.Process.Events.{Event, nap, Host}
use buildoor_tester.Sweep.{Chain, Fees}
use buildoor_tester.Sweep
use buildoor_tester.Export.Submit.{World, ExportArgs, SubmitArgs}
use buildoor_tester.Export.Command.{returned}

-- A payload is its block number, and every field of it has that number.
abbrev pub numbers_only : Testing
numbers_only = record {
  Value = ℕ;
  is_none = λ v. false;
  as_int = λ v. some (pos v);
  text = λ v. decimal (pos v);
  repr = λ v. decimal (pos v);
  ne = λ a b. not (a == b);
  Payload = ℕ;
  model_fields = "number" ∷ "gas_limit" ∷ [];
  getattr = λ p name. p;
  transactions = λ p. p ∷ [];
  number = λ p. p;
  withdrawals = λ p. [];
  model_validate = λ j. raised (value_error "not a payload");
}

abbrev pub payload_of : ℕ → Bool → EnginePayload numbers_only
payload_of n b = record {
  expected = n;
  rest = [];
  new_payload_version = 4;
  forkchoice_updated_version = 3;
  valid = b;
}

-- Two valid payloads with an invalid one between them.
abbrev pub three_payloads : Fixture numbers_only
three_payloads = record {
  fork = "Prague";
  genesis_hash = 0;
  payloads = payload_of 1 true ∷ payload_of 7 false ∷ payload_of 1 true ∷ [];
}

-- A client that accepts everything and builds the block with the number 1.
abbrev pub willing : Node numbers_only
willing = record {
  on_send = λ h tx. ok tt;
  on_forkchoice = λ h head attrs version.
      (let r : ForkchoiceResponse = record { status = valid; payload_id = some "0x01" } in ok r);
  on_get_payload = λ h id version. ok 1;
  on_new_payload = λ h p rest version. ok valid;
  on_build = λ h url body. ok (http_error (pos 500) "");
}

abbrev pub settings : Settings
settings = record {
  test_id = "t";
  payload_version = 4;
  payload_build_time_ms = 1000;
  buildoor_base_url = none;
}

abbrev pub result_with : Option String → FixtureResult
result_with error = record {
  test_id = "t";
  blocks = [];
  error = error;
  fork = none;
  elapsed_ms = 5;
}

-- An endpoint that answers every call with the hexadecimal 1000000.
abbrev pub rich : Chain
rich = record {
  rpc = λ h c. ok (obj (entry "result" (str "0xf4240") empty));
  address = λ key. "0x1";
  signed_rlp = λ tx. hex tx.value;
  show = λ o. "error";
  now = λ h. 0;
  as_set = λ js. ok js;
}

abbrev pub low_fees : Fees
low_fees = record { max_fee_per_gas = pos 2; max_priority_fee_per_gas = pos 1 }

abbrev pub header_of_zeros : Chainspec.Header numbers_only
header_of_zeros = record {
  nonce = 0;
  timestamp = 0;
  extra_data = 0;
  has_extra_data = false;
  gas_limit = 25000000;
  difficulty = 0;
  prev_randao = 0;
  fee_recipient = 0;
  base_fee_per_gas = some 7;
  blob_gas_used = none;
  excess_blob_gas = none;
  parent_beacon_block_root = none;
  withdrawals_root = none;
  requests_hash = none;
  block_access_list_hash = none;
  slot_number = none;
}

abbrev pub source_for : String → Chainspec.GenesisSource numbers_only
source_for fork = record {
  fork = fork;
  chain_id = pos 1;
  schedule = none;
  pre = [];
  header = header_of_zeros;
}

-- Every subprocess succeeds, and one transaction is recorded.
abbrev pub world : World
world = record {
  balance = λ h. ok (pos 10);
  bind = λ h. ok 40000;
  on_shutdown = λ h. ok tt;
  process = λ h. ok (returned (pos 0) "");
  on_kill = λ h. ok tt;
  on_collect = λ h. ok tt;
  snapshot = λ h. "0x02" ∷ [];
  digest = λ raw. ok "0xaa";
  rpc = λ h. raised (runtime_error "not found");
  cap_lookup = λ fork. (if str_eq fork "Osaka" then some (ok (some 16777216)) else none);
  address = λ key. ok "0xseed";
  recovery_suffix = λ p. "transactions.recovery.json";
  ether = λ n. decimal n;
}

abbrev pub export_args : ExportArgs
export_args = record {
  output_dir = "out";
  work_dir = "/work";
  test_selector = "tests/osaka";
  fork = "Osaka";
  chain_id = pos 7928;
  seed_key = "0x01";
  seed_addr = none;
  eoa_start = "100";
  tx_wait_timeout = pos 60;
  include_benchmark = false;
  gas_benchmark_values = none;
  transaction_gas_limit = none;
  k_filter = none;
}

-- What `secrets.randbits` draws.
abbrev pub five : ℕ → ℕ
five k = 5

abbrev pub submit_args : Option ℤ → SubmitArgs
submit_args floor = record {
  test_selector = "tests/osaka";
  fork = "Osaka";
  rpc_url = "http://net";
  chain_id = pos 1;
  seed_key = "0x01";
  eoa_start = none;
  randbits = five;
  k_filter = none;
  csv_path = some "transactions.csv";
  tx_wait_timeout = pos 120;
  include_benchmark = false;
  gas_benchmark_values = none;
  transaction_gas_limit = none;
  gas_price = none;
  max_fee_per_gas = none;
  max_priority_fee_per_gas = none;
  cleanup = true;
  min_seed_balance_wei = floor;
  meta_path = none;
}

-- How long an event takes, in milliseconds.
abbrev pub time_of : Event numbers_only → ℕ
time_of (nap time) = time
time_of e = 1

abbrev pub elapsed : List (Event numbers_only) → ℕ
elapsed [] = 0
elapsed (e ∷ h) = time_of e + elapsed h

-- Surroundings in which everything succeeds at once.
abbrev pub host : Host numbers_only
host = record {
  now = elapsed;
  free_port = λ h i. 30000 + i;
  token_hex = λ h. "00";
  on_init = λ h. ok tt;
  on_start = λ h. ok tt;
  on_stop = λ h. ok tt;
  on_write = λ h. ok tt;
  on_ask = λ h. ok 200;
  ends_in_time = λ h. true;
  has_chaindata = λ h path. true;
  node = λ h rpc_url auth_url. willing;
  show = λ e. "error";
  resolve = λ path. path;
  on_generate = λ h. ok (pos 0, "");
  world = λ h url. world;
}
