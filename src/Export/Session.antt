-- ===== src/Export/Session.antt =====
-- eest_replay/export.py: what `export_transactions` does with the client booted, and `submit_transactions`.
use buildoor_tester.Base.{
  ℕ, Bool, true, false, not, Option, none, some, List, String, ◌<>◌, ℤ, pos, ◌-ℤ◌, length, ok,
  if◌then◌else◌, Exec, lift, pure, ◌>>=◌, ◌>>◌,
}
use buildoor_tester.Base.Json.{num, str, boolean, Dict, empty, entry}
use buildoor_tester.Export.Gas.{resolve_benchmark_gas}
use buildoor_tester.Export.Command.{ExecuteArgs}
use buildoor_tester.Export.Rows.{Row}
use buildoor_tester.Export.Submit.{
  Event, write_json, write_csv, World, null_or_str, ExportArgs, ExportResult, SubmitArgs,
  SubmitResult, export_outcome, recovery_path, start_of, recovery_meta, is_below_floor,
  read_balance, done, run_execute, recorded, enriched, recording_proxy, write_recovery_meta,
}

abbrev pub export_meta : ExportArgs → String → ℕ → Bool × Option String → Dict
export_meta a seed_addr tx_count r = entry "test_selector" (str a.test_selector) (
    entry "fork" (str a.fork) (
      entry "chain_id" (num a.chain_id) (
        entry "seed_address" (str seed_addr) (
          entry "eoa_start" (str a.eoa_start) (
            entry "tx_count" (num (pos tx_count)) (
              entry "execute_ok" (boolean r.0) (
                entry "error" (null_or_str r.1) (
                  entry "genesis" (str "genesis.json") (
                    entry "transactions" (str "transactions.csv") (
                      entry "note"
                        (str
                          "Replay transactions.csv in `seq` order against an EL booted from genesis.json (same chain_id, seed prefunded). The first txs are setup (deterministic factory + funding + contract deploys); the rest are the test transactions.")
                        empty))))))))))

abbrev pub export_result : ExportArgs → Bool × Option String → List Row → ExportResult
export_result a r rows = record {
  tx_count = length rows;
  csv_path = a.output_dir <> "/transactions.csv";
  genesis_path = a.output_dir <> "/genesis.json";
  meta_path = a.output_dir <> "/meta.json";
  execute_ok = r.0;
  error = r.1;
}

-- Behind the end of the client and of the proxy.
unfoldable pub finish_export :
    ExportArgs → String → Bool × Option String → List Row → Exec Event ExportResult
unfolding export_outcome
finish_export a seed_addr ran rows =
    let r = export_outcome ran rows in
    let result = export_result a r rows in
    done (write_csv result.csv_path rows)
    >> done (write_json result.meta_path (export_meta a seed_addr (length rows) r))
    >> pure result

module _ (W : World) where
  abbrev pub export_args : ExportArgs → String → String → String → ExecuteArgs
  export_args a rpc_url engine_url jwt_path =
      let gas =
        resolve_benchmark_gas W.cap_lookup a.fork a.test_selector a.include_benchmark
          a.gas_benchmark_values a.transaction_gas_limit in
      record {
        test_selector = a.test_selector;
        fork = a.fork;
        chain_id = a.chain_id;
        seed_key = a.seed_key;
        eoa_start = a.eoa_start;
        rpc_url = rpc_url;
        tx_wait_timeout = a.tx_wait_timeout;
        engine_url = some engine_url;
        jwt_path = some jwt_path;
        include_benchmark = a.include_benchmark;
        gas_benchmark_values = gas.0;
        transaction_gas_limit = gas.1;
        k_filter = a.k_filter;
        skip_cleanup = true;
        gas_price = none;
        max_fee_per_gas = none;
        max_priority_fee_per_gas = none;
      }

  abbrev pub rows_behind : Bool × Option String → Exec Event ((Bool × Option String) × List Row)
  rows_behind ran = recorded W >>= λ txs. enriched W txs >>= λ rows. pure (ran, rows)

  -- Under the two `with`s: how the subprocess ended, and the rows of what was recorded.
  unfoldable pub captured :
      ExportArgs → String × String × String → Exec Event ((Bool × Option String) × List Row)
  unfolding run_execute recording_proxy resolve_benchmark_gas
  captured a (rpc_url, auth_url, jwt) =
      recording_proxy W rpc_url
        (λ proxy_url. run_execute W (export_args a proxy_url auth_url jwt) >>= rows_behind)

  abbrev pub submit_args : SubmitArgs → String → String → ExecuteArgs
  submit_args a eoa_start rpc_url =
      let gas =
        resolve_benchmark_gas W.cap_lookup a.fork a.test_selector a.include_benchmark
          a.gas_benchmark_values a.transaction_gas_limit in
      record {
        test_selector = a.test_selector;
        fork = a.fork;
        chain_id = a.chain_id;
        seed_key = a.seed_key;
        eoa_start = eoa_start;
        rpc_url = rpc_url;
        tx_wait_timeout = a.tx_wait_timeout;
        engine_url = none;
        jwt_path = none;
        include_benchmark = a.include_benchmark;
        gas_benchmark_values = gas.0;
        transaction_gas_limit = gas.1;
        k_filter = a.k_filter;
        skip_cleanup = not a.cleanup;
        gas_price = a.gas_price;
        max_fee_per_gas = a.max_fee_per_gas;
        max_priority_fee_per_gas = a.max_priority_fee_per_gas;
      }

  abbrev pub write_rows :
      String → Bool × Option String → List Row → Exec Event ((Bool × Option String) × Option ℕ)
  write_rows path ran rows = done (write_csv path rows) >> pure (ran, some (length rows))

  abbrev pub written :
      String → (Bool × Option String) × List String → Exec Event ((Bool × Option String) × Option ℕ)
  written path (ran, txs) = enriched W txs >>= write_rows path ran

  abbrev pub through_proxy :
      SubmitArgs → String → String → Exec Event ((Bool × Option String) × List String)
  through_proxy a eoa_start proxy_url =
      run_execute W (submit_args a eoa_start proxy_url) >>= λ ran h. (ok (ran, W.snapshot h), h)

  -- With a file for the rows, the subprocess runs through the proxy and the rows are counted.
  unfoldable pub submit_run :
      SubmitArgs → String → Option String → Exec Event ((Bool × Option String) × Option ℕ)
  unfolding run_execute recording_proxy resolve_benchmark_gas
  submit_run a eoa_start none =
      run_execute W (submit_args a eoa_start a.rpc_url) >>= λ ran. pure (ran, none)
  submit_run a eoa_start (some path) =
      recording_proxy W a.rpc_url (through_proxy a eoa_start) >>= written path

  abbrev pub difference : ℤ → Option ℤ → Option ℤ
  difference before none = none
  difference before (some after) = some (before -ℤ after)

  -- `spent`: the balance is read again if it was known before.
  unfoldable pub spent_since : Option ℤ → String → Exec Event (Option ℤ)
  unfolding read_balance
  spent_since none seed_addr = pure none
  spent_since (some before) seed_addr =
      read_balance W seed_addr >>= λ after. pure (difference before after)

  abbrev ether_of : Option ℤ → String
  ether_of none = ""
  ether_of (some n) = W.ether n

  abbrev pub aborted : SubmitArgs → String → Option ℤ → SubmitResult
  aborted a seed_addr balance = record {
    execute_ok = false;
    submitted_count = none;
    csv_path = a.csv_path;
    error = some (
        "aborted: seed "
        <> (seed_addr
            <> (" balance "
                <> (ether_of balance
                    <> (" ETH is below the --min-seed-balance floor of "
                        <> (ether_of a.min_seed_balance_wei <> " ETH"))))));
    spent_wei = none;
    meta_path = none;
  }

  -- Behind the guard: the recovery file is written, then the subprocess is run.
  abbrev pub summed :
      SubmitArgs
      → Option String
      → (Bool × Option String) × Option ℕ
      → Option ℤ
      → Exec Event SubmitResult
  summed a written ran spent = pure record {
    execute_ok = ran.0.0;
    submitted_count = ran.1;
    csv_path = a.csv_path;
    error = ran.0.1;
    spent_wei = spent;
    meta_path = written;
  }

  abbrev pub submit_behind :
      SubmitArgs → String → String → Option ℤ → Option String → Exec Event SubmitResult
  submit_behind a seed_addr eoa_start before written = submit_run a eoa_start a.csv_path >>= λ ran.
      spent_since before seed_addr >>= λ spent. summed a written ran spent

  unfoldable pub submit_funded : SubmitArgs → String → String → Option ℤ → Exec Event SubmitResult
  unfolding recovery_path recovery_meta write_recovery_meta submit_run spent_since
  submit_funded a seed_addr eoa_start before =
      write_recovery_meta W (recovery_path W.recovery_suffix a.meta_path a.csv_path)
        (recovery_meta seed_addr eoa_start a.chain_id a.fork a.rpc_url)
      >>= λ written. submit_behind a seed_addr eoa_start before written

  abbrev pub guarded : SubmitArgs → String → Option ℤ → Exec Event SubmitResult
  guarded a seed_addr before =
      if is_below_floor a.min_seed_balance_wei before
      then pure (aborted a seed_addr before)
      else submit_funded a seed_addr (start_of a.eoa_start a.randbits) before

  abbrev pub submit_from : SubmitArgs → String → Exec Event SubmitResult
  submit_from a seed_addr = read_balance W seed_addr >>= λ before. guarded a seed_addr before

  unfoldable pub submit_transactions : SubmitArgs → Exec Event SubmitResult
  unfolding read_balance is_below_floor start_of submit_funded
  submit_transactions a = lift (W.address a.seed_key) >>= λ seed_addr. submit_from a seed_addr
