-- ===== src/Export/Command.antt =====
-- eest_replay/export.py: `_run_execute`, the command line of the subprocess and how it ends.
use buildoor_tester.Base.{
  ℕ, ◌+ℤ◌, Bool, true, false, Option, none, some, is_truthy, List, [], ◌∷◌, ◌++◌, String, ◌<>◌, ℤ,
  pos, if◌then◌else◌,
}
use buildoor_tester.Base.Numeral.{decimal}

-- The keyword arguments of `_run_execute` besides the directory that it runs in; paths are texts.
pub record ExecuteArgs : Type 0 where
  pub test_selector : String
  pub fork : String
  pub chain_id : ℤ
  pub seed_key : String
  pub eoa_start : String
  pub rpc_url : String
  pub tx_wait_timeout : ℤ
  pub engine_url : Option String
  pub jwt_path : Option String
  pub include_benchmark : Bool
  pub gas_benchmark_values : Option String
  pub transaction_gas_limit : Option ℤ
  pub k_filter : Option String
  pub skip_cleanup : Bool
  pub gas_price : Option ℤ
  pub max_fee_per_gas : Option ℤ
  pub max_priority_fee_per_gas : Option ℤ

-- `if value is not None: cmd += [flag, str(value)]`.
abbrev pub option : String → Option String → List String
option flag none = []
option flag (some v) = flag ∷ v ∷ []

abbrev pub shown : Option ℤ → Option String
shown none = none
shown (some n) = some (decimal n)

-- `if value: cmd += [flag, value]`.
abbrev pub option_truthy : String → Option String → List String
option_truthy flag v = if is_truthy v then option flag v else []

abbrev pub switch : String → Bool → List String
switch flag b = if b then flag ∷ [] else []

-- The path of the secret is given with the URL of the Engine API only.
abbrev pub engine_options : Option String → Option String → List String
engine_options none jwt_path = []
engine_options (some url) jwt_path =
    "--engine-endpoint" ∷ url ∷ option "--engine-jwt-secret-file" jwt_path

-- The list `cmd`.
unfoldable pub execute_command : ExecuteArgs → List String
execute_command a =
    "uv"
    ∷ "run"
    ∷ "execute"
    ∷ "remote"
    ∷ "--fork"
    ∷ a.fork
    ∷ "--rpc-endpoint"
    ∷ a.rpc_url
    ∷ "--chain-id"
    ∷ decimal a.chain_id
    ∷ "--rpc-seed-key"
    ∷ a.seed_key
    ∷ "--eoa-start"
    ∷ a.eoa_start
    ∷ "--tx-wait-timeout"
    ∷ decimal a.tx_wait_timeout
    ∷ "-p"
    ∷ "no:randomly"
    ∷ (engine_options a.engine_url a.jwt_path
        ++ (switch "--skip-cleanup" a.skip_cleanup
            ++ (option "--default-gas-price" (shown a.gas_price)
                ++ (option "--default-max-fee-per-gas" (shown a.max_fee_per_gas)
                    ++ (option "--default-max-priority-fee-per-gas"
                          (shown a.max_priority_fee_per_gas)
                        ++ (switch "--include-benchmark" a.include_benchmark
                            ++ (option_truthy "--gas-benchmark-values" a.gas_benchmark_values
                                ++ (option "--transaction-gas-limit" (shown a.transaction_gas_limit)
                                    ++ (option_truthy "-k" a.k_filter
                                        ++ (a.test_selector ∷ []))))))))))

-- How the process ends: killed behind its time limit, or with a status; `tail` is the text of the
-- last twelve lines that it wrote.
pub data ProcessEnd : Type 0 where
  timed_out : ProcessEnd
  returned : (returncode : ℤ) (tail : String) → ProcessEnd

abbrev is_zero : ℤ → Bool
is_zero (ℤ.pos ℕ.zero) = true
is_zero _ = false

-- What `_run_execute` returns.
unfoldable pub execute_result : ℤ → ProcessEnd → Bool × Option String
execute_result tx_wait_timeout timed_out =
    (false, some ("execute timed out after " <> (decimal (tx_wait_timeout +ℤ pos 600) <> "s")))
execute_result tx_wait_timeout (returned code tail) =
    if is_zero code
    then (true, none)
    else (false, some ("execute exited " <> (decimal code <> (":\n" <> tail))))
