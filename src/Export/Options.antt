-- ===== src/Export/Options.antt =====
-- eest_replay/export.py: the command line of `_run_execute`, read back as options with their values.
use buildoor_tester.Base.{
  ◌≡◌, refl, ap, Bool, true, false, ◌||◌, Option, none, some, is_truthy, Bool-cases, inl, inr, List,
  [], ◌∷◌, ◌++◌, String, str_eq, if◌then◌else◌,
}
use buildoor_tester.Base.Numeral.{decimal}
use buildoor_tester.Export.Command.{
  ExecuteArgs, option, shown, option_truthy, switch, engine_options, execute_command,
}

-- The options that take no value.
abbrev pub is_switch : String → Bool
is_switch s = str_eq s "--skip-cleanup" || str_eq s "--include-benchmark"

-- A reader of a command line: the last word is the selector, a switch stands alone, and any other
-- word takes the next one as its value.
unfoldable pub read_options : List String → List (String × Option String)
read_options [] = []
read_options (selector ∷ []) = (selector, none) ∷ []
read_options (flag ∷ v ∷ words) =
    let alone = read_options (v ∷ words) in
    let valued = read_options words in
    if is_switch flag then (flag, none) ∷ alone else (flag, some v) ∷ valued

-- What each argument asks for.
abbrev pub given : String → Option String → List (String × Option String)
given flag none = []
given flag (some v) = (flag, some v) ∷ []

abbrev pub turned_on : String → Bool → List (String × Option String)
turned_on flag b = if b then (flag, none) ∷ [] else []

abbrev pub unless_empty : Option String → Option String
unless_empty v = if is_truthy v then v else none

abbrev pub with_engine : Option String → Option String → Option String
with_engine none jwt_path = none
with_engine (some url) jwt_path = jwt_path

abbrev IsMore : List String → Type 0
IsMore l = (w : String) × (ws : List String) × (l ≡ w ∷ ws)

IsMore-append : (xs l : List String) → IsMore l → IsMore (xs ++ l)
IsMore-append [] l m = m
IsMore-append (x ∷ xs) l m = (x, xs ++ l, refl)

read-switch :
    (flag : String) (b : Bool) (l : List String)
    → is_switch flag ≡ true
    → IsMore l
    → read_options (switch flag b ++ l) ≡ turned_on flag b ++ read_options l
unfolding read_options
read-switch flag false l is m = refl
read-switch flag true l is (w, ws, at) = rw at (rw is refl)

read-option :
    (flag : String) (v : Option String) (l : List String)
    → is_switch flag ≡ false
    → read_options (option flag v ++ l) ≡ given flag v ++ read_options l
unfolding read_options
read-option flag none l is = refl
read-option flag (some v) l is = rw is refl

read-option_truthy :
    (flag : String) (v : Option String) (l : List String)
    → is_switch flag ≡ false
    → read_options (option_truthy flag v ++ l) ≡ given flag (unless_empty v) ++ read_options l
read-option_truthy flag v l is = elim (Bool-cases (is_truthy v)) [
  | inl full ↦ rw full (read-option flag v l is)
  | inr empty ↦ rw empty refl
]

read-engine :
    (url jwt_path : Option String) (l : List String)
    → read_options (engine_options url jwt_path ++ l)
      ≡ given "--engine-endpoint" url
        ++ (given "--engine-jwt-secret-file" (with_engine url jwt_path) ++ read_options l)
unfolding read_options
read-engine none jwt_path l = refl
read-engine (some url) jwt_path l =
    ap (λ r. ("--engine-endpoint", some url) ∷ r)
      (read-option "--engine-jwt-secret-file" jwt_path l refl)

-- The options that the arguments ask for, in order, and the selector.
unfoldable pub asked_for : ExecuteArgs → List (String × Option String)
asked_for a =
    ("--fork", some a.fork)
    ∷ ("--rpc-endpoint", some a.rpc_url)
    ∷ ("--chain-id", some (decimal a.chain_id))
    ∷ ("--rpc-seed-key", some a.seed_key)
    ∷ ("--eoa-start", some a.eoa_start)
    ∷ ("--tx-wait-timeout", some (decimal a.tx_wait_timeout))
    ∷ ("-p", some "no:randomly")
    ∷ (given "--engine-endpoint" a.engine_url
        ++ (given "--engine-jwt-secret-file" (with_engine a.engine_url a.jwt_path)
            ++ (turned_on "--skip-cleanup" a.skip_cleanup
                ++ (given "--default-gas-price" (shown a.gas_price)
                    ++ (given "--default-max-fee-per-gas" (shown a.max_fee_per_gas)
                        ++ (given "--default-max-priority-fee-per-gas"
                              (shown a.max_priority_fee_per_gas)
                            ++ (turned_on "--include-benchmark" a.include_benchmark
                                ++ (given "--gas-benchmark-values"
                                      (unless_empty a.gas_benchmark_values)
                                    ++ (given "--transaction-gas-limit"
                                          (shown a.transaction_gas_limit)
                                        ++ (given "-k" (unless_empty a.k_filter)
                                            ++ (a.test_selector, none) ∷ []))))))))))

-- The words behind the fee options, and those behind the engine's.
abbrev last_words : ExecuteArgs → List String
last_words a =
    option_truthy "--gas-benchmark-values" a.gas_benchmark_values
    ++ (option "--transaction-gas-limit" (shown a.transaction_gas_limit)
        ++ (option_truthy "-k" a.k_filter ++ (a.test_selector ∷ [])))

abbrev fee_words : ExecuteArgs → List String
fee_words a =
    option "--default-gas-price" (shown a.gas_price)
    ++ (option "--default-max-fee-per-gas" (shown a.max_fee_per_gas)
        ++ (option "--default-max-priority-fee-per-gas" (shown a.max_priority_fee_per_gas)
            ++ (switch "--include-benchmark" a.include_benchmark ++ last_words a)))

last_words-IsMore : (a : ExecuteArgs) → IsMore (last_words a)
last_words-IsMore a =
    IsMore-append (option_truthy "--gas-benchmark-values" a.gas_benchmark_values) _ (
      IsMore-append (option "--transaction-gas-limit" (shown a.transaction_gas_limit)) _
        (IsMore-append (option_truthy "-k" a.k_filter) _ (a.test_selector, [], refl)))

fee_words-IsMore : (a : ExecuteArgs) → IsMore (fee_words a)
fee_words-IsMore a = IsMore-append (option "--default-gas-price" (shown a.gas_price)) _ (
    IsMore-append (option "--default-max-fee-per-gas" (shown a.max_fee_per_gas)) _ (
      IsMore-append (option "--default-max-priority-fee-per-gas" (shown a.max_priority_fee_per_gas))
        _
        (IsMore-append (switch "--include-benchmark" a.include_benchmark) _ (last_words-IsMore a))))

read-last_words :
    (a : ExecuteArgs)
    → read_options (last_words a)
      ≡ given "--gas-benchmark-values" (unless_empty a.gas_benchmark_values)
        ++ (given "--transaction-gas-limit" (shown a.transaction_gas_limit)
            ++ (given "-k" (unless_empty a.k_filter) ++ (a.test_selector, none) ∷ []))
unfolding read_options
read-last_words a =
    rw
      (
        read-option_truthy "--gas-benchmark-values" a.gas_benchmark_values
            (option "--transaction-gas-limit" (shown a.transaction_gas_limit)
              ++ (option_truthy "-k" a.k_filter ++ (a.test_selector ∷ [])))
            refl,
        read-option "--transaction-gas-limit" (shown a.transaction_gas_limit)
            (option_truthy "-k" a.k_filter ++ (a.test_selector ∷ [])) refl,
        read-option_truthy "-k" a.k_filter (a.test_selector ∷ []) refl,
      )
      refl

read-fee_words :
    (a : ExecuteArgs)
    → read_options (fee_words a)
      ≡ given "--default-gas-price" (shown a.gas_price)
        ++ (given "--default-max-fee-per-gas" (shown a.max_fee_per_gas)
            ++ (given "--default-max-priority-fee-per-gas" (shown a.max_priority_fee_per_gas)
                ++ (turned_on "--include-benchmark" a.include_benchmark
                    ++ read_options (last_words a))))
read-fee_words a =
    rw
      (
        read-option "--default-gas-price" (shown a.gas_price)
            (option "--default-max-fee-per-gas" (shown a.max_fee_per_gas)
              ++ (option "--default-max-priority-fee-per-gas" (shown a.max_priority_fee_per_gas)
                  ++ (switch "--include-benchmark" a.include_benchmark ++ last_words a)))
            refl,
        read-option "--default-max-fee-per-gas" (shown a.max_fee_per_gas)
            (option "--default-max-priority-fee-per-gas" (shown a.max_priority_fee_per_gas)
              ++ (switch "--include-benchmark" a.include_benchmark ++ last_words a))
            refl,
        read-option "--default-max-priority-fee-per-gas" (shown a.max_priority_fee_per_gas)
            (switch "--include-benchmark" a.include_benchmark ++ last_words a) refl,
        read-switch "--include-benchmark" a.include_benchmark (last_words a) refl
            (last_words-IsMore a),
      )
      refl

-- The command line of the subprocess, behind `uv run execute remote`, read back word by word gives
-- the options that the arguments ask for, each with its value, and the selector, whatever the texts
-- among the arguments are: the secret's path with the engine's URL only, and the filter and the
-- benchmark values unless they are empty.
pub execute_command-asked_for :
    (a : ExecuteArgs)
    → (words : List String) × (execute_command a ≡ "uv" ∷ "run" ∷ "execute" ∷ "remote" ∷ words)
      × (read_options words ≡ asked_for a)
unfolding execute_command read_options asked_for
execute_command-asked_for a = (
  _,
  refl,
  rw
      (
        read-engine a.engine_url a.jwt_path (switch "--skip-cleanup" a.skip_cleanup ++ fee_words a),
        read-switch "--skip-cleanup" a.skip_cleanup (fee_words a) refl (fee_words-IsMore a),
        read-fee_words a,
        read-last_words a,
      )
      refl,
)
