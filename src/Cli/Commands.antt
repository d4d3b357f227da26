-- ===== src/Cli/Commands.antt =====
-- eest_replay/cli.py: the `export` and `submit` commands, their printed lines and their exit status.
use buildoor_tester.Base.{
  ◌>>◌, ℕ, Bool, ◌&&◌, Option, none, some, is_truthy, List, [], ◌∷◌, ◌++◌, String, ◌<>◌, ℤ, pos,
  ltb, Outcome, ok, Exec, lift, pure, ◌>>=◌, if◌then◌else◌,
}
use buildoor_tester.Base.Numeral.{decimal}
use buildoor_tester.Testing.{Testing}
use buildoor_tester.Process.Events.{Event, Host}
use buildoor_tester.Process.Hosted.{embedded}
use buildoor_tester.Export.Submit.{
  ask_balance, write_json, execute, World, ExportArgs, ExportResult, SubmitArgs, SubmitResult,
  recovery_path, start_of, recovery_meta, said,
}
use buildoor_tester.Export.Submit
use buildoor_tester.Export.Session.{submit_transactions}
use buildoor_tester.Export.Transactions.{export_transactions}

-- An optional text inside an f-string.
abbrev pub text_of : Option String → String
text_of none = "None"
text_of (some s) = s

abbrev pub status_of : Bool → ℕ
status_of b = if b then 0 else 1

abbrev pub with_seed : ExportArgs → String → ExportArgs
with_seed a seed_addr = record a { seed_addr = some seed_addr }

abbrev pub with_floor : SubmitArgs → Option ℤ → SubmitArgs
with_floor a floor = record a { min_seed_balance_wei = floor }

abbrev pub export_heading : ExportArgs → String → List String
export_heading a seed_addr =
    ("=== exporting: " <> a.test_selector)
    ∷ ("    fork=" <> (a.fork <> (" chain_id=" <> (decimal a.chain_id <> (" seed=" <> seed_addr)))))
    ∷ []

unfoldable pub export_lines : ExportResult → List String
export_lines r =
    (if r.execute_ok then [] else ("  execute did not pass: " <> text_of r.error) ∷ [])
    ++ (("  captured " <> (decimal (pos r.tx_count) <> " transactions"))
        ∷ ("  csv:     " <> r.csv_path)
        ∷ ("  genesis: " <> r.genesis_path)
        ∷ ("  meta:    " <> r.meta_path)
        ∷ [])

abbrev pub submit_heading : SubmitArgs → List String
submit_heading a =
    ("=== submitting: " <> a.test_selector)
    ∷ ("    fork=" <> (a.fork <> (" chain_id=" <> (decimal a.chain_id <> (" rpc=" <> a.rpc_url)))))
    ∷ []

abbrev csv_lines : Option String → List String
csv_lines csv = if is_truthy csv then ("  csv: " <> text_of csv) ∷ [] else []

abbrev count_lines : Option ℕ → Option String → List String
count_lines none csv = []
count_lines (some n) csv = ("  submitted " <> (decimal (pos n) <> " transactions")) ∷ csv_lines csv

abbrev meta_lines : Option String → List String
meta_lines none = []
meta_lines (some p) =
    ("  recovery sidecar: " <> (p <> " (run `eest-replay recover --meta <it> --to <addr>`)")) ∷ []

-- A number of wei as it is printed in ether.
abbrev spent_lines : (ℤ → String) → Option ℤ → List String
spent_lines ether none = []
spent_lines ether (some n) = ("  seed spent: " <> (ether n <> " ETH")) ∷ []

-- `_report_submit_result`.
unfoldable pub report_submit_result : (ℤ → String) → SubmitResult → List String
report_submit_result ether r =
    count_lines r.submitted_count r.csv_path
    ++ (spent_lines ether r.spent_wei
        ++ (meta_lines r.meta_path
            ++ ((if r.execute_ok
                  then "  execute passed (txs included on-chain)"
                  else "  execute did not pass: " <> text_of r.error)
                ∷ [])))

-- What is printed behind a submit, and the exit status.
abbrev pub submit_exit : (ℤ → String) → SubmitResult → Exec Submit.Event ℕ
submit_exit ether r = said (report_submit_result ether r) >> pure (status_of r.execute_ok)

abbrev pub wei_of : {Ether : Type 0} → (Ether → Outcome ℤ) → Option Ether → Outcome (Option ℤ)
wei_of to_wei none = ok none
wei_of to_wei (some x) = some_of (to_wei x)
  where
    some_of : Outcome ℤ → Outcome (Option ℤ)
    some_of (ok n) = ok (some n)
    some_of (Outcome.raised e) = Outcome.raised e

module _ (T : Testing) (H : Host T) (address_from_key : String → Outcome String) where
  abbrev pub export_exit : ExportResult → Exec (Event T) ℕ
  export_exit r =
      embedded T (said (export_lines r)) >> pure (status_of (r.execute_ok && ltb 0 r.tx_count))

  abbrev pub export_from : ExportArgs → String → Exec (Event T) ℕ
  export_from a seed_addr =
      embedded T (said (export_heading a seed_addr))
      >> (export_transactions T H address_from_key (with_seed a seed_addr) >>= export_exit)

  -- The address of the seed is given to `export_transactions`. `a.work_dir` is `--work-dir`, or the
  -- directory that `mkdtemp` makes.
  unfoldable pub export_cmd : ExportArgs → Exec (Event T) ℕ
  unfolding export_lines export_transactions
  export_cmd a = lift (address_from_key a.seed_key) >>= export_from a

module _ (W : World) where
  -- The floor comes as a float in ether; `to_wei` is `int(x * 10**18)`.
  abbrev pub submit_from_seed :
      {Ether : Type 0}
      → (Ether → Outcome ℤ)
      → (ℤ → String)
      → SubmitArgs
      → Option Ether
      → String
      → Exec Submit.Event ℕ
  submit_from_seed to_wei ether a min_seed_balance seed_addr =
      said (("    seed=" <> seed_addr) ∷ [])
      >> (lift (wei_of to_wei min_seed_balance) >>= λ floor.
          submit_transactions W (with_floor a floor) >>= submit_exit ether)

  unfoldable pub submit_cmd :
      {Ether : Type 0}
      → (Ether → Outcome ℤ)
      → (ℤ → String)
      → SubmitArgs
      → Option Ether
      → Exec Submit.Event ℕ
  unfolding report_submit_result submit_transactions
  submit_cmd to_wei ether a min_seed_balance =
      said (submit_heading a)
      >> (lift (W.address a.seed_key) >>= submit_from_seed to_wei ether a min_seed_balance)
