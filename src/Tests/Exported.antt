-- ===== src/Tests/Exported.antt =====
-- The `export` command and what it runs at concrete inputs.
use buildoor_tester.Base.{
  ℕ, ◌≡◌, ◌≢◌, ◌↔◌, map, length, refl, true, none, List, [], ◌++◌, String, ok, Outcome,
}
use buildoor_tester.Base.Numeral.{decimal}
use buildoor_tester.Export.Submit.{ExportResult}
use buildoor_tester.Export.Rows.{enrich}
use buildoor_tester.Export.Transactions.{export_transactions}
use buildoor_tester.Export.Captures.{ran_through}
use buildoor_tester.Export.Reports.{Exported}
use buildoor_tester.Export.Closing.{export_transactions-Balanced}
use buildoor_tester.Process.Engine.{wait_for_rpc}
use buildoor_tester.Process.Poll.{wait_until_ready, poll}
use buildoor_tester.Process.Events.{Event, submits}
use buildoor_tester.Process.Running.{Balanced}
use buildoor_tester.Process.Balance.{step}
use buildoor_tester.Cli.Commands.{export_cmd, export_heading, export_lines, with_seed}
use buildoor_tester.Cli.Exits.{export_cmd-exits}
use buildoor_tester.Export.Submit
use buildoor_tester.Export.Command.{execute_result}
use buildoor_tester.Tests.{numbers_only, host, export_args}

abbrev exported : ExportResult
exported = record {
  tx_count = 1;
  csv_path = "out/transactions.csv";
  genesis_path = "out/genesis.json";
  meta_path = "out/meta.json";
  execute_ok = true;
  error = none;
}

abbrev seed_of : String → Outcome String
seed_of key = ok "0xseed"

abbrev export_run : Outcome ExportResult × List (Event numbers_only)
export_run = export_transactions numbers_only host seed_of export_args []

export_transactions-Balanced_example :
    (xs : List (Event numbers_only)) × Balanced (step numbers_only) xs
    × ((export_transactions numbers_only host seed_of export_args []).1 ≡ [] ++ xs)
export_transactions-Balanced_example =
    export_transactions-Balanced numbers_only host seed_of export_args []

abbrev command_run : Outcome ℕ × List (Event numbers_only)
command_run = export_cmd numbers_only host seed_of export_args []

export_ok : command_run.0 ≡ ok 0
unfolding export_cmd decimal wait_for_rpc wait_until_ready poll enrich
export_ok = refl

export_cmd-exits_example :
    (s : String) × (r : ExportResult) × (u : List (Event numbers_only)) × (E : Exported numbers_only
      host seed_of
      (with_seed export_args s)
      r
      ([] ++ map submits (map Submit.echo (export_heading export_args s)))
      u)
    × (◌≡◌ {A = ℕ} 0 0 ↔ (
        ((execute_result export_args.tx_wait_timeout E.end).0 ≡ true)
        × (length ((host.world E.before E.url).snapshot (ran_through E.url E.cmd E.end)) ≢ 0)))
    × (command_run.1 ≡ u ++ map submits (map Submit.echo (export_lines r)))
export_cmd-exits_example =
    export_cmd-exits numbers_only host seed_of export_args [] (λ i. (export_ok i, command_run.1))
