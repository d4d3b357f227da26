-- ===== src/Tests/Runs.antt =====
-- The `run` command at concrete inputs.
use buildoor_tester.Base.{
  ◌≡◌, refl, true, none, some, List, [], ◌∷◌, ◌++◌, String, ◌<>◌, pos, ok, Exc, Exec,
}
use buildoor_tester.Base.Json.{num}
use buildoor_tester.Base.Numeral.{decimal}
use buildoor_tester.Testing.{Fixture}
use buildoor_tester.Genesis.Chainspec.{GenesisSource}
use buildoor_tester.Runner.Results.{
  FixtureResult, passed, get_payload_version, block_result, diff_payload,
}
use buildoor_tester.Runner.Replay.{replay}
use buildoor_tester.Runner.Drive.{drive_chain, drive_block, submit_mempool}
use buildoor_tester.Process.Engine.{geth, wait_for_rpc}
use buildoor_tester.Process.Poll.{wait_until_ready, poll}
use buildoor_tester.Process.Events.{Event}
use buildoor_tester.Process.Running.{Balanced}
use buildoor_tester.Process.Balance.{step}
use buildoor_tester.Report.{add, failed_count, errored_count, total, passed_count}
use buildoor_tester.Cli.Printed.{Floats, Output}
use buildoor_tester.Cli.{FixtureFile, Exit, exited, RunArgs, run_cmd, run_file, run_one}
use buildoor_tester.Cli.Shown.{shown}
use buildoor_tester.Cli.Batch.{results_of, replays, reached, fixtures}
use buildoor_tester.Cli.Reported.{run_cmd-results}
use buildoor_tester.Cli.Places.{slug, placed_files}
use buildoor_tester.Cli.Replays
use buildoor_tester.Cli.Stops.{run_cmd-Balanced}
use buildoor_tester.Tests.{numbers_only, three_payloads, source_for, host, result_with}
use buildoor_tester.Tests.Replay.{mixed}
use buildoor_tester.Tests.Processes.{result, ne_law}

abbrev floats : Floats
floats = record {
  seconds = λ ms. decimal (pos ms);
  seconds_1f = λ ms. decimal (pos ms);
  seconds_2f = λ ms. decimal (pos ms);
  seconds_json = λ ms. num (pos ms);
}

-- What is done, as text.
abbrev screen : Output String
screen = record {
  echo = λ line. line;
  write_json = λ path d. "json " <> path;
  write_markdown = λ path lines. "markdown " <> path;
  on_write = λ h. ok tt;
  now = λ h. 0;
  floats = floats;
}

-- A fixture is the result that its replay gives.
abbrev replay_it : String → FixtureResult → Exec String FixtureResult
replay_it test_id r h = (ok r, h ++ "replay" ∷ [])

abbrev crash : Exc → String
crash e = "crash"

abbrev run_args : RunArgs
run_args = record {
  path = "fixtures";
  report_json = some "report.json";
  report_md = none;
  stop_on_first_failure = true;
}

abbrev one_file : List (FixtureFile FixtureResult)
one_file =
    record {
      yielded = ("a", result_with none) ∷ ("b", result_with (some "lost")) ∷ [];
      broken = none;
    }
    ∷ []

abbrev batch : Exit × List String
batch = run_cmd screen replay_it crash run_args one_file []

batch_exit : batch.0 ≡ exited 1 mixed
unfolding run_cmd passed add failed_count errored_count run_file run_one
batch_exit = refl

batch_lines :
    batch.1
    ≡ "=== a" ∷ "replay" ∷ "  (no blocks)" ∷ "=== b" ∷ "replay" ∷ "  ERROR (5s): lost"
      ∷ "\n1/2 passed in 0s (1 failed, 1 errored)" ∷ "json report.json" ∷ "json report: report.json"
      ∷ []
unfolding run_cmd passed add failed_count errored_count run_file run_one total passed_count decimal
batch_lines = refl

run_cmd-results_example :
    results_of batch.0
    ≡ shown true (replays screen replay_it crash (reached screen replay_it crash one_file) []).0
run_cmd-results_example = run_cmd-results screen replay_it crash run_args one_file []

abbrev files : List (String × FixtureFile (GenesisSource numbers_only × Fixture numbers_only))
files =
    ("blobs", record { yielded = ("t", (source_for "Prague", three_payloads)) ∷ []; broken = none })
    ∷ []

slug_lem : slug 12 3 "blobs" ≡ "0012-03-blobs"
unfolding slug decimal
slug_lem = refl

abbrev main : Exit × List (Event numbers_only)
main = Replays.run_main numbers_only host floats "/work" 1000 none crash run_args files []

all_passed : main.0 ≡ exited 0 record { results = result ∷ [] }
unfolding run_cmd run_file failed_count add passed run_one replay get_payload_version geth
    wait_for_rpc wait_until_ready poll drive_chain drive_block submit_mempool block_result
    diff_payload errored_count
all_passed = refl

run_cmd-AllBuilt_example :
    Replays.AllBuilt numbers_only host floats "/work" 1000 none crash
      (fixtures
        (Replays.terminal numbers_only host floats "/work" 1000 none crash)
        (Replays.replayed numbers_only host floats "/work" 1000 none crash)
        crash
        (placed_files "/work" 0 files))
      []
run_cmd-AllBuilt_example =
    Replays.run_cmd-AllBuilt numbers_only host floats "/work" 1000 none crash ne_law run_args files
      [] all_passed

run_cmd-Balanced_example :
    (xs : List (Event numbers_only)) × Balanced (step numbers_only) xs × (main.1 ≡ [] ++ xs)
run_cmd-Balanced_example =
    run_cmd-Balanced numbers_only host floats "/work" 1000 none crash run_args files []
