-- ===== src/Tests/Bloated.antt =====
-- The `bloat` command at concrete inputs.
use buildoor_tester.Base.{ℕ, ◌-ℤ◌, ◌≡◌, refl, false, none, some, List, [], ◌++◌, pos, ok, Outcome}
use buildoor_tester.Base.Numeral.{decimal}
use buildoor_tester.Process.Engine.{wait_for_rpc}
use buildoor_tester.Process.Poll.{wait_until_ready, poll}
use buildoor_tester.Process.Events.{Event}
use buildoor_tester.Process.Balance.{step}
use buildoor_tester.Process.Running.{Balanced}
use buildoor_tester.Cli.Commands.{report_submit_result}
use buildoor_tester.Cli.Bloat.{BloatArgs, bloat_cmd, bloat_cmd-Balanced}
use buildoor_tester.Cli.Generated.{Generated, bloat_cmd-generates}
use buildoor_tester.Tests.{five, numbers_only, host}

abbrev bloat_args : BloatArgs
bloat_args = record {
  test_selector = "tests/osaka";
  fork = "Osaka";
  chain_id = pos 1337;
  state_actor_bin = some "state-actor";
  target_size = "200MB";
  datadir = none;
  gen_dir = "/work";
  seed_key = "0x01";
  k_filter = none;
  csv_path = none;
  tx_wait_timeout = pos 120;
  include_benchmark = false;
  gas_benchmark_values = none;
  transaction_gas_limit = none;
  max_fee_per_gas = none;
  max_priority_fee_per_gas = none;
}

bloat_cmd-Balanced_example :
    (xs : List (Event numbers_only)) × Balanced (step numbers_only) xs
    × ((bloat_cmd numbers_only host (λ key. ok "0xseed") decimal five bloat_args []).1 ≡ [] ++ xs)
bloat_cmd-Balanced_example =
    bloat_cmd-Balanced numbers_only host (λ key. ok "0xseed") decimal five bloat_args []

abbrev bloat_run : Outcome ℕ × List (Event numbers_only)
bloat_run = bloat_cmd numbers_only host (λ key. ok "0xseed") decimal five bloat_args []

bloat_ok : bloat_run.0 ≡ ok 0
unfolding bloat_cmd wait_for_rpc wait_until_ready poll report_submit_result decimal ◌-ℤ◌
bloat_ok = refl

bloat_cmd-generates_example :
    Generated numbers_only host
      (λ key. ok "0xseed")
      decimal
      five
      bloat_args
      "state-actor"
      []
      bloat_run.1
bloat_cmd-generates_example =
    bloat_cmd-generates numbers_only host (λ key. ok "0xseed") decimal five bloat_args [] refl
      (λ i. (bloat_ok i, bloat_run.1))
