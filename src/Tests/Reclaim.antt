-- ===== src/Tests/Reclaim.antt =====
-- The `recover` command behind a submit, at concrete inputs.
use buildoor_tester.Base.{
  ◌timesℤ◌, ◌-ℤ◌, ◌+ℤ◌, ◌+◌, ◌^◌, ◌≡◌, refl, true, String, none, some, List, [], ◌∷◌, ◌++◌, pos,
  length, ok, Outcome,
}
use buildoor_tester.Base.Numeral.{decimal, int_of}
use buildoor_tester.Base.Json.{str, obj, get, Dict}
use buildoor_tester.Sweep.{
  recover_funded_eoas, sweep_account, get_balance, is_too_low, nonce_of, read_hash, Call,
  RecoveredAccount,
}
use buildoor_tester.Sweep.Recovery.{queried, sends, derived}
use buildoor_tester.Export.Gas.{random_eoa_start}
use buildoor_tester.Export.Submit.{start_of, recovery_meta}
use buildoor_tester.Cli.Recover.{RecoverArgs, Recovered, all_swept, sum_swept, recover_cmd}
use buildoor_tester.Tests.{five, rich, low_fees, world, submit_args}
use buildoor_tester.Export.Session.{submit_transactions}
use buildoor_tester.Export.Submit.{ask_balance, write_json, recovery_path, SubmitResult, Event}
use buildoor_tester.Export.Histories.{opened_for, runs}
use buildoor_tester.Export.Rows.{enrich}
use buildoor_tester.Cli.Reclaim.{submit-reclaimed}

abbrev recover_args : RecoverArgs
recover_args = record {
  to_addr = "0x2";
  chain_id = pos 1;
  meta = some (ok (obj (recovery_meta "0xseed" (start_of none five) (pos 1) "Osaka" "http://net")));
  eoa_start = none;
  key = none;
  count = 1;
  fees = low_fees;
}

abbrev recovered : List RecoveredAccount
recovered = record { address = "0x1"; swept_wei = pos 958000; tx_hash = str "0xf4240" } ∷ []

abbrev recover_run : Outcome Recovered × List Call
recover_run = recover_cmd rich recover_args []

recover_ok : recover_run.0 ≡ ok (all_swept recovered (pos 958000))
unfolding recover_cmd get recovery_meta int_of start_of random_eoa_start decimal recover_funded_eoas
    sweep_account get_balance is_too_low ◌timesℤ◌ ◌-ℤ◌ nonce_of read_hash ◌+ℤ◌
recover_ok = refl

abbrev submit_run : Outcome SubmitResult × List Event
submit_run = submit_transactions world (submit_args none) []

abbrev submitted : SubmitResult
submitted = record {
  execute_ok = true;
  submitted_count = some 1;
  csv_path = some "transactions.csv";
  error = none;
  spent_wei = some (pos 0);
  meta_path = some "transactions.recovery.json";
}

abbrev behind_the_file : List Event → List Event
behind_the_file (x ∷ y ∷ more) = more
behind_the_file _ = []

submit_ok : submit_run.0 ≡ ok submitted
unfolding submit_transactions ◌-ℤ◌ enrich
submit_ok = refl

file_at :
    recovery_path world.recovery_suffix none (some "transactions.csv")
    ≡ some "transactions.recovery.json"
unfolding recovery_path
file_at = refl

abbrev file : Dict
file = recovery_meta "0xseed" (start_of none five) (pos 1) "Osaka" "http://net"

submit_history :
    submit_run.1
    ≡ ask_balance "0xseed"
      ∷ write_json "transactions.recovery.json" file
      ∷ behind_the_file submit_run.1
unfolding submit_transactions ◌-ℤ◌ enrich
submit_history = refl

submit-reclaimed_example :
    (url : String) × (rest : List Event) × (rs : List RecoveredAccount) × (behind_the_file
        submit_run.1
      ≡ opened_for (some "transactions.csv") "http://net"
        ++ runs world (submit_args none) (start_of none five) url ∷ rest)
    × (queried recover_run.1 ≡ derived rich (pos (5 + 2 ^ 16)) "0x2" (pos 1) low_fees 0 1)
    × (all_swept recovered (pos 958000) ≡ all_swept rs (sum_swept rs))
    × (length rs ≡ sends recover_run.1)
submit-reclaimed_example =
    submit-reclaimed world rich (submit_args none) [] recover_args file refl file_at refl
      (λ i. (submit_ok i, submit_run.1)) refl submit_history refl refl refl
      (λ i. (recover_ok i, recover_run.1))
