-- ===== src/Tests/Commands.antt =====
-- The commands, the JSON report and the files of a walk at concrete inputs.
use buildoor_tester.Base.{
  ℕ, ◌+◌, ◌≡◌, refl, ◌↔◌, true, false, none, some, List, [], ◌∷◌, ◌++◌, pos, ok, arith,
}
use buildoor_tester.Base.Json.{num, str, arr, obj, Items, Dict, get}
use buildoor_tester.Report.Summary.{
  to_dict, count_entries, is_true, is_false, is_present, to_dict-summary,
}
use buildoor_tester.Sweep.{
  recover_funded_eoas, sweep_account, get_balance, is_too_low, nonce_of, read_hash, Call, Chain,
  RecoveredAccount, wait_within, wait_for_receipts,
}
use buildoor_tester.Sweep
use buildoor_tester.Sweep.Receipts.{GoesOn, wait_for_receipts-enough}
use buildoor_tester.FixtureFiles.Walk.{
  FilePath, Files, discover_fixture_files, root_of, IsIn, discover_fixture_files-walks,
}
use buildoor_tester.Cli.Options.{recover_command}
use buildoor_tester.Cli.Signatures.{required_flags}
use buildoor_tester.Tests.{rich, result_with}

to_dict-summary_example :
    (s : Dict) × (entries : Items) × (get "summary" (
        to_dict
          (λ ms. num (pos ms))
          record { results = result_with none ∷ result_with (some "e") ∷ [] })
      ≡ some (obj s))
    × (get "results" (
          to_dict
            (λ ms. num (pos ms))
            record { results = result_with none ∷ result_with (some "e") ∷ [] })
        ≡ some (arr entries))
    × (get "total" s ≡ some (num (pos (count_entries (λ j. true) "test_id" entries))))
    × (get "passed" s ≡ some (num (pos (count_entries is_true "passed" entries))))
    × (get "failed" s ≡ some (num (pos (count_entries is_false "passed" entries))))
    × (get "errored" s ≡ some (num (pos (count_entries is_present "error" entries))))
to_dict-summary_example =
    to_dict-summary (λ ms. num (pos ms))
      record { results = result_with none ∷ result_with (some "e") ∷ [] }

-- The endpoint `rich` with a clock that each sleep moves on.
abbrev slept : List Call → ℕ
slept [] = 0
slept (Sweep.sleep time ∷ h) = time + slept h
slept (c ∷ h) = slept h

abbrev patient : Chain
patient = record rich { now = slept }

slept-append : (h t : List Call) → slept (h ++ t) ≡ slept h + slept t
slept-append [] t = omega arith
slept-append (Sweep.sleep time ∷ h) t = omega (arith, slept-append h t)
slept-append (Sweep.eth_get_balance a ∷ h) t = slept-append h t
slept-append (Sweep.eth_get_transaction_count a ∷ h) t = slept-append h t
slept-append (Sweep.eth_send_raw_transaction raw ∷ h) t = slept-append h t
slept-append (Sweep.eth_get_transaction_receipt hash ∷ h) t = slept-append h t

goes_on : GoesOn patient
goes_on = record {
  takes = λ c h. omega (arith, slept-append h (c ∷ []));
  sleeps = λ time h. omega (arith, slept-append h (Sweep.sleep time ∷ []));
}

abbrev account : RecoveredAccount
account = record { address = "0x1"; swept_wei = pos 1; tx_hash = str "0xf4240" }

wait_for_receipts-enough_example :
    wait_within patient 100 (account ∷ []) [] ≡ wait_for_receipts patient (account ∷ []) []
wait_for_receipts-enough_example =
    wait_for_receipts-enough patient goes_on 99 (account ∷ []) [] (omega arith)

abbrev tree : Files
tree = record {
  is_file = λ path. false;
  is_dir = λ path. true;
  rglob_json = λ path. (path ++ "a.json" ∷ []) ∷ (path ++ ".meta" ∷ "b.json" ∷ []) ∷ [];
  show = λ path. "path";
}

abbrev root : FilePath
root = "fixtures" ∷ "blockchain_tests_engine" ∷ []

walked_tree : discover_fixture_files tree ("fixtures" ∷ []) ≡ ok ((root ++ "a.json" ∷ []) ∷ [])
unfolding discover_fixture_files
walked_tree = refl

discover_fixture_files-walks_example :
    (true ≡ true)
    × (IsIn (root ++ "a.json" ∷ []) ((root ++ "a.json" ∷ []) ∷ []) ↔ (
        IsIn (root ++ "a.json" ∷ []) (tree.rglob_json (root_of tree ("fixtures" ∷ [])))
        × ¬ IsIn ".meta" (root ++ "a.json" ∷ [])))
discover_fixture_files-walks_example =
    discover_fixture_files-walks tree ("fixtures" ∷ []) (root ++ "a.json" ∷ []) refl walked_tree

-- What the hint behind a submit leaves out: it names `--meta` and `--to` only.
recover_needs : required_flags recover_command ≡ "--rpc" ∷ "--to" ∷ "--chain-id" ∷ []
unfolding recover_command
recover_needs = refl
