-- ===== src/Tests/Replay.antt =====
-- Replays of the runner, reports and batches at concrete inputs.
use buildoor_tester.Base.{
  ℕ, ◌≡◌, ◌≢◌, ◌⊎◌, refl, ◌↔◌, true, false, none, some, List, [], ◌∷◌, ◌++◌, map, take, length, ok,
  arith,
}
use buildoor_tester.Runner.Results.{BlockResult, FixtureResult, passed, block_result, diff_payload}
use buildoor_tester.Runner.Calls.{
  Call, send_raw_transaction, forkchoice_updated, get_payload, new_payload, sleep,
  payload_attributes,
}
use buildoor_tester.Runner.Drive.{drive_chain, drive_block, submit_mempool}
use buildoor_tester.Runner.Diff.{AgreesAt, matched_iff}
use buildoor_tester.Runner.Built.{Agreed, drive_chain-passed}
use buildoor_tester.Runner.Asked.{forget_id}
use buildoor_tester.Runner.Order.{blocks_plan, block_numbers, numbers, valid_payloads}
use buildoor_tester.Runner.Blocks.{bootstrap_plan, drive_chain-calls, drive_chain-Reports}
use buildoor_tester.Report.{BatchReport}
use buildoor_tester.Tests.{numbers_only, three_payloads, payload_of, willing, settings, result_with}

abbrev round : List (Call numbers_only)
round =
    send_raw_transaction 1
    ∷ forkchoice_updated 1 (some (payload_attributes numbers_only (payload_of 1 true))) 3
    ∷ sleep 1000
    ∷ get_payload "0x01" 4
    ∷ new_payload 1 [] 4
    ∷ forkchoice_updated 1 none 3
    ∷ []

abbrev calls : List (Call numbers_only)
calls = forkchoice_updated 0 none 3 ∷ (round ++ round)

abbrev block : BlockResult
block = record { block_number = 1; matched = true; mismatches = [] }

abbrev outcome : FixtureResult
outcome = record {
  test_id = "t";
  blocks = block ∷ block ∷ [];
  error = none;
  fork = none;
  elapsed_ms = 0;
}

replayed : drive_chain numbers_only willing settings three_payloads [] ≡ (ok outcome, calls)
unfolding drive_chain block_result diff_payload payload_attributes drive_block submit_mempool
replayed = refl

drive_chain-calls_example :
    map forget_id calls
    ≡ map forget_id []
      ++ (bootstrap_plan numbers_only three_payloads three_payloads.payloads
          ++ blocks_plan numbers_only settings three_payloads.payloads)
drive_chain-calls_example =
    drive_chain-calls numbers_only willing settings three_payloads [] replayed refl

drive_chain-Reports_example :
    (k : ℕ) × (block_numbers outcome.blocks ≡ take k (numbers numbers_only three_payloads.payloads))
    × ((k ≡ length (valid_payloads numbers_only three_payloads.payloads)) ⊎ (outcome.error ≢ none))
drive_chain-Reports_example =
    drive_chain-Reports numbers_only willing settings three_payloads [] replayed

ne_law : (a b : ℕ) → (numbers_only.ne a b ≡ false) ↔ (a ≡ b)
ne_law a b = ground arith

passed-outcome : passed outcome ≡ true
unfolding passed
passed-outcome = refl

drive_chain-passed_example :
    Agreed numbers_only willing settings calls (valid_payloads numbers_only three_payloads.payloads)
drive_chain-passed_example =
    drive_chain-passed numbers_only willing settings ne_law three_payloads [] replayed
      passed-outcome

matched_iff_example :
    ((block_result numbers_only 1 1).matched ≡ true)
    ↔ AgreesAt numbers_only 1 1 ("number" ∷ "gas_limit" ∷ [])
matched_iff_example = matched_iff numbers_only ne_law 1 1

abbrev pub mixed : BatchReport
mixed = record { results = result_with none ∷ result_with (some "lost") ∷ [] }
