-- ===== src/Tests/Processes.antt =====
-- The processes and the replay around them at concrete inputs.
use buildoor_tester.Base.{
  ℕ, ◌+◌, ◌≤◌, ◌≡◌, refl, ◌↔◌, true, false, none, some, List, [], ◌∷◌, ◌++◌, ok, raised, Outcome,
  arith,
}
use buildoor_tester.Runner.Results.{
  block_result, diff_payload, BlockResult, FixtureResult, get_payload_version, passed,
}
use buildoor_tester.Runner.Order.{valid_payloads}
use buildoor_tester.Runner.Built.{Agreed}
use buildoor_tester.Runner.Replay.{replay}
use buildoor_tester.Runner.Replayed.{Drove, replay-passed}
use buildoor_tester.Process.Events.{Event, ask_ready, nap}
use buildoor_tester.Process.Engine.{geth, wait_for_rpc, rest_of_round}
use buildoor_tester.Process.Poll.{wait_until_ready, poll}
use buildoor_tester.Runner.Drive.{drive_chain, drive_block, submit_mempool}
use buildoor_tester.Process.Waits.{GoesOn, EndsBy, wait_for_rpc-ends, wait_for_rpc-succeeds}
use buildoor_tester.Tests.{numbers_only, three_payloads, source_for, host, elapsed}

elapsed-append : (h t : List (Event numbers_only)) → elapsed (h ++ t) ≡ elapsed h + elapsed t
elapsed-append [] t = omega arith
elapsed-append (e ∷ h) t = omega (arith, elapsed-append h t)

goes_on : GoesOn numbers_only host
goes_on = record {
  takes = λ url h. omega (arith, elapsed-append h (ask_ready url ∷ []));
  sleeps = λ time h. omega (arith, elapsed-append h (nap time ∷ []));
}

quick :
    (a : Outcome ℕ) (h : List (Event numbers_only))
    → elapsed ((h ++ ask_ready "http://el" ∷ []) ++ rest_of_round numbers_only host a)
      ≤ elapsed h + 251
quick (ok status) h = omega (
  arith,
  elapsed-append h (ask_ready "http://el" ∷ []),
  elapsed-append (h ++ ask_ready "http://el" ∷ []) [],
)
quick (raised e) h = omega (
  arith,
  elapsed-append h (ask_ready "http://el" ∷ []),
  elapsed-append (h ++ ask_ready "http://el" ∷ []) (nap 250 ∷ []),
)

wait_for_rpc-ends_example :
    EndsBy numbers_only host 30000 "http://el" [] (wait_for_rpc numbers_only host "http://el" [])
wait_for_rpc-ends_example = wait_for_rpc-ends numbers_only host goes_on "http://el" []

wait_for_rpc-succeeds_example : (wait_for_rpc numbers_only host "http://el" []).0 ≡ ok tt
wait_for_rpc-succeeds_example =
    wait_for_rpc-succeeds numbers_only host goes_on "http://el" 251 0 quick (λ h late. refl) []
      (omega arith)

abbrev prague : Outcome FixtureResult × List (Event numbers_only)
prague = replay numbers_only host (source_for "Prague") three_payloads "t" "/work" 1000 none []

abbrev block : BlockResult
block = record { block_number = 1; matched = true; mismatches = [] }

-- Two blocks, built and imported within 20 events.
abbrev pub result : FixtureResult
result = record {
  test_id = "t";
  blocks = block ∷ block ∷ [];
  error = none;
  fork = some "Prague";
  elapsed_ms = 20;
}

replayed : prague.0 ≡ ok result
unfolding replay get_payload_version geth wait_for_rpc wait_until_ready poll drive_chain drive_block
    submit_mempool block_result diff_payload
replayed = refl

result-passed : passed result ≡ true
unfolding passed
result-passed = refl

pub ne_law : (a b : ℕ) → (numbers_only.ne a b ≡ false) ↔ (a ≡ b)
ne_law a b = ground arith

replay-passed_example :
    (d : (version : ℕ) × (get_payload_version numbers_only three_payloads ≡ ok version)
      × Drove numbers_only host three_payloads version result [] prague.1)
    × Agreed numbers_only
        (host.node d.2.before d.2.rpc_url d.2.auth_url)
        d.2.settings
        d.2.asked
        (valid_payloads numbers_only three_payloads.payloads)
    × (result.fork ≡ some "Prague")
replay-passed_example =
    replay-passed numbers_only host ne_law (source_for "Prague") three_payloads "t" "/work" 1000
      none [] (λ i. (replayed i, prague.1)) result-passed
