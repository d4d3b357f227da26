-- ===== src/Cli/Replays.antt =====
-- eest_replay/cli.py and runner.py: what `run` comes to when its fixtures are replayed by `replay`.
use buildoor_tester.Base.{
  ℕ, ◌≡◌, refl, ◌↔◌, true, false, Option, List, [], ◌∷◌, all_of, String, Outcome, ok, raised, Exc,
  Exec, arith,
}
use buildoor_tester.Testing.{Testing, Fixture}
use buildoor_tester.Genesis.Chainspec.{GenesisSource}
use buildoor_tester.Runner.Results.{FixtureResult, get_payload_version, passed}
use buildoor_tester.Runner.Order.{valid_payloads}
use buildoor_tester.Runner.Built.{Agreed}
use buildoor_tester.Runner.Replayed.{Drove, replay-passed}
use buildoor_tester.Runner.Replay.{replay}
use buildoor_tester.Export.Submit
use buildoor_tester.Process.Events.{Event, submits, Host}
use buildoor_tester.Report.{BatchReport}
use buildoor_tester.Cli.Printed.{Floats, Output}
use buildoor_tester.Cli.{FixtureFile, Exit, exited, RunArgs, caught, headed, run_one, run_cmd}
use buildoor_tester.Cli.Batch.{replays, fixtures}
use buildoor_tester.Cli.Places.{placed_files}
use buildoor_tester.Cli.Whole.{run_cmd-IsWhole}

module _ {Fix Ev : Type 0} (O : Output Ev) (replay_one : String → Fix → Exec Ev FixtureResult)
    (crash : Exc → String) where
  -- Every replay of these returned a result that passed, each over what was done for the ones before.
  abbrev pub Passing : List (String × Fix) → List Ev → Type 0
  Passing [] h = Unit {0}
  Passing ((test_id, f) ∷ fs) h =
      ((r : FixtureResult) × ((replay_one test_id f (headed O replay_one crash test_id h)).0 ≡ ok r)
        × (passed r ≡ true))
      × Passing fs (run_one O replay_one crash test_id f h).1

  caught-passed :
      (test_id : String) (x : Outcome FixtureResult)
      → passed (caught O replay_one crash test_id x) ≡ true
      → (r : FixtureResult) × (x ≡ ok r) × (passed r ≡ true)
  unfolding passed
  caught-passed test_id (ok r) e = (r, refl, e)
  caught-passed test_id (raised x) e = cc e

  all_passed-Passing :
      (fs : List (String × Fix)) (h : List Ev)
      → all_of passed (replays O replay_one crash fs h).0 ≡ true
      → Passing fs h
  unfolding run_one
  all_passed-Passing [] h e = tt
  all_passed-Passing ((test_id, f) ∷ fs) h e = (
    caught-passed test_id (replay_one test_id f (headed O replay_one crash test_id h)).0
        (ground (arith, e)),
    all_passed-Passing fs (run_one O replay_one crash test_id f h).1 (ground (arith, e)),
  )

  -- A command that exits with 0 has replayed every fixture of every file, in their order and each
  -- over what was done for the ones before it; none of these replays raised an exception, and each
  -- gave a result that passed.
  pub run_cmd-Passing :
      (a : RunArgs) (files : List (FixtureFile Fix)) (h : List Ev) {b : BatchReport}
      → (run_cmd O replay_one crash a files h).0 ≡ exited 0 b
      → Passing (fixtures O replay_one crash files) h
  run_cmd-Passing a files h e =
      all_passed-Passing (fixtures O replay_one crash files) h
        (run_cmd-IsWhole O replay_one crash a files h e).1

module _ (T : Testing) (H : Host T) (F : Floats) (base_work_dir : String) (build_time_ms : ℕ)
    (binary : Option String) (crash : Exc → String) where
  abbrev pub terminal : Output (Event T)
  terminal = record {
    echo = λ line. submits (Submit.echo line);
    write_json = λ path d. submits (Submit.write_json path d);
    write_markdown = λ path lines. submits (Submit.write_text path lines);
    on_write = H.on_write;
    now = H.now;
    floats = F;
  }

  -- A fixture, with the directory of its replay, as what its genesis is built from and what its chain
  -- is driven by.
  abbrev pub replayed :
      String → String × (GenesisSource T × Fixture T) → Exec (Event T) FixtureResult
  replayed test_id (dir, (source, f)) = replay T H source f test_id dir build_time_ms binary

  -- The command, with `replay` and the terminal. Each file comes with the stem of its path.
  abbrev pub run_main :
      RunArgs
      → List (String × FixtureFile (GenesisSource T × Fixture T))
      → List (Event T)
      → Exit × List (Event T)
  run_main a files h = run_cmd terminal replayed crash a (placed_files base_work_dir 0 files) h

  -- The replay of a fixture over a history: it returned, it drove the chain by the version of the
  -- fixture's fork, and for each valid payload it obtained a payload that agrees with it.
  abbrev pub Built : String → String → GenesisSource T → Fixture T → List (Event T) → Type 0
  Built test_id dir source f h =
      (r : FixtureResult) × (t : List (Event T)) × (replayed test_id (dir, (source, f)) h
        ≡ (ok r, t))
      × (d : (version : ℕ) × (get_payload_version T f ≡ ok version) × Drove T H f version r h t)
      × Agreed T (H.node d.2.before d.2.rpc_url d.2.auth_url) d.2.settings d.2.asked
          (valid_payloads T f.payloads)

  abbrev pub AllBuilt :
      List (String × (String × (GenesisSource T × Fixture T))) → List (Event T) → Type 0
  AllBuilt [] h = Unit {0}
  AllBuilt ((test_id, (dir, (source, f))) ∷ fs) h =
      Built test_id dir source f (headed terminal replayed crash test_id h)
      × AllBuilt fs (run_one terminal replayed crash test_id (dir, (source, f)) h).1

  Passing-Built :
      ((a b : T.Value) → (T.ne a b ≡ false) ↔ (a ≡ b))
      → (fs : List (String × (String × (GenesisSource T × Fixture T)))) (h : List (Event T))
      → Passing terminal replayed crash fs h
      → AllBuilt fs h
  Passing-Built law [] h p = tt
  Passing-Built law ((test_id, (dir, (source, f))) ∷ fs) h ((r, is, good), more) =
      let h1 = headed terminal replayed crash test_id h in
      let t = (replayed test_id (dir, (source, f)) h1).1 in
      let whole : replayed test_id (dir, (source, f)) h1 ≡ (ok r, t) = λ i. (is i, t) in
      let (d, agreed, _) =
        replay-passed T H law source f test_id dir build_time_ms binary h1 whole good in
      (
        (r, t, whole, d, agreed),
        Passing-Built law fs (run_one terminal replayed crash test_id (dir, (source, f)) h).1 more,
      )

  -- A `run` that exits with 0: of every fixture of every file, in their order and each over what was
  -- done for the ones before it, the replay in its directory returned, it drove the chain by the version of the
  -- fixture's fork, and for each valid payload of the fixture the engine or buildoor answered with a
  -- payload that agrees with it in every field that the builder does not choose, given that `!=` is
  -- false exactly on equal values.
  pub run_cmd-AllBuilt :
      ((a b : T.Value) → (T.ne a b ≡ false) ↔ (a ≡ b))
      → (a : RunArgs) (files : List (String × FixtureFile (GenesisSource T × Fixture T)))
        (h : List (Event T)) {b : BatchReport}
      → (run_main a files h).0 ≡ exited 0 b
      → AllBuilt (fixtures terminal replayed crash (placed_files base_work_dir 0 files)) h
  run_cmd-AllBuilt law a files h e =
      let placed = placed_files base_work_dir 0 files in
      Passing-Built law (fixtures terminal replayed crash placed) h
        (run_cmd-Passing terminal replayed crash a placed h e)
