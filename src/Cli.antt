-- ===== src/Cli.antt =====
-- eest_replay/cli.py: the `run` command over the fixtures of its files.
pub mod Options
pub mod Signatures
pub mod Printed
pub mod Shown
pub mod Batch
pub mod Reported
pub mod Written
pub mod Whole
pub mod Recover
pub mod Reclaim
pub mod Commands
pub mod Exits
pub mod Bloat
pub mod Generated
pub mod Places
pub mod Replays
pub mod Stops
use buildoor_tester.Base.{
  ℕ, zero, suc, ◌+◌, ◌-◌, Bool, true, false, not, ◌&&◌, ◌||◌, Option, none, some, List, [], ◌∷◌,
  ◌++◌, map, String, ◌<>◌, ◌==◌, ltb, Outcome, ok, raised, Exc, Exec, call, pure, ◌>>◌, is_empty,
  if◌then◌else◌,
}
use buildoor_tester.Runner.Results.{FixtureResult, passed}
use buildoor_tester.Report.{BatchReport, new_report, add, failed_count, errored_count, markdown}
use buildoor_tester.Report.Summary.{to_dict}
use buildoor_tester.Cli.Printed.{Output, result_lines, batch_line}

-- A fixture file as the loop reads it: the fixtures that it yields with their test ids, and the
-- exception that ends the reading, if there is one.
pub record FixtureFile (Fixture : Type 0) : Type 0 where
  pub yielded : List (String × Fixture)
  pub broken : Option Exc

-- How the loops end: at their end or at a `break`, or by an exception that nothing caught.
pub data Ended : Type 0 where
  finished : BatchReport → Ended
  escaped : Exc → BatchReport → Ended

-- How the command ends: without any fixture file, with an exit status, or by an exception.
pub data Exit : Type 0 where
  no_files : Exit
  exited : ℕ → BatchReport → Exit
  traceback : Exc → BatchReport → Exit

-- The options of the command besides those of a replay.
pub record RunArgs : Type 0 where
  pub path : String
  pub report_json : Option String
  pub report_md : Option String
  pub stop_on_first_failure : Bool

abbrev pub ended : Option Exc → BatchReport → Ended
ended none b = finished b
ended (some e) b = escaped e b

abbrev pub report_of : Ended → BatchReport
report_of (finished b) = b
report_of (escaped e b) = b

-- `sys.exit(0 if report.failed + report.errored == 0 else 1)`.
unfoldable pub exit_of : Ended → Exit
exit_of (finished b) = exited (if (failed_count b + errored_count b) == 0 then 0 else 1) b
exit_of (escaped e b) = traceback e b

-- An exception of the `finally` is the one that is seen.
abbrev pub exit_behind : Outcome (Unit {0}) → Ended → Exit
exit_behind (ok u) e = exit_of e
exit_behind (raised x) e = traceback x (report_of e)

abbrev pub is_troubled : BatchReport → Bool
is_troubled b = ltb 0 (failed_count b + errored_count b)

module _ {Event : Type 0} (O : Output Event) where
  abbrev pub say : String → Exec Event (Unit {0})
  say line h = (ok tt, h ++ O.echo line ∷ [])

  -- `if report_json is not None`, and the same for the Markdown file.
  abbrev pub written_json : BatchReport → Option String → Exec Event (Unit {0})
  written_json b none = pure tt
  written_json b (some path) =
      call O.on_write (O.write_json path (to_dict O.floats.seconds_json b))
      >> say ("json report: " <> path)

  abbrev pub written_markdown : BatchReport → Option String → Exec Event (Unit {0})
  written_markdown b none = pure tt
  written_markdown b (some path) =
      call O.on_write (O.write_markdown path (markdown O.floats.seconds O.floats.seconds_2f b))
      >> say ("markdown report: " <> path)

  -- The `finally`, behind the loops that began at the time `t0`.
  unfoldable pub conclude : RunArgs → ℕ → BatchReport → Exec Event (Unit {0})
  unfolding to_dict markdown batch_line
  conclude a t0 b h =
      (say (batch_line O.floats.seconds_1f b (O.now h - t0))
          >> (written_json b a.report_json >> written_markdown b a.report_md))
        h

-- A fixture of a file, by its test id, and the replay of it: a call, which may raise.
module _ {Fixture Event : Type 0} (O : Output Event)
    (replay : String → Fixture → Exec Event FixtureResult) (crash : Exc → String) where
  -- `except Exception`: an exception of the replay becomes a result with an error.
  abbrev pub caught : String → Outcome FixtureResult → FixtureResult
  caught test_id (ok r) = r
  caught test_id (raised e) = record {
    test_id = test_id;
    blocks = [];
    error = some ("runner crashed: " <> crash e);
    fork = none;
    elapsed_ms = 0;
  }

  abbrev pub headed : String → List Event → List Event
  headed test_id h = h ++ O.echo ("=== " <> test_id) ∷ []

  unfoldable pub run_one : String → Fixture → List Event → FixtureResult × List Event
  unfolding result_lines
  run_one test_id f h =
      let (r, h') = replay test_id f (headed test_id h) in
      let result = caught test_id r in
      (result, h' ++ map O.echo (result_lines O.floats.seconds_1f result))

  -- The fixtures of one file; the loop is left at the first that did not pass, if asked to.
  unfoldable pub run_file :
      Bool → Option Exc → List (String × Fixture) → BatchReport → List Event → Ended × List Event
  run_file stop broken [] b h = (ended broken b, h)
  run_file stop broken ((test_id, f) ∷ fs) b h =
      let (r, h') = run_one test_id f h in
      let b' = add r b in
      let rest = run_file stop broken fs b' h' in
      if stop && not (passed r) then (finished b', h') else rest

  abbrev pub after_file :
      Bool
      → (BatchReport → List Event → Ended × List Event)
      → Ended
      → List Event
      → Ended × List Event
  after_file stop rest (escaped e b) h = (escaped e b, h)
  after_file stop rest (finished b) h = if stop && is_troubled b then (finished b, h) else rest b h

  -- The files in their order; `stop` leaves this loop too.
  unfoldable pub run_files :
      Bool → List (FixtureFile Fixture) → BatchReport → List Event → Ended × List Event
  run_files stop [] b h = (finished b, h)
  run_files stop (file ∷ files) b h =
      let (e, h') = run_file stop file.broken file.yielded b h in
      after_file stop (run_files stop files) e h'

  abbrev pub run_loops : RunArgs → List (FixtureFile Fixture) → List Event → Ended × List Event
  run_loops a files h = run_files a.stop_on_first_failure files new_report h

  unfoldable pub run_cmd : RunArgs → List (FixtureFile Fixture) → List Event → Exit × List Event
  unfolding exit_of run_files conclude
  run_cmd a files h =
      let (e, u) = run_loops a files h in
      let (s, t) = conclude O a (O.now h) (report_of e) u in
      if is_empty files
      then (no_files, h ++ O.echo ("no fixture JSON files under " <> a.path) ∷ [])
      else (exit_behind s e, t)
