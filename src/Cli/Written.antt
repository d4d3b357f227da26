-- ===== src/Cli/Written.antt =====
-- eest_replay/cli.py: the reports that `run` writes, however it ends.
use buildoor_tester.Base.{◌≡◌, ◌⊎◌, Option, none, some, List, [], ◌∷◌, ◌<>◌, String, Exc, Exec}
use buildoor_tester.Runner.Results.{FixtureResult}
use buildoor_tester.Report.{BatchReport, markdown}
use buildoor_tester.Report.Summary.{to_dict}
use buildoor_tester.Cli.Printed.{Output}
use buildoor_tester.Cli.{FixtureFile, RunArgs}
use buildoor_tester.Cli.Shown.{shown}
use buildoor_tester.Cli.Batch.{with_results, replays, reached}

module _ {Event : Type 0} (O : Output Event) where
  abbrev json_event : String → BatchReport → Event
  json_event path b = O.write_json path (to_dict O.floats.seconds_json b)

  abbrev markdown_event : String → BatchReport → Event
  markdown_event path b = O.write_markdown path (markdown O.floats.seconds O.floats.seconds_2f b)

  -- What is done for `--report-md`: nothing without it, and otherwise the file is written, once, and a
  -- line printed unless the writing raised.
  abbrev pub MarkdownDone : BatchReport → Option String → List Event → Type 0
  MarkdownDone b none xs = xs ≡ []
  MarkdownDone b (some path) xs =
      (xs ≡ markdown_event path b ∷ [])
      ⊎ (xs ≡ markdown_event path b ∷ O.echo ("markdown report: " <> path) ∷ [])

  -- What is done behind the writing of the JSON file: nothing if that raised, and otherwise its line,
  -- and what is done for `--report-md`.
  abbrev pub JsonDone : BatchReport → String → Option String → List Event → Type 0
  JsonDone b path md rest =
      (rest ≡ [])
      ⊎ ((xs : List Event) × MarkdownDone b md xs × (rest ≡ O.echo ("json report: " <> path) ∷ xs))

module _ {Fixture Event : Type 0} (O : Output Event)
    (replay : String → Fixture → Exec Event FixtureResult) (crash : Exc → String) where
  -- The results that a run shows, as a report.
  abbrev pub shown_report : RunArgs → List (FixtureFile Fixture) → List Event → BatchReport
  shown_report a files h =
      with_results
        (shown a.stop_on_first_failure (replays O replay crash (reached O replay crash files) h).0)
