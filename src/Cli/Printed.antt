-- ===== src/Cli/Printed.antt =====
-- eest_replay/cli.py: the lines that the `run` command prints, and what it writes them to.
use buildoor_tester.Base.{
  ℕ, is_truthy, get_or, List, [], ◌∷◌, ◌++◌, map, String, ◌<>◌, pos, Outcome, if◌then◌else◌,
}
use buildoor_tester.Base.Numeral.{decimal}
use buildoor_tester.Base.Json.{Json, Dict}
use buildoor_tester.Runner.Results.{BlockResult, FixtureResult}
use buildoor_tester.Report.{BatchReport, total, passed_count, failed_count, errored_count}

-- How a time of so many milliseconds is printed in seconds: as it is, with one digit and with two
-- behind the point, and as a number of JSON.
pub record Floats : Type 0 where
  pub seconds : ℕ → String
  pub seconds_1f : ℕ → String
  pub seconds_2f : ℕ → String
  pub seconds_json : ℕ → Json

-- The terminal and the files of the reports, the clock in milliseconds, and the printing of times.
pub record Output (Event : Type 0) : Type 0 where
  pub echo : String → Event
  pub write_json : String → Dict → Event
  pub write_markdown : String → List String → Event
  pub on_write : List Event → Outcome (Unit {0})
  pub now : List Event → ℕ
  pub floats : Floats

abbrev block_lines : List BlockResult → List String
block_lines [] = []
block_lines (b ∷ bs) =
    let tag = if b.matched then "OK" else "MISMATCH" in
    (("  block " <> (decimal (pos b.block_number) <> (": " <> tag)))
      ∷ map (λ m. "    - " <> m) b.mismatches)
    ++ block_lines bs

abbrev shown_blocks : List BlockResult → List String
shown_blocks [] = "  (no blocks)" ∷ []
shown_blocks (b ∷ bs) = block_lines (b ∷ bs)

-- `_print_result`.
unfoldable pub result_lines : (ℕ → String) → FixtureResult → List String
result_lines seconds_1f r =
    if is_truthy r.error
    then ("  ERROR (" <> (seconds_1f r.elapsed_ms <> ("s): " <> get_or r.error ""))) ∷ []
    else shown_blocks r.blocks

-- The line behind the loops.
unfoldable pub batch_line : (ℕ → String) → BatchReport → ℕ → String
batch_line seconds_1f b wall =
    let n = λ (k : ℕ). decimal (pos k) in
    "\n"
    <> (n (passed_count b)
        <> ("/"
            <> (n (total b)
                <> (" passed in "
                    <> (seconds_1f wall
                        <> ("s ("
                            <> (n (failed_count b)
                                <> (" failed, " <> (n (errored_count b) <> " errored)")))))))))
