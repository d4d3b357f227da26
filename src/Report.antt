-- ===== src/Report.antt =====
-- eest_replay/report.py: the aggregate over the results of a batch, and its Markdown rendering.
pub mod Counts
pub mod Summary
use buildoor_tester.Base.{
  ℕ, zero, suc, ◌+◌, ◌-◌, Bool, true, false, not, Option, none, some, get_or, is_some, is_truthy,
  List, [], ◌∷◌, ◌++◌, String, ◌<>◌, length, keep, pos, if◌then◌else◌,
}
use buildoor_tester.Base.Numeral.{decimal}
use buildoor_tester.Runner.Results.{BlockResult, FixtureResult, passed}

pub record BatchReport : Type 0 where
  pub results : List FixtureResult

abbrev pub new_report : BatchReport
new_report = record { results = [] }

unfoldable pub add : FixtureResult → BatchReport → BatchReport
add r b = record { results = b.results ++ r ∷ [] }

unfoldable pub total : BatchReport → ℕ
total b = length b.results

-- `sum(1 for r in results if test(r))`.
unfoldable pub count_if : (FixtureResult → Bool) → List FixtureResult → ℕ
count_if test rs = length (keep test rs)

unfoldable pub passed_count : BatchReport → ℕ
unfolding count_if
passed_count b = count_if passed b.results

-- `total - passed`, where `passed` is never the larger.
unfoldable pub failed_count : BatchReport → ℕ
unfolding total passed_count
failed_count b = total b - passed_count b

unfoldable pub errored_count : BatchReport → ℕ
unfolding count_if
errored_count b = count_if (λ r. is_some r.error) b.results

-- In milliseconds; the source adds and rounds floats.
abbrev sum_elapsed : List FixtureResult → ℕ
sum_elapsed [] = 0
sum_elapsed (r ∷ rs) = r.elapsed_ms + sum_elapsed rs

unfoldable pub total_elapsed_ms : BatchReport → ℕ
total_elapsed_ms b = sum_elapsed b.results

-- The status in the table.
pub data Status : Type 0 where
  pass err fail : Status

unfoldable pub status : FixtureResult → Status
status r = if passed r then pass else if is_truthy r.error then err else fail

unfoldable pub status_text : Status → String
status_text pass = "PASS"
status_text err = "ERR"
status_text fail = "FAIL"

-- How floats are printed is a parameter: `f"{t}"` and `f"{t:.2f}"` of a time in seconds.
module _ (seconds : ℕ → String) (seconds_2f : ℕ → String) where
  summary_line : BatchReport → String
  summary_line b =
      let n = λ (k : ℕ). decimal (pos k) in
      n (passed_count b)
      <> ("/"
          <> (n (total b)
              <> (" fixtures passed ("
                  <> (n (failed_count b)
                      <> (" failed, "
                          <> (n (errored_count b)
                              <> (" errored) in "
                                  <> (seconds (total_elapsed_ms b) <> "s wall-clock"))))))))

  unfoldable pub row : FixtureResult → String
  unfolding status status_text
  row r =
      let fork = if is_truthy r.fork then get_or r.fork "-" else "-" in
      "| "
      <> (status_text (status r)
          <> (" | "
              <> (fork
                  <> (" | " <> (seconds_2f r.elapsed_ms <> ("s | `" <> (r.test_id <> "` |")))))))

  rows : List FixtureResult → List String
  rows [] = []
  rows (r ∷ rs) = row r ∷ rows rs

  bullets : List String → List String
  bullets [] = []
  bullets (m ∷ ms) = ("  - " <> m) ∷ bullets ms

  block_lines : List BlockResult → List String
  block_lines [] = []
  block_lines (b ∷ bs) =
      let rest = block_lines bs in
      let shown =
        ""
        ∷ ("Block " <> (decimal (pos b.block_number) <> " mismatches:"))
        ∷ bullets b.mismatches in
      if b.matched then rest else shown ++ rest

  error_lines : Option String → List String
  error_lines none = []
  error_lines (some e) = if is_truthy (some e) then "" ∷ ("Error: " <> e) ∷ [] else []

  unfoldable pub failure_lines : List FixtureResult → List String
  unfolding error_lines block_lines bullets
  failure_lines [] = []
  failure_lines (r ∷ rs) =
      ("### `" <> (r.test_id <> "`"))
      ∷ (error_lines r.error ++ (block_lines r.blocks ++ ("" ∷ failure_lines rs)))

  failures_section : List FixtureResult → List String
  failures_section [] = []
  failures_section (r ∷ rs) = "" ∷ "## Failures" ∷ "" ∷ failure_lines (r ∷ rs)

  -- The lines of the file that `write_markdown` writes.
  unfoldable pub markdown : BatchReport → List String
  unfolding failures_section summary_line rows failure_lines
  markdown b =
      "# eest-replay report"
      ∷ ""
      ∷ summary_line b
      ∷ ""
      ∷ "| status | fork | time | test |"
      ∷ "|---|---|---|---|"
      ∷ (rows b.results ++ failures_section (keep (λ r. not (passed r)) b.results))
