-- ===== src/Report/Counts.antt =====
-- eest_replay/report.py: how the counters of a report hang together.
use buildoor_tester.Base.{
  ◌+◌, ◌≤◌, ◌≡◌, ◌∙◌, ◌↔◌, Bool, true, is_some, List, [], ◌∷◌, ◌++◌, length, all_of, length-keep,
  length-append, keep-append, arith, if◌then◌else◌,
}
use buildoor_tester.Runner.Results.{FixtureResult, passed}
use buildoor_tester.Report.{
  BatchReport, add, total, count_if, passed_count, failed_count, errored_count,
}

count_if-le : (test : FixtureResult → Bool) (rs : List FixtureResult) → count_if test rs ≤ length rs
unfolding count_if
count_if-le test rs = length-keep test rs

count_if-append :
    (test : FixtureResult → Bool) (rs ss : List FixtureResult)
    → count_if test (rs ++ ss) ≡ count_if test rs + count_if test ss
unfolding count_if
count_if-append test rs ss = rw (keep-append, length-append)

-- A result with an error has not passed.
errored-le :
    (rs : List FixtureResult) → count_if (λ r. is_some r.error) rs + count_if passed rs ≤ length rs
unfolding count_if passed
errored-le [] = omega arith
errored-le (r ∷ rs) = ground (arith, errored-le rs)

-- Every result is counted as passed or as failed and never as both, and the errored results are
-- some of the failed ones.
pub counts_split :
    (b : BatchReport)
    → (passed_count b + failed_count b ≡ total b) × (errored_count b ≤ failed_count b)
unfolding failed_count errored_count
counts_split b = omega (arith, count_if-le passed b.results, errored-le b.results)

-- Adding a result adds one to the total and to exactly one of `passed` and `failed`, and one to
-- `errored` if and only if the result has an error.
pub counts-add :
    (r : FixtureResult) (b : BatchReport)
    → (total (add r b) ≡ total b + 1)
      × (passed_count (add r b) ≡ passed_count b + (if passed r then 1 else 0))
      × (failed_count (add r b) ≡ failed_count b + (if passed r then 0 else 1))
      × (errored_count (add r b) ≡ errored_count b + (if is_some r.error then 1 else 0))
unfolding add failed_count errored_count
counts-add r b = (
  ground (arith, length-append b.results (r ∷ [])),
  count_if-append passed b.results (r ∷ []) ∙ ground arith,
  ground (
    arith,
    length-append b.results (r ∷ []),
    count_if-append passed b.results (r ∷ []),
    count_if-le passed b.results,
  ),
  count_if-append (λ r. is_some r.error) b.results (r ∷ []) ∙ ground arith,
)

all_passed-counts :
    (rs : List FixtureResult) → (count_if passed rs ≡ length rs) ↔ (all_of passed rs ≡ true)
unfolding count_if
all_passed-counts [] = ground arith
all_passed-counts (r ∷ rs) = ground (arith, all_passed-counts rs, length-keep passed rs)

-- `failed + errored` is zero exactly when every result passed.
pub no_trouble_iff :
    (b : BatchReport) → (failed_count b + errored_count b ≡ 0) ↔ (all_of passed b.results ≡ true)
unfolding failed_count errored_count
no_trouble_iff b =
    ground (arith, all_passed-counts b.results, count_if-le passed b.results, errored-le b.results)
