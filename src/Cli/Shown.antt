-- ===== src/Cli/Shown.antt =====
-- eest_replay/cli.py: which results a batch shows, and the exit status that its report gives.
use buildoor_tester.Base.{
  ℕ, ◌+◌, ◌≡◌, refl, ◌↔◌, Bool, true, ◌&&◌, not, List, [], ◌∷◌, ◌++◌, all_of, arith, ltb,
  if◌then◌else◌,
}
use buildoor_tester.Runner.Results.{FixtureResult, passed}
use buildoor_tester.Report.{BatchReport, failed_count, errored_count}
use buildoor_tester.Report.Counts.{no_trouble_iff}
use buildoor_tester.Cli.{Ended, finished, escaped, exited, exit_of}

-- The results up to the first that did not pass, that one included.
abbrev pub up_to_failure : List FixtureResult → List FixtureResult
up_to_failure [] = []
up_to_failure (r ∷ rs) = r ∷ (if passed r then up_to_failure rs else [])

abbrev pub shown : Bool → List FixtureResult → List FixtureResult
shown stop rs = if stop then up_to_failure rs else rs

pub all_of-append :
    (test : FixtureResult → Bool) (rs ss : List FixtureResult)
    → all_of test (rs ++ ss) ≡ (all_of test rs && all_of test ss)
all_of-append test [] ss = refl
all_of-append test (r ∷ rs) ss = ground (arith, all_of-append test rs ss)

pub all_of-up_to_failure :
    (rs : List FixtureResult) → all_of passed (up_to_failure rs) ≡ all_of passed rs
all_of-up_to_failure [] = refl
all_of-up_to_failure (r ∷ rs) = ground (arith, all_of-up_to_failure rs)

-- The scan of a concatenation goes on behind its first part if all of that passed.
pub up_to_failure-append :
    (rs ss : List FixtureResult)
    → up_to_failure (rs ++ ss)
      ≡ (if all_of passed rs then rs ++ up_to_failure ss else up_to_failure rs)
up_to_failure-append [] ss = refl
up_to_failure-append (r ∷ rs) ss = ground (arith, up_to_failure-append rs ss)

pub up_to_failure-passed :
    (rs : List FixtureResult) → all_of passed rs ≡ true → up_to_failure rs ≡ rs
up_to_failure-passed [] h = refl
up_to_failure-passed (r ∷ rs) h = ground (arith, up_to_failure-passed rs)

-- The test of the outer loop.
pub troubled_lem :
    (b : BatchReport) → ltb 0 (failed_count b + errored_count b) ≡ not (all_of passed b.results)
troubled_lem b = ground (arith, no_trouble_iff b)

pub exit_zero :
    (e : Ended) {status : ℕ} {b : BatchReport}
    → exit_of e ≡ exited status b
    → (status ≡ 0) ↔ (all_of passed b.results ≡ true)
unfolding exit_of
exit_zero (finished c) e = ground (arith, no_trouble_iff c)
exit_zero (escaped x c) e = cc
