-- ===== src/Cli/Whole.antt =====
-- eest_replay/cli.py: a `run` that exits with 0 has read every file to its end.
use buildoor_tester.Base.{
  ℕ, ◌≡◌, refl, ◌∙◌, ap, sym, Bool, true, false, ◌&&◌, not, Option, none, some, List, [], ◌∷◌, ◌++◌,
  all_of, arith, String, Exc, Exec, All,
}
use buildoor_tester.Runner.Results.{FixtureResult, passed}
use buildoor_tester.Report.{BatchReport, new_report}
use buildoor_tester.Cli.Printed.{Output}
use buildoor_tester.Cli.{
  FixtureFile, Ended, finished, escaped, ended, report_of, exited, exit_of, RunArgs, conclude,
  after_file, run_files, run_loops, run_cmd,
}
use buildoor_tester.Cli.Shown.{shown, all_of-append, all_of-up_to_failure}
use buildoor_tester.Cli.Batch.{
  exit_behind-exited, with_results, behind, replays, IsWhole, fixtures, reached, exit_zero_iff,
  replays-append, run_file-through,
}
use buildoor_tester.Cli.Reported.{rest_of, after_file-on, run_files-Adds}

all_of-shown :
    (stop : Bool) (rs : List FixtureResult)
    → all_of passed (shown stop rs) ≡ true
    → all_of passed rs ≡ true
all_of-shown true rs e = sym (all_of-up_to_failure rs) ∙ e
all_of-shown false rs e = e

all_of-parts :
    (rs ss : List FixtureResult)
    → all_of passed (rs ++ ss) ≡ true
    → (all_of passed rs ≡ true) × (all_of passed ss ≡ true)
all_of-parts rs ss e = ground (arith, e, all_of-append passed rs ss)

exit_of-finished :
    (e : Ended) {status : ℕ} {b : BatchReport} → exit_of e ≡ exited status b → e ≡ finished b
unfolding exit_of
exit_of-finished (finished c) is = cc is
exit_of-finished (escaped x c) is = cc is

module _ {Fixture Event : Type 0} (O : Output Event)
    (replay : String → Fixture → Exec Event FixtureResult) (crash : Exc → String) where
  after_file-finished :
      (stop : Bool) (broken : Option Exc) (files : List (FixtureFile Fixture)) (b : BatchReport)
      (h : List Event) {c : BatchReport}
      → (stop && not (all_of passed b.results)) ≡ false
      → (after_file O replay crash stop (rest_of O replay crash stop files) (ended broken b) h).0
        ≡ finished c
      → (broken ≡ none) × ((rest_of O replay crash stop files b h).0 ≡ finished c)
  after_file-finished stop none files b h go e =
      (refl, ap (λ q. q.0) (sym (after_file-on O replay crash stop files b h go)) ∙ e)
  after_file-finished stop (some x) files b h go e = cc e

  run_files-IsWhole :
      (stop : Bool) (files : List (FixtureFile Fixture)) (b : BatchReport) (h : List Event)
      {c : BatchReport}
      → all_of passed b.results ≡ true
      → (run_files O replay crash stop files b h).0 ≡ finished c
      → all_of passed c.results ≡ true
      → All (IsWhole O replay crash) files
  unfolding run_files
  run_files-IsWhole stop [] b h start e good = tt
  run_files-IsWhole stop (file ∷ files) b h {c} start e good =
      let (rs, t) = replays O replay crash file.yielded h in
      let later = behind file.broken (reached O replay crash files) in
      let ss = (replays O replay crash later t).0 in
      let go : (stop && not (all_of passed b.results)) ≡ false = ground (arith, start) in
      let all =
        ap (all_of passed) (
          sym (run_files-Adds O replay crash stop (file ∷ files) b h go)
          ∙ ap (λ (x : Ended). (report_of x).results) e)
        ∙ good in
      let joined : all_of passed (rs ++ ss) ≡ true =
        ap (λ (q : List FixtureResult × List Event). all_of passed q.0)
          (sym (replays-append O replay crash file.yielded later h))
        ∙ all_of-shown stop _ (all_of-parts b.results _ all).1 in
      let here = (all_of-parts rs ss joined).0 in
      let on : (stop && not (all_of passed rs)) ≡ false = ground (arith, here) in
      let start' : all_of passed (b.results ++ rs) ≡ true =
        ground (arith, start, here, all_of-append passed b.results rs) in
      let go' : (stop && not (all_of passed (b.results ++ rs))) ≡ false = ground (arith, start') in
      let e' =
        ap
          (λ (q : Ended × List Event).
            (after_file O replay crash stop (rest_of O replay crash stop files) q.0 q.1).0)
          (sym (run_file-through O replay crash stop file.broken file.yielded b h on))
        ∙ e in
      let (whole, rest) =
        after_file-finished stop file.broken files (with_results (b.results ++ rs)) t go' e' in
      (whole, run_files-IsWhole stop files (with_results (b.results ++ rs)) t start' rest good)

  reached-whole :
      (files : List (FixtureFile Fixture))
      → All (IsWhole O replay crash) files
      → reached O replay crash files ≡ fixtures O replay crash files
  reached-whole [] w = refl
  reached-whole (file ∷ files) w =
      ap (λ o. file.yielded ++ behind o (reached O replay crash files)) w.0
      ∙ ap (λ l. file.yielded ++ l) (reached-whole files w.1)

  -- A command that exits with 0 has read every file to its end, and the replays of all their fixtures
  -- gave results that passed.
  pub run_cmd-IsWhole :
      (a : RunArgs) (files : List (FixtureFile Fixture)) (h : List Event) {b : BatchReport}
      → (run_cmd O replay crash a files h).0 ≡ exited 0 b
      → All (IsWhole O replay crash) files
        × (all_of passed (replays O replay crash (fixtures O replay crash files) h).0 ≡ true)
  unfolding run_cmd
  run_cmd-IsWhole a [] h e = cc e
  run_cmd-IsWhole a (file ∷ files) h {b} e =
      let stop = a.stop_on_first_failure in
      let (end, u) = run_loops O replay crash a (file ∷ files) h in
      let exits = exit_behind-exited (conclude O a (O.now h) (report_of end) u).0 end e in
      let is : end ≡ finished b = exit_of-finished end exits in
      let good : all_of passed b.results ≡ true =
        (exit_zero_iff O replay crash a (file ∷ files) h e).0 refl in
      let whole = run_files-IsWhole stop (file ∷ files) new_report h refl is good in
      let all =
        ap (all_of passed) (
          sym (run_files-Adds O replay crash stop (file ∷ files) new_report h (ground arith))
          ∙ ap (λ (x : Ended). (report_of x).results) is)
        ∙ good in
      (
        whole,
        ap (λ l. all_of passed (replays O replay crash l h).0)
              (sym (reached-whole (file ∷ files) whole))
            ∙ all_of-shown stop _ all,
      )
