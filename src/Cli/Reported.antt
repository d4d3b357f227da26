-- ===== src/Cli/Reported.antt =====
-- eest_replay/cli.py: the results that `run` reports, however it ends.
use buildoor_tester.Base.{
  ◌≡◌, refl, ◌∙◌, ap, sym, Bool, true, false, ◌&&◌, not, Option, none, some, List, [], ◌∷◌, ◌++◌,
  all_of, append-nil, append_assoc, arith, String, Exc, Exec, Bool-cases, inl, inr,
}
use buildoor_tester.Runner.Results.{FixtureResult, passed}
use buildoor_tester.Report.{BatchReport, new_report}
use buildoor_tester.Cli.Printed.{Output}
use buildoor_tester.Cli.{
  FixtureFile, Ended, finished, ended, report_of, RunArgs, conclude, after_file, run_file,
  run_files, run_loops, run_cmd,
}
use buildoor_tester.Cli.Shown.{
  up_to_failure, shown, all_of-append, all_of-up_to_failure, up_to_failure-append, troubled_lem,
}
use buildoor_tester.Cli.Batch.{
  results_of, results_of-exit_behind, with_results, behind, replays, reached, replays-append,
  run_file-through, run_file-left,
}

shown-nil : (stop : Bool) → shown stop [] ≡ []
shown-nil true = refl
shown-nil false = refl

shown-append :
    (stop : Bool) (rs ss : List FixtureResult)
    → (stop && not (all_of passed rs)) ≡ false
    → shown stop (rs ++ ss) ≡ rs ++ shown stop ss
shown-append false rs ss go = refl
shown-append true rs ss go =
    let good : all_of passed rs ≡ true = ground (arith, go) in
    up_to_failure-append rs ss ∙ rw good refl

module _ {Fixture Event : Type 0} (O : Output Event)
    (replay : String → Fixture → Exec Event FixtureResult) (crash : Exc → String) where
  abbrev pub rest_of :
      Bool → List (FixtureFile Fixture) → BatchReport → List Event → Ended × List Event
  rest_of stop files = run_files O replay crash stop files

  pub after_file-on :
      (stop : Bool) (files : List (FixtureFile Fixture)) (b : BatchReport) (h : List Event)
      → (stop && not (all_of passed b.results)) ≡ false
      → after_file O replay crash stop (rest_of stop files) (finished b) h ≡ rest_of stop files b h
  after_file-on false files b h go = refl
  after_file-on true files b h go = rw (troubled_lem b) (rw go refl)

  after_file-left :
      (files : List (FixtureFile Fixture)) (b : BatchReport) (h : List Event)
      → all_of passed b.results ≡ false
      → after_file O replay crash true (rest_of true files) (finished b) h ≡ (finished b, h)
  after_file-left files b h bad = rw (troubled_lem b) (rw bad refl)

  -- The report of an end holds `rs` behind the results of `b`.
  abbrev pub Adds : BatchReport → List FixtureResult → Ended × List Event → Type 0
  Adds b rs x = (report_of x.0).results ≡ b.results ++ rs

  after_file-Adds :
      (stop : Bool) (broken : Option Exc) (files : List (FixtureFile Fixture)) (b : BatchReport)
      (h : List Event)
      → (stop && not (all_of passed b.results)) ≡ false
      → Adds b
          (shown stop (replays O replay crash (reached O replay crash files) h).0)
          (rest_of stop files b h)
      → Adds b
          (shown stop (replays O replay crash (behind broken (reached O replay crash files)) h).0)
          (after_file O replay crash stop (rest_of stop files) (ended broken b) h)
  after_file-Adds stop none files b h go more =
      ap (λ x. (report_of x.0).results) (after_file-on stop files b h go) ∙ more
  after_file-Adds stop (some e) files b h go more =
      sym (append-nil b.results) ∙ ap (λ l. b.results ++ l) (sym (shown-nil stop))

  run_files-through :
      (stop : Bool) (file : FixtureFile Fixture) (files : List (FixtureFile Fixture))
      (b : BatchReport) (h : List Event)
      → let (rs, t) = replays O replay crash file.yielded h in
        (stop && not (all_of passed b.results)) ≡ false
        → (stop && not (all_of passed rs)) ≡ false
        → Adds
            (with_results (b.results ++ rs))
            (shown stop (replays O replay crash (reached O replay crash files) t).0)
            (rest_of stop files (with_results (b.results ++ rs)) t)
        → Adds b
            (shown stop (replays O replay crash (reached O replay crash (file ∷ files)) h).0)
            (rest_of stop (file ∷ files) b h)
  unfolding run_files
  run_files-through stop file files b h go on more =
      let (rs, t) = replays O replay crash file.yielded h in
      let later = behind file.broken (reached O replay crash files) in
      let ss = (replays O replay crash later t).0 in
      let b' = with_results (b.results ++ rs) in
      let go' : (stop && not (all_of passed (b.results ++ rs))) ≡ false =
        ground (arith, go, on, all_of-append passed b.results rs) in
      ap
        (λ (q : Ended × List Event).
          (report_of (after_file O replay crash stop (rest_of stop files) q.0 q.1).0).results)
        (run_file-through O replay crash stop file.broken file.yielded b h on)
      ∙ after_file-Adds stop file.broken files b' t go' more
      ∙ append_assoc b.results rs (shown stop ss)
      ∙ ap (λ l. b.results ++ l)
          (sym (shown-append stop rs ss on)
            ∙ ap (λ (q : List FixtureResult × List Event). shown stop q.0)
                (sym (replays-append O replay crash file.yielded later h)))

  run_files-left :
      (file : FixtureFile Fixture) (files : List (FixtureFile Fixture)) (b : BatchReport)
      (h : List Event)
      → all_of passed (replays O replay crash file.yielded h).0 ≡ false
      → Adds b
          (up_to_failure (replays O replay crash (reached O replay crash (file ∷ files)) h).0)
          (rest_of true (file ∷ files) b h)
  unfolding run_files
  run_files-left file files b h bad =
      let (rs, t) = replays O replay crash file.yielded h in
      let later = behind file.broken (reached O replay crash files) in
      let ss = (replays O replay crash later t).0 in
      let b' = with_results (b.results ++ up_to_failure rs) in
      let u = (run_file O replay crash true file.broken file.yielded b h).1 in
      let bad' : all_of passed (b.results ++ up_to_failure rs) ≡ false =
        ground (
          arith,
          bad,
          all_of-append passed b.results (up_to_failure rs),
          all_of-up_to_failure rs,
        ) in
      ap
        (λ (e : Ended).
          (report_of (after_file O replay crash true (rest_of true files) e u).0).results)
        (run_file-left O replay crash file.broken file.yielded b h bad)
      ∙ ap (λ (x : Ended × List Event). (report_of x.0).results) (after_file-left files b' u bad')
      ∙ ap (λ l. b.results ++ l)
          (sym (
            ap (λ (q : List FixtureResult × List Event). up_to_failure q.0)
              (replays-append O replay crash file.yielded later h)
            ∙ up_to_failure-append rs ss
            ∙ rw bad refl))

  pub run_files-Adds :
      (stop : Bool) (files : List (FixtureFile Fixture)) (b : BatchReport) (h : List Event)
      → (stop && not (all_of passed b.results)) ≡ false
      → Adds b
          (shown stop (replays O replay crash (reached O replay crash files) h).0)
          (rest_of stop files b h)
  run_files-Adds stop [] b h go =
      unfold run_files in
      (sym (append-nil b.results) ∙ ap (λ l. b.results ++ l) (sym (shown-nil stop)))
  run_files-Adds false (file ∷ files) b h go =
      let (rs, t) = replays O replay crash file.yielded h in
      run_files-through false file files b h refl refl
        (run_files-Adds false files (with_results (b.results ++ rs)) t refl)
  run_files-Adds true (file ∷ files) b h go =
      let (rs, t) = replays O replay crash file.yielded h in
      elim (Bool-cases (all_of passed rs)) [
        | inl good ↦
            let go' : not (all_of passed (b.results ++ rs)) ≡ false =
              ground (arith, go, good, all_of-append passed b.results rs) in
            run_files-through true file files b h go (rw good refl)
              (run_files-Adds true files (with_results (b.results ++ rs)) t go')
        | inr bad ↦ run_files-left file files b h bad
      ]

  -- However the command ends, by an exit status or by an exception of the reading of a file or of
  -- the writing of a report: the results of its report are those of the replays of all fixtures of all
  -- files up to the first that could not be read on, each replayed once, in their order, over what was
  -- done for the ones before it; with `--stop-on-first-failure`, those up to the first that did not
  -- pass. Without any file there are none.
  pub run_cmd-results :
      (a : RunArgs) (files : List (FixtureFile Fixture)) (h : List Event)
      → results_of (run_cmd O replay crash a files h).0
        ≡ shown a.stop_on_first_failure (replays O replay crash (reached O replay crash files) h).0
  unfolding run_cmd
  run_cmd-results a [] h = sym (shown-nil a.stop_on_first_failure)
  run_cmd-results a (file ∷ files) h =
      let (end, u) = run_loops O replay crash a (file ∷ files) h in
      results_of-exit_behind (conclude O a (O.now h) (report_of end) u).0 end
      ∙ run_files-Adds a.stop_on_first_failure (file ∷ files) new_report h (ground arith)
