-- ===== src/Cli/Batch.antt =====
-- eest_replay/cli.py: what the two loops of `run` come to, and what it reports.
use buildoor_tester.Base.{
  ℕ, ◌≡◌, refl, ◌∙◌, ap, sym, ◌↔◌, Bool, true, false, ◌&&◌, not, Option, none, some, List, [], ◌∷◌,
  ◌++◌, flat, all_of, append-nil, append_assoc, arith, String, Outcome, ok, raised, Exc, Exec,
  Bool-cases, inl, inr,
}
use buildoor_tester.Runner.Results.{FixtureResult, passed}
use buildoor_tester.Report.{BatchReport, add}
use buildoor_tester.Cli.Printed.{Output}
use buildoor_tester.Cli.{
  FixtureFile, Ended, finished, escaped, ended, report_of, Exit, no_files, exited, traceback,
  exit_of, exit_behind, RunArgs, conclude, run_one, run_file, run_loops, run_cmd,
}
use buildoor_tester.Cli.Shown.{up_to_failure, exit_zero}

abbrev pub results_of : Exit → List FixtureResult
results_of no_files = []
results_of (exited status b) = b.results
results_of (traceback e b) = b.results

pub exit_behind-exited :
    (s : Outcome (Unit {0})) (e : Ended) {status : ℕ} {b : BatchReport}
    → exit_behind s e ≡ exited status b
    → exit_of e ≡ exited status b
exit_behind-exited (ok u) e is = is
exit_behind-exited (raised x) e is = cc

pub results_of-exit_behind :
    (s : Outcome (Unit {0})) (e : Ended) → results_of (exit_behind s e) ≡ (report_of e).results
unfolding exit_of
results_of-exit_behind (ok u) (finished b) = refl
results_of-exit_behind (ok u) (escaped x b) = refl
results_of-exit_behind (raised x) e = refl

abbrev pub with_results : List FixtureResult → BatchReport
with_results rs = record { results = rs }

abbrev pub behind : {A : Type 0} → Option Exc → List A → List A
behind none xs = xs
behind (some e) xs = []

module _ {Fixture Event : Type 0} (O : Output Event)
    (replay : String → Fixture → Exec Event FixtureResult) (crash : Exc → String) where
  -- The results of all the fixtures, one after the other, and the calls made.
  abbrev pub replays : List (String × Fixture) → List Event → List FixtureResult × List Event
  replays [] h = ([], h)
  replays ((test_id, f) ∷ fs) h =
      let (r, h') = run_one O replay crash test_id f h in let (rs, t) = replays fs h' in (r ∷ rs, t)

  -- The file is read to its end.
  abbrev pub IsWhole : FixtureFile Fixture → Type 0
  IsWhole file = file.broken ≡ none

  abbrev pub fixtures : List (FixtureFile Fixture) → List (String × Fixture)
  fixtures = flat (λ file. file.yielded)

  -- The fixtures up to the first exception of the reading.
  abbrev pub reached : List (FixtureFile Fixture) → List (String × Fixture)
  reached [] = []
  reached (file ∷ files) = file.yielded ++ behind file.broken (reached files)

  -- The command that ran to its end exits with 0 exactly when every replayed fixture passed.
  pub exit_zero_iff :
      (a : RunArgs) (files : List (FixtureFile Fixture)) (h : List Event) {status : ℕ}
      {b : BatchReport}
      → (run_cmd O replay crash a files h).0 ≡ exited status b
      → (status ≡ 0) ↔ (all_of passed b.results ≡ true)
  unfolding run_cmd
  exit_zero_iff a [] h e = cc
  exit_zero_iff a (file ∷ files) h e =
      let (end, u) = run_loops O replay crash a (file ∷ files) h in
      exit_zero end (exit_behind-exited (conclude O a (O.now h) (report_of end) u).0 end e)

  -- The loop over one file that is not left goes to its end.
  pub run_file-through :
      (stop : Bool) (broken : Option Exc) (fs : List (String × Fixture)) (b : BatchReport)
      (h : List Event)
      → (stop && not (all_of passed (replays fs h).0)) ≡ false
      → run_file O replay crash stop broken fs b h
        ≡ (ended broken (with_results (b.results ++ (replays fs h).0)), (replays fs h).1)
  unfolding run_file add
  run_file-through stop broken [] b h go =
      ap (λ x. (ended broken (with_results x), h)) (sym (append-nil b.results))
  run_file-through stop broken ((test_id, f) ∷ fs) b h go =
      let (r, h') = run_one O replay crash test_id f h in
      let (rs, t) = replays fs h' in
      let here : (stop && not (passed r)) ≡ false = ground (arith, go) in
      let later : (stop && not (all_of passed rs)) ≡ false = ground (arith, go) in
      rw here (
        run_file-through stop broken fs (add r b) h' later
        ∙ ap (λ x. (ended broken (with_results x), t)) (append_assoc b.results (r ∷ []) rs))

  -- With `stop` it is left at the first fixture that did not pass.
  pub run_file-left :
      (broken : Option Exc) (fs : List (String × Fixture)) (b : BatchReport) (h : List Event)
      → all_of passed (replays fs h).0 ≡ false
      → (run_file O replay crash true broken fs b h).0
        ≡ finished (with_results (b.results ++ up_to_failure (replays fs h).0))
  unfolding run_file add
  run_file-left broken [] b h bad = cc
  run_file-left broken ((test_id, f) ∷ fs) b h bad =
      let (r, h') = run_one O replay crash test_id f h in
      let (rs, t) = replays fs h' in
      elim (Bool-cases (passed r)) [
        | inr q ↦ rw q refl
        | inl p ↦
            let later : all_of passed rs ≡ false = ground (arith, bad, p) in
            rw p (
              run_file-left broken fs (add r b) h' later
              ∙ ap (λ x. finished (with_results x))
                  (append_assoc b.results (r ∷ []) (up_to_failure rs)))
      ]

  pub replays-append :
      (fs gs : List (String × Fixture)) (h : List Event)
      → replays (fs ++ gs) h
        ≡ ((replays fs h).0 ++ (replays gs (replays fs h).1).0, (replays gs (replays fs h).1).1)
  replays-append [] gs h = refl
  replays-append ((test_id, f) ∷ fs) gs h =
      let (r, h') = run_one O replay crash test_id f h in
      ap (λ x. (r ∷ x.0, x.1)) (replays-append fs gs h')
