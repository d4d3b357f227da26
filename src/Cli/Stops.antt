-- ===== src/Cli/Stops.antt =====
-- eest_replay/cli.py: whatever happens in a `run`, each process that it started was asked to stop.
use buildoor_tester.Base.{
  ℕ, ◌-◌, ◌≡◌, refl, sym, ap, ◌∙◌, Bool, ◌&&◌, not, Bool-cases, inl, inr, Option, none, some, List,
  [], ◌∷◌, ◌++◌, ◌<>◌, map, append-nil, append_assoc, String, Exc, Exec, call, ◌>>◌,
}
use buildoor_tester.Testing.{Testing, Fixture}
use buildoor_tester.Genesis.Chainspec.{GenesisSource}
use buildoor_tester.Runner.Results.{FixtureResult, passed}
use buildoor_tester.Runner.Replay.{replay-Balanced}
use buildoor_tester.Export.Submit
use buildoor_tester.Process.Events.{Event, submits, Host}
use buildoor_tester.Process.Balance.{step}
use buildoor_tester.Process.Running.{live, Balanced, Balanced-append, Keeps, Keeps->>=, Keeps-event}
use buildoor_tester.Report.{BatchReport, add, new_report, markdown}
use buildoor_tester.Report.Summary.{to_dict}
use buildoor_tester.Cli.Printed.{Floats, Output, result_lines, batch_line}
use buildoor_tester.Cli.{
  FixtureFile, Ended, finished, escaped, RunArgs, say, written_json, written_markdown, conclude,
  caught, run_one, run_file, after_file, is_troubled, run_files, run_loops, report_of, run_cmd,
}
use buildoor_tester.Cli.Places.{placed_files}
use buildoor_tester.Cli.Replays.{terminal, replayed, run_main}

module _ (T : Testing) (H : Host T) (F : Floats) (base_work_dir : String) (build_time_ms : ℕ)
    (binary : Option String) (crash : Exc → String) where
  abbrev screen : Output (Event T)
  screen = terminal T H F base_work_dir build_time_ms binary crash

  abbrev run_it : String → String × (GenesisSource T × Fixture T) → Exec (Event T) FixtureResult
  run_it = replayed T H F base_work_dir build_time_ms binary crash

  -- Whatever came before, it adds events that leave the running processes as they were.
  abbrev KeepsAll : {A : Type 0} → (List (Event T) → A × List (Event T)) → Type 0
  KeepsAll m =
      (h : List (Event T)) → (xs : List (Event T)) × Balanced (step T) xs × ((m h).1 ≡ h ++ xs)

  lines-Balanced :
      (lines : List String) → Balanced (step T) (map (λ l. submits (Submit.echo l)) lines)
  unfolding live
  lines-Balanced [] s = refl
  lines-Balanced (line ∷ lines) s = lines-Balanced lines s

  run_one-Keeps :
      (test_id : String) (f : String × (GenesisSource T × Fixture T))
      → KeepsAll (run_one screen run_it crash test_id f)
  unfolding run_one
  run_one-Keeps test_id (dir, (source, f)) h =
      let first : Event T = submits (Submit.echo ("=== " <> test_id)) in
      let h1 = h ++ first ∷ [] in
      let (xs, even, at) = replay-Balanced T H source f test_id dir build_time_ms binary h1 in
      let r = caught screen run_it crash test_id (run_it test_id (dir, (source, f)) h1).0 in
      let lines = result_lines F.seconds_1f r in
      let ys = map (λ l. submits (Submit.echo l)) lines in
      (
        first ∷ (xs ++ ys),
        (λ s. unfold live in Balanced-append (step T) xs ys even (lines-Balanced lines) s),
        ap (λ l. l ++ ys) at ∙ simp append_assoc,
      )

  run_file-Keeps :
      (stop : Bool) (broken : Option Exc)
      (fs : List (String × (String × (GenesisSource T × Fixture T)))) (b : BatchReport)
      → KeepsAll (run_file screen run_it crash stop broken fs b)
  unfolding run_file
  run_file-Keeps stop broken [] b h = ([], (λ s. unfold live in refl), sym (append-nil h))
  run_file-Keeps stop broken ((test_id, f) ∷ fs) b h =
      let (r, t) = run_one screen run_it crash test_id f h in
      let (xs, even, at) = run_one-Keeps test_id f h in
      let (ys, even', at') = run_file-Keeps stop broken fs (add r b) t in
      elim (Bool-cases (stop && not (passed r))) [
        | inl left ↦ rw left (xs, even, at)
        | inr on ↦ rw on (
          xs ++ ys,
          Balanced-append (step T) xs ys even even',
          at' ∙ ap (λ l. l ++ ys) at ∙ append_assoc h xs ys,
        )
      ]

  after_file-Keeps :
      (stop : Bool) (rest : BatchReport → List (Event T) → Ended × List (Event T))
      → ((b : BatchReport) → KeepsAll (rest b))
      → (e : Ended) → KeepsAll (after_file screen run_it crash stop rest e)
  after_file-Keeps stop rest kept (escaped x b) h =
      ([], (λ s. unfold live in refl), sym (append-nil h))
  after_file-Keeps stop rest kept (finished b) h = elim (Bool-cases (stop && is_troubled b)) [
    | inl left ↦ rw left ([], (λ s. unfold live in refl), sym (append-nil h))
    | inr on ↦ rw on (kept b h)
  ]

  run_files-Keeps :
      (stop : Bool) (files : List (FixtureFile (String × (GenesisSource T × Fixture T))))
      (b : BatchReport)
      → KeepsAll (run_files screen run_it crash stop files b)
  unfolding run_files
  run_files-Keeps stop [] b h = ([], (λ s. unfold live in refl), sym (append-nil h))
  run_files-Keeps stop (file ∷ files) b h =
      let (xs, even, at) = run_file-Keeps stop file.broken file.yielded b h in
      let (e, u) = run_file screen run_it crash stop file.broken file.yielded b h in
      let (ys, even', at') =
        after_file-Keeps stop (run_files screen run_it crash stop files)
          (λ b. run_files-Keeps stop files b) e u in
      (
        xs ++ ys,
        Balanced-append (step T) xs ys even even',
        at' ∙ ap (λ l. l ++ ys) at ∙ append_assoc h xs ys,
      )

  say-Keeps : (line : String) → Keeps (step T) (say screen line)
  say-Keeps line h = (submits (Submit.echo line) ∷ [], (λ s. unfold live in refl), refl)

  written_json-Keeps :
      (b : BatchReport) (o : Option String) → Keeps (step T) (written_json screen b o)
  written_json-Keeps b none h = ([], (λ s. unfold live in refl), sym (append-nil h))
  written_json-Keeps b (some path) h =
      let event : Event T = submits (Submit.write_json path (to_dict F.seconds_json b)) in
      Keeps->>= (step T) (call H.on_write event) (λ _. say screen ("json report: " <> path))
        (Keeps-event (step T) H.on_write event (λ s. refl))
        (λ _. say-Keeps ("json report: " <> path)) h

  written_markdown-Keeps :
      (b : BatchReport) (o : Option String) → Keeps (step T) (written_markdown screen b o)
  written_markdown-Keeps b none h = ([], (λ s. unfold live in refl), sym (append-nil h))
  written_markdown-Keeps b (some path) h =
      let event : Event T = submits (Submit.write_text path (markdown F.seconds F.seconds_2f b)) in
      Keeps->>= (step T) (call H.on_write event) (λ _. say screen ("markdown report: " <> path))
        (Keeps-event (step T) H.on_write event (λ s. refl))
        (λ _. say-Keeps ("markdown report: " <> path)) h

  conclude-Keeps :
      (a : RunArgs) (t0 : ℕ) (b : BatchReport) → Keeps (step T) (conclude screen a t0 b)
  unfolding conclude
  conclude-Keeps a t0 b h =
      let line = batch_line F.seconds_1f b (H.now h - t0) in
      Keeps->>= (step T) (say screen line)
        (λ _. written_json screen b a.report_json >> written_markdown screen b a.report_md)
        (say-Keeps line)
        (λ _.
          Keeps->>= (step T) (written_json screen b a.report_json)
            (λ _. written_markdown screen b a.report_md) (written_json-Keeps b a.report_json)
            (λ _. written_markdown-Keeps b a.report_md))
        h

  -- However a `run` ends, by an exit status or by an exception: each process that it started for any
  -- of its fixtures it also asked to stop, the last one first, so that the processes that run are
  -- those that ran before.
  pub run_cmd-Balanced :
      (a : RunArgs) (files : List (String × FixtureFile (GenesisSource T × Fixture T)))
      (h : List (Event T))
      → (xs : List (Event T)) × Balanced (step T) xs
        × ((run_main T H F base_work_dir build_time_ms binary crash a files h).1 ≡ h ++ xs)
  unfolding run_cmd
  run_cmd-Balanced a [] h = (
    submits (Submit.echo ("no fixture JSON files under " <> a.path)) ∷ [],
    (λ s. unfold live in refl),
    refl,
  )
  run_cmd-Balanced a (file ∷ files) h =
      let placed = placed_files base_work_dir 0 (file ∷ files) in
      let (xs, even, at) = run_files-Keeps a.stop_on_first_failure placed new_report h in
      let (e, u) = run_loops screen run_it crash a placed h in
      let (ys, even', at') = conclude-Keeps a (H.now h) (report_of e) u in
      (
        xs ++ ys,
        Balanced-append (step T) xs ys even even',
        at' ∙ ap (λ l. l ++ ys) at ∙ append_assoc h xs ys,
      )
