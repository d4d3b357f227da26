-- ===== src/Runner/Replay.antt =====
-- eest_replay/runner.py: `replay`, which boots the client, and buildoor if it is asked for, drives
-- the chain, and stops both.
use buildoor_tester.Base.{
  ℕ, ◌-◌, ◌≡◌, refl, sym, Option, none, some, List, [], ◌∷◌, ◌++◌, append-nil, map, String, ok,
  Exec, continue, ◌>>=◌,
}
use buildoor_tester.Testing.{Testing, Fixture}
use buildoor_tester.Genesis.Chainspec.{GenesisSource, build_genesis}
use buildoor_tester.Runner.Results.{FixtureResult, get_payload_version}
use buildoor_tester.Runner.Calls.{Call}
use buildoor_tester.Runner.Drive.{Settings, drive_chain}
use buildoor_tester.Process.Events.{Event, calls, Host}
use buildoor_tester.Process.Engine.{ElHandles, geth, buildoor_simbuild}
use buildoor_tester.Process.CommandLines.{default_image}
use buildoor_tester.Process.Balance.{step}
use buildoor_tester.Process.Running.{live, Balanced, Keeps, Keeps-continue, Keeps->>=}
use buildoor_tester.Process.Stops.{geth-Keeps, buildoor_simbuild-Keeps}

module _ (T : Testing) (H : Host T) where
  -- `_drive_chain` against the processes that run: its calls are the events.
  unfoldable pub driven : ElHandles → Settings → Fixture T → Exec (Event T) FixtureResult
  driven handles s f h =
      let (r, t) = drive_chain T (H.node h handles.rpc_url handles.auth_url) s f [] in
      (r, h ++ map calls t)

  -- `_finish`.
  unfoldable pub finish : String → ℕ → FixtureResult → Exec (Event T) FixtureResult
  finish fork started r h = (ok record r { fork = some fork; elapsed_ms = H.now h - started }, h)

  abbrev pub settings_for : String → ℕ → ℕ → Option String → Settings
  settings_for test_id version build_time_ms base = record {
    test_id = test_id;
    payload_version = version;
    payload_build_time_ms = build_time_ms;
    buildoor_base_url = base;
  }

  abbrev pub driven_at :
      String → ℕ → ℕ → ℕ → Fixture T → ElHandles → Option String → Exec (Event T) FixtureResult
  driven_at test_id version build_time_ms started f handles base =
      driven handles (settings_for test_id version build_time_ms base) f >>= finish f.fork started

  -- What runs with the client: buildoor is started for a binary only.
  unfoldable pub with_builder :
      String → ℕ → ℕ → ℕ → Fixture T → Option String → ElHandles → Exec (Event T) FixtureResult
  unfolding driven finish
  with_builder test_id version build_time_ms started f none handles =
      driven_at test_id version build_time_ms started f handles none
  with_builder test_id version build_time_ms started f (some binary) handles =
      buildoor_simbuild T H binary handles.auth_url handles.jwt_secret_path build_time_ms
        (λ base. driven_at test_id version build_time_ms started f handles (some base))

  -- The fixture comes as what the genesis is built from, besides its fork, and as what the chain
  -- is driven by.
  unfoldable pub replay :
      GenesisSource T
      → Fixture T
      → String
      → String
      → ℕ
      → Option String
      → Exec (Event T) FixtureResult
  unfolding with_builder
  replay source f test_id work_dir build_time_ms binary h =
      continue (get_payload_version T f)
        (λ version.
          geth T H (build_genesis T (record source { fork = f.fork })) work_dir default_image none
            (with_builder test_id version build_time_ms (H.now h) f binary))
        h

  calls-Balanced : (t : List (Call T)) → Balanced (step T) (map calls t)
  unfolding live
  calls-Balanced [] s = refl
  calls-Balanced (c ∷ t) s = calls-Balanced t s

  driven_at-Keeps :
      (test_id : String) (version build_time_ms started : ℕ) (f : Fixture T) (handles : ElHandles)
      (base : Option String)
      → Keeps (step T) (driven_at test_id version build_time_ms started f handles base)
  unfolding driven finish
  driven_at-Keeps test_id version build_time_ms started f handles base =
      let s = settings_for test_id version build_time_ms base in
      Keeps->>= (step T) (driven handles s f) (finish f.fork started)
        (λ h.
          let t = (drive_chain T (H.node h handles.rpc_url handles.auth_url) s f []).1 in
          (map calls t, calls-Balanced t, refl))
        (λ r h. ([], (λ s. unfold live in refl), sym (append-nil h)))

  with_builder-Keeps :
      (test_id : String) (version build_time_ms started : ℕ) (f : Fixture T)
      (binary : Option String) (handles : ElHandles)
      → Keeps (step T) (with_builder test_id version build_time_ms started f binary handles)
  unfolding with_builder
  with_builder-Keeps test_id version build_time_ms started f none handles =
      driven_at-Keeps test_id version build_time_ms started f handles none
  with_builder-Keeps test_id version build_time_ms started f (some binary) handles =
      buildoor_simbuild-Keeps T H binary handles.auth_url handles.jwt_secret_path build_time_ms _
        (λ base. driven_at-Keeps test_id version build_time_ms started f handles (some base))

  -- However a replay ends, by a result or by an exception of any of its calls: each process that it
  -- started it also asked to stop, the last one first, so that the processes that run are those
  -- that ran before.
  pub replay-Balanced :
      (source : GenesisSource T) (f : Fixture T) (test_id work_dir : String) (build_time_ms : ℕ)
      (binary : Option String) (h : List (Event T))
      → (xs : List (Event T)) × Balanced (step T) xs
        × ((replay source f test_id work_dir build_time_ms binary h).1 ≡ h ++ xs)
  unfolding replay
  replay-Balanced source f test_id work_dir build_time_ms binary h =
      Keeps-continue (step T)
        (λ version.
          geth T H (build_genesis T (record source { fork = f.fork })) work_dir default_image none
            (with_builder test_id version build_time_ms (H.now h) f binary))
        (λ version.
          geth-Keeps T H (build_genesis T (record source { fork = f.fork })) work_dir default_image
            none (with_builder test_id version build_time_ms (H.now h) f binary)
            (with_builder-Keeps test_id version build_time_ms (H.now h) f binary))
        (get_payload_version T f) h
