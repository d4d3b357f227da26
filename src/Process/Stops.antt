-- ===== src/Process/Stops.antt =====
-- eest_replay/el.py and buildoor_client.py: the three contexts stop what they start.
use buildoor_tester.Base.{
  ◌+◌, ◌<>◌, ℕ, zero, suc, ◌≡◌, refl, sym, ◌∙◌, Bool-cases, inl, inr, Option, none, List, [], ◌∷◌,
  ◌++◌, append-nil, append_assoc, String, ℤ, Outcome, ok, raised, Exc, runtime_error, Exec, call,
  ◌>>◌, ltb,
}
use buildoor_tester.Base.Json.{Dict}
use buildoor_tester.Testing.{Testing}
use buildoor_tester.Process.Poll.{poll, wait_until_ready, is_ready, last_error, out_of_rounds}
use buildoor_tester.Process.Events.{
  Event, write_genesis, write_jwt, make_dir, init_datadir, start, ask_ready, stop, wait_end, kill,
  Host, spawn, started, request_stop, reap,
}
use buildoor_tester.Process.Running.{Process, container, builder}
use buildoor_tester.Process.Engine.{
  ElHandles, local_url, name_or, boot_geth, rest_of_round, rpc_message, health_message,
  while_running, geth, files_written, geth_dev_datadir, buildoor_simbuild, wait_for_rpc,
  wait_for_health,
}
use buildoor_tester.Process.CommandLines.{init_command, geth_command}
use buildoor_tester.Process.Balance.{step}
use buildoor_tester.Process.Running.{
  live, Balanced, Balanced-append, Keeps-ensuring, Keeps, Keeps-pure, Keeps-continue, Keeps->>=,
  Keeps-event,
}

module _ (T : Testing) (H : Host T) where
  rest-Balanced : (a : Outcome ℕ) → Balanced (step T) (rest_of_round T H a)
  unfolding live
  rest-Balanced (ok status) s = refl
  rest-Balanced (raised e) s = refl

  round-Balanced :
      (url : String) (a : Outcome ℕ) (xs : List (Event T))
      → Balanced (step T) xs
      → Balanced (step T) (ask_ready url ∷ (rest_of_round T H a ++ xs))
  unfolding live
  round-Balanced url a xs even =
      Balanced-append (step T) (rest_of_round T H a) xs (rest-Balanced a) even

  poll-Keeps :
      (url : String) (message : Option Exc → String) (n deadline : ℕ) (last : Option Exc)
      → Keeps
          (step T)
          (poll (ask_ready url) (rest_of_round T H) H.now H.on_ask message n deadline last)
  unfolding poll
  poll-Keeps url message zero deadline last h =
      Keeps-pure (step T) {A = Unit {0}} (raised out_of_rounds) h
  poll-Keeps url message (suc n) deadline last h = elim (Bool-cases (ltb (H.now h) deadline)) [
    | inr late ↦
        rw late (Keeps-pure (step T) {A = Unit {0}} (raised (runtime_error (message last))) h)
    | inl soon ↦ elim (Bool-cases (is_ready (H.on_ask h))) [
      | inl good ↦ rw soon (rw good (ask_ready url ∷ [], (λ s. unfold live in refl), refl))
      | inr bad ↦
          let a = H.on_ask h in
          let (xs, even, at) =
            poll-Keeps url message n deadline (last_error last a)
              ((h ++ ask_ready url ∷ []) ++ rest_of_round T H a) in
          rw soon (
            rw bad (
              ask_ready url ∷ (rest_of_round T H a ++ xs),
              round-Balanced url a xs even,
              at ∙ append_assoc _ (rest_of_round T H a) xs ∙ append_assoc h (ask_ready url ∷ []) _,
            ))
    ]
  ]

  wait_until_ready-Keeps :
      (url : String) (message : Option Exc → String) (timeout : ℕ)
      → Keeps
          (step T)
          (wait_until_ready (ask_ready url) (rest_of_round T H) H.now H.on_ask message timeout)
  unfolding wait_until_ready
  wait_until_ready-Keeps url message timeout h =
      poll-Keeps url message (suc timeout) (H.now h + timeout) none h

  wait_for_rpc-Keeps : (url : String) → Keeps (step T) (wait_for_rpc T H url)
  unfolding wait_for_rpc
  wait_for_rpc-Keeps url h = wait_until_ready-Keeps url (rpc_message T H url) 30000 h

  wait_for_health-Keeps : (url : String) → Keeps (step T) (wait_for_health T H url)
  unfolding wait_for_health
  wait_for_health-Keeps url h =
      wait_until_ready-Keeps (url <> "/healthz") (health_message T H url) 15000 h

  reap-Keeps : (p : Process) (seconds : ℕ) → Keeps (step T) (reap T H p seconds)
  unfolding reap
  reap-Keeps p seconds h = elim (Bool-cases (H.ends_in_time h)) [
    | inl is ↦ rw is (wait_end p seconds ∷ [], (λ s. unfold live in refl), refl)
    | inr is ↦ rw is (
      wait_end p seconds ∷ kill p ∷ [],
      (λ s. unfold live in refl),
      append_assoc h (wait_end p seconds ∷ []) (kill p ∷ []),
    )
  ]

  -- The end of a context: the stop, and then events that leave the processes alone.
  pub cleanup-stops :
      (p : Process) (seconds : ℕ) (h : List (Event T))
      → (zs : List (Event T)) × Balanced (step T) zs
        × (((request_stop T H p >> reap T H p seconds) h).1 ≡ h ++ stop p ∷ zs)
  cleanup-stops p seconds h =
      let (zs, even, at) =
        Keeps-continue (step T) (λ _. reap T H p seconds) (λ _. reap-Keeps p seconds) (H.on_stop h)
          (h ++ stop p ∷ []) in
      (zs, even, at ∙ append_assoc h (stop p ∷ []) zs)

  started-stops :
      {A : Type 0} (p : Process) (cmd : List String) (seconds : ℕ)
      (wait : Exec (Event T) (Unit {0})) (body : Exec (Event T) A)
      → Keeps (step T) wait
      → Keeps (step T) body
      → (r : Outcome (Unit {0}))
      → Keeps (step T) (started T H (start p cmd) r >> while_running T H p seconds wait body)
  unfolding while_running
  started-stops {A} p cmd seconds wait body w b (raised e) h =
      Keeps-pure (step T) {A = A} (raised e) h
  started-stops p cmd seconds wait body w b (ok u) h =
      Keeps-ensuring (step T) p (start p cmd) (stop p) (wait >> body) H.on_stop
        (λ _. reap T H p seconds) (λ s. refl) (λ s. refl)
        (Keeps->>= (step T) wait (λ _. body) w (λ _. b)) (λ _. reap-Keeps p seconds) h

  pub while_running-stops :
      {A : Type 0} (p : Process) (cmd : List String) (seconds : ℕ)
      (wait : Exec (Event T) (Unit {0})) (body : Exec (Event T) A)
      → Keeps (step T) wait
      → Keeps (step T) body
      → Keeps (step T) (spawn T H p cmd >> while_running T H p seconds wait body)
  while_running-stops p cmd seconds wait body w b h =
      started-stops p cmd seconds wait body w b (H.on_start h) h

  boot_geth-Keeps :
      {A : Type 0} (work_dir image name : String) (rpc_port auth_port : ℕ)
      (body : ElHandles → Exec (Event T) A)
      → ((e : ElHandles) → Keeps (step T) (body e))
      → Keeps (step T) (boot_geth T H work_dir image name rpc_port auth_port body)
  boot_geth-Keeps work_dir image name rpc_port auth_port body b =
      Keeps->>= (step T) (call H.on_init (init_datadir (init_command work_dir image))) _
        (Keeps-event (step T) H.on_init (init_datadir (init_command work_dir image)) (λ s. refl))
        (λ _.
          while_running-stops (container name) (geth_command work_dir image name rpc_port auth_port)
            10 (wait_for_rpc T H (local_url rpc_port)) (body _)
            (wait_for_rpc-Keeps (local_url rpc_port)) (b _))

  pub geth-Keeps :
      {A : Type 0} (genesis : Dict) (work_dir image : String) (name : Option String)
      (body : ElHandles → Exec (Event T) A)
      → ((e : ElHandles) → Keeps (step T) (body e))
      → Keeps (step T) (geth T H genesis work_dir image name body)
  unfolding geth
  geth-Keeps genesis work_dir image name body b h =
      let h2 = files_written T H h work_dir genesis in
      let (xs, even, at) =
        boot_geth-Keeps work_dir image (name_or ("eest-replay-" <> H.token_hex h2) name)
          (H.free_port h2 0) (H.free_port h2 1) body b h2 in
      (
        make_dir work_dir
            ∷ write_genesis (work_dir <> "/genesis.json") genesis
            ∷ write_jwt (work_dir <> "/jwt.hex")
            ∷ make_dir (work_dir <> "/datadir")
            ∷ xs,
        (λ s. unfold live in even s),
        at ∙ simp append_assoc,
      )

  pub geth_dev_datadir-Keeps :
      {A : Type 0} (datadir : String) (chain_id : ℤ) (image : String) (name : Option String)
      (body : String → Exec (Event T) A)
      → ((url : String) → Keeps (step T) (body url))
      → Keeps (step T) (geth_dev_datadir T H datadir chain_id image name body)
  unfolding geth_dev_datadir
  geth_dev_datadir-Keeps datadir chain_id image name body b h =
      elim (Bool-cases (H.has_chaindata h (H.resolve datadir))) [
        | inl is ↦ rw is (while_running-stops _ _ 10 _ _ (wait_for_rpc-Keeps _) (b _) h)
        | inr is ↦ rw is ([], (λ s. unfold live in refl), sym (append-nil h))
      ]

  pub buildoor_simbuild-Keeps :
      {A : Type 0} (binary url jwt : String) (build_wait_ms : ℕ) (body : String → Exec (Event T) A)
      → ((base : String) → Keeps (step T) (body base))
      → Keeps (step T) (buildoor_simbuild T H binary url jwt build_wait_ms body)
  unfolding buildoor_simbuild
  buildoor_simbuild-Keeps binary url jwt build_wait_ms body b h =
      while_running-stops builder _ 5 _ _ (wait_for_health-Keeps _) (b _) h
