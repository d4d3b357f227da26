-- ===== src/Export/Stops.antt =====
-- eest_replay/export.py and rpc_proxy.py: the server of the recording proxy is stopped, whatever
-- happens under its `with`, and the subprocess of `_run_execute` ends or is killed.
use buildoor_tester.Base.{
  map, ℕ, ◌≡◌, refl, ◌∙◌, sym, append-nil, ◌<>◌, Bool, Option, none, some, List, [], append_assoc,
  length, ◌∷◌, ◌++◌, String, ℤ, Outcome, ok, raised, Exec, call, continue, pure, ◌>>=◌, ◌>>◌,
  Bool-cases, inl, inr,
}
use buildoor_tester.Base.Json.{Dict}
use buildoor_tester.Process.Running.{
  Process, recorder, execution, stopped, live, Balanced, Keeps, Keeps-pure, Keeps-continue,
  Keeps->>=, Keeps-event, Keeps-ensuring,
}
use buildoor_tester.Export.Command.{
  ExecuteArgs, execute_command, ProcessEnd, timed_out, returned, execute_result,
}
use buildoor_tester.Export.Rows.{Row, enrich}
use buildoor_tester.Export.Submit.{
  Event, ask_balance, write_json, write_csv, write_text, open_proxy, shut_down, server_close,
  execute, ended, kill_group, launched, collect, echo, said, World, SubmitArgs, ExportArgs,
  export_outcome, is_below_floor, start_of, recovery_path, recovery_meta, done, settle, run_execute,
  bound, proxy_url, suppressed, recording_proxy, read_balance, write_recovery_meta,
}
use buildoor_tester.Export.Session.{
  captured, rows_behind, write_rows, export_args, submit_args, export_meta, finish_export,
  submit_run, written, through_proxy, spent_since, difference, summed, submit_behind, submit_funded,
  guarded, submit_from, submit_transactions,
}

abbrev pub step_submit : Event → List Process → Option (List Process)
step_submit (open_proxy url) s = some (recorder ∷ s)
step_submit shut_down s = stopped recorder s
step_submit (ask_balance addr) s = some s
step_submit (write_json path meta) s = some s
step_submit (write_csv path rows) s = some s
step_submit (write_text path lines) s = some s
step_submit server_close s = some s
step_submit (execute cmd) s = some (execution ∷ s)
step_submit ended s = stopped execution s
step_submit kill_group s = stopped execution s
step_submit collect s = some s
step_submit (echo line) s = some s

abbrev KeepsProxy : {A : Type 0} → Exec Event A → Type 0
KeepsProxy m = Keeps step_submit m

done-Keeps : (e : Event) → ((s : List Process) → step_submit e s ≡ some s) → KeepsProxy (done e)
done-Keeps e plain = Keeps-event step_submit (λ h. ok tt) e plain

-- What is returned or raised without an event.
same_history : (h : List Event) → (xs : List Event) × Balanced step_submit xs × (h ≡ h ++ xs)
same_history h = ([], (λ s. unfold live in refl), sym (append-nil h))

pub finish_export-Keeps :
    (a : ExportArgs) (seed_addr : String) (ran : Bool × Option String) (rows : List Row)
    → KeepsProxy (finish_export a seed_addr ran rows)
unfolding finish_export
finish_export-Keeps a seed_addr ran rows h =
    let r = export_outcome ran rows in
    let first = write_csv (a.output_dir <> "/transactions.csv") rows in
    let last =
      write_json (a.output_dir <> "/meta.json") (export_meta a seed_addr (length rows) r) in
    (first ∷ last ∷ [], (λ s. unfold live in refl), append_assoc h (first ∷ []) (last ∷ []))

lines-Balanced : (lines : List String) → Balanced step_submit (map echo lines)
unfolding live
lines-Balanced [] s = refl
lines-Balanced (line ∷ lines) s = lines-Balanced lines s

pub said-Keeps : (lines : List String) → KeepsProxy (said lines)
said-Keeps lines h = (map echo lines, lines-Balanced lines, refl)

module _ (W : World) where
  -- Behind the kill of the process group.
  killed-Keeps :
      {A : Type 0} (s : Outcome (Unit {0})) (v : A)
      → KeepsProxy (continue s (λ _. call W.on_collect collect) >> pure v)
  killed-Keeps s v =
      Keeps->>= step_submit _ _
        (Keeps-continue step_submit (λ _. call W.on_collect collect)
          (λ _. Keeps-event step_submit W.on_collect collect (λ s. refl)) s)
        (λ _. Keeps-pure step_submit (ok v))

  launched-Keeps :
      {A : Type 0} (cmd : List String) (result : ProcessEnd → A) (r : Outcome ProcessEnd)
      → KeepsProxy (launched W (execute cmd) r >>= λ end. settle W end >> pure (result end))
  launched-Keeps {A = A} cmd result (raised x) h = Keeps-pure step_submit {A = A} (raised x) h
  launched-Keeps cmd result (ok (returned code tail)) h = (
    execute cmd ∷ ended ∷ [],
    (λ s. unfold live in refl),
    append_assoc h (execute cmd ∷ []) (ended ∷ []),
  )
  launched-Keeps cmd result (ok timed_out) h =
      let h1 = h ++ execute cmd ∷ [] in
      let (xs, even, at) =
        killed-Keeps (suppressed W (W.on_kill h1)) (result timed_out) (h1 ++ kill_group ∷ []) in
      (
        execute cmd ∷ kill_group ∷ xs,
        (λ s. unfold live in even s),
        at ∙ append_assoc h1 (kill_group ∷ []) xs ∙ append_assoc h (execute cmd ∷ []) _,
      )

  run_execute-Keeps : (a : ExecuteArgs) → KeepsProxy (run_execute W a)
  unfolding run_execute
  run_execute-Keeps a h =
      launched-Keeps (execute_command a) (execute_result a.tx_wait_timeout) (W.process h) h

  bound-Keeps :
      {A : Type 0} (target : String) (body : String → Exec Event A)
      → ((url : String) → KeepsProxy (body url))
      → (port : Outcome ℕ) → KeepsProxy (bound W target body port)
  bound-Keeps {A} target body kept (raised e) = Keeps-pure step_submit {A = A} (raised e)
  bound-Keeps target body kept (ok port) =
      Keeps-ensuring step_submit recorder (open_proxy target) shut_down (body (proxy_url W port))
        W.on_shutdown (λ _. done server_close) (λ s. refl) (λ s. refl) (kept (proxy_url W port))
        (λ _. done-Keeps server_close (λ s. refl))

  recording_proxy-Keeps :
      {A : Type 0} (target : String) (body : String → Exec Event A)
      → ((url : String) → KeepsProxy (body url))
      → KeepsProxy (recording_proxy W target body)
  unfolding recording_proxy
  recording_proxy-Keeps target body kept h = bound-Keeps target body kept (W.bind h) h

  rows_behind-Keeps : (ran : Bool × Option String) → KeepsProxy (rows_behind W ran)
  rows_behind-Keeps ran h =
      let back : List Row → Exec Event ((Bool × Option String) × List Row) =
        λ rows. pure (ran, rows) in
      Keeps-continue step_submit back (λ rows h. same_history h)
        (enrich W.digest W.rpc 0 (W.snapshot h)) h

  pub captured-Keeps :
      (a : ExportArgs) (handles : String × String × String) → KeepsProxy (captured W a handles)
  unfolding captured
  captured-Keeps a (rpc_url, auth_url, jwt) =
      recording_proxy-Keeps rpc_url
        (λ url. run_execute W (export_args W a url auth_url jwt) >>= rows_behind W)
        (λ url.
          Keeps->>= step_submit (run_execute W (export_args W a url auth_url jwt)) (rows_behind W)
            (run_execute-Keeps (export_args W a url auth_url jwt)) rows_behind-Keeps)

  written-Keeps :
      (path : String) (ran : (Bool × Option String) × List String) → KeepsProxy (written W path ran)
  written-Keeps path (ran, txs) =
      Keeps-continue step_submit (write_rows W path ran)
        (λ rows h. (write_csv path rows ∷ [], (λ s. unfold live in refl), refl))
        (enrich W.digest W.rpc 0 txs)

  submit_run-Keeps :
      (a : SubmitArgs) (eoa_start : String) (csv : Option String)
      → KeepsProxy (submit_run W a eoa_start csv)
  unfolding submit_run
  submit_run-Keeps a eoa_start none =
      Keeps->>= step_submit (run_execute W (submit_args W a eoa_start a.rpc_url))
        (λ ran. pure (ran, none)) (run_execute-Keeps (submit_args W a eoa_start a.rpc_url))
        (λ ran h. same_history h)
  submit_run-Keeps a eoa_start (some path) =
      Keeps->>= step_submit (recording_proxy W a.rpc_url (through_proxy W a eoa_start))
        (written W path)
        (recording_proxy-Keeps a.rpc_url (through_proxy W a eoa_start) (λ url.
          Keeps->>= step_submit (run_execute W (submit_args W a eoa_start url))
            (λ ran h. (ok (ran, W.snapshot h), h))
            (run_execute-Keeps (submit_args W a eoa_start url)) (λ ran h. same_history h)))
        (written-Keeps path)

  read_balance-Keeps : (addr : String) → KeepsProxy (read_balance W addr)
  unfolding read_balance
  read_balance-Keeps addr h = (ask_balance addr ∷ [], (λ s. unfold live in refl), refl)

  spent_since-Keeps : (before : Option ℤ) (addr : String) → KeepsProxy (spent_since W before addr)
  unfolding spent_since
  spent_since-Keeps none addr h = same_history h
  spent_since-Keeps (some before) addr h =
      Keeps->>= step_submit (read_balance W addr) (λ after. pure (difference W before after))
        (read_balance-Keeps addr) (λ after h. same_history h) h

  write_recovery_meta-Keeps :
      (path : Option String) (meta : Dict) → KeepsProxy (write_recovery_meta W path meta)
  unfolding write_recovery_meta
  write_recovery_meta-Keeps none meta h = same_history h
  write_recovery_meta-Keeps (some path) meta h =
      (write_json path meta ∷ [], (λ s. unfold live in refl), refl)

  submit_funded-Keeps :
      (a : SubmitArgs) (seed_addr eoa_start : String) (before : Option ℤ)
      → KeepsProxy (submit_funded W a seed_addr eoa_start before)
  unfolding submit_funded
  submit_funded-Keeps a seed_addr eoa_start before =
      let path = recovery_path W.recovery_suffix a.meta_path a.csv_path in
      let meta = recovery_meta seed_addr eoa_start a.chain_id a.fork a.rpc_url in
      Keeps->>= step_submit (write_recovery_meta W path meta)
        (submit_behind W a seed_addr eoa_start before) (write_recovery_meta-Keeps path meta)
        (λ at.
          Keeps->>= step_submit (submit_run W a eoa_start a.csv_path)
            (λ ran. spent_since W before seed_addr >>= summed W a at ran)
            (submit_run-Keeps a eoa_start a.csv_path)
            (λ ran.
              Keeps->>= step_submit (spent_since W before seed_addr) (summed W a at ran)
                (spent_since-Keeps before seed_addr) (λ spent h. same_history h)))

  guarded-Keeps :
      (a : SubmitArgs) (seed_addr : String) (before : Option ℤ)
      → KeepsProxy (guarded W a seed_addr before)
  guarded-Keeps a seed_addr before h =
      elim (Bool-cases (is_below_floor a.min_seed_balance_wei before)) [
        | inl below ↦ rw below (same_history h)
        | inr above ↦
            rw above (submit_funded-Keeps a seed_addr (start_of a.eoa_start a.randbits) before h)
      ]

  -- However a submit ends, by a result or by an exception: if the proxy's server was started, its loop
  -- has been ended, and behind the start of the subprocess of `_run_execute` that subprocess has ended
  -- within its time or its process group was killed, the last one first.
  pub submit_transactions-Balanced :
      (a : SubmitArgs) (h : List Event)
      → (xs : List Event) × Balanced step_submit xs × ((submit_transactions W a h).1 ≡ h ++ xs)
  unfolding submit_transactions
  submit_transactions-Balanced a =
      Keeps-continue step_submit (submit_from W a)
        (λ seed_addr.
          Keeps->>= step_submit (read_balance W seed_addr) (guarded W a seed_addr)
            (read_balance-Keeps seed_addr) (guarded-Keeps a seed_addr))
        (W.address a.seed_key)
