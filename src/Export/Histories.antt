-- ===== src/Export/Histories.antt =====
-- eest_replay/export.py: what the parts of a submit add to what was done before.
use buildoor_tester.Base.{
  ℕ, ◌≡◌, sym, ap, ◌∙◌, Bool, Option, none, some, List, [], ◌∷◌, ◌++◌, append_assoc, append-nil,
  String, ℤ, Outcome, ok, raised, Exec, call, pure, ◌>>=◌, ◌>>◌, >>=-eq-ok, ensuring-eq-ok,
}
use buildoor_tester.Base.Json.{Dict}
use buildoor_tester.Export.Command.{
  ExecuteArgs, execute_command, ProcessEnd, timed_out, returned, execute_result,
}
use buildoor_tester.Export.Submit.{
  Event, ask_balance, write_json, write_csv, open_proxy, shut_down, server_close, execute, ended,
  kill_group, collect, launched, launch, World, SubmitArgs, SubmitResult, recovery_path,
  recovery_meta, done, suppressed, settle, run_execute, enriched, close_proxy, proxy_url, bound,
  recording_proxy, read_balance, write_recovery_meta,
}
use buildoor_tester.Export.Session.{
  submit_funded, submit_run, spent_since, submit_args, through_proxy, write_rows, written,
  difference, summed, submit_behind,
}

-- What `_run_execute` does behind the end of its subprocess.
abbrev pub settled_by : ProcessEnd → List Event
settled_by timed_out = kill_group ∷ collect ∷ []
settled_by (returned code tail) = ended ∷ []

-- What goes before the subprocess of a submit.
abbrev pub opened_for : Option String → String → List Event
opened_for none target = []
opened_for (some csv) target = open_proxy target ∷ []

-- The subprocess of a submit, with the start of its accounts and a URL.
abbrev pub runs : World → SubmitArgs → String → String → Event
runs W a eoa_start url = execute (execute_command (submit_args W a eoa_start url))

module _ (W : World) where
  settle-eq-ok :
      (end : ProcessEnd) (h : List Event) {u : Unit {0}} {t : List Event}
      → settle W end h ≡ (ok u, t)
      → t ≡ h ++ settled_by end
  settle-eq-ok (returned code tail) h e = sym (ap (λ q. q.1) e)
  settle-eq-ok timed_out h e =
      let (_, v, is, rest) =
        >>=-eq-ok (call (λ h. suppressed W (W.on_kill h)) kill_group)
          (λ _. call W.on_collect collect) h e in
      sym (ap (λ q. q.1) rest)
      ∙ ap (λ l. l ++ collect ∷ []) (sym (ap (λ q. q.1) is))
      ∙ append_assoc h (kill_group ∷ []) (collect ∷ [])

  launched-eq-ok :
      (e : Event) (r : Outcome ProcessEnd) (h : List Event) {end : ProcessEnd} {t : List Event}
      → launched W e r h ≡ (ok end, t)
      → (r ≡ ok end) × (t ≡ h ++ e ∷ [])
  launched-eq-ok e (ok end) h is = (ap (λ q. q.0) is, sym (ap (λ q. q.1) is))
  launched-eq-ok e (raised x) h is = cc (ap (λ q. q.0) is)

  -- A subprocess that `_run_execute` returned from has ended as the surroundings had it end; behind
  -- a time-out its process group was killed, and it was waited for.
  pub run_execute-eq-ok :
      (a : ExecuteArgs) (h : List Event) {ran : Bool × Option String} {t : List Event}
      → run_execute W a h ≡ (ok ran, t)
      → (end : ProcessEnd) × (W.process h ≡ ok end)
        × (ran ≡ execute_result a.tx_wait_timeout end)
        × (t ≡ h ++ execute (execute_command a) ∷ settled_by end)
  unfolding run_execute
  run_execute-eq-ok a h {ran} e =
      let cmd = execute_command a in
      let result = execute_result a.tx_wait_timeout in
      let (end, u, started, rest) =
        >>=-eq-ok (launch W cmd) (λ end. settle W end >> pure (result end)) h e in
      let (came, first) = launched-eq-ok (execute cmd) (W.process h) h started in
      let (_, v, killed, done) = >>=-eq-ok (settle W end) (λ _. pure (result end)) u rest in
      let is : ok (result end) ≡ ok ran = ap (λ q. q.0) done in
      (
        end,
        came,
        sym (cc is),
        sym (ap (λ q. q.1) done)
            ∙ settle-eq-ok end u killed
            ∙ ap (λ l. l ++ settled_by end) first
            ∙ append_assoc h (execute cmd ∷ []) (settled_by end),
      )

  bound-eq-ok :
      {A : Type 0} (target : String) (body : String → Exec Event A) (port : Outcome ℕ)
      (h : List Event) {r : A} {t : List Event}
      → bound W target body port h ≡ (ok r, t)
      → (url : String) × (v : List Event) × (body url (h ++ open_proxy target ∷ []) ≡ (ok r, v))
        × (t ≡ v ++ shut_down ∷ server_close ∷ [])
  bound-eq-ok target body (raised x) h e = cc (ap (λ q. q.0) e)
  bound-eq-ok target body (ok port) h e =
      let h1 = h ++ open_proxy target ∷ [] in
      let v = (body (proxy_url W port) h1).1 in
      let (_, same, closed) = ensuring-eq-ok (body (proxy_url W port)) (close_proxy W) h1 e in
      let (_, w, shut, rest) =
        >>=-eq-ok (call W.on_shutdown shut_down) (λ _. done server_close) v closed in
      (
        proxy_url W port,
        v,
        (λ i. (same i, v)),
        sym (ap (λ q. q.1) rest)
            ∙ ap (λ l. l ++ server_close ∷ []) (sym (ap (λ q. q.1) shut))
            ∙ append_assoc v (shut_down ∷ []) (server_close ∷ []),
      )

  -- A `with recording_proxy` that returned has run its code between the start and the end of it.
  pub recording_proxy-eq-ok :
      {A : Type 0} (target : String) (body : String → Exec Event A) (h : List Event) {r : A}
      {t : List Event}
      → recording_proxy W target body h ≡ (ok r, t)
      → (url : String) × (v : List Event) × (body url (h ++ open_proxy target ∷ []) ≡ (ok r, v))
        × (t ≡ v ++ shut_down ∷ server_close ∷ [])
  unfolding recording_proxy
  recording_proxy-eq-ok target body h e = bound-eq-ok target body (W.bind h) h e

  pub run-extends :
      (a : SubmitArgs) (eoa_start : String) (csv : Option String) (h : List Event)
      {x : (Bool × Option String) × Option ℕ} {t : List Event}
      → submit_run W a eoa_start csv h ≡ (ok x, t)
      → (url : String) × (rest : List Event) × (t
          ≡ h ++ (opened_for csv a.rpc_url ++ runs W a eoa_start url ∷ rest))
  unfolding submit_run
  run-extends a eoa_start none h e =
      let args = submit_args W a eoa_start a.rpc_url in
      let (ran, u, is, rest) = >>=-eq-ok (run_execute W args) (λ ran. pure (ran, none)) h e in
      let (end, _, _, at) = run_execute-eq-ok args h is in
      (a.rpc_url, settled_by end, sym (ap (λ q. q.1) rest) ∙ at)
  run-extends a eoa_start (some path) h e =
      let through = through_proxy W a eoa_start in
      let (ran, u, is, rest) =
        >>=-eq-ok (recording_proxy W a.rpc_url through) (written W path) h e in
      let (url, v, inside, closed) = recording_proxy-eq-ok a.rpc_url through h is in
      let h1 = h ++ open_proxy a.rpc_url ∷ [] in
      let args = submit_args W a eoa_start url in
      let (_, w, ran1, back) =
        >>=-eq-ok (run_execute W args) (λ ran h. (ok (ran, W.snapshot h), h)) h1 inside in
      let (end, _, _, at) = run_execute-eq-ok args h1 ran1 in
      let (rows, h2, found, wrote) =
        >>=-eq-ok (enriched W ran.1) (write_rows W path ran.0) u rest in
      let behind = write_csv path rows ∷ [] in
      let ends = shut_down ∷ server_close ∷ [] in
      (
        url,
        settled_by end ++ (ends ++ behind),
        sym (ap (λ q. q.1) wrote)
            ∙ ap (λ l. l ++ behind) (sym (ap (λ q. q.1) found) ∙ closed)
            ∙ ap (λ l. (l ++ ends) ++ behind) (sym (ap (λ q. q.1) back) ∙ at)
            ∙ simp append_assoc,
      )

  pub spent-extends :
      (before : Option ℤ) (s : String) (h : List Event) {x : Option ℤ} {t : List Event}
      → spent_since W before s h ≡ (ok x, t)
      → (rest : List Event) × (t ≡ h ++ rest)
  unfolding spent_since read_balance
  spent-extends none s h e = ([], sym (ap (λ q. q.1) e) ∙ sym (append-nil h))
  spent-extends (some before) s h e =
      let (after, u, asked, rest) =
        >>=-eq-ok (read_balance W s) (λ after. pure (difference W before after)) h e in
      let same : h ++ ask_balance s ∷ [] ≡ u = ap (λ q. q.1) asked in
      (ask_balance s ∷ [], sym (ap (λ q. q.1) rest) ∙ sym same)

  pub meta_written :
      (meta : Dict) (o : Option String) (h : List Event) {path : String} {x : Option String}
      {t : List Event}
      → o ≡ some path
      → write_recovery_meta W o meta h ≡ (ok x, t)
      → t ≡ h ++ write_json path meta ∷ []
  unfolding write_recovery_meta
  meta_written meta none h at e = cc at
  meta_written meta (some p) h {path} at e =
      let same : p ≡ path = cc at in
      sym (ap (λ q. q.1) e) ∙ ap (λ p. h ++ write_json p meta ∷ []) same

  pub funded-history :
      (a : SubmitArgs) (s start : String) (before : Option ℤ) (h : List Event) {path : String}
      {r : SubmitResult} {t : List Event}
      → recovery_path W.recovery_suffix a.meta_path a.csv_path ≡ some path
      → submit_funded W a s start before h ≡ (ok r, t)
      → (url : String) × (rest : List Event) × (t
          ≡ h
            ++ write_json path (recovery_meta s start a.chain_id a.fork a.rpc_url)
              ∷ (opened_for a.csv_path a.rpc_url ++ runs W a start url ∷ rest))
  unfolding submit_funded
  funded-history a s start before h {path} at e =
      let opened = opened_for a.csv_path a.rpc_url in
      let meta = recovery_meta s start a.chain_id a.fork a.rpc_url in
      let (w, h1, is1, e1) =
        >>=-eq-ok
          (write_recovery_meta W (recovery_path W.recovery_suffix a.meta_path a.csv_path) meta)
          (submit_behind W a s start before) h e in
      let (ran, h2, is2, e2) =
        >>=-eq-ok (submit_run W a start a.csv_path)
          (λ ran. spent_since W before s >>= summed W a w ran) h1 e1 in
      let (spent, h3, is3, e3) = >>=-eq-ok (spent_since W before s) (summed W a w ran) h2 e2 in
      let (url, more, t2) = run-extends a start a.csv_path h1 is2 in
      let (rest, t3) = spent-extends before s h2 is3 in
      let first =
        meta_written meta (recovery_path W.recovery_suffix a.meta_path a.csv_path) h at is1 in
      (
        url,
        more ++ rest,
        sym (ap (λ q. q.1) e3)
            ∙ t3
            ∙ ap (λ l. l ++ rest) (t2 ∙ ap (λ l. l ++ (opened ++ runs W a start url ∷ more)) first)
            ∙ simp append_assoc,
      )
