-- ===== src/Cli/Exits.antt =====
-- eest_replay/cli.py: what the `export` and `submit` commands have done when they exit.
use buildoor_tester.Base.{
  map, append_assoc, continue-eq-ok, ℕ, ◌≡◌, ◌≢◌, sym, ap, ◌∙◌, ◌↔◌, Bool, true, false, ◌&&◌,
  Option, some, List, [], ◌∷◌, ◌++◌, String, ◌<>◌, ℤ, ltb, length, Outcome, ok, ◌>>=◌, >>=-eq-ok,
  arith,
}
use buildoor_tester.Testing.{Testing}
use buildoor_tester.Process.Events.{Event, submits, Host}
use buildoor_tester.Export.Command.{execute_result}
use buildoor_tester.Export.Submit.{
  ask_balance, write_json, execute, World, ExportArgs, ExportResult, SubmitArgs, SubmitResult,
  recovery_path, start_of, recovery_meta, said,
}
use buildoor_tester.Export.Submit
use buildoor_tester.Export.Session.{submit_transactions}
use buildoor_tester.Export.Transactions.{export_transactions}
use buildoor_tester.Export.Histories.{opened_for, runs}
use buildoor_tester.Export.Captures.{ran_through}
use buildoor_tester.Export.Reports.{Exported, export_transactions-reports}
use buildoor_tester.Export.Outcomes.{submit-recoverable}
use buildoor_tester.Cli.Commands.{
  export_exit, export_from, export_cmd, export_heading, export_lines, with_seed, with_floor,
  status_of, submit_heading, report_submit_result, submit_exit, submit_from_seed, submit_cmd,
  wei_of,
}

status_of_iff : (b : Bool) → (status_of b ≡ 0) ↔ (b ≡ true)
status_of_iff b = ground arith

export-status_iff :
    (good ran : Bool) (n recorded status : ℕ)
    → status_of (good && ltb 0 n) ≡ status
    → n ≡ recorded
    → (good ≡ true) ↔ ((ran ≡ true) × (n ≢ 0))
    → (status ≡ 0) ↔ ((ran ≡ true) × (recorded ≢ 0))
export-status_iff false ran n recorded status is counted iff = ground arith
export-status_iff true ran n recorded status is counted iff = ground arith

same_status : {x y : ℕ} → ◌≡◌ {A = Outcome ℕ} (ok x) (ok y) → x ≡ y
same_status e = cc e

regroup :
    {A : Type 0} (h a b c rest last : List A) (x y z : A)
    → ((h ++ a) ++ b) ++ (x ∷ y ∷ (c ++ z ∷ rest)) ++ last
      ≡ h ++ ((a ++ b) ++ x ∷ y ∷ (c ++ z ∷ (rest ++ last)))
regroup h a b c rest last x y z = simp append_assoc

module _ (T : Testing) (H : Host T) (address_from_key : String → Outcome String) where
  -- An export command that ends without an exception has run one subprocess, and it exits with 0
  -- exactly when that succeeded and the recorder held a transaction behind it.
  pub export_cmd-exits :
      (a : ExportArgs) (h : List (Event T)) {status : ℕ} {t : List (Event T)}
      → export_cmd T H address_from_key a h ≡ (ok status, t)
      → (s : String) × (r : ExportResult) × (u : List (Event T)) × (E : Exported T H
          address_from_key
          (with_seed a s)
          r
          (h ++ map submits (map Submit.echo (export_heading a s)))
          u)
        × ((status ≡ 0) ↔ (
            ((execute_result a.tx_wait_timeout E.end).0 ≡ true)
            × (length ((H.world E.before E.url).snapshot (ran_through E.url E.cmd E.end)) ≢ 0)))
        × (t ≡ u ++ map submits (map Submit.echo (export_lines r)))
  unfolding export_cmd
  export_cmd-exits a h {status} e =
      let (s, _, e1) =
        continue-eq-ok (address_from_key a.seed_key) (export_from T H address_from_key a) h e in
      let h1 = h ++ map submits (map Submit.echo (export_heading a s)) in
      let (r, u, ran, e2) =
        >>=-eq-ok (export_transactions T H address_from_key (with_seed a s))
          (export_exit T H address_from_key) h1 e1 in
      let E = export_transactions-reports T H address_from_key (with_seed a s) h1 ran in
      (
        s,
        r,
        u,
        E,
        export-status_iff r.execute_ok (execute_result a.tx_wait_timeout E.end).0 r.tx_count
            (length ((H.world E.before E.url).snapshot (ran_through E.url E.cmd E.end))) status
            (same_status (ap (λ q. q.0) e2)) E.counted E.good,
        sym (ap (λ q. q.1) e2),
      )

module _ (W : World) where
  abbrev heading : SubmitArgs → String → List Submit.Event
  heading a s = map Submit.echo (submit_heading a) ++ Submit.echo ("    seed=" <> s) ∷ []

  -- A submit command that exits with 0 has asked for the seed's balance, then written the recovery
  -- file, and only then run the subprocess. Here a place for that file is given.
  submit_cmd-recoverable :
      {Ether : Type 0} (to_wei : Ether → Outcome ℤ) (ether : ℤ → String) (a : SubmitArgs)
      (floor : Option Ether) (h : List Submit.Event) {s path : String} {t : List Submit.Event}
      → W.address a.seed_key ≡ ok s
      → recovery_path W.recovery_suffix a.meta_path a.csv_path ≡ some path
      → submit_cmd W to_wei ether a floor h ≡ (ok 0, t)
      → let start = start_of a.eoa_start a.randbits in
        (url : String) × (rest : List Submit.Event) × (t
          ≡ h
            ++ (heading a s
                ++ ask_balance s
                  ∷ write_json path (recovery_meta s start a.chain_id a.fork a.rpc_url)
                  ∷ (opened_for a.csv_path a.rpc_url ++ runs W a start url ∷ rest)))
  unfolding submit_cmd
  submit_cmd-recoverable to_wei ether a floor h {s} {path} {t} known at e =
      let h1 = h ++ map Submit.echo (submit_heading a) in
      let h2 = h1 ++ Submit.echo ("    seed=" <> s) ∷ [] in
      let e1 : submit_from_seed W to_wei ether a floor s h1 ≡ (ok 0, t) = rw known at e in
      let (wei, _, e2) =
        continue-eq-ok (wei_of to_wei floor)
          (λ floor. submit_transactions W (with_floor a floor) >>= submit_exit ether) h2 e1 in
      let (r, h3, ran, e3) =
        >>=-eq-ok (submit_transactions W (with_floor a wei)) (submit_exit ether) h2 e2 in
      let status : status_of r.execute_ok ≡ 0 = same_status (ap (λ q. q.0) e3) in
      let (url, rest, done) =
        submit-recoverable W (with_floor a wei) h2 known at ran
          ((status_of_iff r.execute_ok).0 status) in
      let printed = map Submit.echo (report_submit_result ether r) in
      (
        url,
        rest ++ printed,
        sym (ap (λ q. q.1) e3)
            ∙ ap (λ l. l ++ printed) done
            ∙ regroup h (map Submit.echo (submit_heading a)) (Submit.echo ("    seed=" <> s) ∷ [])
                (opened_for a.csv_path a.rpc_url) rest printed _ _ _,
      )
