-- ===== src/Export/Outcomes.antt =====
-- eest_replay/export.py: the order of what a submit does.
use buildoor_tester.Base.{
  ◌≡◌, sym, ap, ◌∙◌, true, false, Bool-cases, inl, inr, some, List, [], ◌∷◌, ◌++◌, append_assoc,
  String, Outcome, ok, >>=-eq-ok,
}
use buildoor_tester.Export.Submit.{
  Event, ask_balance, write_json, World, SubmitArgs, SubmitResult, recovery_path, start_of,
  recovery_meta, is_below_floor, read_balance,
}
use buildoor_tester.Export.Session.{submit_transactions, aborted, submit_from, guarded}
use buildoor_tester.Export.Histories.{opened_for, runs, funded-history}

same_result :
    {R : Type 0} (x r : R) (u t : List Event)
    → ◌≡◌ {A = Outcome R × List Event} (ok x, u) (ok r, t)
    → x ≡ r
same_result x r u t e = let first : ok x ≡ ok r = ap (λ q. q.0) e in cc first

module _ (W : World) where
  -- A submit that ran with success asked for the seed's balance, then wrote the recovery file, and
  -- only then ran the subprocess, in front of which there is the recording proxy if a file for the
  -- rows is given, and nothing else. The start in the recovery file is the one in the command line of
  -- the subprocess. Here a place for that file is given.
  pub submit-recoverable :
      (a : SubmitArgs) (h : List Event) {s path : String} {r : SubmitResult} {t : List Event}
      → W.address a.seed_key ≡ ok s
      → recovery_path W.recovery_suffix a.meta_path a.csv_path ≡ some path
      → submit_transactions W a h ≡ (ok r, t)
      → r.execute_ok ≡ true
      → let start = start_of a.eoa_start a.randbits in
        (url : String) × (rest : List Event) × (t
          ≡ h
            ++ ask_balance s
              ∷ write_json path (recovery_meta s start a.chain_id a.fork a.rpc_url)
              ∷ (opened_for a.csv_path a.rpc_url ++ runs W a start url ∷ rest))
  unfolding submit_transactions read_balance
  submit-recoverable a h {s} {path} {r} {t} known at e good =
      let e1 : submit_from W a s h ≡ (ok r, t) = rw known at e in
      let (before, u, asked, e2) = >>=-eq-ok (read_balance W s) (guarded W a s) h e1 in
      let same : h ++ ask_balance s ∷ [] ≡ u = ap (λ q. q.1) asked in
      elim (Bool-cases (is_below_floor a.min_seed_balance_wei before)) [
        | inl below ↦
            let is = same_result (aborted W a s before) r u t (rw below at e2) in
            let no : false ≡ true = ap (λ (x : SubmitResult). x.execute_ok) is ∙ good in cc no
        | inr above ↦
            let start = start_of a.eoa_start a.randbits in
            let meta = recovery_meta s start a.chain_id a.fork a.rpc_url in
            let (url, rest, t1) = funded-history W a s start before u at (rw above at e2) in
            let more =
              write_json path meta
              ∷ (opened_for a.csv_path a.rpc_url ++ runs W a start url ∷ rest) in
            (
              url,
              rest,
              t1 ∙ ap (λ l. l ++ more) (sym same) ∙ append_assoc h (ask_balance s ∷ []) more,
            )
      ]
