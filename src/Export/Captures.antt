-- ===== src/Export/Captures.antt =====
-- eest_replay/export.py: the parts of an export: its subprocess behind the proxy, and its files.
use buildoor_tester.Base.{
  ◌≡◌, ◌≢◌, sym, ap, ◌∙◌, ◌↔◌, Bool, true, false, Option, none, some, List, [], ◌∷◌, ◌++◌, map,
  append_assoc, String, length, arith, ok, Exec, pure, ◌>>=◌, >>=-eq-ok, continue-eq-ok,
}
use buildoor_tester.Base.Json.{Dict}
use buildoor_tester.Testing.{Testing}
use buildoor_tester.Process.Events.{Event, submits}
use buildoor_tester.Process.Inner.{inner, inner-append, inner-outer, inner-submits}
use buildoor_tester.Export.Command.{execute_command, ProcessEnd, execute_result}
use buildoor_tester.Export.Rows.{Row, enrich}
use buildoor_tester.Export.Submit.{
  write_json, write_csv, open_proxy, shut_down, server_close, execute, World, default_prefund_wei,
  ExportArgs, ExportResult, export_outcome, run_execute, recorded, enriched,
}
use buildoor_tester.Export.Submit
use buildoor_tester.Export.Session.{
  export_args, export_meta, export_result, rows_behind, captured, finish_export,
}
use buildoor_tester.Export.Histories.{settled_by, run_execute-eq-ok, recording_proxy-eq-ok}

-- The run is reported as good if it was, and if there is a row.
pub export_outcome_iff :
    (ran : Bool × Option String) (rows : List Row)
    → ((export_outcome ran rows).0 ≡ true) ↔ ((ran.0 ≡ true) × (length rows ≢ 0))
unfolding export_outcome
export_outcome_iff (true, none) [] = ground arith
export_outcome_iff (true, some e) [] = ground arith
export_outcome_iff (false, e) [] = ground arith
export_outcome_iff (b, e) (x ∷ rows) = ground arith

-- What is done to the client at a URL: the proxy is started, the subprocess is run through it.
abbrev pub ran_through : String → List String → ProcessEnd → List Submit.Event
ran_through url cmd end = open_proxy url ∷ execute cmd ∷ settled_by end

-- How the subprocess of a capture has ended, with which command, and the rows of what was recorded.
abbrev pub Captured :
    World
    → ExportArgs
    → String
    → List String
    → ProcessEnd
    → Bool × Option String
    → List Row
    → Type 0
Captured W a url cmd end ran rows =
    (W.process (open_proxy url ∷ []) ≡ ok end)
    × (ran ≡ execute_result a.tx_wait_timeout end)
    × (enrich W.digest W.rpc 0 (W.snapshot (ran_through url cmd end)) ≡ ok rows)

module _ (W : World) where
  pub captured-eq-ok :
      (a : ExportArgs) (url auth jwt : String) {x : (Bool × Option String) × List Row}
      {t : List Submit.Event}
      → captured W a (url, auth, jwt) [] ≡ (ok x, t)
      → (proxy : String) × (end : ProcessEnd) × Captured W a url
          (execute_command (export_args W a proxy auth jwt))
          end
          x.0
          x.1
        × (t
            ≡ ran_through url (execute_command (export_args W a proxy auth jwt)) end
              ++ shut_down ∷ server_close ∷ [])
  unfolding captured
  captured-eq-ok a url auth jwt {x} e =
      let through : String → Exec Submit.Event ((Bool × Option String) × List Row) =
        λ proxy. run_execute W (export_args W a proxy auth jwt) >>= rows_behind W in
      let (proxy, v, inside, closed) = recording_proxy-eq-ok W url through [] e in
      let args = export_args W a proxy auth jwt in
      let (ran, u, first, rest) =
        >>=-eq-ok (run_execute W args) (rows_behind W) (open_proxy url ∷ []) inside in
      let (end, ended, result, at) = run_execute-eq-ok W args (open_proxy url ∷ []) first in
      let (rows, found, done) =
        continue-eq-ok (enrich W.digest W.rpc 0 (W.snapshot u)) (λ rows. pure (ran, rows)) u rest in
      let is : ok (ran, rows) ≡ ok x = ap (λ q. q.0) done in
      let same : (ran, rows) ≡ x = cc is in
      (
        proxy,
        end,
        (
          ended,
          sym (ap (λ q. q.0) same) ∙ result,
          ap (λ l. enrich W.digest W.rpc 0 (W.snapshot l)) (sym at) ∙ found ∙ ap (λ q. ok q.1) same,
        ),
        closed ∙ ap (λ l. l ++ shut_down ∷ server_close ∷ []) (sym (ap (λ q. q.1) done) ∙ at),
      )

pub finish_export-eq-ok :
    (a : ExportArgs) (s : String) (ran : Bool × Option String) (rows : List Row) {r : ExportResult}
    {t : List Submit.Event}
    → finish_export a s ran rows [] ≡ (ok r, t)
    → (r.tx_count ≡ length rows)
      × (r.execute_ok ≡ (export_outcome ran rows).0)
      × (meta : Dict) × (t ≡ write_csv r.csv_path rows ∷ write_json r.meta_path meta ∷ [])
unfolding finish_export
finish_export-eq-ok a s ran rows {r} e =
    let reported = export_outcome ran rows in
    let first : ok (export_result a reported rows) ≡ ok r = ap (λ q. q.0) e in
    let is : export_result a reported rows ≡ r = cc first in
    let meta = export_meta a s (length rows) reported in
    (
      sym (ap (λ (x : ExportResult). x.tx_count) is),
      sym (ap (λ (x : ExportResult). x.execute_ok) is),
      meta,
      sym (ap (λ q. q.1) e)
          ∙ ap (λ (x : ExportResult). write_csv x.csv_path rows ∷ write_json x.meta_path meta ∷ [])
              is,
    )

module _ (T : Testing) where
  pub all_done :
      (h u post : List (Event T)) (done last : List Submit.Event) (first : Submit.Event)
      {t : List (Event T)}
      → inner T u ≡ inner T h ++ inner T (submits first ∷ [])
      → inner T post ≡ []
      → t ≡ ((u ++ map submits done) ++ post) ++ map submits last
      → inner T t ≡ inner T h ++ submits first ∷ (map submits done ++ map submits last)
  unfolding inner
  all_done h u post done last first outer quiet history =
      ap (inner T) history
      ∙ inner-append T ((u ++ map submits done) ++ post) (map submits last)
      ∙ ap (λ l. l ++ inner T (map submits last))
          (inner-outer T (u ++ map submits done) post quiet
            ∙ inner-append T u (map submits done)
            ∙ ap (λ l. l ++ inner T (map submits done)) outer)
      ∙ ap (λ l. ((inner T h ++ submits first ∷ []) ++ l) ++ inner T (map submits last))
          (inner-submits T done)
      ∙ ap (λ l. ((inner T h ++ submits first ∷ []) ++ map submits done) ++ l)
          (inner-submits T last)
      ∙ append_assoc (inner T h ++ submits first ∷ []) (map submits done) (map submits last)
      ∙ append_assoc (inner T h) (submits first ∷ []) (map submits done ++ map submits last)
