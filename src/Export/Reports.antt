-- ===== src/Export/Reports.antt =====
-- eest_replay/export.py: what an export that returned has run and reports.
use buildoor_tester.Base.{
  refl, ◌≡◌, ◌≢◌, sym, ap, ◌∙◌, ◌↔◌, Bool, true, Option, none, List, [], ◌∷◌, ◌++◌, map, map-append,
  append_assoc, String, ◌<>◌, pos, length, Outcome, ok, Exec, >>=-eq-ok, continue-eq-ok,
}
use buildoor_tester.Base.Json.{Dict}
use buildoor_tester.Testing.{Testing}
use buildoor_tester.Genesis.Devnet.{build_devnet_genesis}
use buildoor_tester.Process.Events.{Event, make_dir, submits, Host}
use buildoor_tester.Process.CommandLines.{default_image}
use buildoor_tester.Process.Engine.{ElHandles, geth}
use buildoor_tester.Process.Inner.{inner, inner-append, inner-outer}
use buildoor_tester.Process.Inside.{geth-Inside}
use buildoor_tester.Export.Command.{execute_command, ProcessEnd, execute_result}
use buildoor_tester.Export.Rows.{Row, enrich, enrich-length}
use buildoor_tester.Export.Submit.{
  write_json, write_csv, open_proxy, shut_down, server_close, default_prefund_wei, ExportArgs,
  ExportResult,
}
use buildoor_tester.Export.Session.{export_args, captured, finish_export}
use buildoor_tester.Export.Transactions.{
  seed_address, with_client, finished, export_genesis, export_for, export_transactions,
}
use buildoor_tester.Export.Captures.{
  export_outcome_iff, ran_through, captured-eq-ok, finish_export-eq-ok, all_done,
}

module _ (T : Testing) (H : Host T) (address_from_key : String → Outcome String) where
  abbrev client : ExportArgs → ElHandles → Exec (Event T) ((Bool × Option String) × List Row)
  client a = with_client T H address_from_key a

  abbrev genesis_for : ExportArgs → String → Outcome Dict
  genesis_for a s =
      build_devnet_genesis a.fork a.chain_id ((s, default_prefund_wei) ∷ []) (pos 25000000)

  -- What an export that returned `r` has done by the time of `t`, over the history `h`: with the client
  -- at a URL it ran one subprocess through the proxy, with the command line of its arguments; the rows
  -- are those of all that was recorded behind it, and they are what the CSV file holds that was written
  -- after everything but the description of the export. The result counts them, and is a success if the
  -- subprocess succeeded and there is a row, only then. Apart from what the context of the client does,
  -- `once` lists all that the export did.
  pub record Exported (a : ExportArgs) (r : ExportResult) (h t : List (Event T)) : Type 0 where
    pub before : List (Event T)
    pub url : String
    pub auth_url : String
    pub jwt_path : String
    pub proxy : String
    pub cmd : List String
    pub end : ProcessEnd
    pub rows : List Row
    pub between : List (Event T)
    pub meta : Dict
    pub genesis : Dict
    pub given : cmd ≡ execute_command (export_args (H.world before url) a proxy auth_url jwt_path)
    pub ended : (H.world before url).process (open_proxy url ∷ []) ≡ ok end
    pub enriched :
        let W = H.world before url in
        enrich W.digest W.rpc 0 (W.snapshot (ran_through url cmd end)) ≡ ok rows
    pub counted : r.tx_count ≡ length ((H.world before url).snapshot (ran_through url cmd end))
    pub good :
        (r.execute_ok ≡ true)
        ↔ (((execute_result a.tx_wait_timeout end).0 ≡ true) × (r.tx_count ≢ 0))
    pub listed :
        t
        ≡ before
          ++ (map submits (ran_through url cmd end)
              ++ (between
                  ++ submits (write_csv r.csv_path rows)
                    ∷ submits (write_json r.meta_path meta)
                    ∷ []))
    pub once :
        inner T t
        ≡ inner T h
          ++ submits (write_json (a.output_dir <> "/genesis.json") genesis)
            ∷ (map submits (ran_through url cmd end ++ shut_down ∷ server_close ∷ [])
                ++ submits (write_csv r.csv_path rows) ∷ submits (write_json r.meta_path meta) ∷ [])

  export_genesis-Exported :
      (a : ExportArgs) (s : String) (genesis : Dict) (h0 h : List (Event T)) {r : ExportResult}
      {t : List (Event T)}
      → inner T h ≡ inner T h0
      → export_genesis T H address_from_key a s genesis h ≡ (ok r, t)
      → Exported a r h0 t
  export_genesis-Exported a s genesis h0 h {r} {t} same e =
      let h1 = h ++ submits (write_json (a.output_dir <> "/genesis.json") genesis) ∷ [] in
      let ((ran, rows), v, booted, wrote) =
        >>=-eq-ok (geth T H genesis a.work_dir default_image none (client a))
          (finished T H address_from_key a s) h1 e in
      let (handles, (u, w, post, inside, closed, outer, quiet)) =
        geth-Inside T H genesis a.work_dir default_image none (client a) h1 booted in
      let url = handles.rpc_url in
      let W = H.world u url in
      let run = captured W a (url, handles.auth_url, handles.jwt_secret_path) [] in
      let (proxy, end, (ended, result, found), at) =
        captured-eq-ok W a url handles.auth_url handles.jwt_secret_path {x = (ran, rows)}
          {t = run.1} (λ i. ((inside i).0, run.1)) in
      let cmd = execute_command (export_args W a proxy handles.auth_url handles.jwt_secret_path) in
      let done = finish_export a s ran rows [] in
      let (counted, reported, meta, files) =
        finish_export-eq-ok a s ran rows {t = done.1} (λ i. ((wrote i).0, done.1)) in
      let as_many = enrich-length W.digest W.rpc (W.snapshot (ran_through url cmd end)) 0 found in
      let iff = export_outcome_iff ran rows in
      let first = write_json (a.output_dir <> "/genesis.json") genesis in
      let done_inside = ran_through url cmd end ++ shut_down ∷ server_close ∷ [] in
      let last = write_csv r.csv_path rows ∷ write_json r.meta_path meta ∷ [] in
      let history : t ≡ ((u ++ map submits done_inside) ++ post) ++ map submits last =
        sym (ap (λ q. q.1) wrote)
        ∙ ap (λ l. v ++ map submits l) files
        ∙ ap (λ l. l ++ map submits last)
            (closed
              ∙ ap (λ l. l ++ post)
                  (sym (ap (λ q. q.1) inside) ∙ ap (λ l. u ++ map submits l) at)) in
      record {
        before = u;
        url = url;
        auth_url = handles.auth_url;
        jwt_path = handles.jwt_secret_path;
        proxy = proxy;
        cmd = cmd;
        given = refl;
        end = end;
        rows = rows;
        between = map submits (shut_down ∷ server_close ∷ []) ++ post;
        meta = meta;
        genesis = genesis;
        ended = ended;
        enriched = found;
        counted = counted ∙ as_many;
        good = (
          λ b.
              let (k, z) = iff.0 (sym reported ∙ b) in
              (ap (λ q. q.0) (sym result) ∙ k, λ y. z (sym counted ∙ y)),
          λ b. reported ∙ iff.1 (ap (λ q. q.0) result ∙ b.0, λ y. b.1 (counted ∙ y)),
        );
        listed = history ∙ simp (append_assoc, map-append);
        once =
            all_done T h0 u post done_inside last first
              (outer ∙ inner-append T h _ ∙ ap (λ l. l ++ inner T (submits first ∷ [])) same) quiet
              history;
      }

  pub export_transactions-reports :
      (a : ExportArgs) (h : List (Event T)) {r : ExportResult} {t : List (Event T)}
      → export_transactions T H address_from_key a h ≡ (ok r, t)
      → Exported a r h t
  unfolding export_transactions
  export_transactions-reports a h e =
      let h1 = (h ++ make_dir a.output_dir ∷ []) ++ make_dir a.work_dir ∷ [] in
      let (s, _, e1) =
        continue-eq-ok (seed_address T H address_from_key a.seed_addr a.seed_key)
          (export_for T H address_from_key a) h1 e in
      let (genesis, _, e2) =
        continue-eq-ok (genesis_for a s) (export_genesis T H address_from_key a s) h1 e1 in
      let made : inner T h1 ≡ inner T h =
        inner-outer T (h ++ make_dir a.output_dir ∷ []) (make_dir a.work_dir ∷ [])
          (unfold inner in refl)
        ∙ inner-outer T h (make_dir a.output_dir ∷ []) (unfold inner in refl) in
      export_genesis-Exported a s genesis h h1 made e2
