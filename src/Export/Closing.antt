-- ===== src/Export/Closing.antt =====
-- eest_replay/export.py: an export stops what it starts.
use buildoor_tester.Base.{
  ◌≡◌, ◌∙◌, Bool, Option, none, List, [], ◌∷◌, ◌++◌, append_assoc, String, ◌<>◌, pos, Outcome, Exec,
}
use buildoor_tester.Base.Json.{Dict}
use buildoor_tester.Testing.{Testing}
use buildoor_tester.Genesis.Devnet.{build_devnet_genesis}
use buildoor_tester.Process.Running.{live, Balanced, Keeps, Keeps-continue, Keeps->>=}
use buildoor_tester.Process.Events.{Event, make_dir, submits, Host}
use buildoor_tester.Process.Balance.{step}
use buildoor_tester.Process.CommandLines.{default_image}
use buildoor_tester.Process.Engine.{ElHandles, geth}
use buildoor_tester.Process.Hosted.{embedded-Keeps, hosted-Keeps}
use buildoor_tester.Process.Stops.{geth-Keeps}
use buildoor_tester.Export.Rows.{Row}
use buildoor_tester.Export.Submit.{write_json, default_prefund_wei, ExportArgs}
use buildoor_tester.Export.Session.{captured, finish_export}
use buildoor_tester.Export.Stops.{captured-Keeps, finish_export-Keeps}
use buildoor_tester.Export.Transactions.{
  seed_address, with_client, finished, export_genesis, export_for, export_transactions,
}

module _ (T : Testing) (H : Host T) (address_from_key : String → Outcome String) where
  abbrev client : ExportArgs → ElHandles → Exec (Event T) ((Bool × Option String) × List Row)
  client a = with_client T H address_from_key a

  finished-Keeps :
      (a : ExportArgs) (s : String) (x : (Bool × Option String) × List Row)
      → Keeps (step T) (finished T H address_from_key a s x)
  finished-Keeps a s (ran, rows) =
      embedded-Keeps T (finish_export a s ran rows) (finish_export-Keeps a s ran rows)

  abbrev genesis_for : ExportArgs → String → Outcome Dict
  genesis_for a s =
      build_devnet_genesis a.fork a.chain_id ((s, default_prefund_wei) ∷ []) (pos 25000000)

  export_genesis-Keeps :
      (a : ExportArgs) (s : String) (genesis : Dict)
      → Keeps (step T) (export_genesis T H address_from_key a s genesis)
  export_genesis-Keeps a s genesis h =
      let written = submits (write_json (a.output_dir <> "/genesis.json") genesis) in
      let (xs, even, at) =
        Keeps->>= (step T) (geth T H genesis a.work_dir default_image none (client a))
          (finished T H address_from_key a s)
          (geth-Keeps T H genesis a.work_dir default_image none (client a) (λ e.
            hosted-Keeps T H e.rpc_url
              (λ W. captured W a (e.rpc_url, e.auth_url, e.jwt_secret_path))
              (λ W. captured-Keeps W a (e.rpc_url, e.auth_url, e.jwt_secret_path))))
          (finished-Keeps a s) (h ++ written ∷ []) in
      (written ∷ xs, (λ s. unfold live in even s), at ∙ append_assoc h (written ∷ []) xs)

  export_for-Keeps :
      (a : ExportArgs) (s : String) → Keeps (step T) (export_for T H address_from_key a s)
  export_for-Keeps a s =
      Keeps-continue (step T) (export_genesis T H address_from_key a s) (export_genesis-Keeps a s)
        (genesis_for a s)

  -- However an export ends, by a result or by an exception of any of its calls: the client's container
  -- and the proxy's server that it started it also asked to stop, and the subprocess of `_run_execute`
  -- has ended within its time or its process group was killed, the last one first.
  pub export_transactions-Balanced :
      (a : ExportArgs) (h : List (Event T))
      → (xs : List (Event T)) × Balanced (step T) xs
        × ((export_transactions T H address_from_key a h).1 ≡ h ++ xs)
  unfolding export_transactions
  export_transactions-Balanced a h =
      let (xs, even, at) =
        Keeps-continue (step T) (export_for T H address_from_key a) (export_for-Keeps a)
          (seed_address T H address_from_key a.seed_addr a.seed_key)
          ((h ++ make_dir a.output_dir ∷ []) ++ make_dir a.work_dir ∷ []) in
      (
        make_dir a.output_dir ∷ make_dir a.work_dir ∷ xs,
        (λ s. unfold live in even s),
        at ∙ simp append_assoc,
      )
