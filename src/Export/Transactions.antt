-- ===== src/Export/Transactions.antt =====
-- eest_replay/export.py: `export_transactions`, with the client that it boots.
use buildoor_tester.Base.{
  Bool, Option, none, some, List, [], ◌∷◌, String, ◌<>◌, pos, Outcome, ok, Exec, lift, ◌>>=◌, ◌>>◌,
}
use buildoor_tester.Base.Json.{Dict}
use buildoor_tester.Testing.{Testing}
use buildoor_tester.Genesis.Devnet.{build_devnet_genesis}
use buildoor_tester.Process.Events.{Event, make_dir, submits, Host, note}
use buildoor_tester.Process.CommandLines.{default_image}
use buildoor_tester.Process.Engine.{ElHandles, geth}
use buildoor_tester.Process.Hosted.{embedded, hosted}
use buildoor_tester.Export.Rows.{Row}
use buildoor_tester.Export.Submit.{write_json, default_prefund_wei, ExportArgs, ExportResult}
use buildoor_tester.Export.Session.{captured, finish_export}

module _ (T : Testing) (H : Host T) (address_from_key : String → Outcome String) where
  abbrev pub seed_address : Option String → String → Outcome String
  seed_address (some a) key = ok a
  seed_address none key = address_from_key key

  -- The code under `with geth`.
  abbrev pub with_client :
      ExportArgs → ElHandles → Exec (Event T) ((Bool × Option String) × List Row)
  with_client a e =
      hosted T H e.rpc_url (λ W. captured W a (e.rpc_url, e.auth_url, e.jwt_secret_path))

  abbrev pub finished :
      ExportArgs → String → (Bool × Option String) × List Row → Exec (Event T) ExportResult
  finished a seed_addr (ran, rows) = embedded T (finish_export a seed_addr ran rows)

  abbrev pub export_genesis : ExportArgs → String → Dict → Exec (Event T) ExportResult
  export_genesis a seed_addr genesis =
      note T H (submits (write_json (a.output_dir <> "/genesis.json") genesis))
      >> (geth T H genesis a.work_dir default_image none (with_client a) >>= finished a seed_addr)

  abbrev pub export_for : ExportArgs → String → Exec (Event T) ExportResult
  export_for a seed_addr =
      lift (
        build_devnet_genesis a.fork a.chain_id ((seed_addr, default_prefund_wei) ∷ [])
          (pos 25000000))
      >>= export_genesis a seed_addr

  unfoldable pub export_transactions : ExportArgs → Exec (Event T) ExportResult
  unfolding captured finish_export geth build_devnet_genesis
  export_transactions a =
      note T H (make_dir a.output_dir)
      >> note T H (make_dir a.work_dir)
      >> (lift (seed_address a.seed_addr a.seed_key) >>= export_for a)
