-- ===== src/Process/Engine.antt =====
-- eest_replay/el.py and buildoor_client.py: `geth`, `geth_dev_datadir` and `buildoor_simbuild`. The
-- code under a `with` is the function `body`. The log files of the processes are left out.
use buildoor_tester.Base.{
  ℕ, Option, none, some, List, [], ◌∷◌, ◌++◌, String, ◌<>◌, ℤ, pos, Outcome, ok, raised, Exc, Exec,
  file_not_found, call, ensuring, ◌>>◌, if◌then◌else◌,
}
use buildoor_tester.Base.Numeral.{decimal}
use buildoor_tester.Base.Json.{Dict}
use buildoor_tester.Testing.{Testing}
use buildoor_tester.Process.Poll.{wait_until_ready}
use buildoor_tester.Process.Events.{
  Event, write_genesis, write_jwt, make_dir, init_datadir, ask_ready, nap, Host, note, spawn,
  request_stop, reap,
}
use buildoor_tester.Process.Running.{Process, container, builder}
use buildoor_tester.Process.CommandLines.{
  init_command, geth_command, geth_dev_command, simbuild_command,
}

pub record ElHandles : Type 0 where
  pub container : String
  pub rpc_url : String
  pub auth_url : String
  pub jwt_secret_path : String
  pub data_dir : String

abbrev pub local_url : ℕ → String
local_url port = "http://127.0.0.1:" <> decimal (pos port)

-- `container_name or f"…"`, where the name is not empty.
abbrev pub name_or : String → Option String → String
name_or drawn none = drawn
name_or drawn (some name) = name

module _ (T : Testing) (H : Host T) where
  -- Both waits sleep behind an exception only.
  abbrev pub rest_of_round : Outcome ℕ → List (Event T)
  rest_of_round (ok status) = []
  rest_of_round (raised e) = nap 250 ∷ []

  abbrev pub rpc_message : String → Option Exc → String
  rpc_message rpc_url last =
      "EL at " <> (rpc_url <> (" did not become ready within 30.0s: " <> H.show last))

  unfoldable pub wait_for_rpc : String → Exec (Event T) (Unit {0})
  wait_for_rpc rpc_url =
      wait_until_ready (ask_ready rpc_url) rest_of_round H.now H.on_ask (rpc_message rpc_url) 30000

  abbrev pub health_message : String → Option Exc → String
  health_message base_url last =
      "buildoor simbuild at " <> (base_url <> (" not ready in 15.0s: " <> H.show last))

  unfoldable pub wait_for_health : String → Exec (Event T) (Unit {0})
  wait_for_health base_url =
      wait_until_ready (ask_ready (base_url <> "/healthz")) rest_of_round H.now H.on_ask
        (health_message base_url) 15000

  -- The `try` of each of the three: a wait and the body, and then the stop of the process.
  unfoldable pub while_running :
      {A : Type 0} → Process → ℕ → Exec (Event T) (Unit {0}) → Exec (Event T) A → Exec (Event T) A
  unfolding reap
  while_running p seconds wait body =
      ensuring (wait >> body) (request_stop T H p >> reap T H p seconds)

  -- Behind the files: the datadir is made, and the client is booted.
  abbrev pub boot_geth :
      {A : Type 0}
      → String
      → String
      → String
      → ℕ
      → ℕ
      → (ElHandles → Exec (Event T) A)
      → Exec (Event T) A
  boot_geth work_dir image name rpc_port auth_port body =
      call H.on_init (init_datadir (init_command work_dir image))
      >> (spawn T H (container name) (geth_command work_dir image name rpc_port auth_port)
          >> while_running (container name) 10 (wait_for_rpc (local_url rpc_port)) (
              body record {
                container = name;
                rpc_url = local_url rpc_port;
                auth_url = local_url auth_port;
                jwt_secret_path = work_dir <> "/jwt.hex";
                data_dir = work_dir <> "/datadir";
              }))

  -- The history behind the files of `geth`.
  abbrev pub files_written : List (Event T) → String → Dict → List (Event T)
  files_written h work_dir genesis =
      (((h ++ make_dir work_dir ∷ []) ++ write_genesis (work_dir <> "/genesis.json") genesis ∷ [])
        ++ write_jwt (work_dir <> "/jwt.hex") ∷ [])
      ++ make_dir (work_dir <> "/datadir") ∷ []

  unfoldable pub geth :
      {A : Type 0}
      → Dict
      → String
      → String
      → Option String
      → (ElHandles → Exec (Event T) A)
      → Exec (Event T) A
  unfolding while_running
  geth genesis work_dir image container_name body =
      note T H (make_dir work_dir)
      >> note T H (write_genesis (work_dir <> "/genesis.json") genesis)
      >> note T H (write_jwt (work_dir <> "/jwt.hex"))
      >> note T H (make_dir (work_dir <> "/datadir"))
      >> λ h.
          boot_geth work_dir image (name_or ("eest-replay-" <> H.token_hex h) container_name)
            (H.free_port h 0) (H.free_port h 1) body h

  unfoldable pub geth_dev_datadir :
      {A : Type 0}
      → String
      → ℤ
      → String
      → Option String
      → (String → Exec (Event T) A)
      → Exec (Event T) A
  unfolding while_running
  geth_dev_datadir datadir chain_id image container_name body h =
      let dir = H.resolve datadir in
      let rpc_port = H.free_port h 0 in
      let name = name_or ("eest-bloat-" <> H.token_hex h) container_name in
      let missing = file_not_found (
        dir
        <> " does not contain geth/chaindata — point --datadir at the directory state-actor wrote (the parent of geth/chaindata).") in
      let run =
        (spawn T H (container name) (geth_dev_command dir image name rpc_port chain_id 1 60000000)
            >> while_running (container name) 10 (wait_for_rpc (local_url rpc_port))
                (body (local_url rpc_port)))
          h in
      if H.has_chaindata h dir then run else (raised missing, h)

  unfoldable pub buildoor_simbuild :
      {A : Type 0} → String → String → String → ℕ → (String → Exec (Event T) A) → Exec (Event T) A
  unfolding while_running
  buildoor_simbuild binary el_engine_url jwt_secret_path build_wait_ms body h =
      let port = H.free_port h 0 in
      (spawn T H builder (simbuild_command binary el_engine_url jwt_secret_path port build_wait_ms)
          >> while_running builder 5 (wait_for_health (local_url port)) (body (local_url port)))
        h
