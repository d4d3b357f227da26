-- ===== src/Process/CommandLines.antt =====
-- eest_replay/el.py and buildoor_client.py: the command lines of the processes.
use buildoor_tester.Base.{ℕ, List, [], ◌∷◌, String, ◌<>◌, ℤ, pos}
use buildoor_tester.Base.Numeral.{decimal}

abbrev pub default_image : String
default_image = "ethpandaops/geth:bal-devnet-2"

unfoldable pub init_command : String → String → List String
init_command work_dir image =
    "docker"
    ∷ "run"
    ∷ "--rm"
    ∷ "-v"
    ∷ (work_dir <> ":/work")
    ∷ image
    ∷ "init"
    ∷ "--datadir"
    ∷ "/work/datadir"
    ∷ "/work/genesis.json"
    ∷ []

unfoldable pub geth_command : String → String → String → ℕ → ℕ → List String
geth_command work_dir image name rpc_port auth_port =
    "docker"
    ∷ "run"
    ∷ "--rm"
    ∷ "--name"
    ∷ name
    ∷ "-p"
    ∷ (decimal (pos rpc_port) <> ":8545")
    ∷ "-p"
    ∷ (decimal (pos auth_port) <> ":8551")
    ∷ "-v"
    ∷ (work_dir <> ":/work")
    ∷ image
    ∷ "--datadir"
    ∷ "/work/datadir"
    ∷ "--http"
    ∷ "--http.addr"
    ∷ "0.0.0.0"
    ∷ "--http.port"
    ∷ "8545"
    ∷ "--http.api"
    ∷ "eth,net,web3,debug,txpool,engine"
    ∷ "--http.vhosts"
    ∷ "*"
    ∷ "--authrpc.addr"
    ∷ "0.0.0.0"
    ∷ "--authrpc.port"
    ∷ "8551"
    ∷ "--authrpc.vhosts"
    ∷ "*"
    ∷ "--authrpc.jwtsecret"
    ∷ "/work/jwt.hex"
    ∷ "--nodiscover"
    ∷ "--syncmode"
    ∷ "full"
    ∷ "--maxpeers"
    ∷ "0"
    ∷ "--txpool.pricelimit"
    ∷ "1"
    ∷ "--miner.gasprice"
    ∷ "1"
    ∷ "--gpo.ignoreprice"
    ∷ "1"
    ∷ "--miner.extradata"
    ∷ "0x"
    ∷ "--datadir.minfreedisk"
    ∷ "0"
    ∷ "--rpc.allow-unprotected-txs"
    ∷ []

unfoldable pub geth_dev_command : String → String → String → ℕ → ℤ → ℕ → ℕ → List String
geth_dev_command datadir image name rpc_port chain_id dev_period dev_gaslimit =
    "docker"
    ∷ "run"
    ∷ "--rm"
    ∷ "--name"
    ∷ name
    ∷ "-p"
    ∷ (decimal (pos rpc_port) <> ":8545")
    ∷ "-v"
    ∷ (datadir <> ":/data")
    ∷ image
    ∷ "--datadir"
    ∷ "/data"
    ∷ "--db.engine"
    ∷ "pebble"
    ∷ "--networkid"
    ∷ decimal chain_id
    ∷ "--dev"
    ∷ "--dev.period"
    ∷ decimal (pos dev_period)
    ∷ "--dev.gaslimit"
    ∷ decimal (pos dev_gaslimit)
    ∷ "--http"
    ∷ "--http.addr"
    ∷ "0.0.0.0"
    ∷ "--http.port"
    ∷ "8545"
    ∷ "--http.api"
    ∷ "eth,net,web3,txpool,debug"
    ∷ "--http.vhosts"
    ∷ "*"
    ∷ "--rpc.allow-unprotected-txs"
    ∷ "--datadir.minfreedisk"
    ∷ "0"
    ∷ []

unfoldable pub simbuild_command : String → String → String → ℕ → ℕ → List String
simbuild_command binary el_engine_url jwt_secret_path port build_wait_ms =
    binary
    ∷ "simbuild"
    ∷ "--el-engine-api"
    ∷ el_engine_url
    ∷ "--el-jwt-secret"
    ∷ jwt_secret_path
    ∷ "--listen-addr"
    ∷ (":" <> decimal (pos port))
    ∷ "--simbuild-build-wait-ms"
    ∷ decimal (pos build_wait_ms)
    ∷ "--log-level"
    ∷ "info"
    ∷ []
