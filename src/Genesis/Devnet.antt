-- ===== src/Genesis/Devnet.antt =====
-- eest_replay/devnet_genesis.py: a genesis that activates the forks up to a given one.
use buildoor_tester.Base.{
  ℕ, suc, Bool, ◌&&◌, Option, none, some, List, [], ◌∷◌, String, ◌<>◌, starts_with, ℤ, pos, ltb_ℤ,
  leb_ℤ, Outcome, ok, raised, value_error, if◌then◌else◌,
}
use buildoor_tester.Base.Numeral.{hex}
use buildoor_tester.Base.Json.{Json, num, str, obj, Dict, empty, entry, get, put}
use buildoor_tester.Genesis.Forks.{timestamp_forks, base_config, blob_schedule, lower, fork_index}

abbrev zero_hash : String
zero_hash = "0x0000000000000000000000000000000000000000000000000000000000000000"

abbrev pub with_schedule : Option Json → String → Dict → Dict
with_schedule none name blobs = blobs
with_schedule (some params) name blobs = put name params blobs

-- The loop over the forks, left behind the target: the configuration and the blob schedule.
unfoldable pub activate : ℤ → ℕ → List (String × String) → Dict → Dict → Dict × Dict
activate target i [] config blobs = (config, blobs)
activate target i ((key, name) ∷ fs) config blobs =
    let rest =
      activate target (suc i) fs (put key (num (pos 0)) config)
        (with_schedule (get (lower name) blob_schedule) (lower name) blobs) in
    if ltb_ℤ target (pos i) then (config, blobs) else rest

abbrev pub put_schedule : Dict → Dict → Dict
put_schedule empty config = config
put_schedule (entry k v d) config = put "blobSchedule" (obj (entry k v d)) config

unfoldable pub config_of : ℤ → ℤ → Dict
unfolding activate
config_of target chain_id =
    let (config, blobs) = activate target 0 timestamp_forks (base_config chain_id) empty in
    put_schedule blobs config

-- `_norm`.
unfoldable pub norm : String → String
norm addr = if starts_with addr "0x" then addr else "0x" <> addr

-- The comprehension over `prefunded.items()`: a key that comes twice keeps its last value.
unfoldable pub alloc_of : List (String × ℤ) → Dict → Dict
unfolding norm
alloc_of [] alloc = alloc
alloc_of ((addr, bal) ∷ ps) alloc =
    alloc_of ps (put (norm addr) (obj (entry "balance" (str (hex bal)) empty)) alloc)

abbrev pub header : Dict → Dict → ℤ → Dict
header config alloc gas_limit = entry "config" (obj config) (
    entry "nonce" (str "0x0") (
      entry "timestamp" (str "0x0") (
        entry "extraData" (str "0x") (
          entry "gasLimit" (str (hex gas_limit)) (
            entry "difficulty" (str "0x0") (
              entry "mixHash" (str zero_hash) (
                entry "coinbase" (str "0x0000000000000000000000000000000000000000") (
                  entry "alloc" (obj alloc) (
                    entry "baseFeePerGas" (str "0x7") (
                      entry "blobGasUsed" (str "0x0") (
                        entry "excessBlobGas" (str "0x0")
                          (entry "parentBeaconBlockRoot" (str zero_hash) empty))))))))))))

-- The fields that the header has from Amsterdam on.
abbrev pub amsterdam_fields : Dict → Dict
amsterdam_fields g = put "slotNumber" (str "0x0") (
    put "blockAccessListHash"
      (str "0x1dcc4de8dec75d7aab85b567b6ccd41ad312451b948a7413f0a142fd40d49347")
      (put "requestsHash" (str "0xe3b0c44298fc1c149afbf4c8996fb92427ae41e4649b934ca495991b7852b855")
        (put "withdrawalsRoot"
          (str "0x56e81f171bcc55a6ff8345e692c0f86e5b48e01b996cadc001622fb5e363b421") g)))

abbrev pub is_amsterdam : ℤ → Bool
is_amsterdam target =
    let amsterdam = fork_index "Amsterdam" in leb_ℤ (pos 0) amsterdam && leb_ℤ amsterdam target

unfoldable pub genesis_of : ℤ → ℤ → List (String × ℤ) → ℤ → Dict
unfolding config_of alloc_of
genesis_of target chain_id prefunded gas_limit =
    let g = header (config_of target chain_id) (alloc_of prefunded empty) gas_limit in
    if is_amsterdam target then amsterdam_fields g else g

-- The names of the forks in the message are left out.
unfoldable pub build_devnet_genesis : String → ℤ → List (String × ℤ) → ℤ → Outcome Dict
unfolding genesis_of fork_index
build_devnet_genesis fork chain_id prefunded gas_limit =
    let target = fork_index fork in
    if ltb_ℤ target (pos 0)
    then raised (value_error ("unknown or pre-merge fork " <> fork))
    else ok (genesis_of target chain_id prefunded gas_limit)
