-- ===== src/Genesis/Chainspec.antt =====
-- eest_replay/chainspec.py: the genesis of a fixture.
use buildoor_tester.Base.{
  zero, suc, Bool, true, false, Option, none, some, List, [], ◌∷◌, String, ◌<>◌, starts_with,
  str_eq, ℤ, pos, negsuc, if◌then◌else◌,
}
use buildoor_tester.Base.Numeral.{hex}
use buildoor_tester.Base.Json.{num, str, obj, Dict, empty, entry, put}
use buildoor_tester.Testing.{Testing}
use buildoor_tester.Genesis.Forks.{timestamp_forks, base_config, lower}

-- The loop over the forks: each is activated, and the loop is left behind the target.
unfoldable pub enable : String → List (String × String) → Dict → Dict
enable target [] config = config
enable target ((key, name) ∷ fs) config =
    let config' = put key (num (pos 0)) config in
    let rest = enable target fs config' in if str_eq name target then config' else rest

-- A fork's entry in the blob schedule: the target, the maximum and the update fraction.
pub record BlobEntry : Type 0 where
  pub fork : String
  pub target_blobs_per_block : ℤ
  pub max_blobs_per_block : ℤ
  pub base_fee_update_fraction : ℤ

unfoldable pub schedule_of : List BlobEntry → Dict → Dict
schedule_of [] d = d
schedule_of (b ∷ bs) d = schedule_of bs (
    put (lower b.fork)
      (obj (
        entry "target" (num b.target_blobs_per_block) (
          entry "max" (num b.max_blobs_per_block)
            (entry "baseFeeUpdateFraction" (num b.base_fee_update_fraction) empty))))
      d)

abbrev pub with_blobs : Option (List BlobEntry) → Dict → Dict
with_blobs none config = config
with_blobs (some bs) config = put "blobSchedule" (obj (schedule_of bs empty)) config

unfoldable pub config_of : String → ℤ → Option (List BlobEntry) → Dict
unfolding enable schedule_of
config_of fork chain_id schedule =
    with_blobs schedule (enable fork timestamp_forks (base_config chain_id))

module _ (T : Testing) where
  open T use {Value, is_none, as_int, text}

  abbrev prefixed : String → String
  prefixed s = if starts_with s "0x" then s else "0x" <> s

  abbrev hex_known : Value → Option ℤ → String
  hex_known v none = prefixed (text v)
  hex_known v (some n) = hex n

  -- `_hex`.
  unfoldable pub hex_value : Value → String
  hex_value v = if is_none v then "0x0" else hex_known v (as_int v)

  -- `_addr`.
  unfoldable pub addr_text : Value → String
  addr_text v = prefixed (text v)

  -- An account of the fixture: `int(nonce)` beside the nonce, and whether there is any code.
  pub record Account : Type 0 where
    pub balance : Value
    pub nonce : Value
    pub nonce_number : ℤ
    pub code : Value
    pub has_code : Bool
    pub storage : List (Value × Value)

  abbrev pub storage_of : List (Value × Value) → Dict → Dict
  storage_of [] d = d
  storage_of ((k, v) ∷ s) d = storage_of s (put (hex_value k) (str (hex_value v)) d)

  abbrev pub is_zero : ℤ → Bool
  is_zero (pos zero) = true
  is_zero (pos (suc n)) = false
  is_zero (negsuc n) = false

  abbrev pub with_storage : List (Value × Value) → Dict → Dict
  with_storage [] d = d
  with_storage (e ∷ s) d = put "storage" (obj (storage_of (e ∷ s) empty)) d

  unfoldable pub alloc_entry : Account → Dict
  unfolding hex_value
  alloc_entry a =
      let out = entry "balance" (str (hex_value a.balance)) empty in
      let out' =
        if is_zero a.nonce_number then out else put "nonce" (str (hex_value a.nonce)) out in
      let out'' = if a.has_code then put "code" (str (hex_value a.code)) out' else out' in
      with_storage a.storage out''

  -- The loop over `fixture.pre`: an account that is `None` is left out.
  unfoldable pub alloc_of : List (Value × Option Account) → Dict → Dict
  unfolding alloc_entry addr_text
  alloc_of [] alloc = alloc
  alloc_of ((address, none) ∷ ps) alloc = alloc_of ps alloc
  alloc_of ((address, some account) ∷ ps) alloc =
      alloc_of ps (put (addr_text address) (obj (alloc_entry account)) alloc)

  -- The genesis header of the fixture, and whether its extra data has any byte.
  pub record Header : Type 0 where
    pub nonce : Value
    pub timestamp : Value
    pub extra_data : Value
    pub has_extra_data : Bool
    pub gas_limit : Value
    pub difficulty : Value
    pub prev_randao : Value
    pub fee_recipient : Value
    pub base_fee_per_gas : Option Value
    pub blob_gas_used : Option Value
    pub excess_blob_gas : Option Value
    pub parent_beacon_block_root : Option Value
    pub withdrawals_root : Option Value
    pub requests_hash : Option Value
    pub block_access_list_hash : Option Value
    pub slot_number : Option Value

  -- `if value is not None: genesis[key] = _hex(value)`.
  abbrev pub put_some : String → Option Value → Dict → Dict
  put_some key none g = g
  put_some key (some v) g = put key (str (hex_value v)) g

  -- What `build_genesis` reads of a fixture.
  pub record GenesisSource : Type 0 where
    pub fork : String
    pub chain_id : ℤ
    pub schedule : Option (List BlobEntry)
    pub pre : List (Value × Option Account)
    pub header : Header

  unfoldable pub build_genesis : GenesisSource → Dict
  unfolding config_of alloc_of
  build_genesis f =
      let h = f.header in
      let extra = if h.has_extra_data then hex_value h.extra_data else "0x" in
      put_some "slotNumber" h.slot_number (
        put_some "blockAccessListHash" h.block_access_list_hash (
          put_some "requestsHash" h.requests_hash (
            put_some "withdrawalsRoot" h.withdrawals_root (
              put_some "parentBeaconBlockRoot" h.parent_beacon_block_root (
                put_some "excessBlobGas" h.excess_blob_gas (
                  put_some "blobGasUsed" h.blob_gas_used (
                    put_some "baseFeePerGas" h.base_fee_per_gas (
                      entry "config" (obj (config_of f.fork f.chain_id f.schedule)) (
                        entry "nonce" (str (hex_value h.nonce)) (
                          entry "timestamp" (str (hex_value h.timestamp)) (
                            entry "extraData" (str extra) (
                              entry "gasLimit" (str (hex_value h.gas_limit)) (
                                entry "difficulty" (str (hex_value h.difficulty)) (
                                  entry "mixHash" (str (hex_value h.prev_randao)) (
                                    entry "coinbase" (str (hex_value h.fee_recipient)) (
                                      entry "alloc" (obj (alloc_of f.pre empty))
                                        empty))))))))))))))))
