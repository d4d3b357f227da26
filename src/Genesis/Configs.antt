-- ===== src/Genesis/Configs.antt =====
-- eest_replay/chainspec.py and devnet_genesis.py: which forks the two genesis files activate.
use buildoor_tester.Base.{
  ℕ, zero, suc, ◌+◌, ◌≤◌, ◌≡◌, refl, ◌∙◌, ap, subst, false, Option, none, some, List, [], ◌∷◌, All,
  length, get_elem?, String, str_eq, leb, ℤ, pos, negsuc, arith, Bool-cases, inl, inr,
}
use buildoor_tester.Base.Json.{num, obj, Dict, empty, entry, get, put, get-put}
use buildoor_tester.Genesis.Forks.{
  timestamp_forks, base_config, fork_index, index_from, blob_schedule, lower,
}
use buildoor_tester.Genesis.Devnet
use buildoor_tester.Genesis.Devnet.{
  activate, with_schedule, put_schedule, header, is_amsterdam, amsterdam_fields, genesis_of,
  build_devnet_genesis,
}
use buildoor_tester.Genesis.Chainspec
use buildoor_tester.Genesis.Chainspec.{enable, BlobEntry, GenesisSource, build_genesis, with_blobs}
use buildoor_tester.Genesis.Activation.{
  Table, Distinct, All-at, activate-at, timestamp_forks-Distinct,
}
use buildoor_tester.Genesis.Prefix.{at_zero, enable-activate}

-- A key that neither configuration writes besides the loop.
abbrev Unwritten : ℤ → String × String → Type 0
Unwritten chain_id e = (str_eq "blobSchedule" e.0 ≡ false) × (get e.0 (base_config chain_id) ≡ none)

keys-Unwritten : (chain_id : ℤ) → All (Unwritten chain_id) timestamp_forks
unfolding get put
keys-Unwritten chain_id = ground arith

pub key-Unwritten :
    (chain_id : ℤ) (j : ℕ) {key name : String}
    → get_elem? timestamp_forks j ≡ some (key, name)
    → Unwritten chain_id (key, name)
key-Unwritten chain_id j is =
    All-at (Unwritten chain_id) timestamp_forks j (keys-Unwritten chain_id) is

named :
    {key key' fork fork' : String}
    → ◌≡◌ {A = Option (String × String)} (some (key, fork)) (some (key', fork'))
    → fork ≡ fork'
named e = cc e

-- The place of a fork of the table.
pub fork_index-at :
    (m : ℕ) {key fork : String}
    → get_elem? timestamp_forks m ≡ some (key, fork)
    → fork_index fork ≡ pos m
unfolding fork_index
fork_index-at zero e = subst (λ f. index_from 0 f timestamp_forks ≡ pos 0) (named e) refl
fork_index-at (suc zero) e = subst (λ f. index_from 0 f timestamp_forks ≡ pos 1) (named e) refl
fork_index-at (suc (suc zero)) e =
    subst (λ f. index_from 0 f timestamp_forks ≡ pos 2) (named e) refl
fork_index-at (suc (suc (suc zero))) e =
    subst (λ f. index_from 0 f timestamp_forks ≡ pos 3) (named e) refl
fork_index-at (suc (suc (suc (suc zero)))) e =
    subst (λ f. index_from 0 f timestamp_forks ≡ pos 4) (named e) refl
fork_index-at (suc (suc (suc (suc (suc zero))))) e =
    subst (λ f. index_from 0 f timestamp_forks ≡ pos 5) (named e) refl
fork_index-at (suc (suc (suc (suc (suc (suc zero)))))) e =
    subst (λ f. index_from 0 f timestamp_forks ≡ pos 6) (named e) refl
fork_index-at (suc (suc (suc (suc (suc (suc (suc m))))))) e = cc e

get-put_schedule :
    (key : String) (blobs config : Dict)
    → str_eq "blobSchedule" key ≡ false
    → get key (put_schedule blobs config) ≡ get key config
get-put_schedule key empty config h = refl
get-put_schedule key (entry k v d) config h =
    ground (arith, get-put "blobSchedule" key (obj (entry k v d)) config)

get-with_blobs :
    (key : String) (blobs : Option (List BlobEntry)) (config : Dict)
    → str_eq "blobSchedule" key ≡ false
    → get key (with_blobs blobs config) ≡ get key config
get-with_blobs key none config h = refl
get-with_blobs key (some bs) config h =
    ground (arith, get-put "blobSchedule" key (obj (Chainspec.schedule_of bs empty)) config)

activated :
    (m : ℕ) (fs : Table) (config : Dict) (j : ℕ) {key name : String}
    → Distinct fs
    → get_elem? fs j ≡ some (key, name)
    → get key config ≡ none
    → get key (activate (pos m) 0 fs config empty).0 ≡ at_zero (leb j m)
activated m fs config j {key} {name} d is new =
    subst (λ i. get key (activate (pos m) 0 fs config empty).0 ≡ at_zero (leb i m)) (omega arith)
      (activate-at m 0 fs config empty j key name d is new)

-- The configuration for the fork in the place `m`.
pub devnet_config-at :
    (m : ℕ) (chain_id : ℤ) (j : ℕ) {key name : String}
    → get_elem? timestamp_forks j ≡ some (key, name)
    → get key (Devnet.config_of (pos m) chain_id) ≡ at_zero (leb j m)
unfolding Devnet.config_of
devnet_config-at m chain_id j {key} {name} is =
    let (apart, new) = key-Unwritten chain_id j is in
    let both = activate (pos m) 0 timestamp_forks (base_config chain_id) empty in
    get-put_schedule key both.1 both.0 apart
    ∙ activated m timestamp_forks (base_config chain_id) j timestamp_forks-Distinct is new

-- The configuration of a fixture for the fork in the place `m`.
pub fixture_config-at :
    (m : ℕ) (fork : String) (chain_id : ℤ) (blobs : Option (List BlobEntry)) (j : ℕ)
    {key name : String}
    → fork_index fork ≡ pos m
    → get_elem? timestamp_forks j ≡ some (key, name)
    → get key (Chainspec.config_of fork chain_id blobs) ≡ at_zero (leb j m)
unfolding Chainspec.config_of fork_index
fixture_config-at m fork chain_id blobs j {key} {name} found is =
    let (apart, new) = key-Unwritten chain_id j is in
    get-with_blobs key blobs (enable fork timestamp_forks (base_config chain_id)) apart
    ∙ ap (get key) (enable-activate 0 fork timestamp_forks (base_config chain_id) empty found)
    ∙ activated m timestamp_forks (base_config chain_id) j timestamp_forks-Distinct is new

-- The loop for a fork that it does not meet.
enable-every :
    (m i : ℕ) (fork : String) (fs : Table) (config blobs : Dict)
    → index_from i fork fs ≡ negsuc 0
    → i + length fs ≤ m
    → enable fork fs config ≡ (activate (pos m) i fs config blobs).0
unfolding enable activate
enable-every m i fork [] config blobs absent bound = refl
enable-every m i fork ((key, name) ∷ fs) config blobs absent bound =
    elim (Bool-cases (str_eq name fork)) [
      | inl here ↦ let found : pos i ≡ negsuc 0 = rw here at absent in cc found
      | inr there ↦
          let absent' : index_from (suc i) fork fs ≡ negsuc 0 = rw there at absent in
          ground (
            arith,
            enable-every m (suc i) fork fs (put key (num (pos 0)) config)
                (with_schedule (get (lower name) blob_schedule) (lower name) blobs) absent'
                (omega arith),
          )
    ]

-- The configuration of a fixture for a fork that the table does not hold.
pub fixture_config-every :
    (fork : String) (chain_id : ℤ) (blobs : Option (List BlobEntry)) (j : ℕ) {key name : String}
    → fork_index fork ≡ negsuc 0
    → get_elem? timestamp_forks j ≡ some (key, name)
    → get key (Chainspec.config_of fork chain_id blobs) ≡ at_zero (leb j (j + 7))
unfolding Chainspec.config_of fork_index
fixture_config-every fork chain_id blobs j {key} {name} absent is =
    let (apart, new) = key-Unwritten chain_id j is in
    get-with_blobs key blobs (enable fork timestamp_forks (base_config chain_id)) apart
    ∙ ap (get key) (
        enable-every (j + 7) 0 fork timestamp_forks (base_config chain_id) empty absent
          (omega arith))
    ∙ activated (j + 7) timestamp_forks (base_config chain_id) j timestamp_forks-Distinct is new
