-- ===== src/Genesis/Blobs.antt =====
-- eest_replay/devnet_genesis.py: the blob schedule of the genesis that `build_devnet_genesis` makes.
use buildoor_tester.Base.{
  ℕ, zero, suc, ◌+◌, arith, ◌<>◌, value_error, ◌≡◌, refl, ◌∙◌, ap, subst, Option, none, some, List,
  [], ◌∷◌, get_elem?, String, leb, ℤ, pos, ok, if◌then◌else◌,
}
use buildoor_tester.Base.Json.{Json, obj, Dict, get, put}
use buildoor_tester.Genesis.Forks.{fork_index, timestamp_forks, blob_schedule, lower}
use buildoor_tester.Genesis.Devnet
use buildoor_tester.Genesis.Devnet.{activate, genesis_of, build_devnet_genesis}
use buildoor_tester.Genesis.Activation.{Table}
use buildoor_tester.Genesis.Prefix.{in_config, config_at}
use buildoor_tester.Genesis.Forked.{get-genesis_of, succeeds}
use buildoor_tester.Genesis.Configs.{fork_index-at}

-- The parameters of a fork, as the client reads them from the configuration.
abbrev pub schedule_in : String → Option Json → Option Json
schedule_in name (some (obj blobs)) = get name blobs
schedule_in name _ = none

abbrev pub schedule_at : String → Dict → Option Json
schedule_at name g = schedule_in name (config_at "blobSchedule" g)

-- The table's parameters of a fork, up to a place.
abbrev pub scheduled : ℕ → ℕ → String → Option Json
scheduled m j name = if leb j m then get (lower name) blob_schedule else none

abbrev Holds : ℕ → ℤ → ℕ → Table → Type 0
Holds m chain_id j [] = Unit {0}
Holds m chain_id j ((key, name) ∷ fs) =
    (schedule_in (lower name) (get "blobSchedule" (Devnet.config_of (pos m) chain_id))
      ≡ scheduled m j name)
    × Holds m chain_id (suc j) fs

config_of-Holds :
    (m : ℕ) (chain_id : ℤ) {e : String × String}
    → get_elem? timestamp_forks m ≡ some e
    → Holds m chain_id 0 timestamp_forks
unfolding Devnet.config_of activate get put
config_of-Holds zero chain_id e = (refl, (refl, (refl, (refl, (refl, (refl, (refl, tt)))))))
config_of-Holds (suc zero) chain_id e = (refl, (refl, (refl, (refl, (refl, (refl, (refl, tt)))))))
config_of-Holds (suc (suc zero)) chain_id e =
    (refl, (refl, (refl, (refl, (refl, (refl, (refl, tt)))))))
config_of-Holds (suc (suc (suc zero))) chain_id e =
    (refl, (refl, (refl, (refl, (refl, (refl, (refl, tt)))))))
config_of-Holds (suc (suc (suc (suc zero)))) chain_id e =
    (refl, (refl, (refl, (refl, (refl, (refl, (refl, tt)))))))
config_of-Holds (suc (suc (suc (suc (suc zero))))) chain_id e =
    (refl, (refl, (refl, (refl, (refl, (refl, (refl, tt)))))))
config_of-Holds (suc (suc (suc (suc (suc (suc zero)))))) chain_id e =
    (refl, (refl, (refl, (refl, (refl, (refl, (refl, tt)))))))
config_of-Holds (suc (suc (suc (suc (suc (suc (suc m))))))) chain_id e = cc e

Holds-at :
    (m : ℕ) (chain_id : ℤ) (i j : ℕ) (fs : Table) {key name : String}
    → Holds m chain_id i fs
    → get_elem? fs j ≡ some (key, name)
    → schedule_in (lower name) (get "blobSchedule" (Devnet.config_of (pos m) chain_id))
      ≡ scheduled m (i + j) name
Holds-at m chain_id i j [] h is = cc
Holds-at m chain_id i zero ((k, n) ∷ fs) {key} {name} h is =
    let same : n ≡ name = cc is in
    subst
      (λ x.
        schedule_in (lower x) (get "blobSchedule" (Devnet.config_of (pos m) chain_id))
        ≡ scheduled m (i + zero) x)
      same (h.0 ∙ ap (λ l. scheduled m l n) (let e : i ≡ i + zero = omega arith in e))
Holds-at m chain_id i (suc j) ((k, n) ∷ fs) {key} {name} h is =
    Holds-at m chain_id (suc i) j fs h.1 is
    ∙ ap (λ l. scheduled m l name) (let e : suc i + j ≡ i + suc j = omega arith in e)

-- For a fork of the table `build_devnet_genesis` succeeds, and the blob schedule of its genesis gives
-- each fork of the table that does not come behind that fork the parameters of the program's own table,
-- if that has any, and nothing to the forks behind it.
pub devnet_genesis-schedules :
    (m j : ℕ) (chain_id : ℤ) (prefunded : List (String × ℤ)) (gas_limit : ℤ)
    {own key fork name : String}
    → get_elem? timestamp_forks m ≡ some (own, fork)
    → get_elem? timestamp_forks j ≡ some (key, name)
    → (g : Dict) × (build_devnet_genesis fork chain_id prefunded gas_limit ≡ ok g)
      × (schedule_at (lower name) g ≡ scheduled m j name)
unfolding build_devnet_genesis
devnet_genesis-schedules m j chain_id prefunded gas_limit {key = key} {fork = fork} {name = name}
      own_at is =
    (
      genesis_of (pos m) chain_id prefunded gas_limit,
      succeeds m (fork_index fork) (value_error ("unknown or pre-merge fork " <> fork))
          (λ t. genesis_of t chain_id prefunded gas_limit) (fork_index-at m own_at),
      ap (λ c. schedule_in (lower name) (in_config "blobSchedule" c))
            (get-genesis_of (pos m) chain_id prefunded gas_limit)
          ∙ Holds-at m chain_id 0 j timestamp_forks (config_of-Holds m chain_id own_at) is
          ∙ ap (λ l. scheduled m l name) (let e : 0 + j ≡ j = omega arith in e),
    )
