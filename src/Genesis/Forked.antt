-- ===== src/Genesis/Forked.antt =====
-- eest_replay/chainspec.py and devnet_genesis.py: the forks that a whole genesis file activates.
use buildoor_tester.Base.{
  ℕ, ◌+◌, ◌≡◌, refl, ◌∙◌, ap, sym, subst, true, false, Option, none, some, List, get_elem?, String,
  str_eq, leb, ltb_ℤ, ℤ, pos, negsuc, Exc, ok, raised, value_error, ◌<>◌, arith, Bool-cases, inl,
  inr, if◌then◌else◌,
}
use buildoor_tester.Base.Json.{num, str, obj, Dict, get, put, get-put}
use buildoor_tester.Testing.{Testing}
use buildoor_tester.Genesis.Forks.{timestamp_forks, fork_index}
use buildoor_tester.Genesis.Devnet
use buildoor_tester.Genesis.Devnet.{
  header, is_amsterdam, amsterdam_fields, genesis_of, build_devnet_genesis,
}
use buildoor_tester.Genesis.Chainspec
use buildoor_tester.Genesis.Chainspec.{GenesisSource, build_genesis, put_some}
use buildoor_tester.Genesis.Prefix.{in_config, config_at, at_zero}
use buildoor_tester.Genesis.Configs.{
  devnet_config-at, fixture_config-at, fixture_config-every, fork_index-at,
}

pub get-genesis_of :
    (target chain_id : ℤ) (prefunded : List (String × ℤ)) (gas_limit : ℤ)
    → get "config" (genesis_of target chain_id prefunded gas_limit)
      ≡ some (obj (Devnet.config_of target chain_id))
unfolding genesis_of get put
get-genesis_of target chain_id prefunded gas_limit = elim (Bool-cases (is_amsterdam target)) [
  | inl is ↦ rw is refl
  | inr is ↦ rw is refl
]

pub succeeds :
    (m : ℕ) (t : ℤ) (e : Exc) (g : ℤ → Dict)
    → t ≡ pos m
    → (if ltb_ℤ t (pos 0) then raised e else ok (g t)) ≡ ok (g (pos m))
succeeds m t e g is =
    let same : ltb_ℤ (pos m) (pos 0) ≡ false = ground arith in
    subst (λ t. (if ltb_ℤ t (pos 0) then raised e else ok (g t)) ≡ ok (g (pos m))) (sym is)
      (rw same refl)

-- For a fork of the table `build_devnet_genesis` succeeds, and its genesis activates, at the time
-- 0, the forks that do not come behind that fork, and no other fork of the table.
pub devnet_genesis-activates :
    (m j : ℕ) (chain_id : ℤ) (prefunded : List (String × ℤ)) (gas_limit : ℤ)
    {own key fork name : String}
    → get_elem? timestamp_forks m ≡ some (own, fork)
    → get_elem? timestamp_forks j ≡ some (key, name)
    → (g : Dict) × (build_devnet_genesis fork chain_id prefunded gas_limit ≡ ok g)
      × (config_at key g ≡ at_zero (leb j m))
unfolding build_devnet_genesis
devnet_genesis-activates m j chain_id prefunded gas_limit {key = key} {fork = fork} own_at is = (
  genesis_of (pos m) chain_id prefunded gas_limit,
  succeeds m (fork_index fork) (value_error ("unknown or pre-merge fork " <> fork))
      (λ t. genesis_of t chain_id prefunded gas_limit) (fork_index-at m own_at),
  ap (in_config key) (get-genesis_of (pos m) chain_id prefunded gas_limit)
      ∙ devnet_config-at m chain_id j is,
)

module _ (T : Testing) where
  open T use {Value}

  pub get-put_some :
      (key asked : String) (v : Option Value) (g : Dict)
      → str_eq key asked ≡ false
      → get asked (put_some T key v g) ≡ get asked g
  get-put_some key asked none g apart = refl
  get-put_some key asked (some v) g apart =
      ground (arith, get-put key asked (str (Chainspec.hex_value T v)) g)

  get-build_genesis :
      (f : GenesisSource T)
      → get "config" (build_genesis T f)
        ≡ some (obj (Chainspec.config_of f.fork f.chain_id f.schedule))
  unfolding build_genesis get
  get-build_genesis f = grind (arith, get-put_some)

  -- For a fork of the table `build_genesis` activates, at the time 0, the forks that do not come
  -- behind that fork, and no other fork of the table.
  pub fixture_genesis-activates :
      (f : GenesisSource T) (m j : ℕ) {own key name : String}
      → get_elem? timestamp_forks m ≡ some (own, f.fork)
      → get_elem? timestamp_forks j ≡ some (key, name)
      → config_at key (build_genesis T f) ≡ at_zero (leb j m)
  fixture_genesis-activates f m j {key = key} own_at is =
      ap (in_config key) (get-build_genesis f)
      ∙ fixture_config-at m f.fork f.chain_id f.schedule j (fork_index-at m own_at) is

  -- For a fork that is not in the table, such as Paris, `build_genesis` activates every fork of the
  -- table at the time 0, the last one included.
  pub unlisted_fork_activates_all :
      (f : GenesisSource T) (j : ℕ) {key name : String}
      → fork_index f.fork ≡ negsuc 0
      → get_elem? timestamp_forks j ≡ some (key, name)
      → config_at key (build_genesis T f) ≡ some (num (pos 0))
  unlisted_fork_activates_all f j {key = key} absent is =
      let all : leb j (j + 7) ≡ true = ground arith in
      ap (in_config key) (get-build_genesis f)
      ∙ fixture_config-every f.fork f.chain_id f.schedule j absent is
      ∙ ap at_zero all
