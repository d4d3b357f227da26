-- ===== src/Genesis/Prefix.antt =====
-- eest_replay/chainspec.py and devnet_genesis.py: both genesis files activate the forks up to the
-- target, and what happens with a fork that the table does not hold.
use buildoor_tester.Base.{
  ℕ, zero, suc, ◌+◌, ◌≡◌, refl, Bool, true, Option, none, some, [], ◌∷◌, get_elem?, String, str_eq,
  eq_iff, pos, arith, Bool-cases, inl, inr, if◌then◌else◌,
}
use buildoor_tester.Base.Json.{Json, num, obj, Dict, get, put}
use buildoor_tester.Genesis.Forks.{index_from, blob_schedule, lower}
use buildoor_tester.Genesis.Devnet.{activate, with_schedule}
use buildoor_tester.Genesis.Chainspec.{enable}
use buildoor_tester.Genesis.Activation.{Table}

-- The configuration's entry, for a genesis with a configuration.
abbrev pub in_config : String → Option Json → Option Json
in_config key (some (obj c)) = get key c
in_config key _ = none

abbrev pub config_at : String → Dict → Option Json
config_at key g = in_config key (get "config" g)

-- Activated by the time 0.
abbrev pub at_zero : Bool → Option Json
at_zero b = if b then some (num (pos 0)) else none

-- An index that was found is the place of the fork.
pub index_from-found :
    (i : ℕ) (fork : String) (fs : Table) {m : ℕ}
    → index_from i fork fs ≡ pos m
    → (j : ℕ) × (key : String) × (m ≡ i + j) × (get_elem? fs j ≡ some (key, fork))
index_from-found i fork [] e = cc
index_from-found i fork ((key, name) ∷ fs) {m} e = elim (Bool-cases (str_eq name fork)) [
  | inl here ↦
      let found : pos i ≡ pos m = rw here at e in
      let named = (eq_iff name fork).0 here in (0, key, grind arith, cc)
  | inr there ↦
      let (j, key', is, at) = index_from-found (suc i) fork fs (rw there at e) in
      (suc j, key', omega arith, at)
]

index_from-listed :
    (i : ℕ) (fork : String) (fs : Table) (j : ℕ) {key : String}
    → get_elem? fs j ≡ some (key, fork)
    → (m : ℕ) × (index_from i fork fs ≡ pos m)
index_from-listed i fork [] j e = cc
index_from-listed i fork ((key, name) ∷ fs) zero e =
    let named : str_eq name fork ≡ true = (eq_iff name fork).1 cc in (i, rw named refl)
index_from-listed i fork ((key, name) ∷ fs) (suc j) e = elim (Bool-cases (str_eq name fork)) [
  | inl here ↦ (i, rw here)
  | inr there ↦ let (m, is) = index_from-listed (suc i) fork fs j e in (m, rw there is)
]

-- Behind the target nothing is activated.
activate-behind :
    (m : ℕ) (fs : Table) (config blobs : Dict)
    → (activate (pos m) (suc m) fs config blobs).0 ≡ config
unfolding activate
activate-behind m [] config blobs = refl
activate-behind m ((key, name) ∷ fs) config blobs = ground arith

-- The loop of `build_genesis` activates what the loop of `build_devnet_genesis` does, if the fork
-- is found.
pub enable-activate :
    (i : ℕ) (fork : String) (fs : Table) (config blobs : Dict) {m : ℕ}
    → index_from i fork fs ≡ pos m
    → enable fork fs config ≡ (activate (pos m) i fs config blobs).0
unfolding enable activate
enable-activate i fork [] config blobs e = cc
enable-activate i fork ((key, name) ∷ fs) config blobs {m} e =
    elim (Bool-cases (str_eq name fork)) [
      | inl here ↦
          let found : pos i ≡ pos m = rw here at e in
          ground (
            arith,
            activate-behind m fs (put key (num (pos 0)) config)
                (with_schedule (get (lower name) blob_schedule) (lower name) blobs),
          )
      | inr there ↦
          let e' : index_from (suc i) fork fs ≡ pos m = rw there at e in
          let (j, key', is, at) = index_from-found (suc i) fork fs e' in
          ground (
            arith,
            enable-activate (suc i) fork fs (put key (num (pos 0)) config)
                (with_schedule (get (lower name) blob_schedule) (lower name) blobs) e',
          )
    ]
