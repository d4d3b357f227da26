-- ===== src/Genesis/Accounts.antt =====
-- eest_replay/devnet_genesis.py and chainspec.py: the accounts of the two genesis files, read back.
use buildoor_tester.Base.{
  ℕ, ◌≡◌, refl, ◌∙◌, ap, Bool, true, false, Bool-cases, inl, inr, Option, none, some, List, [], ◌∷◌,
  get_elem?, String, str_eq, ◌<>◌, ℤ, pos, ok, value_error, if◌then◌else◌,
}
use buildoor_tester.Base.Numeral.{hex, int_of, int_of-hex}
use buildoor_tester.Base.Json.{Json, str, obj, Dict, empty, entry, get, put, get-put}
use buildoor_tester.Genesis.Forks.{timestamp_forks, fork_index}
use buildoor_tester.Genesis.Devnet.{norm, alloc_of, is_amsterdam, genesis_of, build_devnet_genesis}
use buildoor_tester.Genesis.Configs.{fork_index-at}
use buildoor_tester.Genesis.Forked.{succeeds}

abbrev pub number_in : Option Json → Option ℤ
number_in (some (str s)) = int_of 16 s
number_in _ = none

abbrev pub balance_in : Option Json → Option ℤ
balance_in (some (obj account)) = number_in (get "balance" account)
balance_in _ = none

abbrev pub account_in : String → Option Json → Option Json
account_in addr (some (obj alloc)) = get addr alloc
account_in addr _ = none

-- The balance of an address, as the client reads it from the file.
abbrev pub balance_at : String → Dict → Option ℤ
balance_at addr g = balance_in (account_in addr (get "alloc" g))

-- Balances that are not negative.
abbrev pub wei : List (String × ℕ) → List (String × ℤ)
wei [] = []
wei ((addr, n) ∷ ps) = (addr, pos n) ∷ wei ps

abbrev pub last_or : Option ℤ → Option ℤ → Option ℤ
last_or none o = o
last_or (some n) o = some n

-- The balance that is asked for: of the last entry whose address is written as `addr`.
abbrev pub asked_balance : String → List (String × ℕ) → Option ℤ
asked_balance addr [] = none
asked_balance addr ((a, n) ∷ ps) =
    last_or (asked_balance addr ps) (if str_eq (norm a) addr then some (pos n) else none)

last_or_assoc : (a b c : Option ℤ) → last_or a (last_or b c) ≡ last_or (last_or a b) c
last_or_assoc none b c = refl
last_or_assoc (some n) b c = refl

balance_in-put :
    (a addr : String) (n : ℕ) (alloc : Dict)
    → balance_in (get addr (put a (obj (entry "balance" (str (hex (pos n))) empty)) alloc))
      ≡ last_or (if str_eq a addr then some (pos n) else none) (balance_in (get addr alloc))
balance_in-put a addr n alloc =
    let account = obj (entry "balance" (str (hex (pos n))) empty) in
    let read : balance_in (some account) ≡ some (pos n) = unfold get in int_of-hex n in
    ap balance_in (get-put a addr account alloc) ∙ chosen (str_eq a addr) read
  where
    chosen :
        (b : Bool)
        → balance_in (some (obj (entry "balance" (str (hex (pos n))) empty))) ≡ some (pos n)
        → balance_in
            (if b then some (obj (entry "balance" (str (hex (pos n))) empty)) else get addr alloc)
          ≡ last_or (if b then some (pos n) else none) (balance_in (get addr alloc))
    chosen true read = read
    chosen false read = refl

alloc_of-reads :
    (ps : List (String × ℕ)) (addr : String) (alloc : Dict)
    → balance_in (get addr (alloc_of (wei ps) alloc))
      ≡ last_or (asked_balance addr ps) (balance_in (get addr alloc))
unfolding alloc_of
alloc_of-reads [] addr alloc = refl
alloc_of-reads ((a, n) ∷ ps) addr alloc =
    alloc_of-reads ps addr (put (norm a) (obj (entry "balance" (str (hex (pos n))) empty)) alloc)
    ∙ ap (last_or (asked_balance addr ps)) (balance_in-put (norm a) addr n alloc)
    ∙ last_or_assoc (asked_balance addr ps) _ _

get_alloc-genesis_of :
    (target chain_id : ℤ) (prefunded : List (String × ℤ)) (gas_limit : ℤ)
    → get "alloc" (genesis_of target chain_id prefunded gas_limit)
      ≡ some (obj (alloc_of prefunded empty))
unfolding genesis_of get put
get_alloc-genesis_of target chain_id prefunded gas_limit = elim (Bool-cases (is_amsterdam target)) [
  | inl is ↦ rw is refl
  | inr is ↦ rw is refl
]

-- For a fork of the table `build_devnet_genesis` succeeds, and for every address its genesis has the
-- balance, read back from its hexadecimal text, that the last of the entries for that address asks
-- for, with or without `0x`, and no balance for an address without an entry. Here no entry asks for a
-- negative balance.
pub devnet_genesis-funds :
    (m : ℕ) (chain_id : ℤ) (ps : List (String × ℕ)) (gas_limit : ℤ) (addr : String)
    {own fork : String}
    → get_elem? timestamp_forks m ≡ some (own, fork)
    → (g : Dict) × (build_devnet_genesis fork chain_id (wei ps) gas_limit ≡ ok g)
      × (balance_at addr g ≡ asked_balance addr ps)
unfolding build_devnet_genesis get
devnet_genesis-funds m chain_id ps gas_limit addr {fork = fork} own_at = (
  genesis_of (pos m) chain_id (wei ps) gas_limit,
  succeeds m (fork_index fork) (value_error ("unknown or pre-merge fork " <> fork))
      (λ t. genesis_of t chain_id (wei ps) gas_limit) (fork_index-at m own_at),
  ap (λ o. balance_in (account_in addr o))
        (get_alloc-genesis_of (pos m) chain_id (wei ps) gas_limit)
      ∙ alloc_of-reads ps addr empty
      ∙ last_or_none (asked_balance addr ps),
)
  where
    last_or_none : (o : Option ℤ) → last_or o none ≡ o
    last_or_none none = refl
    last_or_none (some n) = refl
