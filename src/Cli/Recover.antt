-- ===== src/Cli/Recover.antt =====
-- eest_replay/cli.py: the `recover` command, and a recovery from the file that a submit left.
use buildoor_tester.Base.{
  ℕ, ◌+◌, ◌^◌, ◌≡◌, refl, sym, ap, ◌∙◌, true, false, Option, none, some, List, [], ◌∷◌, ◌++◌, ◌<>◌,
  String, ℤ, pos, ◌+ℤ◌, length, Outcome, ok, raised, usage_error, type_error, value_error, Exec,
  lift, pure, ◌>>=◌, >>=-eq-ok,
}
use buildoor_tester.Base.Numeral.{decimal, int_of, int_of-decimal}
use buildoor_tester.Base.Json.{Json, null, boolean, num, str, arr, obj, get}
use buildoor_tester.Sweep.{
  Call, Chain, Fees, RecoveredAccount, field_of, int_16, sweep_account, recover_funded_eoas,
}
use buildoor_tester.Sweep.Recovery.{queried, sends, derived, recover-covers}
use buildoor_tester.Export.Gas.{random_eoa_start}
use buildoor_tester.Export.Submit.{start_of, recovery_meta}

-- The options of the command. A sidecar is what `json.loads` of its text comes to.
pub record RecoverArgs : Type 0 where
  pub to_addr : String
  pub chain_id : ℤ
  pub meta : Option (Outcome Json)
  pub eoa_start : Option String
  pub key : Option String
  pub count : ℕ
  pub fees : Fees

-- How the command ends with the status 0, by what it prints: nothing to sweep, one account, or the
-- accounts and their total.
pub data Recovered : Type 0 where
  nothing_to_sweep : Recovered
  one_swept : Json → ℤ → Recovered
  all_swept : List RecoveredAccount → ℤ → Recovered

abbrev parsed : Option ℤ → Outcome ℤ
parsed none = raised (value_error "invalid literal for int() with base 10")
parsed (some n) = ok n

-- `int(value)` of a JSON value.
unfoldable pub int_10 : Json → Outcome ℤ
int_10 (str s) = parsed (int_of 10 s)
int_10 (num n) = ok n
int_10 (boolean true) = ok (pos 1)
int_10 (boolean false) = ok (pos 0)
int_10 null = raised (type_error "int() argument must be a string or a number, not 'NoneType'")
int_10 (arr js) = raised (type_error "int() argument must be a string or a number, not 'list'")
int_10 (obj d) = raised (type_error "int() argument must be a string or a number, not 'dict'")

abbrev start_in : Outcome Json → Outcome Json
start_in (ok j) = field_of j "eoa_start"
start_in (raised e) = raised e

-- The start that the scan begins at, before `int`: the option wins over the sidecar.
unfoldable pub chosen_start : Option (Outcome Json) → Option String → Outcome Json
chosen_start meta (some s) = ok (str s)
chosen_start none none = raised (usage_error "pass --meta <sidecar>, --eoa-start, or --key.")
chosen_start (some read) none = start_in read

unfoldable pub sum_swept : List RecoveredAccount → ℤ
sum_swept [] = pos 0
sum_swept (r ∷ rs) = r.swept_wei +ℤ sum_swept rs

abbrev account_lines : (ℤ → String) → (Json → String) → List RecoveredAccount → List String
account_lines ether text [] = []
account_lines ether text (r ∷ rs) =
    ("  " <> (r.address <> (": " <> (ether r.swept_wei <> (" ETH  tx=" <> text r.tx_hash)))))
    ∷ account_lines ether text rs

-- What a command that ends with the status 0 has printed, its heading first. How a number of wei is
-- printed in ether, and a JSON value, are parameters.
unfoldable pub recovered_lines :
    (ℤ → String) → (Json → String) → RecoverArgs → Recovered → List String
recovered_lines ether text a nothing_to_sweep =
    "  nothing to sweep (balance below gas reserve)" ∷ []
recovered_lines ether text a (one_swept hash swept) =
    ("  swept " <> (ether swept <> (" ETH → " <> (a.to_addr <> ("  tx=" <> text hash))))) ∷ []
recovered_lines ether text a (all_swept rs total) =
    ("=== recovering up to " <> (decimal (pos a.count) <> (" EOAs from eoa-start → " <> a.to_addr)))
    ∷ (account_lines ether text rs
        ++ ("  recovered "
            <> (decimal (pos (length rs)) <> (" accounts, " <> (ether total <> " ETH total"))))
          ∷ [])

abbrev pub reported : Option (Json × ℤ) → Recovered
reported none = nothing_to_sweep
reported (some (hash, swept)) = one_swept hash swept

module _ (C : Chain) where
  abbrev pub sweep_one : RecoverArgs → String → Exec Call Recovered
  sweep_one a key = lift (int_16 (str key)) >>= λ n.
      sweep_account C n a.to_addr a.chain_id a.fees (pos 0) >>= λ r. pure (reported r)

  abbrev pub sweep_all : RecoverArgs → ℤ → Exec Call Recovered
  sweep_all a start = recover_funded_eoas C start a.to_addr a.chain_id a.count a.fees >>= λ rs.
      pure (all_swept rs (sum_swept rs))

  -- `--key` wins over the other two.
  abbrev by_key : RecoverArgs → Option String → Exec Call Recovered
  by_key a (some key) = sweep_one a key
  by_key a none = lift (chosen_start a.meta a.eoa_start) >>= λ text.
      lift (int_10 text) >>= λ start. sweep_all a start

  unfoldable pub recover_cmd : RecoverArgs → Exec Call Recovered
  unfolding int_10 chosen_start sum_swept
  recover_cmd a = by_key a a.key

start_in-recovery_meta :
    (seed start : String) (chain_id : ℤ) (fork url : String)
    → chosen_start (some (ok (obj (recovery_meta seed start chain_id fork url)))) none
      ≡ ok (str start)
unfolding chosen_start recovery_meta get
start_in-recovery_meta seed start chain_id fork url = refl

-- A start that was drawn reads back.
start_of-drawn :
    (randbits : ℕ → ℕ) → int_10 (str (start_of none randbits)) ≡ ok (pos (randbits 240 + 2 ^ 16))
unfolding int_10 start_of random_eoa_start
start_of-drawn randbits = rw (int_of-decimal (randbits 240 + 2 ^ 16)) refl

module _ (C : Chain) where
  all_swept-lem :
      (a : RecoverArgs) (start : ℤ) {r : Recovered} {t : List Call}
      → sweep_all C a start [] ≡ (ok r, t)
      → (rs : List RecoveredAccount) × (r ≡ all_swept rs (sum_swept rs))
        × (queried t ≡ derived C start a.to_addr a.chain_id a.fees 0 a.count)
        × (length rs ≡ sends t)
  all_swept-lem a start {r} {t} e =
      let (rs, u, scanned, rest) =
        >>=-eq-ok (recover_funded_eoas C start a.to_addr a.chain_id a.count a.fees) _ [] e in
      let (asked, counted) = recover-covers C start a.to_addr a.chain_id a.fees a.count scanned in
      let is : ok (all_swept rs (sum_swept rs)) ≡ ok r = ap (λ q. q.0) rest in
      let same : u ≡ t = ap (λ q. q.1) rest in
      (rs, sym (cc is), ap queried (sym same) ∙ asked, counted ∙ ap sends same)

  -- From the file that a submit left, which drew the start of its accounts from `randbits`, a recovery
  -- that ends without an exception has asked for the balances of the accounts of the keys
  -- `randbits 240 + 2 ^ 16`, `randbits 240 + 2 ^ 16 + 1` and so on, each once and in this order, as many as it was
  -- asked for. It reports as many accounts as it sent transactions, and as the total their sum.
  -- Here neither `--key` nor `--eoa-start` is given.
  pub recover_cmd-recovery_meta :
      (a : RecoverArgs) (randbits : ℕ → ℕ) (seed : String) (chain_id : ℤ) (fork url : String)
      {r : Recovered} {t : List Call}
      → a.key ≡ none
      → a.eoa_start ≡ none
      → a.meta ≡ some (ok (obj (recovery_meta seed (start_of none randbits) chain_id fork url)))
      → recover_cmd C a [] ≡ (ok r, t)
      → (rs : List RecoveredAccount) × (r ≡ all_swept rs (sum_swept rs))
        × (queried t
            ≡ derived C (pos (randbits 240 + 2 ^ 16)) a.to_addr a.chain_id a.fees 0 a.count)
        × (length rs ≡ sends t)
  unfolding recover_cmd
  recover_cmd-recovery_meta a randbits seed chain_id fork url {r} {t} no_key no_start from e =
      let text = start_of none randbits in
      let found : chosen_start a.meta a.eoa_start ≡ ok (str text) =
        simp (from, no_start) (start_in-recovery_meta seed text chain_id fork url) in
      let e1 : sweep_all C a (pos (randbits 240 + 2 ^ 16)) [] ≡ (ok r, t) =
        rw (start_of-drawn randbits) at (rw found at (rw no_key at e)) in
      all_swept-lem a (pos (randbits 240 + 2 ^ 16)) e1
