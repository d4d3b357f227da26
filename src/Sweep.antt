-- ===== src/Sweep.antt =====
-- eest_replay/sweep.py: balances, the sweep of one account, and the scan over the derived accounts.
pub mod Account
pub mod Recovery
pub mod Receipts
use buildoor_tester.Base.{
  ℕ, zero, suc, ◌+◌, ltb, Exc, foreign_error, ◌>>◌, continue, Bool, true, false, ◌||◌, Option, none,
  some, List, [], ◌∷◌, ◌++◌, String, ◌<>◌, ℤ, pos, ◌+ℤ◌, ◌-ℤ◌, ◌timesℤ◌, leb_ℤ, ltb_ℤ, Outcome, ok,
  raised, runtime_error, key_error, type_error, value_error, Exec, call, pure, lift, ◌>>=◌,
  if◌then◌else◌,
}
use buildoor_tester.Base.Numeral.{int_of}
use buildoor_tester.Base.Json.{Json, null, boolean, num, str, arr, obj, Dict, get}

abbrev pub gas_transfer : ℕ
gas_transfer = 21000

-- The keyword arguments of `Transaction`.
pub record Transaction : Type 0 where
  pub chain_id : ℤ
  pub nonce : ℤ
  pub max_fee_per_gas : ℤ
  pub max_priority_fee_per_gas : ℤ
  pub gas_limit : ℕ
  pub to : String
  pub value : ℤ
  pub sender : ℤ

-- The calls of the RPC endpoint, `rpc_call`.
pub data Call : Type 0 where
  eth_get_balance : String → Call
  eth_get_transaction_count : String → Call
  eth_send_raw_transaction : String → Call
  eth_get_transaction_receipt : Json → Call
  -- `time.sleep` in milliseconds.
  sleep : ℕ → Call

-- The endpoint, which may answer a call with any JSON value or fail, and the key handling of
-- `execution_testing`: the address of a private key, and the signed transaction in hexadecimal.
pub record Chain : Type 0 where
  pub rpc : List Call → Call → Outcome Json
  pub address : ℤ → String
  pub signed_rlp : Transaction → String
  -- `str(error)` of the error that the endpoint reports.
  pub show : Option Json → String
  -- The clock in milliseconds, and the elements of a set in the order in which it is gone through;
  -- a list or a dict cannot be an element.
  pub now : List Call → ℕ
  pub as_set : List Json → Outcome (List Json)

pub record Fees : Type 0 where
  pub max_fee_per_gas : ℤ
  pub max_priority_fee_per_gas : ℤ

abbrev pub field_of : Json → String → Outcome Json
field_of (obj d) k = elim (get k d) [ none ↦ raised (key_error k) | some v ↦ ok v ]
field_of _ k = raised (type_error "the reply is not an object")

abbrev parsed_hex : Option ℤ → Outcome ℤ
parsed_hex none = raised (value_error "invalid literal for int() with base 16")
parsed_hex (some n) = ok n

-- `int(value, 16)`.
abbrev pub int_16 : Json → Outcome ℤ
int_16 (str s) = parsed_hex (int_of 16 s)
int_16 _ = raised (type_error "int() can't convert non-string with explicit base")

abbrev bind_json : Outcome Json → (Json → Outcome ℤ) → Outcome ℤ
bind_json (ok v) f = f v
bind_json (raised e) f = raised e

-- `int(reply["result"], 16)`.
unfoldable pub result_int : Json → Outcome ℤ
result_int reply = bind_json (field_of reply "result") int_16

abbrev is_none_or_null : Option Json → Bool
is_none_or_null none = true
is_none_or_null (some null) = true
is_none_or_null (some j) = false

abbrev pub out_of_rounds : Exc
out_of_rounds = foreign_error "the rounds are used up"

-- Negative values cannot be written as hexadecimal quantities, but a reply may hold one.
unfoldable pub reserve : Fees → ℤ
reserve f = gas_transfer timesℤ f.max_fee_per_gas

unfoldable pub is_too_low : ℤ → Fees → ℤ → Bool
unfolding reserve
is_too_low balance f min_sweep_wei =
    leb_ℤ balance (reserve f) || ltb_ℤ (balance -ℤ reserve f) min_sweep_wei

pub record RecoveredAccount : Type 0 where
  pub address : String
  pub swept_wei : ℤ
  pub tx_hash : Json

module _ (C : Chain) where
  abbrev pub rpc_call : Call → Exec Call Json
  rpc_call c = call (λ h. C.rpc h c) c

  unfoldable pub get_balance : String → Exec Call ℤ
  unfolding result_int
  get_balance address = do reply ← rpc_call (eth_get_balance address); lift (result_int reply)

  unfoldable pub nonce_of : String → Exec Call ℤ
  unfolding result_int
  nonce_of address = do
    reply ← rpc_call (eth_get_transaction_count address)
    lift (result_int reply)

  -- `if "result" not in resp: raise`, and the result otherwise.
  abbrev hash_or_raise : String → Json → Option Json → Option Json → Outcome Json
  hash_or_raise addr reply none error =
      raised (runtime_error ("sweep of " <> (addr <> (" rejected: " <> C.show error))))
  hash_or_raise addr reply (some v) error = ok v

  unfoldable pub read_hash : String → Json → Outcome Json
  read_hash addr (obj d) = hash_or_raise addr (obj d) (get "result" d) (get "error" d)
  read_hash addr _ = raised (type_error "the reply is not an object")

  unfoldable pub sweep_transaction : ℤ → String → ℤ → Fees → ℤ → ℤ → Transaction
  sweep_transaction key to chain_id f nonce value = record {
    chain_id = chain_id;
    nonce = nonce;
    max_fee_per_gas = f.max_fee_per_gas;
    max_priority_fee_per_gas = f.max_priority_fee_per_gas;
    gas_limit = gas_transfer;
    to = to;
    value = value;
    sender = key;
  }

  -- The second half of `sweep_account`, for a balance that is worth a sweep.
  unfoldable pub send_sweep : ℤ → String → ℤ → Fees → ℤ → Exec Call (Option (Json × ℤ))
  send_sweep key to chain_id f value = do
    nonce ← nonce_of (C.address key)
    let raw = C.signed_rlp (sweep_transaction key to chain_id f nonce value)
    reply ← rpc_call (eth_send_raw_transaction raw)
    hash ← lift (read_hash (C.address key) reply)
    pure (some (hash, value))

  unfoldable pub sweep_account : ℤ → String → ℤ → Fees → ℤ → Exec Call (Option (Json × ℤ))
  unfolding send_sweep
  sweep_account key to chain_id f min_sweep_wei = do
    balance ← get_balance (C.address key)
    let value = balance -ℤ reserve f
    if is_too_low balance f min_sweep_wei then pure none else send_sweep key to chain_id f value

  abbrev pub recovered_of : ℤ → Option (Json × ℤ) → List RecoveredAccount
  recovered_of key none = []
  recovered_of key (some (hash, swept)) =
      record { address = C.address key; swept_wei = swept; tx_hash = hash } ∷ []

  -- The loop of `recover_funded_eoas` over the indices from `i` on, with `n` rounds left.
  unfoldable pub scan :
      ℤ → ℕ → ℕ → String → ℤ → Fees → List RecoveredAccount → Exec Call (List RecoveredAccount)
  scan start i zero to chain_id f recovered = pure recovered
  scan start i (suc n) to chain_id f recovered = do
    let key = start +ℤ pos i
    result ← sweep_account key to chain_id f (pos 0)
    scan start (suc i) n to chain_id f (recovered ++ recovered_of key result)

  -- `reply.get("result") is None`.
  abbrev pub is_unmined : Json → Outcome Bool
  is_unmined (obj d) = ok (is_none_or_null (get "result" d))
  is_unmined _ = raised (foreign_error "AttributeError: no attribute 'get'")

  -- The hashes whose receipt is not there yet.
  unfoldable pub still_pending : List Json → Exec Call (List Json)
  still_pending [] = pure []
  still_pending (hash ∷ hashes) = rpc_call (eth_get_transaction_receipt hash) >>= λ reply.
      lift (is_unmined reply) >>= λ unmined.
      still_pending hashes >>= λ rest. pure (if unmined then hash ∷ rest else rest)

  abbrev pub pause : List Json → Exec Call (Unit {0})
  pause [] h = (ok tt, h)
  pause (hash ∷ hashes) h = (ok tt, h ++ sleep 4000 ∷ [])

  -- The loop, with a number of rounds.
  unfoldable pub await_receipts : ℕ → ℕ → List Json → Exec Call (Unit {0})
  unfolding still_pending
  await_receipts n deadline [] h = (ok tt, h)
  await_receipts zero deadline (hash ∷ hashes) h = (raised out_of_rounds, h)
  await_receipts (suc n) deadline (hash ∷ hashes) h =
      let more =
        ((still_pending (hash ∷ hashes) >>= λ left. lift (C.as_set left)) >>= λ pending.
        pause pending >> await_receipts n deadline pending)
          h in
      if ltb (C.now h) deadline then more else (ok tt, h)

  abbrev pub hashes_of : List RecoveredAccount → List Json
  hashes_of [] = []
  hashes_of (r ∷ rs) = r.tx_hash ∷ hashes_of rs

  -- `if recovered:` and the wait of 180 seconds, with a number of rounds. Each round but the last
  -- sleeps 4 seconds, so that 46 are enough.
  unfoldable pub wait_within : ℕ → List RecoveredAccount → Exec Call (Unit {0})
  unfolding await_receipts
  wait_within rounds [] h = (ok tt, h)
  wait_within rounds (r ∷ rs) h =
      continue (C.as_set (hashes_of (r ∷ rs)))
        (λ pending. await_receipts rounds (C.now h + 180000) pending) h

  unfoldable pub wait_for_receipts : List RecoveredAccount → Exec Call (Unit {0})
  unfolding wait_within
  wait_for_receipts rs = wait_within 46 rs

  -- With `wait` as it is by default.
  unfoldable pub recover_funded_eoas : ℤ → String → ℤ → ℕ → Fees → Exec Call (List RecoveredAccount)
  unfolding scan wait_for_receipts
  recover_funded_eoas start to chain_id count f =
      scan start 0 count to chain_id f [] >>= λ recovered.
      wait_for_receipts recovered >> pure recovered
