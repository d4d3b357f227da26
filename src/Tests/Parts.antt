-- ===== src/Tests/Parts.antt =====
-- The proxy and the sweep at concrete inputs.
use buildoor_tester.Base.{
  ◌+◌, ◌≡◌, refl, some, List, [], ◌∷◌, ◌++◌, length, ℤ, pos, ◌timesℤ◌, ◌-ℤ◌, ◌+ℤ◌, ok, key_error,
}
use buildoor_tester.Base.Numeral.{int_of, hex, decimal}
use buildoor_tester.Base.Json.{Json, Items, Dict, str, obj, arr, nil, cons, empty, entry, get}
use buildoor_tester.Proxy.{calls_of, answered, http_error, torn, do_post}
use buildoor_tester.Proxy.Recording.{
  reply_of, recorded_of, do_post-recorded, named_params_tear, all_sent,
}
use buildoor_tester.Proxy.Threads
use buildoor_tester.Proxy.Credentials.{UrlParts, netloc_of}
use buildoor_tester.Proxy.Threads.{
  State, start, answer, next, answers, pending, one_by_one, count, Reach-counts,
}
use buildoor_tester.Sweep.{
  Call, eth_get_balance, eth_get_transaction_count, eth_send_raw_transaction,
  eth_get_transaction_receipt, RecoveredAccount, get_balance, nonce_of, read_hash, sweep_account,
  recover_funded_eoas, is_too_low, sweep_transaction,
}
use buildoor_tester.Sweep.Account.{Swept, sweep_account-Swept}
use buildoor_tester.Sweep.Recovery.{queried, sends, derived, recover-covers}
use buildoor_tester.Tests.{rich, low_fees}

abbrev send_params : Json
send_params = arr (cons (str "0x02") nil)

abbrev request : Json
request = obj (entry "method" (str "eth_sendRawTransaction") (entry "params" send_params empty))

do_post-recorded_example : do_post (answered 200 "reply") (ok request) ("0x01" ∷ []) ≡ (
  reply_of (answered 200 "reply"),
  "0x01" ∷ recorded_of (answered 200 "reply") (calls_of request),
)
unfolding get
do_post-recorded_example =
    do_post-recorded (answered 200 "reply") request ("0x01" ∷ []) ((λ _. tt), tt)

abbrev named : Dict
named =
    entry "method" (str "eth_sendRawTransaction")
      (entry "params" (obj (entry "raw" (str "0x02") empty)) empty)

abbrev named_batch : Items
named_batch = cons request (cons (obj named) nil)

-- The second call of a batch has its parameters by name.
named_params_tear_example :
    do_post (http_error 400 "reply") (ok (arr named_batch)) ("0x01" ∷ [])
    ≡ (torn (key_error "0"), ("0x01" ∷ []) ++ all_sent (cons request nil))
unfolding get
named_params_tear_example =
    named_params_tear (http_error 400 "reply") (arr named_batch) (cons request nil) named nil
      ("0x01" ∷ []) tt refl ((λ is. tt), tt) refl refl

abbrev one_request : State
one_request = answer (arr (cons request nil)) start

Reach-counts_example :
    count "0x02" one_request.recorded + count "0x02" (pending one_request)
    ≡ count "0x02" (one_by_one one_request.answered)
Reach-counts_example = Reach-counts (next Threads.here (answers (arr (cons request nil)))) "0x02"

abbrev swept_calls : List Call
swept_calls =
    eth_get_balance "0x1"
    ∷ eth_get_transaction_count "0x1"
    ∷ eth_send_raw_transaction "0xe9e30"
    ∷ []

abbrev recovery_calls : List Call
recovery_calls = swept_calls ++ eth_get_transaction_receipt (str "0xf4240") ∷ []

swept :
    sweep_account rich (pos 1) "0xto" (pos 1) low_fees (pos 0) []
    ≡ (ok (some (str "0xf4240", pos 958000)), swept_calls)
unfolding sweep_account get_balance get int_of is_too_low ◌timesℤ◌ ◌-ℤ◌ nonce_of read_hash hex
    sweep_transaction
swept = refl

sweep_account-Swept_example :
    (balance : ℤ) × (u : List Call) × (get_balance rich "0x1" [] ≡ (ok balance, u))
    × Swept rich
        (pos 1)
        "0xto"
        (pos 1)
        low_fees
        (pos 0)
        balance
        []
        (some (str "0xf4240", pos 958000))
        swept_calls
sweep_account-Swept_example =
    sweep_account-Swept rich (pos 1) "0xto" (pos 1) low_fees (pos 0) [] swept

abbrev recovered : RecoveredAccount
recovered = record { address = "0x1"; swept_wei = pos 958000; tx_hash = str "0xf4240" }

recovery :
    recover_funded_eoas rich (pos 1) "0xto" (pos 1) 1 low_fees []
    ≡ (ok (recovered ∷ []), recovery_calls)
unfolding recover_funded_eoas sweep_account get_balance get int_of is_too_low ◌timesℤ◌ ◌-ℤ◌ nonce_of
    read_hash hex ◌+ℤ◌ sweep_transaction
recovery = refl

recover-covers_example :
    (queried recovery_calls ≡ derived rich (pos 1) "0xto" (pos 1) low_fees 0 1)
    × (length (recovered ∷ []) ≡ sends recovery_calls)
recover-covers_example = recover-covers rich (pos 1) "0xto" (pos 1) low_fees 1 recovery

-- The parts of `http://user:pass@[::1]:8545`: the brackets of the host are lost.
abbrev local_parts : UrlParts
local_parts = record {
  scheme = "http";
  username = some "user";
  password = some "pass";
  hostname = some "::1";
  port = some 8545;
  path = "";
  query = "";
  fragment = "";
}

netloc_of-local_parts : netloc_of local_parts ≡ "::1:8545"
unfolding netloc_of decimal
netloc_of-local_parts = refl
