-- ===== src/Proxy.antt =====
-- eest_replay/rpc_proxy.py: what the recording proxy does with one request. The requests that run
-- at once are in `Threads`.
pub mod Credentials
pub mod Recording
pub mod Threads
use buildoor_tester.Base.{
  ℕ, zero, suc, Bool, true, false, Option, none, some, List, [], ◌∷◌, ◌++◌, String, ◌<>◌, str_eq,
  pos, negsuc, Outcome, ok, raised, Exc, runtime_error, value_error, key_error, index_error,
  type_error, file_not_found, usage_error, foreign_error, if◌then◌else◌,
}
use buildoor_tester.Base.Json.{
  Json, null, boolean, num, str, arr, obj, Items, nil, cons, Dict, empty, entry, get,
}

-- The first character of a text, as `text[0]` gives it.
abbrev first_char : String → String
first_char String.[] = ""
first_char (String.◌∷◌ c s) = String.◌∷◌ c String.[]

-- What `params[0]` and the test on it come to: nothing to record, a text to record, an exception.
pub data Found : Type 0 where
  nothing : Found
  transaction : String → Found
  breaks : Exc → Found

abbrev pub of_first : Json → Found
of_first (str tx) = transaction tx
of_first _ = nothing

-- `params = call.get("params") or []`, then `if params and isinstance(params[0], str)`. A value
-- that is false counts as the empty list; a dict has no key 0; a number cannot be indexed.
unfoldable pub of_params : Option Json → Found
of_params none = nothing
of_params (some null) = nothing
of_params (some (boolean false)) = nothing
of_params (some (boolean true)) = breaks (type_error "'bool' object is not subscriptable")
of_params (some (num (pos zero))) = nothing
of_params (some (num (pos (suc n)))) = breaks (type_error "'int' object is not subscriptable")
of_params (some (num (negsuc n))) = breaks (type_error "'int' object is not subscriptable")
of_params (some (str String.[])) = nothing
of_params (some (str (String.◌∷◌ c s))) = transaction (String.◌∷◌ c String.[])
of_params (some (arr nil)) = nothing
of_params (some (arr (cons v vs))) = of_first v
of_params (some (obj empty)) = nothing
of_params (some (obj (entry k v d))) = breaks (key_error "0")

-- `call.get("method") == "eth_sendRawTransaction"`.
abbrev pub is_send : Option Json → Bool
is_send (some (str m)) = str_eq m "eth_sendRawTransaction"
is_send _ = false

unfoldable pub of_call : Json → Found
unfolding of_params
of_call (obj d) = if is_send (get "method" d) then of_params (get "params" d) else nothing
of_call _ = nothing

-- `payload if isinstance(payload, list) else [payload]`.
abbrev pub calls_of : Json → Items
calls_of (arr calls) = calls
calls_of j = cons j nil

abbrev pub record_found :
    Found → (List String → List String × Option Exc) → List String → List String × Option Exc
record_found nothing rest recorded = rest recorded
record_found (transaction tx) rest recorded = rest (recorded ++ tx ∷ [])
record_found (breaks e) rest recorded = (recorded, some e)

-- The loop of `_extract_raw_txs`. What was recorded before an exception stays recorded.
unfoldable pub record_calls : Items → List String → List String × Option Exc
record_calls nil recorded = (recorded, none)
record_calls (cons c cs) recorded = record_found (of_call c) (record_calls cs) recorded

unfoldable pub extract_raw_txs : Json → List String → List String × Option Exc
unfolding record_calls
extract_raw_txs payload recorded = record_calls (calls_of payload) recorded

-- How the forwarding went: a response, an `HTTPError` with its body, or any other exception. An
-- `HTTPError` may come from a gateway before the node, and another exception, such as a time-out, may
-- come after the node has received the request.
pub data Forwarded : Type 0 where
  answered : ℕ → String → Forwarded
  http_error : ℕ → String → Forwarded
  forward_failed : String → Forwarded

pub data Body : Type 0 where
  bytes : String → Body
  encoded : Json → Body

-- A handled request: a response was sent, or an exception left the handler before it.
pub data Handled : Type 0 where
  sent : ℕ → Body → Handled
  torn : Exc → Handled

-- The body of the 502 reply.
abbrev pub failure_body : String → Json
failure_body message = obj (
    entry "jsonrpc" (str "2.0") (
      entry "id" null (
        entry "error"
          (obj (
            entry "code" (num (negsuc 31999))
              (entry "message" (str ("proxy forward failed: " <> message)) empty)))
          empty)))

-- `except (ValueError, TypeError): pass`.
abbrev pub swallowed : Exc → Bool
swallowed (value_error m) = true
swallowed (type_error m) = true
swallowed _ = false

abbrev pub respond : ℕ → String → Option Exc → Handled
respond status content none = sent status (bytes content)
respond status content (some e) = if swallowed e then sent status (bytes content) else torn e

-- `json.loads(body)` is the outcome of a parser that the program does not implement.
unfoldable pub record_and_respond : Outcome Json → ℕ → String → List String → Handled × List String
record_and_respond (raised e) status content recorded = (respond status content (some e), recorded)
record_and_respond (ok payload) status content recorded =
    let (recorded', e) = extract_raw_txs payload recorded in (respond status content e, recorded')

-- `do_POST`: the response and the recorder's list after it.
unfoldable pub do_post : Forwarded → Outcome Json → List String → Handled × List String
unfolding record_and_respond
do_post (forward_failed message) loaded recorded =
    (sent 502 (encoded (failure_body message)), recorded)
do_post (answered status content) loaded recorded =
    record_and_respond loaded status content recorded
do_post (http_error status content) loaded recorded =
    record_and_respond loaded status content recorded
