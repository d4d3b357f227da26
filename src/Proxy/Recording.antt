-- ===== src/Proxy/Recording.antt =====
-- eest_replay/rpc_proxy.py: what is recorded of a request, and what the client sees of it.
use buildoor_tester.Base.{
  ◌≡◌, refl, ◌∙◌, ap, sym, inl, inr, Bool-cases, Exc, true, Option, none, some, List, [], ◌∷◌, ◌++◌,
  append-nil, append_assoc, String, Outcome, ok, raised, key_error, if◌then◌else◌,
}
use buildoor_tester.Base.Json.{Json, null, str, arr, obj, Items, nil, cons, Dict, entry, get}
use buildoor_tester.Proxy.{
  Found, record_found, nothing, transaction, breaks, of_params, is_send, of_call, calls_of,
  record_calls, extract_raw_txs, Forwarded, answered, http_error, forward_failed, bytes, encoded,
  Handled, sent, torn, failure_body, do_post,
}

-- The parameters of a call, as JSON-RPC has them by position: absent, `null` or a list.
abbrev pub ByPosition : Option Json → Type 0
ByPosition none = Unit
ByPosition (some null) = Unit
ByPosition (some (arr vs)) = Unit
ByPosition _ = ⊥

-- The transaction of one call of `eth_sendRawTransaction`, by the text of the specification: the
-- first parameter, if that is a text.
abbrev first_text : Option Json → List String
first_text (some (arr (cons (str tx) vs))) = tx ∷ []
first_text _ = []

abbrev pub sent_by : Json → List String
sent_by (obj d) = if is_send (get "method" d) then first_text (get "params" d) else []
sent_by _ = []

abbrev pub all_sent : Items → List String
all_sent nil = []
all_sent (cons c cs) = sent_by c ++ all_sent cs

abbrev pub HasPositions : Json → Type 0
HasPositions (obj d) = is_send (get "method" d) ≡ true → ByPosition (get "params" d)
HasPositions _ = Unit

abbrev pub AllPositions : Items → Type 0
AllPositions nil = Unit
AllPositions (cons c cs) = HasPositions c × AllPositions cs

module _ (rest : List String → List String × Option Exc) (recorded : List String) where
  empty_found : record_found nothing rest recorded ≡ rest (recorded ++ [])
  empty_found = ap rest (sym (append-nil recorded))

  of_params-found :
      (o : Option Json)
      → ByPosition o
      → record_found (of_params o) rest recorded ≡ rest (recorded ++ first_text o)
  unfolding of_params
  of_params-found none h = empty_found
  of_params-found (some null) h = empty_found
  of_params-found (some (arr nil)) h = empty_found
  of_params-found (some (arr (cons (str tx) vs))) h = refl
  of_params-found (some (arr (cons _ vs))) h = empty_found
  of_params-found (some _) h = absurd h

  of_call-found :
      (c : Json)
      → HasPositions c
      → record_found (of_call c) rest recorded ≡ rest (recorded ++ sent_by c)
  unfolding of_call
  of_call-found (obj d) h = elim (Bool-cases (is_send (get "method" d))) [
    | inl is ↦ rw is (of_params-found (get "params" d) (h is))
    | inr isnt ↦ rw isnt empty_found
  ]
  of_call-found _ h = empty_found

record_calls-all :
    (cs : Items) (recorded : List String)
    → AllPositions cs
    → record_calls cs recorded ≡ (recorded ++ all_sent cs, none)
unfolding record_calls
record_calls-all nil recorded h = ap (λ x. (x, none)) (sym (append-nil recorded))
record_calls-all (cons c cs) recorded h =
    of_call-found (record_calls cs) recorded c h.0
    ∙ record_calls-all cs (recorded ++ sent_by c) h.1
    ∙ ap (λ x. (x, none)) (append_assoc recorded (sent_by c) (all_sent cs))

-- What the client is to see: the answer of the other end, an `HTTPError` too, or a 502 if the
-- forwarding raised any other exception.
abbrev pub reply_of : Forwarded → Handled
reply_of (answered status content) = sent status (bytes content)
reply_of (http_error status content) = sent status (bytes content)
reply_of (forward_failed message) = sent 502 (encoded (failure_body message))

abbrev pub recorded_of : Forwarded → Items → List String
recorded_of (forward_failed message) calls = []
recorded_of _ calls = all_sent calls

-- If the forwarding gave a response or an `HTTPError`, the client sees its status and body, and what
-- is recorded, behind all that was recorded before, is the first parameter of each call of
-- `eth_sendRawTransaction` in the request for which that is a text, in the order of the batch. If it
-- raised any other exception, the client sees a 502 and nothing is recorded. It holds for requests in
-- which those calls have their parameters by position, or none.
pub do_post-recorded :
    (forwarded : Forwarded) (payload : Json) (recorded : List String)
    → AllPositions (calls_of payload)
    → do_post forwarded (ok payload) recorded
      ≡ (reply_of forwarded, recorded ++ recorded_of forwarded (calls_of payload))
unfolding do_post extract_raw_txs
do_post-recorded (forward_failed message) payload recorded h =
    ap (λ x. (reply_of (forward_failed message), x)) (sym (append-nil recorded))
do_post-recorded (answered status content) payload recorded h =
    rw (record_calls-all (calls_of payload) recorded h)
do_post-recorded (http_error status content) payload recorded h =
    rw (record_calls-all (calls_of payload) recorded h)

abbrev Grows : (List String → List String × Option Exc) → Type 0
Grows f = (recorded : List String) → (txs : List String) × ((f recorded).0 ≡ recorded ++ txs)

record_found-Grows :
    (found : Found) (rest : List String → List String × Option Exc)
    → Grows rest
    → Grows (record_found found rest)
record_found-Grows nothing rest g recorded = g recorded
record_found-Grows (transaction tx) rest g recorded =
    let (txs, e) = g (recorded ++ tx ∷ []) in (tx ∷ txs, e ∙ append_assoc recorded (tx ∷ []) txs)
record_found-Grows (breaks e) rest g recorded = ([], sym (append-nil recorded))

record_calls-Grows : (cs : Items) → Grows (record_calls cs)
unfolding record_calls
record_calls-Grows nil recorded = ([], sym (append-nil recorded))
record_calls-Grows (cons c cs) recorded =
    record_found-Grows (of_call c) (record_calls cs) (record_calls-Grows cs) recorded

-- Whatever the request, the forwarding and the parser do, the recorder's list only grows at its end: a
-- snapshot is the beginning of every later one.
pub do_post-grows :
    (forwarded : Forwarded) (loaded : Outcome Json) (recorded : List String)
    → (txs : List String) × ((do_post forwarded loaded recorded).1 ≡ recorded ++ txs)
unfolding do_post extract_raw_txs
do_post-grows (forward_failed message) loaded recorded = ([], sym (append-nil recorded))
do_post-grows (answered status content) (raised e) recorded = ([], sym (append-nil recorded))
do_post-grows (http_error status content) (raised e) recorded = ([], sym (append-nil recorded))
do_post-grows (answered status content) (ok payload) recorded =
    record_calls-Grows (calls_of payload) recorded
do_post-grows (http_error status content) (ok payload) recorded =
    record_calls-Grows (calls_of payload) recorded

abbrev pub append_items : Items → Items → Items
append_items nil ds = ds
append_items (cons c cs) ds = cons c (append_items cs ds)

record_calls-breaks :
    (cs : Items) (c : Json) (ds : Items) (e : Exc) (recorded : List String)
    → AllPositions cs
    → of_call c ≡ breaks e
    → record_calls (append_items cs (cons c ds)) recorded ≡ (recorded ++ all_sent cs, some e)
unfolding record_calls
record_calls-breaks nil c ds e recorded h is =
    ap (λ f. record_found f (record_calls ds) recorded) is
    ∙ ap (λ x. (x, some e)) (sym (append-nil recorded))
record_calls-breaks (cons b cs) c ds e recorded h is =
    of_call-found (record_calls (append_items cs (cons c ds))) recorded b h.0
    ∙ record_calls-breaks cs c ds e (recorded ++ sent_by b) h.1 is
    ∙ ap (λ x. (x, some e)) (append_assoc recorded (sent_by b) (all_sent cs))

-- The forwarding gave a response or an `HTTPError`.
abbrev pub IsAnswered : Forwarded → Type 0
IsAnswered (forward_failed message) = ⊥
IsAnswered _ = Unit

answered_raises :
    (forwarded : Forwarded) (payload : Json) (recorded txs : List String) (m : String)
    → IsAnswered forwarded
    → extract_raw_txs payload recorded ≡ (txs, some (key_error m))
    → do_post forwarded (ok payload) recorded ≡ (torn (key_error m), txs)
unfolding do_post
answered_raises (forward_failed message) payload recorded txs m is e = absurd is
answered_raises (answered status content) payload recorded txs m is e = rw e refl
answered_raises (http_error status content) payload recorded txs m is e = rw e refl

-- A request with a call of `eth_sendRawTransaction` whose parameters are a dict with an entry, in any
-- place of the batch behind calls with their parameters by position: the lookup of its key 0 raises
-- a `KeyError`, which the handler does not catch. So no response is sent, though the forwarding gave
-- one, and of the transactions of the request those before this call are recorded, and no others.
pub named_params_tear :
    (forwarded : Forwarded) (payload : Json) (cs : Items) (d : Dict) (ds : Items)
    (recorded : List String) {k : String} {v : Json} {more : Dict}
    → IsAnswered forwarded
    → calls_of payload ≡ append_items cs (cons (obj d) ds)
    → AllPositions cs
    → is_send (get "method" d) ≡ true
    → get "params" d ≡ some (obj (entry k v more))
    → do_post forwarded (ok payload) recorded ≡ (torn (key_error "0"), recorded ++ all_sent cs)
unfolding extract_raw_txs of_call of_params
named_params_tear forwarded payload cs d ds recorded is calls places send params =
    answered_raises forwarded payload recorded (recorded ++ all_sent cs) "0" is (
      ap (λ l. record_calls l recorded) calls
      ∙ record_calls-breaks cs (obj d) ds (key_error "0") recorded places
          (rw send (rw params refl)))
