-- ===== src/Buildoor.antt =====
-- eest_replay/buildoor_client.py: the request that `request_build` posts, and how its reply is read.
use buildoor_tester.Base.{
  suc, ◌&&◌, Option, none, some, List, [], ◌∷◌, String, ◌<>◌, starts_with, ℤ, leb, length,
  get_elem?, Outcome, raised, runtime_error, key_error, type_error, if◌then◌else◌,
}
use buildoor_tester.Base.Numeral.{hex, decimal}
use buildoor_tester.Base.Json.{Json, str, arr, obj, Items, nil, cons, empty, entry, get}
use buildoor_tester.Testing.{Testing, EnginePayload}

-- The answer to a POST: a body that was parsed, or an `HTTPError` with its code and its text.
pub data BuildReply : Type 0 where
  replied : Json → BuildReply
  http_error : ℤ → String → BuildReply

module _ (T : Testing) where
  open T use {Value, Payload, getattr}

  -- `payload.params[2]`, if the method's version has it and it is there.
  unfoldable pub parent_beacon_root : EnginePayload T → Option Value
  parent_beacon_root p =
      if leb 3 p.forkchoice_updated_version && leb 3 (suc (length p.rest))
      then get_elem? p.rest 1
      else none

  abbrev hex_text : String → String
  hex_text s = if starts_with s "0x" then s else "0x" <> s

  abbrev hex_known : Value → Option ℤ → String
  hex_known v none = hex_text (T.text v)
  hex_known v (some n) = hex n

  -- `_hex`.
  unfoldable pub hex_value : Value → String
  hex_value v = if T.is_none v then "0x0" else hex_known v (T.as_int v)

  abbrev beacon_field : Option Value → String
  beacon_field none = ""
  beacon_field (some v) = if T.is_none v then "" else hex_value v

  withdrawal_entries : List (Value × Value × Value × Value) → Items
  withdrawal_entries [] = nil
  withdrawal_entries ((index, validator_index, address, amount) ∷ ws) =
      cons
        (obj (
          entry "index" (str (hex_value index)) (
            entry "validator_index" (str (hex_value validator_index)) (
              entry "address" (str (hex_value address))
                (entry "amount" (str (hex_value amount)) empty)))))
        (withdrawal_entries ws)

  -- The body of the POST to /build.
  unfoldable pub build_body : Value → EnginePayload T → Json
  unfolding parent_beacon_root hex_value withdrawal_entries
  build_body parent_hash p =
      let field = λ (name : String). getattr p.expected name in
      let slot = field "slot_number" in
      obj (
        entry "parent_hash" (str (T.text parent_hash)) (
          entry "timestamp" (str (hex_value (field "timestamp"))) (
            entry "prev_randao" (str (hex_value (field "prev_randao"))) (
              entry "suggested_fee_recipient" (str (hex_value (field "fee_recipient"))) (
                entry "parent_beacon_block_root" (str (beacon_field (parent_beacon_root p))) (
                  entry "slot_number" (str (if T.is_none slot then "0x0" else hex_value slot)) (
                    entry "target_gas_limit" (str "0x0") (
                      entry "withdrawals" (arr (withdrawal_entries (T.withdrawals p.expected)))
                        empty))))))))

  abbrev payload_of : Option Json → Outcome Payload
  payload_of none = raised (key_error "execution_payload")
  payload_of (some v) = T.model_validate v

  -- What `request_build` makes of the reply.
  unfoldable pub read_reply : BuildReply → Outcome Payload
  read_reply (http_error status detail) =
      raised (runtime_error ("buildoor /build returned " <> (decimal status <> (": " <> detail))))
  read_reply (replied (obj d)) = payload_of (get "execution_payload" d)
  read_reply (replied _) = raised (type_error "the reply is not an object")
