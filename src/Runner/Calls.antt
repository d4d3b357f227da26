-- ===== src/Runner/Calls.antt =====
-- eest_replay/runner.py: what a replay asks of the execution client and of buildoor, as the calls
-- that it makes, and the answers that they may give.
use buildoor_tester.Base.{ℕ, Option, List, String, Outcome, ok, Exec, call, lift, ◌>>=◌}
use buildoor_tester.Base.Json.{Json}
use buildoor_tester.Buildoor.{BuildReply, build_body, read_reply, parent_beacon_root}
use buildoor_tester.Testing.{Testing, EnginePayload}

-- `PayloadStatusEnum`: the one member that the program tests for, and the text of any other.
pub data PayloadStatus : Type 0 where
  valid : PayloadStatus
  other : String → PayloadStatus

pub record ForkchoiceResponse : Type 0 where
  pub status : PayloadStatus
  pub payload_id : Option String

-- `PayloadAttributes`.
pub record Attributes (T : Testing) : Type 0 where
  pub timestamp : T.Value
  pub prev_randao : T.Value
  pub suggested_fee_recipient : T.Value
  pub withdrawals : T.Value
  pub parent_beacon_block_root : Option T.Value
  pub slot_number : T.Value

unfoldable pub payload_attributes : (T : Testing) → EnginePayload T → Attributes T
payload_attributes T p =
    let field = λ (name : String). T.getattr p.expected name in
    record {
      timestamp = field "timestamp";
      prev_randao = field "prev_randao";
      suggested_fee_recipient = field "fee_recipient";
      withdrawals = field "withdrawals";
      parent_beacon_block_root = parent_beacon_root T p;
      slot_number = field "slot_number";
    }

-- A call that leaves the process. The argument of `sleep` is in milliseconds.
pub data Call (T : Testing) : Type 0 where
  send_raw_transaction : T.Value → Call T
  forkchoice_updated : T.Value → Option (Attributes T) → ℕ → Call T
  get_payload : String → ℕ → Call T
  new_payload : T.Payload → List T.Value → ℕ → Call T
  post_build : String → Json → Call T
  sleep : ℕ → Call T

-- The other side. An answer may depend on every call made before it, and may be an exception.
pub record Node (T : Testing) : Type 0 where
  pub on_send : List (Call T) → T.Value → Outcome (Unit {0})
  pub on_forkchoice :
      List (Call T) → T.Value → Option (Attributes T) → ℕ → Outcome ForkchoiceResponse
  pub on_get_payload : List (Call T) → String → ℕ → Outcome T.Payload
  pub on_new_payload : List (Call T) → T.Payload → List T.Value → ℕ → Outcome PayloadStatus
  pub on_build : List (Call T) → String → Json → Outcome BuildReply

module _ (T : Testing) (N : Node T) where
  abbrev pub send : T.Value → Exec (Call T) (Unit {0})
  send tx = call (λ h. N.on_send h tx) (send_raw_transaction tx)

  abbrev pub forkchoice : T.Value → Option (Attributes T) → ℕ → Exec (Call T) ForkchoiceResponse
  forkchoice head attrs version =
      call (λ h. N.on_forkchoice h head attrs version) (forkchoice_updated head attrs version)

  abbrev pub fetch : String → ℕ → Exec (Call T) T.Payload
  fetch id version = call (λ h. N.on_get_payload h id version) (get_payload id version)

  abbrev pub import : T.Payload → List T.Value → ℕ → Exec (Call T) PayloadStatus
  import payload rest version =
      call (λ h. N.on_new_payload h payload rest version) (new_payload payload rest version)

  abbrev pub wait : ℕ → Exec (Call T) (Unit {0})
  wait time = call (λ h. ok tt) (sleep time)

  -- `request_build`.
  unfoldable pub request_build : String → T.Value → EnginePayload T → Exec (Call T) T.Payload
  request_build url parent_hash p = do
    let body = build_body T parent_hash p
    reply ← call (λ h. N.on_build h url body) (post_build url body)
    lift (read_reply T reply)
