-- ===== src/Testing.antt =====
-- The types of the `execution_testing` package that the program reads. The package is not part of
-- the repository, so its objects are parameters: a type, and what the program asks of its values.
use buildoor_tester.Base.{ℕ, ℤ, Bool, Option, List, String, Outcome}
use buildoor_tester.Base.Json.{Json}

pub record Testing : Type 1 where
  -- A field's value: a number, a hash, an address, a list, or `None`.
  pub Value : Type 0
  -- `value is None`, the number if `isinstance(value, int)`, `str(value)`, `repr(value)`, `a != b`.
  pub is_none : Value → Bool
  pub as_int : Value → Option ℤ
  pub text : Value → String
  pub repr : Value → String
  pub ne : Value → Value → Bool
  -- `FixtureExecutionPayload`: the names of its fields, and `getattr(payload, name, None)`.
  pub Payload : Type 0
  pub model_fields : List String
  pub getattr : Payload → String → Value
  -- `payload.transactions`, and `int(payload.number)`.
  pub transactions : Payload → List Value
  pub number : Payload → ℕ
  -- `payload.withdrawals or []`, each with its index, validator index, address and amount.
  pub withdrawals : Payload → List (Value × Value × Value × Value)
  -- `FixtureExecutionPayload.model_validate(parsed)`.
  pub model_validate : Json → Outcome Payload

-- `FixtureEngineNewPayload`: `params` is `expected` and then `rest`; `valid` is what `valid()` says.
pub record EnginePayload (T : Testing) : Type 0 where
  pub expected : T.Payload
  pub rest : List T.Value
  pub new_payload_version : ℕ
  pub forkchoice_updated_version : ℕ
  pub valid : Bool

-- What the runner reads of a `BlockchainEngineFixture`: the fork's name, the hash of the genesis
-- block and the payloads.
pub record Fixture (T : Testing) : Type 0 where
  pub fork : String
  pub genesis_hash : T.Value
  pub payloads : List (EnginePayload T)
