-- ===== src/Runner/Results.antt =====
-- eest_replay/runner.py: the results of a replay, the comparison of payloads, and the versions of
-- the engine's methods.
use buildoor_tester.Base.{
  ℕ, Bool, ◌&&◌, ◌||◌, Option, none, some, get_or, List, [], ◌∷◌, String, ◌<>◌, str_eq, is_none,
  is_empty, all_of, Outcome, ok, raised, index_error, if◌then◌else◌,
}
use buildoor_tester.Testing.{Testing, EnginePayload, Fixture}

pub record BlockResult : Type 0 where
  pub block_number : ℕ
  pub matched : Bool
  pub mismatches : List String

-- The elapsed time in milliseconds: the source rounds seconds to three places.
pub record FixtureResult : Type 0 where
  pub test_id : String
  pub blocks : List BlockResult
  pub error : Option String
  pub fork : Option String
  pub elapsed_ms : ℕ

-- The property `passed`.
unfoldable pub passed : FixtureResult → Bool
passed r = is_none r.error && all_of (λ b. b.matched) r.blocks

abbrev pub get_payload_version_by_fork : List (String × ℕ)
get_payload_version_by_fork =
    ("Paris", 1)
    ∷ ("Shanghai", 2)
    ∷ ("Cancun", 3)
    ∷ ("Prague", 4)
    ∷ ("Osaka", 5)
    ∷ ("Amsterdam", 6)
    ∷ []

abbrev pub version_of : String → List (String × ℕ) → Option ℕ
version_of k [] = none
version_of k ((j, v) ∷ m) = if str_eq j k then some v else version_of k m

abbrev pub is_builder_picked : String → Bool
is_builder_picked field =
    str_eq field "gas_limit" || str_eq field "extra_data" || str_eq field "block_hash"

module _ (T : Testing) where
  open T use {Value, Payload, getattr, ne, repr, model_fields}

  -- `fixture.payloads[0].new_payload_version` is read before the table is asked.
  abbrev default_version : List (EnginePayload T) → Outcome ℕ
  default_version [] = raised (index_error "list index out of range")
  default_version (p ∷ ps) = ok p.new_payload_version

  abbrev version_or : Option ℕ → Outcome ℕ → Outcome ℕ
  version_or o (raised e) = raised e
  version_or o (ok d) = ok (get_or o d)

  unfoldable pub get_payload_version : Fixture T → Outcome ℕ
  get_payload_version f =
      version_or (version_of f.fork get_payload_version_by_fork) (default_version f.payloads)

  -- The loop of `_diff_payload` over the fields that are left.
  unfoldable pub diff_fields : Payload → Payload → List String → List String
  diff_fields built expected [] = []
  diff_fields built expected (field ∷ fields) =
      let rest = diff_fields built expected fields in
      let bv = getattr built field in
      let ev = getattr expected field in
      let message = field <> (": expected " <> (repr ev <> (", got " <> repr bv))) in
      if is_builder_picked field then rest else if ne bv ev then message ∷ rest else rest

  unfoldable pub diff_payload : Payload → Payload → List String
  unfolding diff_fields
  diff_payload built expected = diff_fields built expected model_fields

  unfoldable pub block_result : Payload → Payload → BlockResult
  block_result built expected =
      let mismatches = diff_payload built expected in
      record {
        block_number = T.number expected;
        matched = is_empty mismatches;
        mismatches = mismatches;
      }
