-- ===== src/Runner/Drive.antt =====
-- eest_replay/runner.py: `_drive_chain` and `_submit_mempool`. An early return of the loop is a
-- `stop` with the result to return.
use buildoor_tester.Base.{
  ℕ, suc, Option, none, some, List, [], ◌∷◌, ◌++◌, String, ◌<>◌, pos, index_error, Exec, pure, fail,
  ◌>>=◌, ◌>>◌, if◌then◌else◌,
}
use buildoor_tester.Base.Numeral.{decimal}
use buildoor_tester.Testing.{Testing, EnginePayload, Fixture}
use buildoor_tester.Runner.Results.{BlockResult, FixtureResult, block_result}
use buildoor_tester.Runner.Calls.{
  PayloadStatus, valid, other, Call, Node, payload_attributes, send, forkchoice, fetch, import,
  wait, request_build,
}

-- A result as the constructor call gives it: the fork and the time are filled in later.
abbrev pub result : String → List BlockResult → Option String → FixtureResult
result test_id blocks error = record {
  test_id = test_id;
  blocks = blocks;
  error = error;
  fork = none;
  elapsed_ms = 0;
}

-- What the loop reads besides the fixture.
pub record Settings : Type 0 where
  pub test_id : String
  pub payload_version : ℕ
  pub payload_build_time_ms : ℕ
  pub buildoor_base_url : Option String

-- What one round of the loop does: it returns from the function, or the loop goes on.
pub data Verdict : Type 0 where
  stop : FixtureResult → Verdict
  go : List BlockResult → Verdict

pub data Built (T : Testing) : Type 0 where
  failed : String → Built T
  built : T.Payload → Built T

unfoldable pub block_name : ℕ → String
block_name idx = "(block " <> (decimal (pos idx) <> ")")

module _ (T : Testing) (N : Node T) (s : Settings) where
  unfoldable pub submit_mempool : List T.Value → Exec (Call T) (Unit {0})
  submit_mempool [] = pure tt
  submit_mempool (tx ∷ txs) = do send T N tx; submit_mempool txs

  unfoldable pub fetch_built : Option String → ℕ → Exec (Call T) (Built T)
  fetch_built none idx = pure (failed ("fcu " <> (block_name idx <> " returned no payloadId")))
  fetch_built (some id) idx = do
    wait T N s.payload_build_time_ms
    p ← fetch T N id s.payload_version
    pure (built p)

  unfoldable pub after_forkchoice : PayloadStatus → Option String → ℕ → Exec (Call T) (Built T)
  after_forkchoice (other status) id idx =
      pure (failed ("fcu " <> (block_name idx <> (" not VALID: " <> status))))
  after_forkchoice valid id idx = fetch_built id idx

  -- The block comes from buildoor if its URL is given, and from the engine otherwise.
  unfoldable pub obtain : Option String → EnginePayload T → ℕ → Exec (Call T) (Built T)
  obtain (some url) p idx = do
    b ← request_build T N url (T.getattr p.expected "parent_hash") p
    pure (built b)
  obtain none p idx = do
    let attrs = payload_attributes T p
    r ←
        forkchoice T N (T.getattr p.expected "parent_hash") (some attrs)
          p.forkchoice_updated_version
    after_forkchoice r.status r.payload_id idx

  unfoldable pub after_advance : PayloadStatus → ℕ → Option String
  after_advance (other status) idx =
      some ("fcu advance " <> (block_name idx <> (" not VALID: " <> status)))
  after_advance valid idx = none

  unfoldable pub after_import : PayloadStatus → EnginePayload T → ℕ → Exec (Call T) (Option String)
  after_import (other status) p idx =
      pure (some ("newPayload " <> (block_name idx <> (" not VALID: " <> status))))
  after_import valid p idx = do
    r ← forkchoice T N (T.getattr p.expected "block_hash") none p.forkchoice_updated_version
    pure (after_advance r.status idx)

  -- Advance the chain along the expected block. An answer is the error to return with.
  unfoldable pub advance : EnginePayload T → ℕ → Exec (Call T) (Option String)
  advance p idx = do
    status ← import T N p.expected p.rest p.new_payload_version
    after_import status p idx

  unfoldable pub verdict : List BlockResult → Option String → Verdict
  verdict blocks none = go blocks
  verdict blocks (some error) = stop (result s.test_id blocks (some error))

  unfoldable pub compare_and_advance :
      Built T → EnginePayload T → ℕ → List BlockResult → Exec (Call T) Verdict
  compare_and_advance (failed error) p idx blocks =
      pure (stop (result s.test_id blocks (some error)))
  compare_and_advance (built b) p idx blocks = do
    let blocks' = blocks ++ block_result T b p.expected ∷ []
    error ← advance p idx
    pure (verdict blocks' error)

  -- One round of the loop, for a payload that is valid.
  unfoldable pub drive_block : EnginePayload T → ℕ → List BlockResult → Exec (Call T) Verdict
  unfolding compare_and_advance verdict advance after_import after_advance obtain after_forkchoice
      fetch_built
  drive_block p idx blocks = do
    submit_mempool (T.transactions p.expected)
    b ← obtain s.buildoor_base_url p idx
    compare_and_advance b p idx blocks

  abbrev pub after_block :
      (List BlockResult → Exec (Call T) FixtureResult) → Verdict → Exec (Call T) FixtureResult
  after_block rest (stop r) = pure r
  after_block rest (go blocks) = rest blocks

  unfoldable pub drive_blocks :
      List (EnginePayload T) → ℕ → List BlockResult → Exec (Call T) FixtureResult
  drive_blocks [] idx blocks = pure (result s.test_id blocks none)
  drive_blocks (p ∷ ps) idx blocks =
      let skipped = drive_blocks ps (suc idx) blocks in
      let driven : Exec (Call T) FixtureResult =
        drive_block p idx blocks >>= after_block (drive_blocks ps (suc idx)) in
      if p.valid then driven else skipped

  unfoldable pub after_bootstrap :
      PayloadStatus → List (EnginePayload T) → Exec (Call T) FixtureResult
  after_bootstrap (other status) ps =
      pure (result s.test_id [] (some ("bootstrap forkchoiceUpdated not VALID: " <> status)))
  after_bootstrap valid ps = drive_blocks ps 0 []

  abbrev pub first_version : List (EnginePayload T) → Exec (Call T) ℕ
  first_version [] = fail (index_error "list index out of range")
  first_version (p ∷ ps) = pure p.forkchoice_updated_version

  unfoldable pub drive_chain : Fixture T → Exec (Call T) FixtureResult
  unfolding after_bootstrap drive_blocks
  drive_chain f = do
    version ← first_version f.payloads
    r ← forkchoice T N f.genesis_hash none version
    after_bootstrap r.status f.payloads
