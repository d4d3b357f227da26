-- ===== src/Runner/Asked.antt =====
-- eest_replay/runner.py: the calls of the parts of one round of the loop of `_drive_chain`.
use buildoor_tester.Base.{
  ℕ, ◌≡◌, ◌∙◌, ap, sym, Option, none, some, List, [], ◌∷◌, ◌++◌, map, String, ok, arith, append-nil,
  append_assoc, >>=-eq-ok,
}
use buildoor_tester.Testing.{Testing, EnginePayload}
use buildoor_tester.Buildoor.{build_body}
use buildoor_tester.Runner.Calls.{
  Call, send_raw_transaction, forkchoice_updated, get_payload, new_payload, post_build, sleep, send,
  forkchoice, Node, payload_attributes, request_build, PayloadStatus, valid, other,
}
use buildoor_tester.Runner.Drive.{
  Settings, built, submit_mempool, obtain, advance, after_import, after_advance, after_forkchoice,
  fetch_built,
}

-- The name of a payload is the engine's choice, and the plan does not know it.
abbrev pub forget_id : {T : Testing} → Call T → Call T
forget_id (get_payload id version) = get_payload "" version
forget_id c = c

module _ (T : Testing) (s : Settings) where
  open T use {getattr}

  -- The calls that ask for one block.
  abbrev pub build_plan : Option String → EnginePayload T → List (Call T)
  build_plan none p =
      forkchoice_updated (getattr p.expected "parent_hash") (some (payload_attributes T p))
        p.forkchoice_updated_version
      ∷ sleep s.payload_build_time_ms
      ∷ get_payload "" s.payload_version
      ∷ []
  build_plan (some url) p = post_build url (build_body T (getattr p.expected "parent_hash") p) ∷ []

  -- The calls for one payload: its transactions, the build, and the step along the expected block.
  abbrev pub block_plan : EnginePayload T → List (Call T)
  block_plan p =
      map send_raw_transaction (T.transactions p.expected)
      ++ (build_plan s.buildoor_base_url p
          ++ (new_payload p.expected p.rest p.new_payload_version
              ∷ forkchoice_updated (getattr p.expected "block_hash") none
                  p.forkchoice_updated_version
              ∷ []))

  -- The same with the payload's name, as the calls have it.
  abbrev pub build_calls : Option String → String → EnginePayload T → List (Call T)
  build_calls none id p =
      forkchoice_updated (getattr p.expected "parent_hash") (some (payload_attributes T p))
        p.forkchoice_updated_version
      ∷ sleep s.payload_build_time_ms
      ∷ get_payload id s.payload_version
      ∷ []
  build_calls (some url) id p =
      post_build url (build_body T (getattr p.expected "parent_hash") p) ∷ []

  abbrev pub advance_calls : EnginePayload T → List (Call T)
  advance_calls p =
      new_payload p.expected p.rest p.new_payload_version
      ∷ forkchoice_updated (getattr p.expected "block_hash") none p.forkchoice_updated_version
      ∷ []

module _ (T : Testing) (N : Node T) (s : Settings) where
  pub submit_mempool-calls :
      (txs : List T.Value) (h : List (Call T)) {u : Unit {0}} {t : List (Call T)}
      → submit_mempool T N s txs h ≡ (ok u, t)
      → t ≡ h ++ map send_raw_transaction txs
  unfolding submit_mempool
  submit_mempool-calls [] h e = sym (ap (λ p. p.1) e) ∙ sym (append-nil h)
  submit_mempool-calls (tx ∷ txs) h e =
      let (_, u, first, rest) = >>=-eq-ok (send T N tx) (λ _. submit_mempool T N s txs) h e in
      submit_mempool-calls txs u rest
      ∙ ap (λ r. r ++ map send_raw_transaction txs) (sym (ap (λ p. p.1) first))
      ∙ append_assoc h (send_raw_transaction tx ∷ []) (map send_raw_transaction txs)

  after_forkchoice-calls :
      (status : PayloadStatus) (id : Option String) (idx : ℕ) (h : List (Call T)) {b : T.Payload}
      {t : List (Call T)}
      → after_forkchoice T N s status id idx h ≡ (ok (built b), t)
      → (i : String) × (t
          ≡ h ++ sleep s.payload_build_time_ms ∷ get_payload i s.payload_version ∷ [])
  unfolding after_forkchoice fetch_built
  after_forkchoice-calls (other status) id idx h e = cc
  after_forkchoice-calls valid none idx h e = cc
  after_forkchoice-calls valid (some i) idx h e = (
    i,
    ground (
      arith,
      append_assoc h (sleep s.payload_build_time_ms ∷ [])
          (let g : Call T = get_payload i s.payload_version in g ∷ []),
    ),
  )

  pub obtain-calls :
      (url : Option String) (p : EnginePayload T) (idx : ℕ) (h : List (Call T)) {b : T.Payload}
      {t : List (Call T)}
      → obtain T N s url p idx h ≡ (ok (built b), t)
      → (id : String) × (t ≡ h ++ build_calls T s url id p)
  unfolding obtain request_build
  obtain-calls none p idx h e =
      let head = T.getattr p.expected "parent_hash" in
      let asked =
        forkchoice_updated head (some (payload_attributes T p)) p.forkchoice_updated_version in
      let (r, u, first, rest) =
        >>=-eq-ok (forkchoice T N head (some (payload_attributes T p)) p.forkchoice_updated_version)
          (λ r. after_forkchoice T N s r.status r.payload_id idx) h e in
      let (id, shape) = after_forkchoice-calls r.status r.payload_id idx u rest in
      (
        id,
        shape
            ∙ ap (λ v. v ++ sleep s.payload_build_time_ms ∷ get_payload id s.payload_version ∷ [])
                (sym (ap (λ q. q.1) first))
            ∙ append_assoc h (asked ∷ []) _,
      )
  obtain-calls (some url) p idx h e = ("", ground arith)

  pub advance-calls :
      (p : EnginePayload T) (idx : ℕ) (h : List (Call T)) {t : List (Call T)}
      → advance T N s p idx h ≡ (ok none, t)
      → t ≡ h ++ advance_calls T s p
  unfolding advance after_import after_advance
  advance-calls p idx h e = ground (
    arith,
    append_assoc h (new_payload p.expected p.rest p.new_payload_version ∷ []) (
        forkchoice_updated (T.getattr p.expected "block_hash") none p.forkchoice_updated_version
        ∷ []),
  )
