-- ===== src/Runner/Blocks.antt =====
-- eest_replay/runner.py: what `_drive_chain` promises of its calls and its results.
use buildoor_tester.Base.{
  ℕ, suc, ◌≡◌, ◌≢◌, refl, ◌∙◌, ap, sym, subst, ◌⊎◌, true, Option, none, some, List, [], ◌∷◌, ◌++◌,
  map, take, length, String, ok, arith, append-nil, append_assoc, map-append, >>=-eq-ok, Bool-cases,
  inl, inr,
}
use buildoor_tester.Testing.{Testing, EnginePayload, Fixture}
use buildoor_tester.Runner.Results.{BlockResult, FixtureResult, block_result}
use buildoor_tester.Runner.Calls.{
  Call, forkchoice_updated, forkchoice, Node, PayloadStatus, valid, other,
}
use buildoor_tester.Runner.Drive.{
  Settings, drive_blocks, drive_chain, first_version, after_bootstrap,
}
use buildoor_tester.Runner.Round.{RoundStopped, drive_block-go, drive_block-stop}
use buildoor_tester.Runner.Asked.{forget_id}
use buildoor_tester.Runner.Order.{
  valid_payloads, blocks_plan, numbers, block_numbers, Complete, drive_blocks-Complete,
  drive_blocks-valid,
}

module _ (T : Testing) where
  -- The first call makes the genesis block the head, by the version of the first payload.
  abbrev pub bootstrap_plan : Fixture T → List (EnginePayload T) → List (Call T)
  bootstrap_plan f [] = []
  bootstrap_plan f (p ∷ ps) =
      forkchoice_updated f.genesis_hash none p.forkchoice_updated_version ∷ []

module _ (T : Testing) (N : Node T) (s : Settings) where
  pub after_bootstrap-fine :
      (status : PayloadStatus) (ps : List (EnginePayload T)) (h : List (Call T)) {r : FixtureResult}
      {t : List (Call T)}
      → after_bootstrap T N s status ps h ≡ (ok r, t)
      → r.error ≡ none
      → drive_blocks T N s ps 0 [] h ≡ (ok r, t)
  unfolding after_bootstrap
  after_bootstrap-fine valid ps h e fine = e
  after_bootstrap-fine (other x) ps h e fine = ground arith

  bootstrap :
      (f : Fixture T) (ps : List (EnginePayload T)) (h : List (Call T)) {version : ℕ}
      {u : List (Call T)}
      → first_version T N s ps h ≡ (ok version, u)
      → (u ≡ h) × (forkchoice_updated f.genesis_hash none version ∷ [] ≡ bootstrap_plan T f ps)
  bootstrap f [] h e = cc
  bootstrap f (p ∷ ps) h e = ground arith

  drive_chain-Complete :
      (f : Fixture T) (h : List (Call T)) {r : FixtureResult} {t : List (Call T)}
      → drive_chain T N s f h ≡ (ok r, t)
      → r.error ≡ none
      → Complete T N s f.payloads [] (h ++ bootstrap_plan T f f.payloads) r t
  unfolding drive_chain
  drive_chain-Complete f h {r} {t} e fine =
      let (version, u, first, rest) = >>=-eq-ok (first_version T N s f.payloads) _ h e in
      let (response, v, second, third) =
        >>=-eq-ok (forkchoice T N f.genesis_hash none version) _ u rest in
      let done =
        drive_blocks-Complete T N s f.payloads 0 [] v
          (after_bootstrap-fine response.status f.payloads v third fine) fine in
      let (same, plan) = bootstrap f f.payloads h first in
      let start : v ≡ h ++ bootstrap_plan T f f.payloads =
        sym (ap (λ q. q.1) second)
        ∙ ap (λ x. x ++ forkchoice_updated f.genesis_hash none version ∷ []) same
        ∙ ap (λ x. h ++ x) plan in
      subst (λ x. Complete T N s f.payloads [] x r t) start done

  map-forget_bootstrap :
      (f : Fixture T) (ps : List (EnginePayload T)) (h : List (Call T))
      → map forget_id (h ++ bootstrap_plan T f ps) ≡ map forget_id h ++ bootstrap_plan T f ps
  map-forget_bootstrap f [] h = map-append forget_id h []
  map-forget_bootstrap f (p ∷ ps) h = map-append forget_id h _

  -- A replay that returned without an error has made exactly the calls of the plan, in this order,
  -- whatever the client and buildoor answered and built: the bootstrap call, and for each valid
  -- payload its transactions, the request for a block, the import of the expected block and the
  -- step to it. Payload names, which the engine chooses, are left out on both sides.
  pub drive_chain-calls :
      (f : Fixture T) (h : List (Call T)) {r : FixtureResult} {t : List (Call T)}
      → drive_chain T N s f h ≡ (ok r, t)
      → r.error ≡ none
      → map forget_id t
        ≡ map forget_id h ++ (bootstrap_plan T f f.payloads ++ blocks_plan T s f.payloads)
  drive_chain-calls f h e fine =
      (drive_chain-Complete f h e fine).planned
      ∙ ap (λ x. x ++ blocks_plan T s f.payloads) (map-forget_bootstrap f f.payloads h)
      ∙ append_assoc (map forget_id h) _ _

  -- `r` reports on the first valid payloads in their order, and on all of them if it has no error.
  abbrev pub Reports : List (EnginePayload T) → List BlockResult → FixtureResult → Type 0
  Reports ps blocks r =
      (k : ℕ) × (block_numbers r.blocks ≡ block_numbers blocks ++ take k (numbers T ps))
      × (r.error ≡ none → k ≡ length (valid_payloads T ps))

  Reports-stopped :
      (p : EnginePayload T) (ps : List (EnginePayload T)) (blocks : List BlockResult)
      (r : FixtureResult)
      → p.valid ≡ true
      → RoundStopped T N s p blocks r
      → Reports (p ∷ ps) blocks r
  Reports-stopped p ps blocks r v (bad, inl same) =
      (0, ap block_numbers same ∙ sym (append-nil _), λ fine. absurd (cc (fine, bad)))
  Reports-stopped p ps blocks r v (bad, inr (c, same)) =
      unfold block_result in
      (
        1,
        simp v (ap block_numbers same ∙ map-append (λ b. b.block_number) blocks _),
        λ fine. absurd (cc (fine, bad)),
      )

  Reports-driven :
      (p : EnginePayload T) (ps : List (EnginePayload T)) (blocks blocks' : List BlockResult)
      (c : T.Payload) (r : FixtureResult)
      → p.valid ≡ true
      → blocks' ≡ blocks ++ block_result T c p.expected ∷ []
      → Reports ps blocks' r
      → Reports (p ∷ ps) blocks r
  unfolding block_result
  Reports-driven p ps blocks blocks' c r v same (k, shown, all) = (
    suc k,
    simp v (
        shown
        ∙ ap (λ x. block_numbers x ++ take k (numbers T ps)) same
        ∙ rw (map-append, append_assoc)),
    λ fine. simp v (ap suc (all fine)),
  )

  drive_blocks-Reports :
      (ps : List (EnginePayload T)) (idx : ℕ) (blocks : List BlockResult) (h : List (Call T))
      {r : FixtureResult} {t : List (Call T)}
      → drive_blocks T N s ps idx blocks h ≡ (ok r, t)
      → Reports ps blocks r
  drive_blocks-Reports [] idx blocks h e =
      unfold drive_blocks in (0, ground (arith, append-nil (block_numbers blocks)), λ _. refl)
  drive_blocks-Reports (p ∷ ps) idx blocks h {r} {t} e = elim (Bool-cases p.valid) [
    | inr v ↦
        let e' : drive_blocks T N s ps (suc idx) blocks h ≡ (ok r, t) =
          unfold drive_blocks in simp v at e in
        simp v (drive_blocks-Reports ps (suc idx) blocks h e')
    | inl v ↦ elim (drive_blocks-valid T N s p ps idx blocks h v e) [
      | inl stopped ↦
          Reports-stopped p ps blocks r v (drive_block-stop T N s p idx blocks h stopped)
      | inr (blocks', u, first, rest) ↦
          let (c, _, same, _) = drive_block-go T N s p idx blocks h first in
          Reports-driven p ps blocks blocks' c r v same
            (drive_blocks-Reports ps (suc idx) blocks' u rest)
    ]
  ]

  after_bootstrap-Reports :
      (status : PayloadStatus) (ps : List (EnginePayload T)) (h : List (Call T)) {r : FixtureResult}
      {t : List (Call T)}
      → after_bootstrap T N s status ps h ≡ (ok r, t)
      → Reports ps [] r
  unfolding after_bootstrap
  after_bootstrap-Reports valid ps h e = drive_blocks-Reports ps 0 [] h e
  after_bootstrap-Reports (other x) ps h e = (0, ground arith, λ fine. ground arith)

  told_apart : {n : ℕ} (k : ℕ) (o : Option String) → (o ≡ none → k ≡ n) → (k ≡ n) ⊎ (o ≢ none)
  told_apart k none all = inl (all refl)
  told_apart k (some e) all = inr (λ no. cc no)

  -- Whatever the outcome of a replay that returned, its block results are numbered as the first k
  -- valid payloads of the fixture, in their order, and as all of them if there is no error.
  pub drive_chain-Reports :
      (f : Fixture T) (h : List (Call T)) {r : FixtureResult} {t : List (Call T)}
      → drive_chain T N s f h ≡ (ok r, t)
      → (k : ℕ) × (block_numbers r.blocks ≡ take k (numbers T f.payloads))
        × ((k ≡ length (valid_payloads T f.payloads)) ⊎ (r.error ≢ none))
  unfolding drive_chain
  drive_chain-Reports f h {r} e =
      let (version, u, _, rest) = >>=-eq-ok (first_version T N s f.payloads) _ h e in
      let (response, v, _, third) =
        >>=-eq-ok (forkchoice T N f.genesis_hash none version) _ u rest in
      let (k, shown, all) = after_bootstrap-Reports response.status f.payloads v third in
      (k, shown, told_apart k r.error all)
