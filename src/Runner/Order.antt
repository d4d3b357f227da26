-- ===== src/Runner/Order.antt =====
-- eest_replay/runner.py: the calls of a whole replay, in their order, and its results.
use buildoor_tester.Base.{
  ℕ, suc, ◌≡◌, refl, ◌∙◌, ap, true, false, Option, none, some, ◌⊎◌, List, [], ◌∷◌, ◌++◌, map, flat,
  keep, length, String, ok, arith, append-nil, append_assoc, map-append, >>=-eq-ok, Bool-cases, inl,
  inr,
}
use buildoor_tester.Testing.{Testing, EnginePayload}
use buildoor_tester.Runner.Results.{BlockResult, FixtureResult, block_result}
use buildoor_tester.Runner.Calls.{Call, send_raw_transaction, Node}
use buildoor_tester.Runner.Drive.{
  Settings, Verdict, stop, go, drive_block, drive_blocks, after_block,
}
use buildoor_tester.Runner.Round.{RoundDone, drive_block-go, drive_block-stop}
use buildoor_tester.Runner.Asked.{forget_id, build_plan, block_plan, build_calls, advance_calls}

module _ (T : Testing) where
  abbrev pub valid_payloads : List (EnginePayload T) → List (EnginePayload T)
  valid_payloads = keep (λ p. p.valid)

  -- The calls for all the payloads that are valid.
  abbrev pub blocks_plan : Settings → List (EnginePayload T) → List (Call T)
  blocks_plan s ps = flat (block_plan T s) (valid_payloads ps)

  -- The block numbers that are expected of them.
  abbrev pub numbers : List (EnginePayload T) → List ℕ
  numbers ps = map (λ p. T.number p.expected) (valid_payloads ps)

  -- The results for the payloads that were built, each beside the one that was expected.
  abbrev pub results_of : List T.Payload → List (EnginePayload T) → List BlockResult
  results_of (b ∷ bs) (p ∷ ps) = block_result T b p.expected ∷ results_of bs ps
  results_of [] ps = []
  results_of (b ∷ bs) [] = []

abbrev pub block_numbers : List BlockResult → List ℕ
block_numbers = map (λ b. b.block_number)

module _ (T : Testing) (N : Node T) (s : Settings) where
  abbrev sends : List T.Value → List (Call T)
  sends = map send_raw_transaction

  map-forget_sends : (txs : List T.Value) → map forget_id (sends txs) ≡ sends txs
  map-forget_sends [] = refl
  map-forget_sends (tx ∷ txs) = ap (λ r. send_raw_transaction tx ∷ r) (map-forget_sends txs)

  map-forget_build :
      (url : Option String) (id : String) (p : EnginePayload T)
      → map forget_id (build_calls T s url id p) ≡ build_plan T s url p
  map-forget_build none id p = refl
  map-forget_build (some url) id p = refl

  -- With the names of the payloads left out, a round makes the calls of its plan.
  map-forget_round :
      (p : EnginePayload T) (id : String) (h : List (Call T))
      → map forget_id (
          h
          ++ (sends (T.transactions p.expected)
              ++ (build_calls T s s.buildoor_base_url id p ++ advance_calls T s p)))
        ≡ map forget_id h ++ block_plan T s p
  map-forget_round p id h = rw (
    map-append,
    map-append,
    map-append,
    map-forget_sends,
    map-forget_build s.buildoor_base_url id p,
  )

  -- What a run of the loop that ended without an error has done.
  pub record Complete (ps : List (EnginePayload T)) (blocks : List BlockResult) (h : List (Call T))
      (r : FixtureResult) (t : List (Call T)) : Type 0 where
    pub planned : map forget_id t ≡ map forget_id h ++ blocks_plan T s ps
    pub numbered : block_numbers r.blocks ≡ block_numbers blocks ++ numbers T ps
    pub builds : List T.Payload
    pub as_many : length builds ≡ length (valid_payloads T ps)
    pub compared : r.blocks ≡ blocks ++ results_of T builds (valid_payloads T ps)

  -- A valid payload: its round ended the loop, or the loop went on from where it led.
  pub drive_blocks-valid :
      (p : EnginePayload T) (ps : List (EnginePayload T)) (idx : ℕ) (blocks : List BlockResult)
      (h : List (Call T)) {r : FixtureResult} {t : List (Call T)}
      → p.valid ≡ true
      → drive_blocks T N s (p ∷ ps) idx blocks h ≡ (ok r, t)
      → (drive_block T N s p idx blocks h ≡ (ok (stop r), t))
        ⊎ ((blocks' : List BlockResult) × (u : List (Call T)) × (drive_block T N s p idx blocks h
              ≡ (ok (go blocks'), u))
            × (drive_blocks T N s ps (suc idx) blocks' u ≡ (ok r, t)))
  unfolding drive_blocks
  drive_blocks-valid p ps idx blocks h {r} {t} v e =
      let (w, u, first, rest) = >>=-eq-ok (drive_block T N s p idx blocks) _ h (simp v at e) in
      ended w u first rest
    where
      ended :
          (w : Verdict) (u : List (Call T))
          → drive_block T N s p idx blocks h ≡ (ok w, u)
          → after_block T N s (drive_blocks T N s ps (suc idx)) w u ≡ (ok r, t)
          → (drive_block T N s p idx blocks h ≡ (ok (stop r), t))
            ⊎ ((blocks' : List BlockResult) × (u : List (Call T)) × (drive_block T N s p idx blocks
                    h
                  ≡ (ok (go blocks'), u))
                × (drive_blocks T N s ps (suc idx) blocks' u ≡ (ok r, t)))
      ended (stop q) u first rest = inl (cc)
      ended (go blocks') u first rest = inr (blocks', u, first, rest)

  Complete-skipped :
      (p : EnginePayload T) (ps : List (EnginePayload T)) (blocks : List BlockResult)
      (h : List (Call T)) (r : FixtureResult) (t : List (Call T))
      → p.valid ≡ false
      → Complete ps blocks h r t
      → Complete (p ∷ ps) blocks h r t
  Complete-skipped p ps blocks h r t v c = record {
    planned = simp v c.planned;
    numbered = simp v c.numbered;
    builds = c.builds;
    as_many = simp v c.as_many;
    compared = simp v c.compared;
  }

  Complete-driven :
      (p : EnginePayload T) (ps : List (EnginePayload T)) (blocks blocks' : List BlockResult)
      (h u : List (Call T)) (r : FixtureResult) (t : List (Call T))
      → p.valid ≡ true
      → RoundDone T N s p blocks h blocks' u
      → Complete ps blocks' u r t
      → Complete (p ∷ ps) blocks h r t
  unfolding block_result
  Complete-driven p ps blocks blocks' h u r t v (b, id, same, shape) c = record {
    planned = simp v (
        c.planned
        ∙ ap (λ x. map forget_id x ++ blocks_plan T s ps) shape
        ∙ ap (λ x. x ++ blocks_plan T s ps) (map-forget_round p id h)
        ∙ append_assoc (map forget_id h) (block_plan T s p) (blocks_plan T s ps));
    numbered = simp v (
        c.numbered
        ∙ ap (λ x. block_numbers x ++ numbers T ps) same
        ∙ rw (map-append, append_assoc));
    builds = b ∷ c.builds;
    as_many = simp v (ap suc c.as_many);
    compared = simp v (
        c.compared
        ∙ ap (λ x. x ++ results_of T c.builds (valid_payloads T ps)) same
        ∙ append_assoc blocks _ _);
  }

  pub drive_blocks-Complete :
      (ps : List (EnginePayload T)) (idx : ℕ) (blocks : List BlockResult) (h : List (Call T))
      {r : FixtureResult} {t : List (Call T)}
      → drive_blocks T N s ps idx blocks h ≡ (ok r, t)
      → r.error ≡ none
      → Complete ps blocks h r t
  drive_blocks-Complete [] idx blocks h e fine =
      unfold drive_blocks in
      record {
        planned = ground (arith, append-nil (map forget_id h));
        numbered = ground (arith, append-nil (block_numbers blocks));
        builds = [];
        as_many = refl;
        compared = ground (arith, append-nil blocks);
      }
  drive_blocks-Complete (p ∷ ps) idx blocks h {r} {t} e fine = elim (Bool-cases p.valid) [
    | inr v ↦
        Complete-skipped p ps blocks h r t v
          (drive_blocks-Complete ps (suc idx) blocks h (unfold drive_blocks in simp v at e) fine)
    | inl v ↦ elim (drive_blocks-valid p ps idx blocks h v e) [
      | inl stopped ↦ absurd (cc (fine, (drive_block-stop T N s p idx blocks h stopped).0))
      | inr (blocks', u, first, rest) ↦
          Complete-driven p ps blocks blocks' h u r t v (drive_block-go T N s p idx blocks h first)
            (drive_blocks-Complete ps (suc idx) blocks' u rest fine)
    ]
  ]
