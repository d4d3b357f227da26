-- ===== src/Runner/Built.antt =====
-- eest_replay/runner.py: what a replay that passed says of the blocks that were built.
use buildoor_tester.Base.{
  ℕ, suc, ◌≡◌, refl, ◌∙◌, ap, sym, ◌↔◌, Bool, true, false, none, List, [], ◌∷◌, ◌++◌, all_of, ok,
  arith, append-nil, append_assoc, >>=-eq-ok, Bool-cases, inl, inr,
}
use buildoor_tester.Testing.{Testing, EnginePayload, Fixture}
use buildoor_tester.Runner.Results.{BlockResult, FixtureResult, block_result, passed}
use buildoor_tester.Runner.Calls.{Call, Node, forkchoice}
use buildoor_tester.Runner.Drive.{
  Settings, go, built, submit_mempool, obtain, drive_block, drive_blocks, drive_chain,
  first_version,
}
use buildoor_tester.Runner.Diff.{AgreesAt, matched_iff}
use buildoor_tester.Runner.Round.{compare_and_advance-go, drive_block-go, drive_block-stop}
use buildoor_tester.Runner.Asked.{advance_calls}
use buildoor_tester.Runner.Blocks.{after_bootstrap-fine}
use buildoor_tester.Runner.Order.{valid_payloads, drive_blocks-valid}

module _ (T : Testing) (N : Node T) (s : Settings) where
  -- The payload `c` is what the engine or buildoor answered when the run with the calls `t` asked
  -- for the block of `p`.
  abbrev pub BuiltIn : List (Call T) → EnginePayload T → T.Payload → Type 0
  BuiltIn t p c =
      (idx : ℕ) × (u v rest : List (Call T)) × (obtain T N s s.buildoor_base_url p idx u
        ≡ (ok (built c), v))
      × (t ≡ v ++ rest)

  -- For each of the payloads a block was built in the run, and agrees with the expected one.
  abbrev pub Agreed : List (Call T) → List (EnginePayload T) → Type 0
  Agreed t [] = Unit
  Agreed t (p ∷ ps) =
      ((c : T.Payload) × BuiltIn t p c × AgreesAt T c p.expected T.model_fields) × Agreed t ps

  drive_block-built :
      (p : EnginePayload T) (idx : ℕ) (blocks : List BlockResult) (h : List (Call T))
      {blocks' : List BlockResult} {t : List (Call T)}
      → drive_block T N s p idx blocks h ≡ (ok (go blocks'), t)
      → (c : T.Payload) × (blocks' ≡ blocks ++ block_result T c p.expected ∷ []) × BuiltIn t p c
  unfolding drive_block
  drive_block-built p idx blocks h e =
      let (_, u, first, rest) =
        >>=-eq-ok (submit_mempool T N s (T.transactions p.expected)) _ h e in
      let (b, v, second, third) = >>=-eq-ok (obtain T N s s.buildoor_base_url p idx) _ u rest in
      let (c, is, same, last) = compare_and_advance-go T N s b p idx blocks v third in
      (c, same, (idx, u, v, advance_calls T s p, rw is at second, last))

  all_of-append :
      (test : BlockResult → Bool) (rs : List BlockResult) (x : BlockResult)
      → all_of test (rs ++ x ∷ []) ≡ true
      → (all_of test rs ≡ true) × (test x ≡ true)
  all_of-append test [] x h = (refl, ground arith)
  all_of-append test (r ∷ rs) x h = ground (arith, all_of-append test rs x)

  -- What the loop has done, if all its results are matched.
  abbrev Done : List (EnginePayload T) → List BlockResult → List (Call T) → List (Call T) → Type 0
  Done ps blocks h t =
      (rest : List (Call T)) × (t ≡ h ++ rest)
      × (all_of (λ b. b.matched) blocks ≡ true)
      × Agreed t (valid_payloads T ps)

  module _ (law : (a b : T.Value) → (T.ne a b ≡ false) ↔ (a ≡ b)) where
    drive_blocks-Done :
        (ps : List (EnginePayload T)) (idx : ℕ) (blocks : List BlockResult) (h : List (Call T))
        {r : FixtureResult} {t : List (Call T)}
        → drive_blocks T N s ps idx blocks h ≡ (ok r, t)
        → r.error ≡ none
        → all_of (λ b. b.matched) r.blocks ≡ true
        → Done ps blocks h t
    drive_blocks-Done [] idx blocks h {r} {t} e fine m =
        unfold drive_blocks in
        let ended : h ≡ t = ap (λ q. q.1) e in
        let same : blocks ≡ r.blocks = ground arith in
        ([], sym ended ∙ sym (append-nil h), ap (all_of (λ b. b.matched)) same ∙ m, tt)
    drive_blocks-Done (p ∷ ps) idx blocks h {r} {t} e fine m = elim (Bool-cases p.valid) [
      | inr v ↦
          let e' : drive_blocks T N s ps (suc idx) blocks h ≡ (ok r, t) =
            unfold drive_blocks in simp v at e in
          simp v (drive_blocks-Done ps (suc idx) blocks h e' fine m)
      | inl v ↦ elim (drive_blocks-valid T N s p ps idx blocks h v e) [
        | inl stopped ↦ absurd (cc (fine, (drive_block-stop T N s p idx blocks h stopped).0))
        | inr (blocks', w, first, after) ↦
            let (_, _, _, shape) = drive_block-go T N s p idx blocks h first in
            let (c, same, (i, u, v', more, asked, ends)) = drive_block-built p idx blocks h first in
            let (rest, extends, good, agreed) =
              drive_blocks-Done ps (suc idx) blocks' w after fine m in
            let (before, this) =
              all_of-append (λ b. b.matched) blocks (block_result T c p.expected)
                (rw same at good) in
            simp v (
              _,
              extends ∙ ap (λ l. l ++ rest) shape ∙ append_assoc h _ rest,
              before,
              (
                (
                  c,
                  (
                    i,
                    u,
                    v',
                    more ++ rest,
                    asked,
                    extends ∙ ap (λ l. l ++ rest) ends ∙ append_assoc v' more rest,
                  ),
                  (matched_iff T law c p.expected).0 this,
                ),
                agreed,
              ),
            )
      ]
    ]

    -- A fixture that passed: for each of its valid payloads the engine or buildoor, asked for the
    -- block of that payload within the run, answered with a payload that agrees with the expected
    -- one in every field that the builder does not choose by itself, given that `!=` is false
    -- exactly on equal values.
    pub drive_chain-passed :
        (f : Fixture T) (h : List (Call T)) {r : FixtureResult} {t : List (Call T)}
        → drive_chain T N s f h ≡ (ok r, t)
        → passed r ≡ true
        → Agreed t (valid_payloads T f.payloads)
    unfolding passed drive_chain
    drive_chain-passed f h {r} {t} e p =
        let fine : r.error ≡ none = ground arith in
        let all : all_of (λ b. b.matched) r.blocks ≡ true = ground arith in
        let (version, u, _, rest) = >>=-eq-ok (first_version T N s f.payloads) _ h e in
        let (response, v, _, third) =
          >>=-eq-ok (forkchoice T N f.genesis_hash none version) _ u rest in
        let (_, _, _, agreed) =
          drive_blocks-Done f.payloads 0 [] v
            (after_bootstrap-fine T N s response.status f.payloads v third fine) fine all in
        agreed
