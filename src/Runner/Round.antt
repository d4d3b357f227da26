-- ===== src/Runner/Round.antt =====
-- eest_replay/runner.py: one round of the loop of `_drive_chain`: its calls and its result.
use buildoor_tester.Base.{
  ℕ, ◌≡◌, refl, ◌∙◌, ap, sym, subst, true, Option, none, some, List, [], ◌∷◌, ◌++◌, map, String, ok,
  arith, is_some, ◌⊎◌, append_assoc, >>=-eq-ok, inl, inr,
}
use buildoor_tester.Testing.{Testing, EnginePayload}
use buildoor_tester.Runner.Results.{BlockResult, FixtureResult, block_result}
use buildoor_tester.Runner.Calls.{Call, send_raw_transaction, Node}
use buildoor_tester.Runner.Drive.{
  Settings, Verdict, stop, result, go, Built, failed, built, submit_mempool, drive_block, verdict,
  compare_and_advance, obtain, advance,
}
use buildoor_tester.Runner.Asked.{
  build_calls, advance_calls, submit_mempool-calls, obtain-calls, advance-calls,
}

abbrev result_of : Verdict → FixtureResult
result_of (stop r) = r
result_of (go blocks) = result "" blocks none

module _ (T : Testing) (N : Node T) (s : Settings) where
  append_three :
      (h a b c : List (Call T)) {t u v : List (Call T)}
      → t ≡ h ++ a
      → u ≡ t ++ b
      → v ≡ u ++ c
      → v ≡ h ++ (a ++ (b ++ c))
  append_three h a b c p q r =
      r
      ∙ ap (λ x. x ++ c) q
      ∙ ap (λ x. (x ++ b) ++ c) p
      ∙ append_assoc (h ++ a) b c
      ∙ append_assoc h a (b ++ c)

  verdict-go :
      (blocks : List BlockResult) (error : Option String) {blocks' : List BlockResult}
      → verdict T N s blocks error ≡ go blocks'
      → (error ≡ none) × (blocks' ≡ blocks)
  unfolding verdict
  verdict-go blocks none e = ground arith
  verdict-go blocks (some x) e = cc

  pub compare_and_advance-go :
      (b : Built T) (p : EnginePayload T) (idx : ℕ) (blocks : List BlockResult) (h : List (Call T))
      {blocks' : List BlockResult} {t : List (Call T)}
      → compare_and_advance T N s b p idx blocks h ≡ (ok (go blocks'), t)
      → (c : T.Payload) × (b ≡ built c)
        × (blocks' ≡ blocks ++ block_result T c p.expected ∷ [])
        × (t ≡ h ++ advance_calls T s p)
  unfolding compare_and_advance
  compare_and_advance-go (failed x) p idx blocks h e = cc
  compare_and_advance-go (built c) p idx blocks h e =
      let (error, u, stepped, rest) = >>=-eq-ok (advance T N s p idx) _ h e in
      let (none_left, same) =
        verdict-go (blocks ++ block_result T c p.expected ∷ []) error (cc rest) in
      let h' : advance T N s p idx h ≡ (ok none, u) = rw none_left at stepped in
      (c, refl, same, sym (ap (λ q. q.1) rest) ∙ advance-calls T N s p idx h h')

  -- What one round of the loop does when it goes on: one more result, made from some built
  -- payload, and the calls of the plan, with some payload name.
  abbrev pub RoundDone :
      EnginePayload T → List BlockResult → List (Call T) → List BlockResult → List (Call T) → Type 0
  RoundDone p blocks h blocks' t =
      (c : T.Payload) × (id : String) × (blocks' ≡ blocks ++ block_result T c p.expected ∷ [])
      × (t
          ≡ h
            ++ (map send_raw_transaction (T.transactions p.expected)
                ++ (build_calls T s s.buildoor_base_url id p ++ advance_calls T s p)))

  pub drive_block-go :
      (p : EnginePayload T) (idx : ℕ) (blocks : List BlockResult) (h : List (Call T))
      {blocks' : List BlockResult} {t : List (Call T)}
      → drive_block T N s p idx blocks h ≡ (ok (go blocks'), t)
      → RoundDone p blocks h blocks' t
  unfolding drive_block
  drive_block-go p idx blocks h e =
      let txs = T.transactions p.expected in
      let (_, u, first, rest) = >>=-eq-ok (submit_mempool T N s txs) _ h e in
      let (b, v, second, third) = >>=-eq-ok (obtain T N s s.buildoor_base_url p idx) _ u rest in
      let (c, is, same, last) = compare_and_advance-go b p idx blocks v third in
      let second' : obtain T N s s.buildoor_base_url p idx u ≡ (ok (built c), v) =
        rw is at second in
      let (id, middle) = obtain-calls T N s s.buildoor_base_url p idx u second' in
      (c, id, same, append_three h _ _ _ (submit_mempool-calls T N s txs h first) middle last)

  -- A round that returns from the function keeps the results so far, and may add its own; the
  -- result that it returns has an error.
  abbrev pub RoundStopped : EnginePayload T → List BlockResult → FixtureResult → Type 0
  RoundStopped p blocks r =
      (is_some r.error ≡ true)
      × ((r.blocks ≡ blocks)
          ⊎ ((c : T.Payload) × (r.blocks ≡ blocks ++ block_result T c p.expected ∷ [])))

  RoundStopped-same :
      (p : EnginePayload T) (blocks : List BlockResult) (q r : FixtureResult)
      → stop q ≡ stop r
      → RoundStopped p blocks q
      → RoundStopped p blocks r
  RoundStopped-same p blocks q r e h = subst (λ v. RoundStopped p blocks (result_of v)) e h

  verdict-stop :
      (p : EnginePayload T) (c : T.Payload) (blocks : List BlockResult) (error : Option String)
      {r : FixtureResult}
      → verdict T N s (blocks ++ block_result T c p.expected ∷ []) error ≡ stop r
      → RoundStopped p blocks r
  unfolding verdict
  verdict-stop p c blocks none e = cc
  verdict-stop p c blocks (some x) {r} e = RoundStopped-same p blocks _ r e (refl, inr (c, refl))

  compare_and_advance-stop :
      (b : Built T) (p : EnginePayload T) (idx : ℕ) (blocks : List BlockResult) (h : List (Call T))
      {r : FixtureResult} {t : List (Call T)}
      → compare_and_advance T N s b p idx blocks h ≡ (ok (stop r), t)
      → RoundStopped p blocks r
  unfolding compare_and_advance
  compare_and_advance-stop (failed x) p idx blocks h {r} e =
      RoundStopped-same p blocks (result s.test_id blocks (some x)) r (cc e) (refl, inl refl)
  compare_and_advance-stop (built c) p idx blocks h {r} e =
      let (error, _, _, rest) = >>=-eq-ok (advance T N s p idx) _ h e in
      verdict-stop p c blocks error {r = r} (cc rest)

  pub drive_block-stop :
      (p : EnginePayload T) (idx : ℕ) (blocks : List BlockResult) (h : List (Call T))
      {r : FixtureResult} {t : List (Call T)}
      → drive_block T N s p idx blocks h ≡ (ok (stop r), t)
      → RoundStopped p blocks r
  unfolding drive_block
  drive_block-stop p idx blocks h e =
      let (_, u, _, rest) = >>=-eq-ok (submit_mempool T N s (T.transactions p.expected)) _ h e in
      let (b, v, _, third) = >>=-eq-ok (obtain T N s s.buildoor_base_url p idx) _ u rest in
      compare_and_advance-stop b p idx blocks v third
