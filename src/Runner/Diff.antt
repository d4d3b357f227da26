-- ===== src/Runner/Diff.antt =====
-- eest_replay/runner.py: what `_diff_payload` finds.
use buildoor_tester.Base.{
  true, false, Bool-cases, inl, inr, ◌≡◌, ◌↔◌, refl, List, [], ◌∷◌, All, arith, String, length,
  keep, ◌&&◌, not,
}
use buildoor_tester.Testing.{Testing}
use buildoor_tester.Runner.Results.{is_builder_picked, diff_fields, diff_payload, block_result}

module _ (T : Testing) where
  -- The fields that the builder does not choose.
  abbrev pub compared : List String → List String
  compared = keep (λ f. not (is_builder_picked f))

  -- They have the same values in both payloads.
  abbrev pub AgreesAt : T.Payload → T.Payload → List String → Type 0
  AgreesAt built expected fields =
      All (λ field. T.getattr built field ≡ T.getattr expected field) (compared fields)

  module _ (law : (a b : T.Value) → (T.ne a b ≡ false) ↔ (a ≡ b)) (built expected : T.Payload) where
    agrees_of_nil :
        (fields : List String)
        → diff_fields T built expected fields ≡ []
        → AgreesAt built expected fields
    unfolding diff_fields
    agrees_of_nil [] h = tt
    agrees_of_nil (f ∷ fields) h =
        let test = law (T.getattr built f) (T.getattr expected f) in
        elim (Bool-cases (is_builder_picked f)) [
          | inl is ↦ rw is (agrees_of_nil fields (rw is at h))
          | inr is ↦ rw is (ground (arith, test), agrees_of_nil fields (ground (arith, test)))
        ]

    nil_of_agrees :
        (fields : List String)
        → AgreesAt built expected fields
        → diff_fields T built expected fields ≡ []
    unfolding diff_fields
    nil_of_agrees [] h = refl
    nil_of_agrees (f ∷ fields) h = elim (Bool-cases (is_builder_picked f)) [
      | inl is ↦ rw is (nil_of_agrees fields (rw is at h))
      | inr is ↦
          let both : (T.getattr built f ≡ T.getattr expected f) × AgreesAt built expected fields =
            rw is at h in
          ground (
            arith,
            law (T.getattr built f) (T.getattr expected f),
            both.0,
            nil_of_agrees fields both.1,
          )
    ]

    -- A block is marked as matched exactly when the built payload and the expected one have the
    -- same value in every field of the model that the builder does not choose by itself, given
    -- that `!=` is false exactly on equal values.
    pub matched_iff :
        ((block_result T built expected).matched ≡ true) ↔ AgreesAt built expected T.model_fields
    unfolding block_result diff_payload
    matched_iff = (
      (λ m. agrees_of_nil T.model_fields (ground arith)),
      (λ a. ground (arith, nil_of_agrees T.model_fields a)),
    )

  -- A field that the builder chooses is never reported, and any other is reported if and only if
  -- its two values are told apart: there is one message for each such field.
  pub length-diff_payload :
      (built expected : T.Payload)
      → length (diff_payload T built expected)
        ≡ length (
            keep
              (λ f. not (is_builder_picked f) && T.ne (T.getattr built f) (T.getattr expected f))
              T.model_fields)
  unfolding diff_payload diff_fields
  length-diff_payload built expected = loop T.model_fields
    where
      loop :
          (fields : List String)
          → length (diff_fields T built expected fields)
            ≡ length (
                keep
                  (λ f.
                    not (is_builder_picked f) && T.ne (T.getattr built f) (T.getattr expected f))
                  fields)
      loop [] = refl
      loop (f ∷ fields) = ground (arith, loop fields)
