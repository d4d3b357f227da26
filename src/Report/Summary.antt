-- ===== src/Report/Summary.antt =====
-- eest_replay/report.py: `to_dict`, the content of the JSON report.
use buildoor_tester.Base.{
  ℕ, ◌+◌, ◌-◌, ◌≡◌, refl, sym, ap, Bool, true, false, not, Option, none, some, is_some, List, [],
  ◌∷◌, String, length, length-keep, pos, arith, if◌then◌else◌,
}
use buildoor_tester.Base.Json.{
  Json, null, boolean, num, str, arr, obj, Items, nil, cons, Dict, empty, entry, get,
}
use buildoor_tester.Runner.Results.{BlockResult, FixtureResult, passed}
use buildoor_tester.Report.{
  BatchReport, total, count_if, passed_count, failed_count, errored_count, total_elapsed_ms,
}

abbrev str_or_null : Option String → Json
str_or_null none = null
str_or_null (some s) = str s

unfoldable pub texts : List String → Items
texts [] = nil
texts (s ∷ ss) = cons (str s) (texts ss)

unfoldable pub block_entries : List BlockResult → Items
unfolding texts
block_entries [] = nil
block_entries (b ∷ bs) =
    cons
      (obj (
        entry "number" (num (pos b.block_number)) (
          entry "matched" (boolean b.matched)
            (entry "mismatches" (arr (texts b.mismatches)) empty))))
      (block_entries bs)

-- A time of so many milliseconds as a JSON number of seconds, which is a float.
module _ (seconds : ℕ → Json) where
  unfoldable pub result_entry : FixtureResult → Dict
  unfolding block_entries passed
  result_entry r = entry "test_id" (str r.test_id) (
      entry "fork" (str_or_null r.fork) (
        entry "elapsed_s" (seconds r.elapsed_ms) (
          entry "passed" (boolean (passed r)) (
            entry "error" (str_or_null r.error)
              (entry "blocks" (arr (block_entries r.blocks)) empty)))))

  unfoldable pub result_entries : List FixtureResult → Items
  unfolding result_entry
  result_entries [] = nil
  result_entries (r ∷ rs) = cons (obj (result_entry r)) (result_entries rs)

  unfoldable pub summary_of : BatchReport → Dict
  unfolding total passed_count failed_count errored_count
  summary_of b = entry "total" (num (pos (total b))) (
      entry "passed" (num (pos (passed_count b))) (
        entry "failed" (num (pos (failed_count b))) (
          entry "errored" (num (pos (errored_count b)))
            (entry "elapsed_s" (seconds (total_elapsed_ms b)) empty))))

  unfoldable pub to_dict : BatchReport → Dict
  unfolding summary_of result_entries
  to_dict b =
      entry "summary" (obj (summary_of b)) (entry "results" (arr (result_entries b.results)) empty)

-- A reader of the report, which knows nothing of the results: how many entries meet a test of one
-- of their fields.
abbrev met : (Json → Bool) → Option Json → ℕ
met test none = 0
met test (some v) = if test v then 1 else 0

abbrev met_in : (Json → Bool) → String → Json → ℕ
met_in test key (obj d) = met test (get key d)
met_in test key _ = 0

abbrev pub count_entries : (Json → Bool) → String → Items → ℕ
count_entries test key nil = 0
count_entries test key (cons j js) = met_in test key j + count_entries test key js

abbrev pub is_true : Json → Bool
is_true (boolean b) = b
is_true _ = false

abbrev pub is_false : Json → Bool
is_false (boolean b) = not b
is_false _ = false

abbrev pub is_present : Json → Bool
is_present null = false
is_present _ = true

module _ (seconds : ℕ → Json) where
  -- An entry counts as its result does.
  errored_entry : (o : Option String) → is_present (str_or_null o) ≡ is_some o
  errored_entry none = refl
  errored_entry (some e) = refl

  entries-passed :
      (rs : List FixtureResult)
      → count_entries is_true "passed" (result_entries seconds rs) ≡ count_if passed rs
  unfolding result_entries result_entry count_if get
  entries-passed [] = refl
  entries-passed (r ∷ rs) = ground (arith, entries-passed rs)

  entries-failed :
      (rs : List FixtureResult)
      → count_entries is_false "passed" (result_entries seconds rs) ≡ length rs - count_if passed rs
  unfolding result_entries result_entry count_if get
  entries-failed [] = refl
  entries-failed (r ∷ rs) = ground (arith, entries-failed rs, length-keep passed rs)

  entries-errored :
      (rs : List FixtureResult)
      → count_entries is_present "error" (result_entries seconds rs)
        ≡ count_if (λ r. is_some r.error) rs
  unfolding result_entries result_entry count_if get
  entries-errored [] = refl
  entries-errored (r ∷ rs) = ground (arith, entries-errored rs, errored_entry r.error)

  entries-total :
      (rs : List FixtureResult)
      → count_entries (λ j. true) "test_id" (result_entries seconds rs) ≡ length rs
  unfolding result_entries result_entry get
  entries-total [] = refl
  entries-total (r ∷ rs) = ground (arith, entries-total rs)

  -- The summary of a JSON report is what a reader of its entries counts: `total` all that have a
  -- test id, `passed` those whose `passed` is true, `failed` those whose `passed` is false, and
  -- `errored` those whose `error` is not null.
  pub to_dict-summary :
      (b : BatchReport)
      → (s : Dict) × (entries : Items) × (get "summary" (to_dict seconds b) ≡ some (obj s))
        × (get "results" (to_dict seconds b) ≡ some (arr entries))
        × (get "total" s ≡ some (num (pos (count_entries (λ j. true) "test_id" entries))))
        × (get "passed" s ≡ some (num (pos (count_entries is_true "passed" entries))))
        × (get "failed" s ≡ some (num (pos (count_entries is_false "passed" entries))))
        × (get "errored" s ≡ some (num (pos (count_entries is_present "error" entries))))
  unfolding to_dict summary_of total passed_count failed_count errored_count get
  to_dict-summary b = (
    summary_of seconds b,
    result_entries seconds b.results,
    refl,
    refl,
    ap (λ n. some (num (pos n))) (sym (entries-total b.results)),
    ap (λ n. some (num (pos n))) (sym (entries-passed b.results)),
    ap (λ n. some (num (pos n))) (sym (entries-failed b.results)),
    ap (λ n. some (num (pos n))) (sym (entries-errored b.results)),
  )
