-- ===== src/FixtureFiles.antt =====
-- eest_replay/fixture.py: which entries of a fixture file are yielded.
pub mod Walk
use buildoor_tester.Base.{
  ◌≡◌, refl, Bool, true, false, Option, none, some, List, [], ◌∷◌, String, str_eq, Outcome, ok,
  raised, value_error, foreign_error, Exc,
}
use buildoor_tester.Base.Json.{Json, str, obj, Dict, empty, entry, get}
use buildoor_tester.Cli.{FixtureFile}

-- `fmt == "blockchain_test_engine"`.
abbrev is_engine : Option Json → Bool
is_engine (some (str s)) = str_eq s "blockchain_test_engine"
is_engine _ = false

abbrev no_get : Exc
no_get = foreign_error "AttributeError: no attribute 'get'"

-- `payload.get("_info", {}).get("fixture-format")`, tested.
abbrev info_is_engine : Option Json → Outcome Bool
info_is_engine none = ok false
info_is_engine (some (obj info)) = ok (is_engine (get "fixture-format" info))
info_is_engine (some _) = raised no_get

unfoldable pub has_engine_format : Json → Outcome Bool
has_engine_format (obj payload) = info_is_engine (get "_info" payload)
has_engine_format _ = raised no_get

-- The model's `model_validate` is a parameter.
module _ {Fixture : Type 0} (validate : Json → Outcome Fixture) where
  abbrev broken_by : Exc → FixtureFile Fixture
  broken_by e = record { yielded = []; broken = some e }

  abbrev yields : String → Outcome Fixture → FixtureFile Fixture → FixtureFile Fixture
  yields test_id (raised e) rest = broken_by e
  yields test_id (ok f) rest = record {
    yielded = (test_id, f) ∷ rest.yielded;
    broken = rest.broken;
  }

  -- One pass of the loop.
  abbrev one_entry : String → Json → Outcome Bool → FixtureFile Fixture → FixtureFile Fixture
  one_entry test_id payload (raised e) rest = broken_by e
  one_entry test_id payload (ok false) rest = rest
  one_entry test_id payload (ok true) rest = yields test_id (validate payload) rest

  -- The loop of `load_engine_fixtures` over the items of the parsed file.
  unfoldable pub load_items : Dict → FixtureFile Fixture
  load_items empty = record { yielded = []; broken = none }
  load_items (entry test_id payload items) =
      one_entry test_id payload (has_engine_format payload) (load_items items)

  unfoldable pub load_engine_fixtures : Json → FixtureFile Fixture
  unfolding load_items
  load_engine_fixtures (obj items) = load_items items
  load_engine_fixtures _ = broken_by (foreign_error "AttributeError: no attribute 'items'")

  -- What the loop of `load_first_engine_fixture` comes to; the path is left out of the message.
  abbrev first_of : List (String × Fixture) → Option Exc → Outcome (String × Fixture)
  first_of (x ∷ xs) broken = ok x
  first_of [] (some e) = raised e
  first_of [] none = raised (value_error "No blockchain_test_engine fixture found")

  unfoldable pub load_first_engine_fixture : Json → Outcome (String × Fixture)
  unfolding load_engine_fixtures
  load_first_engine_fixture raw =
      let file = load_engine_fixtures raw in first_of file.yielded file.broken

  -- The entries of a file that have the format, each with its fixture.
  pub data Listed : Dict → List (String × Fixture) → Type 0 where
    ends : Listed empty []
    skips :
        {id : String} {payload : Json} {items : Dict} {fs : List (String × Fixture)}
        → has_engine_format payload ≡ ok false
        → Listed items fs
        → Listed (entry id payload items) fs
    lists :
        {id : String} {payload : Json} {items : Dict} {fs : List (String × Fixture)} {f : Fixture}
        → has_engine_format payload ≡ ok true
        → validate payload ≡ ok f
        → Listed items fs
        → Listed (entry id payload items) ((id, f) ∷ fs)

  yields-Listed :
      (id : String) (payload : Json) (items : Dict) (v : Outcome Fixture)
      (rest : FixtureFile Fixture)
      → has_engine_format payload ≡ ok true
      → validate payload ≡ v
      → (rest.broken ≡ none → Listed items rest.yielded)
      → (yields id v rest).broken ≡ none
      → Listed (entry id payload items) (yields id v rest).yielded
  yields-Listed id payload items (raised e) rest is valid listed whole = cc whole
  yields-Listed id payload items (ok f) rest is valid listed whole = lists is valid (listed whole)

  one_entry-Listed :
      (id : String) (payload : Json) (items : Dict) (format : Outcome Bool)
      (rest : FixtureFile Fixture)
      → has_engine_format payload ≡ format
      → (rest.broken ≡ none → Listed items rest.yielded)
      → (one_entry id payload format rest).broken ≡ none
      → Listed (entry id payload items) (one_entry id payload format rest).yielded
  one_entry-Listed id payload items (raised e) rest is listed whole = cc whole
  one_entry-Listed id payload items (ok false) rest is listed whole = skips is (listed whole)
  one_entry-Listed id payload items (ok true) rest is listed whole =
      yields-Listed id payload items (validate payload) rest is refl listed whole

  -- A file that is read to its end yields, in the order of the file, exactly the entries that have
  -- the format of the engine's fixtures, each under its test id and as the model reads it.
  pub load_items-Listed :
      (items : Dict) → (load_items items).broken ≡ none → Listed items (load_items items).yielded
  unfolding load_items
  load_items-Listed empty whole = ends
  load_items-Listed (entry id payload items) whole =
      one_entry-Listed id payload items (has_engine_format payload) (load_items items) refl
        (load_items-Listed items) whole
