-- ===== src/Cli/Places.antt =====
-- eest_replay/cli.py: the directory that `run` gives to the replay of each fixture.
use buildoor_tester.Base.{ℕ, suc, List, [], ◌∷◌, String, ◌<>◌, pos, ltb, if◌then◌else◌}
use buildoor_tester.Base.Numeral.{decimal}
use buildoor_tester.Cli.{FixtureFile}

-- `f"{n:02d}"` and `f"{n:04d}"`.
abbrev pub two_digits : ℕ → String
two_digits n = if ltb n 10 then "0" <> decimal (pos n) else decimal (pos n)

abbrev pub four_digits : ℕ → String
four_digits n =
    if ltb n 100
    then "00" <> two_digits n
    else if ltb n 1000
    then "0" <> decimal (pos n)
    else decimal (pos n)

-- `slug`, by the numbers of the file and of the fixture in it, and the stem of the file's path.
unfoldable pub slug : ℕ → ℕ → String → String
slug file_idx fixture_idx stem =
    four_digits file_idx <> ("-" <> (two_digits fixture_idx <> ("-" <> stem)))

module _ {Fixture : Type 0} (base_work_dir : String) where
  -- The fixtures of one file from the number `fixture_idx` on, each with its `per_dir`.
  abbrev pub placed : ℕ → ℕ → String → List (String × Fixture) → List (String × (String × Fixture))
  placed file_idx fixture_idx stem [] = []
  placed file_idx fixture_idx stem ((test_id, f) ∷ fs) =
      (test_id, (base_work_dir <> ("/" <> slug file_idx fixture_idx stem), f))
      ∷ placed file_idx (suc fixture_idx) stem fs

  -- The files from the number `file_idx` on; each comes with its stem.
  abbrev pub placed_files :
      ℕ → List (String × FixtureFile Fixture) → List (FixtureFile (String × Fixture))
  placed_files file_idx [] = []
  placed_files file_idx ((stem, file) ∷ files) =
      record { yielded = placed file_idx 0 stem file.yielded; broken = file.broken }
      ∷ placed_files (suc file_idx) files
