-- ===== src/FixtureFiles/Walk.antt =====
-- eest_replay/fixture.py: `discover_fixture_files`, the fixture files under a path.
use buildoor_tester.Base.{
  ◌≡◌, ◌≢◌, refl, subst, sym, ap, ◌∙◌, ◌↔◌, Bool, true, false, not, ◌||◌, ◌⊎◌, Bool-cases, inl, inr,
  List, [], ◌∷◌, ◌++◌, String, str_eq, eq_iff, keep, Outcome, ok, raised, file_not_found,
  if◌then◌else◌, arith,
}

-- A path as its parts.
abbrev pub FilePath : Type 0
FilePath = List String

-- The file system: `is_file`, `is_dir`, `sorted(root.rglob("*.json"))`, and a path as a text.
pub record Files : Type 0 where
  pub is_file : FilePath → Bool
  pub is_dir : FilePath → Bool
  pub rglob_json : FilePath → List FilePath
  pub show : FilePath → String

-- `any(part == ".meta" for part in json_file.parts)`.
unfoldable pub is_meta : FilePath → Bool
is_meta [] = false
is_meta (part ∷ parts) = str_eq part ".meta" || is_meta parts

module _ (F : Files) where
  unfoldable pub root_of : FilePath → FilePath
  root_of path =
      let engine_root = path ++ "blockchain_tests_engine" ∷ [] in
      if F.is_dir engine_root then engine_root else path

  abbrev pub walked : FilePath → List FilePath
  walked path = keep (λ file. not (is_meta file)) (F.rglob_json (root_of path))

  unfoldable pub discover_fixture_files : FilePath → Outcome (List FilePath)
  unfolding root_of is_meta
  discover_fixture_files path =
      if F.is_file path
      then ok (path ∷ [])
      else if F.is_dir path
      then ok (walked path)
      else raised (file_not_found (F.show path))

-- A path is one of a list, and a text is one of the parts of a path.
abbrev pub IsIn : {A : Type 0} → A → List A → Type 0
IsIn x [] = ⊥
IsIn x (y ∷ ys) = (x ≡ y) ⊎ IsIn x ys

is_meta_iff : (path : FilePath) → (is_meta path ≡ true) ↔ IsIn ".meta" path
unfolding is_meta
is_meta_iff [] = (λ e. cc e, λ never. absurd never)
is_meta_iff (part ∷ parts) = elim (Bool-cases (str_eq part ".meta")) [
  | inl is ↦ rw is (λ e. inl (sym ((eq_iff part ".meta").0 is)), λ at. refl)
  | inr differs ↦ rw differs (
    (λ e. inr ((is_meta_iff parts).0 e)),
    (λ at. elim at [
      | inl here ↦ absurd (cc (sym differs ∙ (eq_iff part ".meta").1 (sym here)))
      | inr there ↦ (is_meta_iff parts).1 there
    ]),
  )
]

IsIn-keep :
    {A : Type 0} (test : A → Bool) (x : A) (ys : List A)
    → IsIn x (keep test ys) ↔ (IsIn x ys × (test x ≡ true))
IsIn-keep test x [] = (λ never. absurd never, λ b. absurd b.0)
IsIn-keep test x (y ∷ ys) = elim (Bool-cases (test y)) [
  | inl good ↦ rw good (
    (λ at. elim at [
      | inl here ↦ (inl here, ap test here ∙ good)
      | inr there ↦ let (i, p) = (IsIn-keep test x ys).0 there in (inr i, p)
    ]),
    (λ b. elim b.0 [
      | inl here ↦ inl here
      | inr there ↦ inr ((IsIn-keep test x ys).1 (there, b.1))
    ]),
  )
  | inr bad ↦ rw bad (
    (λ at. let (i, p) = (IsIn-keep test x ys).0 at in (inr i, p)),
    (λ b. elim b.0 [
      | inl here ↦ absurd (cc (sym bad ∙ ap test (sym here) ∙ b.1))
      | inr there ↦ (IsIn-keep test x ys).1 (there, b.1)
    ]),
  )
]

not-true_iff : (b : Bool) → (not b ≡ true) ↔ (b ≢ true)
not-true_iff b = ground arith

module _ (F : Files) where
  -- A walk that ends without an exception, of a path that is no file: the path is a directory, and
  -- the files it yields are those JSON files below the root of the walk that have no part `.meta` in
  -- their path.
  pub discover_fixture_files-walks :
      (path file : FilePath) {files : List FilePath}
      → F.is_file path ≡ false
      → discover_fixture_files F path ≡ ok files
      → (F.is_dir path ≡ true)
        × (IsIn file files ↔ (IsIn file (F.rglob_json (root_of F path)) × ¬ IsIn ".meta" file))
  unfolding discover_fixture_files
  discover_fixture_files-walks path file {files} walks e = elim (Bool-cases (F.is_dir path)) [
    | inr bad ↦ let e' = rw bad at (rw walks at e) in cc e'
    | inl good ↦
        let e' : ok (walked F path) ≡ ok files = rw good at (rw walks at e) in
        let is : walked F path ≡ files = cc e' in
        let (kept, keeps) = IsIn-keep (λ f. not (is_meta f)) file (F.rglob_json (root_of F path)) in
        let (plain, plainly) = not-true_iff (is_meta file) in
        let (found, finds) = is_meta_iff file in
        (
          good,
          (
            λ i.
                let (x, q) = kept (subst (λ l. IsIn file l) (sym is) i) in
                (x, λ m. plain q (finds m)),
            λ b. subst (λ l. IsIn file l) is (keeps (b.0, plainly (λ q. b.1 (found q)))),
          ),
        )
  ]
