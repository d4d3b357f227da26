-- ===== src/Base/Effects.antt =====
-- Python calls that may raise, and calls whose answers come from the surroundings.
use mathlib.Core.Path.{◌≡◌, refl}
use mathlib.Core.List.{List, [], ◌∷◌, ◌++◌}
use Prim.Native.String.{String}

-- An exception: its class, and its message.
pub data Exc : Type 0 where
  runtime_error : String → Exc
  value_error : String → Exc
  key_error : String → Exc
  index_error : String → Exc
  type_error : String → Exc
  file_not_found : String → Exc
  process_lookup_error : String → Exc
  usage_error : String → Exc
  foreign_error : String → Exc

pub data Outcome {ℓ} (A : Type ℓ) : Type ℓ where
  ok : A → Outcome A
  raised : Exc → Outcome A

-- The calls made so far are the state. A call's answer may depend on all that went before it, so
-- an `Exec` runs against every behaviour of the process at the other end.
abbrev pub Exec {ℓ} : Type ℓ → Type ℓ → Type ℓ
Exec E A = List E → Outcome A × List E

module _ {ℓ} {E A : Type ℓ} where
  abbrev pub pure : A → Exec E A
  pure a h = (ok a, h)

  abbrev pub fail : Exc → Exec E A
  fail e h = (raised e, h)

  abbrev pub lift : Outcome A → Exec E A
  lift r h = (r, h)

  -- One call, and the answer that the surroundings give to it.
  abbrev pub call : (List E → Outcome A) → E → Exec E A
  call answer c h = (answer h, h ++ c ∷ [])

module _ {ℓ} {E A B : Type ℓ} where
  abbrev pub continue : Outcome A → (A → Exec E B) → Exec E B
  continue (ok a) f h = f a h
  continue (raised e) f h = (raised e, h)

  infixl 5 ◌>>=◌ ◌>>◌
  abbrev pub ◌>>=◌ : Exec E A → (A → Exec E B) → Exec E B
  ◌>>=◌ m f h = continue (m h).0 f (m h).1

  abbrev pub ◌>>◌ : Exec E A → Exec E B → Exec E B
  m >> n = m >>= λ _. n

  pub continue-eq-ok :
      (r : Outcome A) (f : A → Exec E B) (h : List E) {b : B} {t : List E}
      → continue r f h ≡ (ok b, t)
      → (a : A) × (r ≡ ok a) × (f a h ≡ (ok b, t))
  continue-eq-ok (ok a) f h e = (a, refl, e)
  continue-eq-ok (raised x) f h e = cc

  -- A block that returned had a first part that returned.
  pub >>=-eq-ok :
      (m : Exec E A) (f : A → Exec E B) (h : List E) {b : B} {t : List E}
      → (m >>= f) h ≡ (ok b, t)
      → (a : A) × (u : List E) × (m h ≡ (ok a, u)) × (f a u ≡ (ok b, t))
  >>=-eq-ok m f h e =
      let (a, first, rest) = continue-eq-ok (m h).0 f (m h).1 e in
      (a, (m h).1, (λ i. (first i, (m h).1)), rest)

abbrev pub outcome_after {ℓ} : {A B : Type ℓ} → Outcome B → Outcome A → Outcome A
outcome_after (ok u) r = r
outcome_after (raised e) r = raised e

module _ {ℓ} {E A : Type ℓ} where
  -- `try: m finally: cleanup`: the cleanup runs whatever `m` came to, and its own exception is the
  -- one that is seen.
  abbrev pub ensuring : {B : Type ℓ} → Exec E A → Exec E B → Exec E A
  ensuring m cleanup h = let (r, t) = m h in let (s, u) = cleanup t in (outcome_after s r, u)

module _ {ℓ} {E A B : Type ℓ} where
  -- A `try` that returned had a body that returned the same, and a cleanup that returned.
  pub ensuring-eq-ok :
      (m : Exec E A) (cleanup : Exec E B) (h : List E) {r : A} {t : List E}
      → ensuring m cleanup h ≡ (ok r, t)
      → (b : B) × ((m h).0 ≡ ok r) × (cleanup (m h).1 ≡ (ok b, t))
  ensuring-eq-ok m cleanup h {r} {t} e =
      let (b, done, same) = both (cleanup (m h).1).0 (λ i. (e i).0) in
      (b, same, λ i. (done i, (e i).1))
    where
      both :
          (s : Outcome B) → outcome_after s (m h).0 ≡ ok r → (b : B) × (s ≡ ok b) × ((m h).0 ≡ ok r)
      both (ok b) k = (b, refl, k)
      both (raised x) k = cc k
