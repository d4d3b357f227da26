-- ===== src/Process/Running.antt =====
-- eest_replay/el.py, buildoor_client.py and rpc_proxy.py: the things that a `finally` stops, and
-- histories of events that stop what they start, the last one first.
use buildoor_tester.Base.{
  ◌≡◌, refl, sym, ap, ◌∙◌, Bool, true, false, Option, none, some, List, [], ◌∷◌, ◌++◌, append-nil,
  append_assoc, String, str_eq, eq_refl, Outcome, ok, raised, Exec, call, continue, ◌>>=◌, ensuring,
  if◌then◌else◌,
}

-- The container of the client, by its name, buildoor, the server of the recording proxy, and the
-- subprocess of `_run_execute`.
pub data Process : Type 0 where
  container : String → Process
  builder : Process
  recorder : Process
  execution : Process

abbrev pub same : Process → Process → Bool
same (container a) (container b) = str_eq a b
same builder builder = true
same recorder recorder = true
same execution execution = true
same _ _ = false

same_refl : (p : Process) → same p p ≡ true
same_refl (container a) = eq_refl a
same_refl builder = refl
same_refl recorder = refl
same_refl execution = refl

-- A stop takes the process that was started last, and must name it.
abbrev pub stopped : Process → List Process → Option (List Process)
stopped p [] = none
stopped p (q ∷ s) = if same p q then some s else none

abbrev along :
    Option (List Process) → (List Process → Option (List Process)) → Option (List Process)
along none f = none
along (some s) f = f s

-- What an event does to the processes that run, the last one first.
module _ {E : Type 0} (step : E → List Process → Option (List Process)) where
  unfoldable pub live : List E → List Process → Option (List Process)
  live [] s = some s
  live (e ∷ es) s = along (step e s) (live es)

  -- These events leave the running processes as they were.
  abbrev pub Balanced : List E → Type 0
  Balanced es = (s : List Process) → live es s ≡ some s

  along-append :
      (f g : List Process → Option (List Process)) (o : Option (List Process)) (ys : List E)
      (u : List Process)
      → ((s : List Process) → f s ≡ some u → g s ≡ live ys u)
      → along o f ≡ some u
      → along o g ≡ live ys u
  along-append f g none ys u goes k = cc k
  along-append f g (some s) ys u goes k = goes s k

  live-append :
      (xs ys : List E) (s u : List Process) → live xs s ≡ some u → live (xs ++ ys) s ≡ live ys u
  unfolding live
  live-append [] ys s u h = ap (live ys) (let e : s ≡ u = cc h in e)
  live-append (x ∷ xs) ys s u h =
      along-append (live xs) (live (xs ++ ys)) (step x s) ys u (λ s'. live-append xs ys s' u) h

  pub Balanced-append : (xs ys : List E) → Balanced xs → Balanced ys → Balanced (xs ++ ys)
  Balanced-append xs ys h k s = live-append xs ys s s (h s) ∙ k s

  -- A process that is started before and stopped behind.
  pub Balanced-around :
      (p : Process) (first last : E) (xs : List E)
      → ((s : List Process) → step first s ≡ some (p ∷ s))
      → ((s : List Process) → step last s ≡ stopped p s)
      → Balanced xs
      → Balanced (first ∷ (xs ++ last ∷ []))
  unfolding live
  Balanced-around p first last xs starts stops h s =
      ap (λ o. along o (live (xs ++ last ∷ []))) (starts s)
      ∙ live-append xs (last ∷ []) (p ∷ s) (p ∷ s) (h (p ∷ s))
      ∙ ap (λ o. along o (live [])) (stops (p ∷ s))
      ∙ ap (λ b. along (if b then some s else none) (live [])) (same_refl p)

  -- An event that leaves the running processes as they were.
  pub Balanced-one : (e : E) → ((s : List Process) → step e s ≡ some s) → Balanced (e ∷ [])
  unfolding live
  Balanced-one e plain s = rw (plain s) refl

  -- Whatever came before, a run of `m` adds such events, whether it returns or raises.
  abbrev pub Keeps : {A : Type 0} → Exec E A → Type 0
  Keeps m = (h : List E) → (xs : List E) × Balanced xs × ((m h).1 ≡ h ++ xs)

  pub Keeps-pure : {A : Type 0} (r : Outcome A) → Keeps (λ h. (r, h))
  Keeps-pure r h = ([], λ s. unfold live in refl, sym (append-nil h))

  pub Keeps-continue :
      {A B : Type 0} (f : A → Exec E B)
      → ((a : A) → Keeps (f a))
      → (r : Outcome A) → Keeps (continue r f)
  Keeps-continue f kept (ok a) = kept a
  Keeps-continue {B = B} f kept (raised e) = Keeps-pure {A = B} (raised e)

  pub Keeps->>= :
      {A B : Type 0} (m : Exec E A) (f : A → Exec E B)
      → Keeps m
      → ((a : A) → Keeps (f a))
      → Keeps (m >>= f)
  Keeps->>= m f first kept h =
      let (xs, even, at) = first h in
      let (ys, even', at') = Keeps-continue f kept (m h).0 (m h).1 in
      (
        xs ++ ys,
        Balanced-append xs ys even even',
        at' ∙ ap (λ t. t ++ ys) at ∙ append_assoc h xs ys,
      )

  -- An event that neither starts nor stops a process, with any answer.
  pub Keeps-event :
      {A : Type 0} (answer : List E → Outcome A) (e : E)
      → ((s : List Process) → step e s ≡ some s)
      → Keeps (call answer e)
  Keeps-event answer e plain h = (e ∷ [], Balanced-one e plain, refl)

  -- A `try` behind the start of a process, whose `finally` first stops it.
  pub Keeps-ensuring :
      {A B : Type 0} (p : Process) (first last : E) (m : Exec E A) (answer : List E → Outcome B)
      (behind : B → Exec E B)
      → ((s : List Process) → step first s ≡ some (p ∷ s))
      → ((s : List Process) → step last s ≡ stopped p s)
      → Keeps m
      → ((b : B) → Keeps (behind b))
      → Keeps (λ h. ensuring m (call answer last >>= behind) (h ++ first ∷ []))
  Keeps-ensuring p first last m answer behind starts stops kept after h =
      let (xs, even, at) = kept (h ++ first ∷ []) in
      let t = (m (h ++ first ∷ [])).1 in
      let (zs, even', at') = Keeps-continue behind after (answer t) (t ++ last ∷ []) in
      (
        (first ∷ (xs ++ last ∷ [])) ++ zs,
        Balanced-append (first ∷ (xs ++ last ∷ [])) zs
            (Balanced-around p first last xs starts stops even) even',
        at' ∙ ap (λ l. (l ++ last ∷ []) ++ zs) at ∙ simp append_assoc,
      )
