-- ===== src/Process/Hosted.antt =====
-- eest_replay/export.py under the contexts of el.py: what an export or a submit does to a client that
-- runs, among all that is done.
use buildoor_tester.Base.{◌≡◌, refl, ◌∙◌, ap, List, [], ◌∷◌, ◌++◌, map, String, Exec}
use buildoor_tester.Testing.{Testing}
use buildoor_tester.Export.Submit
use buildoor_tester.Export.Stops.{step_submit}
use buildoor_tester.Process.Running.{Process, live, Keeps}
use buildoor_tester.Process.Events.{Event, submits, Host}
use buildoor_tester.Process.Balance.{step}

module _ (T : Testing) where
  abbrev pub embedded : {A : Type 0} → Exec Submit.Event A → Exec (Event T) A
  embedded m h = let (r, t) = m [] in (r, h ++ map submits t)

  submits-live :
      (t : List Submit.Event) (s : List Process)
      → live (step T) (map submits t) s ≡ live step_submit t s
  unfolding live
  submits-live [] s = refl
  submits-live (e ∷ t) s = simp (submits-live t) refl

  pub embedded-Keeps :
      {A : Type 0} (m : Exec Submit.Event A) → Keeps step_submit m → Keeps (step T) (embedded m)
  embedded-Keeps m kept h =
      let (xs, even, at) = kept [] in
      (map submits xs, (λ s. submits-live xs s ∙ even s), ap (λ l. h ++ map submits l) at)

module _ (T : Testing) (H : Host T) where
  -- The surroundings are those of the client at the URL.
  abbrev pub hosted :
      {A : Type 0} → String → (Submit.World → Exec Submit.Event A) → Exec (Event T) A
  hosted url m h = embedded T (m (H.world h url)) h

  pub hosted-Keeps :
      {A : Type 0} (url : String) (m : Submit.World → Exec Submit.Event A)
      → ((W : Submit.World) → Keeps step_submit (m W))
      → Keeps (step T) (hosted url m)
  hosted-Keeps url m kept h = embedded-Keeps T (m (H.world h url)) (kept (H.world h url)) h
