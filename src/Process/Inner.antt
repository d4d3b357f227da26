-- ===== src/Process/Inner.antt =====
-- eest_replay/el.py and buildoor_client.py: what is done under the contexts, apart from what the
-- contexts themselves do.
use buildoor_tester.Base.{
  ◌+◌, ◌<>◌, ℕ, zero, suc, ◌≡◌, refl, sym, ap, ◌∙◌, Bool, true, false, Bool-cases, inl, inr, Option,
  none, List, [], ◌∷◌, ◌++◌, append-nil, append_assoc, map, String, Outcome, ok, raised, Exc, Exec,
  continue, ◌>>◌, ltb, if◌then◌else◌,
}
use buildoor_tester.Testing.{Testing}
use buildoor_tester.Runner.Calls.{Call}
use buildoor_tester.Export.Submit
use buildoor_tester.Process.Poll.{poll, wait_until_ready, is_ready, last_error}
use buildoor_tester.Process.Events.{
  Event, ask_ready, calls, submits, stop, wait_end, kill, Host, request_stop, reap,
}
use buildoor_tester.Process.Running.{Process}
use buildoor_tester.Process.Engine.{
  rest_of_round, rpc_message, health_message, wait_for_rpc, wait_for_health,
}

module _ (T : Testing) where
  abbrev is_inner : Event T → Bool
  is_inner (calls c) = true
  is_inner (submits e) = true
  is_inner _ = false

  -- The calls of the replays, and what exports, submits and the terminal do.
  unfoldable pub inner : List (Event T) → List (Event T)
  inner [] = []
  inner (e ∷ es) = if is_inner e then e ∷ inner es else inner es

  pub inner-append : (xs ys : List (Event T)) → inner (xs ++ ys) ≡ inner xs ++ inner ys
  unfolding inner
  inner-append [] ys = refl
  inner-append (e ∷ xs) ys = elim (Bool-cases (is_inner e)) [
    | inl is ↦ rw is (ap (λ l. e ∷ l) (inner-append xs ys))
    | inr isnt ↦ rw isnt (inner-append xs ys)
  ]

  pub inner-calls : (t : List (Call T)) → inner (map calls t) ≡ map calls t
  unfolding inner
  inner-calls [] = refl
  inner-calls (c ∷ t) = ap (λ l. calls c ∷ l) (inner-calls t)

  pub inner-submits : (t : List Submit.Event) → inner (map submits t) ≡ map submits t
  unfolding inner
  inner-submits [] = refl
  inner-submits (e ∷ t) = ap (λ l. submits e ∷ l) (inner-submits t)

  -- Events of a context add nothing.
  pub inner-outer : (h xs : List (Event T)) → inner xs ≡ [] → inner (h ++ xs) ≡ inner h
  inner-outer h xs none_of =
      inner-append h xs ∙ ap (λ l. inner h ++ l) none_of ∙ append-nil (inner h)

module _ (T : Testing) (H : Host T) where
  rest-outer : (h : List (Event T)) (a : Outcome ℕ) → inner T (h ++ rest_of_round T H a) ≡ inner T h
  unfolding inner
  rest-outer h (ok status) = inner-outer T h [] refl
  rest-outer h (raised e) = inner-outer T h (rest_of_round T H (raised e)) refl

  poll-outer :
      (url : String) (message : Option Exc → String) (n deadline : ℕ) (last : Option Exc)
      (h : List (Event T))
      → inner T
          (poll (ask_ready url) (rest_of_round T H) H.now H.on_ask message n deadline last h).1
        ≡ inner T h
  unfolding poll
  poll-outer url message zero deadline last h = refl
  poll-outer url message (suc n) deadline last h = elim (Bool-cases (ltb (H.now h) deadline)) [
    | inr late ↦ rw late refl
    | inl soon ↦
        let asked : inner T (h ++ ask_ready url ∷ []) ≡ inner T h =
          inner-outer T h (ask_ready url ∷ []) (unfold inner in refl) in
        elim (Bool-cases (is_ready (H.on_ask h))) [
          | inl good ↦ rw soon (rw good asked)
          | inr bad ↦
              let a = H.on_ask h in
              let h1 = h ++ ask_ready url ∷ [] in
              rw soon (
                rw bad (
                  poll-outer url message n deadline (last_error last a) (h1 ++ rest_of_round T H a)
                  ∙ rest-outer h1 a
                  ∙ asked))
        ]
  ]

  -- The code of a context that is not under the `with`.
  abbrev pub Outer : {A : Type 0} → Exec (Event T) A → Type 0
  Outer m = (h : List (Event T)) → inner T (m h).1 ≡ inner T h

  pub wait_for_rpc-Outer : (url : String) → Outer (wait_for_rpc T H url)
  unfolding wait_for_rpc wait_until_ready
  wait_for_rpc-Outer url h =
      poll-outer url (rpc_message T H url) (suc 30000) (H.now h + 30000) none h

  pub wait_for_health-Outer : (url : String) → Outer (wait_for_health T H url)
  unfolding wait_for_health wait_until_ready
  wait_for_health-Outer url h =
      poll-outer (url <> "/healthz") (health_message T H url) (suc 15000) (H.now h + 15000) none h

  reap-outer :
      (p : Process) (seconds : ℕ)
      → (h : List (Event T))
      → (zs : List (Event T)) × (inner T zs ≡ []) × ((reap T H p seconds h).1 ≡ h ++ zs)
  unfolding reap inner
  reap-outer p seconds h = elim (Bool-cases (H.ends_in_time h)) [
    | inl is ↦ rw is (wait_end p seconds ∷ [], refl, refl)
    | inr is ↦ rw is (
      wait_end p seconds ∷ kill p ∷ [],
      refl,
      append_assoc h (wait_end p seconds ∷ []) (kill p ∷ []),
    )
  ]

  reap_unless-outer :
      (p : Process) (seconds : ℕ) (r : Outcome (Unit {0})) (h : List (Event T))
      → (zs : List (Event T)) × (inner T zs ≡ [])
        × ((continue r (λ _. reap T H p seconds) h).1 ≡ h ++ zs)
  unfolding inner
  reap_unless-outer p seconds (ok u) h = reap-outer p seconds h
  reap_unless-outer p seconds (raised x) h = ([], refl, sym (append-nil h))

  -- The end of a context.
  pub cleanup-outer :
      (p : Process) (seconds : ℕ) (h : List (Event T))
      → (zs : List (Event T)) × (inner T zs ≡ [])
        × (((request_stop T H p >> reap T H p seconds) h).1 ≡ h ++ zs)
  unfolding inner
  cleanup-outer p seconds h =
      let (zs, quiet, at) = reap_unless-outer p seconds (H.on_stop h) (h ++ stop p ∷ []) in
      (stop p ∷ zs, quiet, at ∙ append_assoc h (stop p ∷ []) zs)
