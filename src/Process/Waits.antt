-- ===== src/Process/Waits.antt =====
-- eest_replay/el.py and buildoor_client.py: what the two waits promise of a clock that goes on.
use buildoor_tester.Base.{
  ℕ, ◌+◌, ◌≤◌, ◌<◌, ◌≡◌, ap, ◌⊎◌, List, [], ◌∷◌, ◌++◌, append-nil, String, ◌<>◌, Outcome, ok,
  raised, arith,
}
use buildoor_tester.Testing.{Testing}
use buildoor_tester.Process.Poll.{
  is_ready, Ready, Late, wait_until_ready-ends, wait_until_ready-succeeds,
}
use buildoor_tester.Process.Events.{Event, ask_ready, nap, Host}
use buildoor_tester.Process.Engine.{
  rest_of_round, rpc_message, health_message, wait_for_rpc, wait_for_health,
}

module _ (T : Testing) (H : Host T) where
  -- A request takes some time, and a sleep no less than it is asked for.
  pub record GoesOn : Type 0 where
    pub takes : (url : String) (h : List (Event T)) → H.now h < H.now (h ++ ask_ready url ∷ [])
    pub sleeps : (time : ℕ) (h : List (Event T)) → H.now h + time ≤ H.now (h ++ nap time ∷ [])

  rest-le :
      GoesOn → (a : Outcome ℕ) (h : List (Event T)) → H.now h ≤ H.now (h ++ rest_of_round T H a)
  rest-le g (ok status) h = rw (append-nil h) (omega arith)
  rest-le g (raised e) h = omega (arith, g.sleeps 250 h)

  -- How a wait of `timeout` milliseconds ends, with one request of `url` in each round.
  abbrev pub EndsBy : ℕ → String → List (Event T) → Outcome (Unit {0}) × List (Event T) → Type 0
  EndsBy timeout url h r =
      Ready (ask_ready url) H.now H.on_ask (H.now h + timeout) r
      ⊎ Late (ask_ready url) H.now H.on_ask (H.now h + timeout) r

  -- On a clock that goes on, the wait for the client ends: it returns behind a request that was
  -- made before the deadline and answered by the status 200, or it raises a `RuntimeError` at the
  -- deadline of 30 seconds or later.
  pub wait_for_rpc-ends :
      GoesOn → (url : String) (h : List (Event T)) → EndsBy 30000 url h (wait_for_rpc T H url h)
  unfolding wait_for_rpc
  wait_for_rpc-ends g url h =
      wait_until_ready-ends (ask_ready url) (rest_of_round T H) H.now H.on_ask (rpc_message T H url)
        (g.takes url) (rest-le g) 30000 h

  -- The wait for buildoor ends in the same way, at its deadline of 15 seconds.
  pub wait_for_health-ends :
      GoesOn
      → (url : String) (h : List (Event T))
      → EndsBy 15000 (url <> "/healthz") h (wait_for_health T H url h)
  unfolding wait_for_health
  wait_for_health-ends g url h =
      wait_until_ready-ends (ask_ready (url <> "/healthz")) (rest_of_round T H) H.now H.on_ask
        (health_message T H url) (g.takes (url <> "/healthz")) (rest-le g) 15000 h

  -- On a clock that goes on, if a round takes no more than `pace` and from the time `up` on each
  -- request is answered by the status 200, then the wait for the client succeeds, given that a
  -- round fits between that time and the deadline.
  pub wait_for_rpc-succeeds :
      GoesOn
      → (url : String) (pace up : ℕ)
      → ((a : Outcome ℕ) (h : List (Event T))
          → H.now ((h ++ ask_ready url ∷ []) ++ rest_of_round T H a) ≤ H.now h + pace)
      → ((h : List (Event T)) → up ≤ H.now h → H.on_ask h ≡ ok 200)
      → (h : List (Event T)) → up + pace ≤ H.now h + 30000
      → (wait_for_rpc T H url h).0 ≡ ok tt
  unfolding wait_for_rpc
  wait_for_rpc-succeeds g url pace up quick answers h room =
      wait_until_ready-succeeds (ask_ready url) (rest_of_round T H) H.now H.on_ask
        (rpc_message T H url) (g.takes url) (rest-le g) pace up quick
        (λ h late. ap is_ready (answers h late)) 30000 h (omega arith) room
