-- ===== src/Process/Poll.antt =====
-- eest_replay/el.py and buildoor_client.py: `_wait_for_rpc` and `_wait_for_health`, which ask again
-- until a deadline. The clock and the answers may depend on all that was done before.
use buildoor_tester.Base.{
  ℕ, zero, suc, ◌+◌, ◌≤◌, ◌<◌, ◌≡◌, refl, ◌⊎◌, inl, inr, Bool, true, false, Bool-cases, List, [],
  ◌∷◌, ◌++◌, Option, none, some, String, Outcome, ok, raised, Exc, runtime_error, foreign_error,
  arith, ltb, ltb→lt, lt→ltb, ◌==◌, if◌then◌else◌,
}

-- A status of a response, or the exception of the request.
abbrev pub is_ready : Outcome ℕ → Bool
is_ready (ok status) = status == 200
is_ready (raised e) = false

-- `last_err`.
abbrev pub last_error : Option Exc → Outcome ℕ → Option Exc
last_error last (ok status) = last
last_error last (raised e) = some e

abbrev pub out_of_rounds : Exc
out_of_rounds = foreign_error "out of rounds"

module _ {E : Type 0} (request : E) (now : List E → ℕ) (answer : List E → Outcome ℕ) where
  -- The last request was made before the deadline, and its response has the status 200.
  abbrev pub Ready : ℕ → Outcome (Unit {0}) × List E → Type 0
  Ready deadline r =
      (r.0 ≡ ok tt)
      × (u : List E) × (now u < deadline)
      × (is_ready (answer u) ≡ true)
      × (r.1 ≡ u ++ request ∷ [])

  -- The error is raised at the deadline or later.
  abbrev pub Late : ℕ → Outcome (Unit {0}) × List E → Type 0
  Late deadline r = (m : String) × (r.0 ≡ raised (runtime_error m)) × (deadline ≤ now r.1)

-- A request, what is done behind an answer that is not ready, the clock in milliseconds, the answer
-- to a request, and the message of the error by the last exception.
module _ {E : Type 0} (request : E) (pause : Outcome ℕ → List E) (now : List E → ℕ)
    (answer : List E → Outcome ℕ) (message : Option Exc → String) where
  -- One pass behind the test of the clock: `u` is the history with the request.
  abbrev after_request :
      (Option Exc → List E → Outcome (Unit {0}) × List E)
      → Option Exc
      → Outcome ℕ
      → List E
      → Outcome (Unit {0}) × List E
  after_request again last a u =
      if is_ready a then (ok tt, u) else again (last_error last a) (u ++ pause a)

  -- The loop, with a number of rounds that is enough by `poll-Waited`.
  unfoldable pub poll : ℕ → ℕ → Option Exc → List E → Outcome (Unit {0}) × List E
  poll zero deadline last h = (raised out_of_rounds, h)
  poll (suc n) deadline last h =
      let more = after_request (poll n deadline) last (answer h) (h ++ request ∷ []) in
      if ltb (now h) deadline then more else (raised (runtime_error (message last)), h)

  unfoldable pub wait_until_ready : ℕ → List E → Outcome (Unit {0}) × List E
  wait_until_ready timeout h = poll (suc timeout) (now h + timeout) none h

  module _ (takes : (h : List E) → now h < now (h ++ request ∷ []))
      (waits : (a : Outcome ℕ) (h : List E) → now h ≤ now (h ++ pause a)) where
    poll-Waited :
        (n deadline : ℕ) (last : Option Exc) (h : List E)
        → 0 < n
        → deadline < n + now h
        → Ready request now answer deadline (poll n deadline last h)
          ⊎ Late request now answer deadline (poll n deadline last h)
    unfolding poll
    poll-Waited zero deadline last h some_left enough = absurd (omega arith)
    poll-Waited (suc n) deadline last h some_left enough =
        elim (Bool-cases (ltb (now h) deadline)) [
          | inr late ↦ rw late (inr (message last, refl, ground arith))
          | inl soon ↦ elim (Bool-cases (is_ready (answer h))) [
            | inl good ↦ rw soon (rw good (inl (refl, h, ground arith, good, refl)))
            | inr bad ↦ rw soon (
                rw bad (
                  poll-Waited n deadline (last_error last (answer h))
                    ((h ++ request ∷ []) ++ pause (answer h))
                    (omega (arith, ltb→lt (now h) deadline soon))
                    (omega (arith, takes h, waits (answer h) (h ++ request ∷ [])))))
          ]
        ]

    -- The wait ends, if a request takes some time and nothing turns the clock back: with a request
    -- that was answered by the status 200 and made before the deadline, or with a `RuntimeError` at
    -- the deadline or later.
    pub wait_until_ready-ends :
        (timeout : ℕ) (h : List E)
        → let r = wait_until_ready timeout h in
          Ready request now answer (now h + timeout) r ⊎ Late request now answer (now h + timeout) r
    unfolding wait_until_ready
    wait_until_ready-ends timeout h =
        poll-Waited (suc timeout) (now h + timeout) none h (omega arith) (omega arith)

    -- With an upper bound for a round, and a time from which on each request is answered by 200.
    module _ (pace up : ℕ)
        (quick : (a : Outcome ℕ) (h : List E) → now ((h ++ request ∷ []) ++ pause a) ≤ now h + pace)
        (answers : (h : List E) → up ≤ now h → is_ready (answer h) ≡ true) where
      poll-ready :
          (n deadline : ℕ) (last : Option Exc) (h : List E)
          → deadline < n + now h
          → now h < deadline
          → up + pace ≤ deadline
          → (poll n deadline last h).0 ≡ ok tt
      unfolding poll
      poll-ready zero deadline last h enough soon room = absurd (omega arith)
      poll-ready (suc n) deadline last h enough soon room =
          elim (Bool-cases (is_ready (answer h))) [
            | inl good ↦ rw (lt→ltb (now h) deadline soon) (rw good refl)
            | inr bad ↦
                let next = (h ++ request ∷ []) ++ pause (answer h) in
                let early : now h < up = ground (arith, answers h) in
                rw (lt→ltb (now h) deadline soon) (
                  rw bad (
                    poll-ready n deadline (last_error last (answer h)) next
                      (omega (arith, takes h, waits (answer h) (h ++ request ∷ [])))
                      (omega (arith, quick (answer h) h)) room))
          ]

      -- A wait whose time is enough ends with success: the clock has a round to go behind the
      -- time from which on the process answers.
      pub wait_until_ready-succeeds :
          (timeout : ℕ) (h : List E)
          → 0 < timeout
          → up + pace ≤ now h + timeout
          → (wait_until_ready timeout h).0 ≡ ok tt
      unfolding wait_until_ready
      wait_until_ready-succeeds timeout h long room =
          poll-ready (suc timeout) (now h + timeout) none h (omega arith) (omega arith) room
