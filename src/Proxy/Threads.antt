-- ===== src/Proxy/Threads.antt =====
-- eest_replay/rpc_proxy.py: the requests of a `ThreadingHTTPServer`, each in a thread of its own. A
-- thread whose request was forwarded and answered goes through the calls of the request one by one;
-- the recorder's lock makes each `record` one step. A request whose forwarding failed, or whose body
-- is no JSON, changes nothing here.
use buildoor_tester.Base.{
  ℕ, ◌+◌, ◌≡◌, refl, ◌∙◌, ap, sym, List, [], ◌∷◌, ◌++◌, flat, append-nil, append_assoc, String,
  str_eq, Exc, Option, arith, if◌then◌else◌,
}
use buildoor_tester.Base.Json.{Json, Items, nil, cons}
use buildoor_tester.Proxy.{
  Found, nothing, transaction, breaks, record_found, of_call, calls_of, record_calls,
  extract_raw_txs,
}

pub record State : Type 0 where
  -- The requests that were answered, the last one first.
  pub answered : List Json
  -- `raw_txs` of the recorder.
  pub recorded : List String
  -- For each of these requests, the calls that its thread has still to go through.
  pub working : List Items

abbrev pub start : State
start = record { answered = []; recorded = []; working = [] }

abbrev pub answer : Json → State → State
answer payload s = record {
  answered = payload ∷ s.answered;
  recorded = s.recorded;
  working = calls_of payload ∷ s.working;
}

abbrev pub moved : State → List String → List Items → State
moved s txs working = record {
  answered = s.answered;
  recorded = s.recorded ++ txs;
  working = working;
}

-- One step of some thread: its request is answered, or it goes through one call, which records a
-- transaction, has none, or raises an exception that ends the loop.
pub data Step (s : State) : State → Type 0 where
  answers : (payload : Json) → Step s (answer payload s)
  records :
      (before : List Items) (c : Json) (cs : Items) (after : List Items) (tx : String)
      → s.working ≡ before ++ cons c cs ∷ after
      → of_call c ≡ transaction tx
      → Step s (moved s (tx ∷ []) (before ++ cs ∷ after))
  skips :
      (before : List Items) (c : Json) (cs : Items) (after : List Items)
      → s.working ≡ before ++ cons c cs ∷ after
      → of_call c ≡ nothing
      → Step s (moved s [] (before ++ cs ∷ after))
  raises :
      (before : List Items) (c : Json) (cs : Items) (after : List Items) (e : Exc)
      → s.working ≡ before ++ cons c cs ∷ after
      → of_call c ≡ breaks e
      → Step s (moved s [] (before ++ nil ∷ after))

pub data Reach : State → Type 0 where
  here : Reach start
  next : {s t : State} → Reach s → Step s t → Reach t

-- What a thread records of these calls, alone and from an empty recorder.
abbrev alone : Items → List String
alone cs = (record_calls cs []).0

abbrev pub pending : State → List String
pending s = flat alone s.working

-- What is recorded of these requests when each is handled by itself.
abbrev pub one_by_one : List Json → List String
one_by_one payloads = flat (λ p. (extract_raw_txs p []).0) payloads

abbrev pub count : String → List String → ℕ
count x [] = 0
count x (y ∷ ys) = (if str_eq y x then 1 else 0) + count x ys

count-append : (x : String) (ys zs : List String) → count x (ys ++ zs) ≡ count x ys + count x zs
count-append x [] zs = omega arith
count-append x (y ∷ ys) zs = omega (arith, count-append x ys zs)

flat-append :
    {A B : Type 0} (f : A → List B) (xs ys : List A) → flat f (xs ++ ys) ≡ flat f xs ++ flat f ys
flat-append f [] ys = refl
flat-append f (x ∷ xs) ys = ap (λ r. f x ++ r) (flat-append f xs ys) ∙ sym (append_assoc (f x) _ _)

found-behind :
    (found : Found) (rest : List String → List String × Option Exc)
    → ((r : List String) → (rest r).0 ≡ r ++ (rest []).0)
    → (r : List String) → (record_found found rest r).0 ≡ r ++ (record_found found rest []).0
found-behind nothing rest law r = law r
found-behind (transaction tx) rest law r =
    law (r ++ tx ∷ [])
    ∙ append_assoc r (tx ∷ []) (rest []).0
    ∙ ap (λ l. r ++ l) (sym (law (tx ∷ [])))
found-behind (breaks e) rest law r = sym (append-nil r)

-- What was recorded before stays in front.
record_calls-behind : (cs : Items) (r : List String) → (record_calls cs r).0 ≡ r ++ alone cs
unfolding record_calls
record_calls-behind nil r = sym (append-nil r)
record_calls-behind (cons c cs) r =
    found-behind (of_call c) (record_calls cs) (record_calls-behind cs) r

-- What is recorded of the first call of some, and behind it.
alone-cons :
    (c : Json) (cs : Items) {found : Found}
    → of_call c ≡ found
    → alone (cons c cs) ≡ (record_found found (record_calls cs) []).0
unfolding record_calls
alone-cons c cs is = ap (λ f. (record_found f (record_calls cs) []).0) is

-- The occurrences in what the threads have still to record, around one of them.
count-around :
    (x : String) (before : List Items) (l : Items) (after : List Items)
    → count x (flat alone (before ++ l ∷ after))
      ≡ count x (flat alone before) + (count x (alone l) + count x (flat alone after))
count-around x before l after = rw (flat-append, count-append, count-append)

-- However the threads are interleaved, every transaction occurs among those recorded and those that
-- the threads have still to record exactly as often as it is recorded when each of the answered
-- requests is handled by itself: none is lost between the threads, and none recorded twice.
pub Reach-counts :
    {s : State} (r : Reach s) (x : String)
    → count x s.recorded + count x (pending s) ≡ count x (one_by_one s.answered)
unfolding extract_raw_txs
Reach-counts here x = refl
Reach-counts (next {s = s} r (answers payload)) x = omega (
  arith,
  Reach-counts r x,
  count-append x (alone (calls_of payload)) (flat alone s.working),
  count-append x (alone (calls_of payload)) (one_by_one s.answered),
)
Reach-counts (next {s = s} r (records before c cs after tx e is)) x = omega (
  arith,
  Reach-counts r x,
  count-append x s.recorded (tx ∷ []),
  count-around x before cs after,
  count-around x before (cons c cs) after,
  ap (λ w. count x (flat alone w)) e,
  ap (count x) (alone-cons c cs is ∙ record_calls-behind cs (tx ∷ [])),
)
Reach-counts (next {s = s} r (skips before c cs after e is)) x = omega (
  arith,
  Reach-counts r x,
  count-append x s.recorded [],
  count-around x before cs after,
  count-around x before (cons c cs) after,
  ap (λ w. count x (flat alone w)) e,
  ap (count x) (alone-cons c cs is),
)
Reach-counts (next {s = s} r (raises before c cs after e' e is)) x = omega (
  arith,
  Reach-counts r x,
  count-append x s.recorded [],
  count-around x before nil after,
  count-around x before (cons c cs) after,
  ap (λ w. count x (flat alone w)) e,
  ap (count x) (alone-cons c cs is),
)
