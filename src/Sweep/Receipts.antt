-- ===== src/Sweep/Receipts.antt =====
-- eest_replay/sweep.py: the wait for the receipts behind a recovery.
use buildoor_tester.Base.{
  ℕ, zero, suc, ◌+◌, ◌*◌, ◌≤◌, ◌≡◌, refl, ap, ◌∙◌, sym, false, Bool-cases, inl, inr, List, All,
  append-nil, append_assoc, subst, [], ◌∷◌, ◌++◌, ltb, arith, Outcome, ok, raised, Exec, continue,
  lift, ◌>>=◌, ◌>>◌, if◌then◌else◌,
}
use buildoor_tester.Base.Json.{Json}
use buildoor_tester.Sweep.{
  out_of_rounds, is_unmined, hashes_of, Call, eth_get_transaction_receipt, sleep, Chain,
  RecoveredAccount, rpc_call, still_pending, pause, await_receipts, wait_within, wait_for_receipts,
}

continue-cong :
    {E A B : Type 0} (r : Outcome A) (f g : A → Exec E B) (h : List E)
    → ((a : A) → f a h ≡ g a h)
    → continue r f h ≡ continue r g h
continue-cong (ok a) f g h same = same a
continue-cong (raised e) f g h same = refl

-- The calls of the wait.
abbrev pub IsWait : Call → Type 0
IsWait (eth_get_transaction_receipt hash) = Unit {0}
IsWait (sleep time) = Unit {0}
IsWait _ = ⊥

All-IsWait-append : (xs ys : List Call) → All IsWait xs → All IsWait ys → All IsWait (xs ++ ys)
All-IsWait-append [] ys p q = q
All-IsWait-append (x ∷ xs) ys (p, ps) q = (p, All-IsWait-append xs ys ps q)

-- A run of `m` adds such calls only.
abbrev pub Waits : {A : Type 0} → Exec Call A → Type 0
Waits m = (h : List Call) → (xs : List Call) × All IsWait xs × ((m h).1 ≡ h ++ xs)

Waits-pure : {A : Type 0} (r : Outcome A) → Waits (λ h. (r, h))
Waits-pure r h = ([], tt, sym (append-nil h))

Waits-continue :
    {A B : Type 0} (f : A → Exec Call B)
    → ((a : A) → Waits (f a))
    → (r : Outcome A) → Waits (continue r f)
Waits-continue f rest (ok a) = rest a
Waits-continue {B = B} f rest (raised e) = Waits-pure {A = B} (raised e)

Waits->>= :
    {A B : Type 0} (m : Exec Call A) (f : A → Exec Call B)
    → Waits m
    → ((a : A) → Waits (f a))
    → Waits (m >>= f)
Waits->>= m f first rest h =
    let (xs, p, at) = first h in
    let (ys, q, at') = Waits-continue f rest (m h).0 (m h).1 in
    (xs ++ ys, All-IsWait-append xs ys p q, at' ∙ ap (λ t. t ++ ys) at ∙ append_assoc h xs ys)

module _ (C : Chain) where
  still_pending-Waits : (hashes : List Json) → Waits (still_pending C hashes)
  unfolding still_pending
  still_pending-Waits [] = Waits-pure {A = List Json} (ok [])
  still_pending-Waits (hash ∷ hashes) =
      Waits->>= (rpc_call C (eth_get_transaction_receipt hash)) _
        (λ h. (eth_get_transaction_receipt hash ∷ [], (tt, tt), refl))
        (λ reply.
          Waits-continue _
            (λ unmined.
              Waits->>= (still_pending C hashes) _ (still_pending-Waits hashes)
                (λ rest. Waits-pure {A = List Json} (ok (if unmined then hash ∷ rest else rest))))
            (is_unmined C reply))

  pause-Waits : (hashes : List Json) → Waits (pause C hashes)
  pause-Waits [] h = Waits-pure {A = Unit {0}} (ok tt) h
  pause-Waits (hash ∷ hashes) h = (sleep 4000 ∷ [], (tt, tt), refl)

  left_behind-Waits :
      (hashes : List Json) → Waits (still_pending C hashes >>= λ left. lift (C.as_set left))
  left_behind-Waits hashes =
      Waits->>= (still_pending C hashes) _ (still_pending-Waits hashes)
        (λ left. Waits-pure (C.as_set left))

  await_receipts-Waits :
      (n deadline : ℕ) (hashes : List Json) → Waits (await_receipts C n deadline hashes)
  unfolding await_receipts
  await_receipts-Waits n deadline [] h = Waits-pure {A = Unit {0}} (ok tt) h
  await_receipts-Waits zero deadline (hash ∷ hashes) h =
      Waits-pure {A = Unit {0}} (raised out_of_rounds) h
  await_receipts-Waits (suc n) deadline (hash ∷ hashes) h =
      elim (Bool-cases (ltb (C.now h) deadline)) [
        | inr late ↦ rw late (Waits-pure {A = Unit {0}} (ok tt) h)
        | inl soon ↦ rw soon (
            Waits->>= (still_pending C (hash ∷ hashes) >>= λ left. lift (C.as_set left)) _
              (left_behind-Waits (hash ∷ hashes))
              (λ pending.
                Waits->>= (pause C pending) _ (pause-Waits pending)
                  (λ _. await_receipts-Waits n deadline pending))
              h)
      ]

  pub wait_for_receipts-Waits : (rs : List RecoveredAccount) → Waits (wait_for_receipts C rs)
  unfolding wait_for_receipts wait_within
  wait_for_receipts-Waits [] h = Waits-pure {A = Unit {0}} (ok tt) h
  wait_for_receipts-Waits (r ∷ rs) h =
      Waits-continue _ (λ pending. await_receipts-Waits 46 (C.now h + 180000) pending)
        (C.as_set (hashes_of C (r ∷ rs))) h

  -- No call turns the clock back, and a sleep takes no less than it is asked for.
  pub record GoesOn : Type 0 where
    pub takes : (c : Call) (h : List Call) → C.now h ≤ C.now (h ++ c ∷ [])
    pub sleeps : (time : ℕ) (h : List Call) → C.now h + time ≤ C.now (h ++ sleep time ∷ [])

  now-append : GoesOn → (h xs : List Call) → C.now h ≤ C.now (h ++ xs)
  now-append g h [] = rw (append-nil h) (omega arith)
  now-append g h (x ∷ xs) =
      let more = now-append g (h ++ x ∷ []) xs in
      let at = append_assoc h (x ∷ []) xs in
      omega (arith, g.takes x h, subst (λ l. C.now (h ++ x ∷ []) ≤ C.now l) at more)

  Waits-now :
      {A : Type 0} (m : Exec Call A) → GoesOn → Waits m → (h : List Call) → C.now h ≤ C.now (m h).1
  Waits-now m g w h =
      let (xs, _, at) = w h in subst (λ l. C.now h ≤ C.now l) (sym at) (now-append g h xs)

  next_round :
      GoesOn
      → (f k : List Json → Exec Call (Unit {0})) (pending : List Json) (u : List Call)
      → ((v : List Call) → f [] v ≡ k [] v)
      → ((v : List Call) → C.now u + 4000 ≤ C.now v → f pending v ≡ k pending v)
      → (pause C pending >> f pending) u ≡ (pause C pending >> k pending) u
  next_round g f k [] u none_left same = none_left u
  next_round g f k (x ∷ xs) u none_left same = same (u ++ sleep 4000 ∷ []) (g.sleeps 4000 u)

  -- On a clock that goes on, a wait whose rounds but one may sleep until the deadline does not change
  -- with more rounds.
  pub await_receipts-enough :
      GoesOn
      → (m n deadline : ℕ) (hashes : List Json) (h : List Call) → m ≤ n
      → deadline ≤ m * 4000 + C.now h
      → await_receipts C (suc n) deadline hashes h ≡ await_receipts C (suc m) deadline hashes h
  unfolding await_receipts
  await_receipts-enough g m n deadline [] h more enough = refl
  await_receipts-enough g zero n deadline (hash ∷ hashes) h more enough =
      let late : ltb (C.now h) deadline ≡ false = ground arith in rw late refl
  await_receipts-enough g (suc m) zero deadline (hash ∷ hashes) h more enough = absurd (omega arith)
  await_receipts-enough g (suc m) (suc n) deadline (hash ∷ hashes) h more enough =
      let first = (still_pending C (hash ∷ hashes) >>= λ left. lift (C.as_set left)) in
      let later = Waits-now first g (left_behind-Waits (hash ∷ hashes)) h in
      ap (λ r. if ltb (C.now h) deadline then r else (ok tt, h))
        (continue-cong (first h).0
          (λ pending. pause C pending >> await_receipts C (suc n) deadline pending)
          (λ pending. pause C pending >> await_receipts C (suc m) deadline pending) (first h).1
          (λ pending.
            next_round g (await_receipts C (suc n) deadline) (await_receipts C (suc m) deadline)
              pending (first h).1 (λ v. refl)
              (λ v slept.
                await_receipts-enough g m n deadline pending v (omega arith)
                  (omega (arith, later, slept)))))

  -- On a clock that goes on, the wait for the receipts ends by itself: with any larger number of
  -- rounds than the 46 that it has, it makes the same calls and comes to the same.
  pub wait_for_receipts-enough :
      GoesOn
      → (n : ℕ) (rs : List RecoveredAccount) (h : List Call) → 45 ≤ n
      → wait_within C (suc n) rs h ≡ wait_for_receipts C rs h
  unfolding wait_for_receipts wait_within
  wait_for_receipts-enough g n [] h more = refl
  wait_for_receipts-enough g n (r ∷ rs) h more =
      let deadline = C.now h + 180000 in
      continue-cong (C.as_set (hashes_of C (r ∷ rs))) (await_receipts C (suc n) deadline)
        (await_receipts C 46 deadline) h
        (λ pending. await_receipts-enough g 45 n deadline pending h more (omega arith))
