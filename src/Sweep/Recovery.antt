-- ===== src/Sweep/Recovery.antt =====
-- eest_replay/sweep.py: what `recover_funded_eoas` covers.
use buildoor_tester.Base.{
  ℕ, zero, suc, ◌+◌, ◌≡◌, refl, ◌∙◌, ap, sym, Option, List, All, pure, [], ◌∷◌, ◌++◌, append-nil,
  append_assoc, String, ℤ, pos, ◌+ℤ◌, length, length-append, ok, arith, >>=-eq-ok,
}
use buildoor_tester.Base.Json.{Json}
use buildoor_tester.Sweep.Receipts.{IsWait, wait_for_receipts-Waits}
use buildoor_tester.Sweep.{
  eth_get_transaction_receipt, sleep, wait_for_receipts, Call, eth_get_balance,
  eth_get_transaction_count, eth_send_raw_transaction, Chain, Fees, RecoveredAccount, recovered_of,
  sweep_account, scan, recover_funded_eoas,
}
use buildoor_tester.Sweep.Account.{Swept, left_alone, sent, sweep_account-Swept}

-- The accounts whose balance was asked for, in the order of the calls.
abbrev pub queried : List Call → List String
queried [] = []
queried (eth_get_balance a ∷ h) = a ∷ queried h
queried (eth_get_transaction_count a ∷ h) = queried h
queried (eth_send_raw_transaction raw ∷ h) = queried h
queried (eth_get_transaction_receipt hash ∷ h) = queried h
queried (sleep time ∷ h) = queried h

-- How many transactions were sent.
abbrev pub sends : List Call → ℕ
sends [] = 0
sends (eth_send_raw_transaction raw ∷ h) = suc (sends h)
sends (eth_get_balance a ∷ h) = sends h
sends (eth_get_transaction_count a ∷ h) = sends h
sends (eth_get_transaction_receipt hash ∷ h) = sends h
sends (sleep time ∷ h) = sends h

queried-append : (h t : List Call) → queried (h ++ t) ≡ queried h ++ queried t
queried-append [] t = refl
queried-append (eth_get_balance a ∷ h) t = ap (λ x. a ∷ x) (queried-append h t)
queried-append (eth_get_transaction_count a ∷ h) t = queried-append h t
queried-append (eth_send_raw_transaction raw ∷ h) t = queried-append h t
queried-append (eth_get_transaction_receipt hash ∷ h) t = queried-append h t
queried-append (sleep time ∷ h) t = queried-append h t

sends-append : (h t : List Call) → sends (h ++ t) ≡ sends h + sends t
sends-append [] t = omega arith
sends-append (eth_send_raw_transaction raw ∷ h) t = omega (arith, sends-append h t)
sends-append (eth_get_balance a ∷ h) t = sends-append h t
sends-append (eth_get_transaction_count a ∷ h) t = sends-append h t
sends-append (eth_get_transaction_receipt hash ∷ h) t = sends-append h t
sends-append (sleep time ∷ h) t = sends-append h t

-- The calls of the wait ask for no balance and send nothing.
waits-alone : (xs : List Call) → All IsWait xs → (queried xs ≡ []) × (sends xs ≡ 0)
waits-alone [] p = (refl, refl)
waits-alone (eth_get_balance a ∷ xs) p = absurd p.0
waits-alone (eth_get_transaction_count a ∷ xs) p = absurd p.0
waits-alone (eth_send_raw_transaction raw ∷ xs) p = absurd p.0
waits-alone (eth_get_transaction_receipt hash ∷ xs) p = waits-alone xs p.1
waits-alone (sleep time ∷ xs) p = waits-alone xs p.1

module _ (C : Chain) (start : ℤ) (to : String) (chain_id : ℤ) (f : Fees) where
  -- The addresses of the keys `start + i`, from an index on.
  abbrev pub derived : ℕ → ℕ → List String
  derived i zero = []
  derived i (suc n) = C.address (start +ℤ pos i) ∷ derived (suc i) n

  -- What one sweep adds to the calls and to the list of accounts.
  record Round (i : ℕ) (h t : List Call) (r : Option (Json × ℤ)) : Type 0 where
    asked : queried t ≡ queried h ++ C.address (start +ℤ pos i) ∷ []
    counted : sends t ≡ sends h + length (recovered_of C (start +ℤ pos i) r)

  sweep-Round :
      (i : ℕ) (h : List Call) {r : Option (Json × ℤ)} {t : List Call}
      → sweep_account C (start +ℤ pos i) to chain_id f (pos 0) h ≡ (ok r, t)
      → Round i h t r
  sweep-Round i h {r} {t} e =
      let (b, _, _, s) = sweep_account-Swept C (start +ℤ pos i) to chain_id f (pos 0) h e in
      of_swept b s
    where
      of_swept : (b : ℤ) → Swept C (start +ℤ pos i) to chain_id f (pos 0) b h r t → Round i h t r
      of_swept b (left_alone is low shape) = record {
        asked = ap queried shape ∙ queried-append h _;
        counted = ap sends shape ∙ sends-append h _ ∙ rw is;
      }
      of_swept b (sent hash nonce value is sum more enough shape) = record {
        asked = ap queried shape ∙ queried-append h _;
        counted = ap sends shape ∙ sends-append h _ ∙ rw is;
      }

  scan-covers :
      (i n : ℕ) (recovered : List RecoveredAccount) (h : List Call) {rs : List RecoveredAccount}
      {t : List Call}
      → scan C start i n to chain_id f recovered h ≡ (ok rs, t)
      → (queried t ≡ queried h ++ derived i n) × (length rs + sends h ≡ length recovered + sends t)
  unfolding scan
  scan-covers i zero recovered h e =
      (sym (ap (λ q. queried q.1) e) ∙ sym (append-nil (queried h)), ground arith)
  scan-covers i (suc n) recovered h e =
      let (r, u, swept, rest) =
        >>=-eq-ok (sweep_account C (start +ℤ pos i) to chain_id f (pos 0)) _ h e in
      let done = sweep-Round i h swept in
      let (names, count) =
        scan-covers (suc i) n (recovered ++ recovered_of C (start +ℤ pos i) r) u rest in
      (
        names ∙ ap (λ x. x ++ derived (suc i) n) done.asked ∙ append_assoc (queried h) _ _,
        omega (
          arith,
          count,
          done.counted,
          length-append recovered (recovered_of C (start +ℤ pos i) r),
        ),
      )

  -- A recovery that returns has asked for the balance of the accounts of the keys `start`,
  -- `start + 1` and so on, each once and in this order, `count` in all; and it reports as many
  -- accounts as it has sent transactions.
  pub recover-covers :
      (count : ℕ) {rs : List RecoveredAccount} {t : List Call}
      → recover_funded_eoas C start to chain_id count f [] ≡ (ok rs, t)
      → (queried t ≡ derived 0 count) × (length rs ≡ sends t)
  unfolding recover_funded_eoas
  recover-covers count {rs} e =
      let (found, u, scanned, rest) = >>=-eq-ok (scan C start 0 count to chain_id f []) _ [] e in
      let (names, same) = scan-covers 0 count [] [] scanned in
      let (_, v, waited, end) = >>=-eq-ok (wait_for_receipts C found) (λ _. pure found) u rest in
      let (xs, quiet, at) = wait_for_receipts-Waits C found u in
      let (none_asked, none_sent) = waits-alone xs quiet in
      let last : u ++ xs ≡ _ = sym at ∙ ap (λ q. q.1) waited ∙ ap (λ q. q.1) end in
      let first : ok found ≡ ok rs = ap (λ q. q.0) end in
      let is : found ≡ rs = cc first in
      let sent : sends (u ++ xs) ≡ sends u = sends-append u xs ∙ omega (arith, none_sent) in
      (
        ap queried (sym last)
            ∙ queried-append u xs
            ∙ ap (λ x. queried u ++ x) none_asked
            ∙ append-nil (queried u)
            ∙ names,
        ap length (sym is) ∙ omega (arith, same) ∙ sym sent ∙ ap sends last,
      )
