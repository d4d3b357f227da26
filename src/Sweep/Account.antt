-- ===== src/Sweep/Account.antt =====
-- eest_replay/sweep.py: what one sweep does.
use buildoor_tester.Base.{
  ◌≡◌, ◌∙◌, ap, sym, ◌⊎◌, true, false, Option, none, some, List, [], ◌∷◌, ◌++◌, append_assoc,
  String, ℤ, pos, ◌+ℤ◌, ◌-ℤ◌, ◌≤ℤ◌, ◌<ℤ◌, int_laws, Outcome, lift, ok, arith, >>=-eq-ok, Bool-cases,
  inl, inr,
}
use buildoor_tester.Base.Json.{Json}
use buildoor_tester.Sweep.{
  Call, eth_get_balance, eth_get_transaction_count, eth_send_raw_transaction, Chain, Fees, reserve,
  is_too_low, get_balance, nonce_of, sweep_transaction, send_sweep, sweep_account, read_hash,
  rpc_call,
}

module _ (C : Chain) (key : ℤ) (to : String) (chain_id : ℤ) (f : Fees) (min_sweep_wei : ℤ) where
  abbrev pub addr : String
  addr = C.address key

  get_balance-calls :
      (h : List Call) {b : ℤ} {t : List Call}
      → get_balance C addr h ≡ (ok b, t)
      → t ≡ h ++ eth_get_balance addr ∷ []
  unfolding get_balance
  get_balance-calls h e = ground arith

  nonce_of-calls :
      (h : List Call) {n : ℤ} {t : List Call}
      → nonce_of C addr h ≡ (ok n, t)
      → t ≡ h ++ eth_get_transaction_count addr ∷ []
  unfolding nonce_of
  nonce_of-calls h e = ground arith

  abbrev pub send_call : ℤ → ℤ → Call
  send_call nonce value =
      eth_send_raw_transaction (C.signed_rlp (sweep_transaction C key to chain_id f nonce value))

  send_sweep-calls :
      (value : ℤ) (h : List Call) {r : Option (Json × ℤ)} {t : List Call}
      → send_sweep C key to chain_id f value h ≡ (ok r, t)
      → (hash : Json) × (nonce : ℤ) × (r ≡ some (hash, value))
        × (t ≡ h ++ eth_get_transaction_count addr ∷ send_call nonce value ∷ [])
  unfolding send_sweep
  send_sweep-calls value h e =
      let (nonce, u, asked, rest) = >>=-eq-ok (nonce_of C addr) _ h e in
      let (reply, v, said, rest') = >>=-eq-ok (rpc_call C (send_call nonce value)) _ u rest in
      let (hash, w, read, last) = >>=-eq-ok (lift (read_hash C addr reply)) _ v rest' in
      (
        hash,
        nonce,
        cc last,
        sym (ap (λ q. q.1) last)
            ∙ sym (ap (λ q. q.1) read)
            ∙ sym (ap (λ q. q.1) said)
            ∙ ap (λ x. x ++ send_call nonce value ∷ []) (nonce_of-calls h asked)
            ∙ append_assoc h _ _,
      )

  -- The outcome of a sweep of an account with this balance.
  pub data Swept (balance : ℤ) (h : List Call) (r : Option (Json × ℤ)) (t : List Call)
      : Type 0 where
    left_alone :
        r ≡ none
        → (balance ≤ℤ reserve f) ⊎ (balance -ℤ reserve f <ℤ min_sweep_wei)
        → t ≡ h ++ eth_get_balance addr ∷ []
        → Swept balance h r t
    sent :
        (hash : Json) (nonce value : ℤ)
        → r ≡ some (hash, value)
        → value +ℤ reserve f ≡ balance
        → pos 0 <ℤ value
        → min_sweep_wei ≤ℤ value
        → t
          ≡ h ++ eth_get_balance addr ∷ eth_get_transaction_count addr ∷ send_call nonce value ∷ []
        → Swept balance h r t

  too_low-cases :
      (balance : ℤ)
      → is_too_low balance f min_sweep_wei ≡ true
      → (balance ≤ℤ reserve f) ⊎ (balance -ℤ reserve f <ℤ min_sweep_wei)
  unfolding is_too_low
  too_low-cases balance h = ground arith

  worth-cases :
      (balance : ℤ)
      → is_too_low balance f min_sweep_wei ≡ false
      → (reserve f <ℤ balance) × (min_sweep_wei ≤ℤ balance -ℤ reserve f)
  unfolding is_too_low
  worth-cases balance h = ground arith

  -- A sweep that returns has asked for the balance. Either it sent nothing and returned `None`,
  -- because the balance does not pass the gas reserve or what is left is below the minimum; or it
  -- sent one transaction, of a positive value that is no less than the minimum and makes up the
  -- balance with the gas reserve, and returned that value.
  pub sweep_account-Swept :
      (h : List Call) {r : Option (Json × ℤ)} {t : List Call}
      → sweep_account C key to chain_id f min_sweep_wei h ≡ (ok r, t)
      → (balance : ℤ) × (u : List Call) × (get_balance C addr h ≡ (ok balance, u))
        × Swept balance h r t
  unfolding sweep_account
  sweep_account-Swept h {r} {t} e =
      let (balance, u, asked, rest) = >>=-eq-ok (get_balance C addr) _ h e in
      let start = get_balance-calls h asked in
      (
        balance,
        u,
        asked,
        elim (Bool-cases (is_too_low balance f min_sweep_wei)) [
          | inl low ↦
              let back : ◌≡◌ {A = Outcome (Option (Json × ℤ)) × List Call} (ok none, u) (ok r, t) =
                rw low at rest in
              left_alone (cc back) (too_low-cases balance low) (sym (ap (λ q. q.1) back) ∙ start)
          | inr worth ↦
              let value = balance -ℤ reserve f in
              let (hash, nonce, is, shape) = send_sweep-calls value u (rw worth at rest) in
              let (more, enough) = worth-cases balance worth in
              sent hash nonce value is (omega int_laws) (omega int_laws) enough (
                shape
                ∙ ap (λ x. x ++ eth_get_transaction_count addr ∷ send_call nonce value ∷ []) start
                ∙ append_assoc h _ _)
        ],
      )
