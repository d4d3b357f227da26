-- ===== src/Cli/Generated.antt =====
-- eest_replay/cli.py: what the `bloat` command has generated before it boots the client.
use buildoor_tester.Base.{
  true, pos, ℕ, ◌≡◌, sym, ap, ◌∙◌, Bool-cases, inl, inr, none, some, List, [], ◌∷◌, ◌++◌, map,
  append_assoc, String, ◌<>◌, ℤ, Outcome, ok, Exec, ◌>>=◌, >>=-eq-ok, continue-eq-ok,
}
use buildoor_tester.Testing.{Testing}
use buildoor_tester.Export.Submit.{SubmitResult}
use buildoor_tester.Export.Submit
use buildoor_tester.Process.Running.{live, Balanced}
use buildoor_tester.Process.Balance.{step}
use buildoor_tester.Process.Events.{Event, generate, submits, Host}
use buildoor_tester.Process.Engine.{geth_dev_datadir}
use buildoor_tester.Process.CommandLines.{default_image}
use buildoor_tester.Process.StateActor.{
  default_seed_balance_wei, actor_command, specified, run_state_actor, run_state_actor-eq-ok,
}
use buildoor_tester.Cli.Bloat.{
  BloatArgs, actor_args, generating, booting, at_datadir, chosen_datadir, submit_on, exit_with,
  bloat_on, bloat_on-Keeps, bloat_with, bloat_cmd,
}

abbrev pub lines_of : (T : Testing) → List String → List (Event T)
lines_of T lines = map submits (map Submit.echo lines)

module _ (T : Testing) (H : Host T) where
  datadir_held :
      (datadir : String) (chain_id : ℤ) (body : String → Exec (Event T) SubmitResult)
      (h : List (Event T)) {r : SubmitResult} {t : List (Event T)}
      → geth_dev_datadir T H datadir chain_id default_image none body h ≡ (ok r, t)
      → H.has_chaindata h (H.resolve datadir) ≡ true
  unfolding geth_dev_datadir
  datadir_held datadir chain_id body h e =
      elim (Bool-cases (H.has_chaindata h (H.resolve datadir))) [
        | inl is ↦ is
        | inr is ↦ let e' = rw is at e in cc (ap (λ q. q.0) e')
      ]

  -- The history behind a generation in `d`.
  abbrev pub generated : BloatArgs → String → String → String → List (Event T) → List (Event T)
  generated a binary seed_addr d h =
      specified T H seed_addr default_seed_balance_wei d h
      ++ generate (actor_command (actor_args a binary seed_addr) d) ∷ []

  -- The history when the client is booted.
  abbrev pub announced : BloatArgs → String → List (Event T) → List (Event T)
  announced a d h = (h ++ lines_of T (("    datadir: " <> d) ∷ [])) ++ lines_of T (booting a)

module _ (T : Testing) (H : Host T) (address_from_key : String → Outcome String)
    (ether : ℤ → String) (randbits : ℕ → ℕ) where
  -- The generation `made` in the directory `d`, for the address of the seed's key.
  pub record Generated (a : BloatArgs) (binary : String) (h t : List (Event T)) : Type 0 where
    pub seed_addr : String
    pub tail : String
    pub rest : List (Event T)
    pub funded : address_from_key a.seed_key ≡ ok seed_addr
    pub succeeded :
        H.on_generate (
          specified T H seed_addr default_seed_balance_wei
            (H.resolve a.gen_dir)
            (h ++ lines_of T (generating a seed_addr)))
        ≡ ok (pos 0, tail)
    pub has_chain :
        let d = H.resolve a.gen_dir in
        let made = generated T H a binary seed_addr d (h ++ lines_of T (generating a seed_addr)) in
        H.has_chaindata (announced T H a d made) (H.resolve d) ≡ true
    pub even : Balanced (step T) rest
    pub listed :
        t
        ≡ generated T H a binary seed_addr
            (H.resolve a.gen_dir)
            (h ++ lines_of T (generating a seed_addr))
          ++ rest

  -- A command with `--state-actor` that ended without an exception first made the directory, wrote
  -- the specification for the address of the seed's key into it, and ran the generator on it, which
  -- ended with the status 0 and left a chain in the directory. In what was done behind that, the
  -- client's container and the server of the recording proxy were asked to stop if they were started,
  -- and the subprocess of `_run_execute` has ended within its time or its process group was killed.
  pub bloat_cmd-generates :
      (a : BloatArgs) (h : List (Event T)) {binary : String} {status : ℕ} {t : List (Event T)}
      → a.state_actor_bin ≡ some binary
      → bloat_cmd T H address_from_key ether randbits a h ≡ (ok status, t)
      → Generated a binary h t
  unfolding bloat_cmd chosen_datadir actor_args
  bloat_cmd-generates a h {binary} {status} {t} given e =
      let (seed_addr, funded, e1) =
        continue-eq-ok (address_from_key a.seed_key)
          (bloat_with T H address_from_key ether randbits a) h e in
      let (d, h2, is2, e2) =
        >>=-eq-ok
          (chosen_datadir T H address_from_key ether randbits a seed_addr a.state_actor_bin
            a.datadir)
          (bloat_on T H address_from_key ether randbits a) h e1 in
      let g = h ++ lines_of T (generating a seed_addr) in
      let chosen : (run_state_actor T H (actor_args a binary seed_addr)
              >>= at_datadir T H address_from_key ether randbits)
            g
          ≡ (ok d, h2) =
        ap (λ o. chosen_datadir T H address_from_key ether randbits a seed_addr o a.datadir h)
          (sym given)
        ∙ is2 in
      let (k, u, made, told) =
        >>=-eq-ok (run_state_actor T H (actor_args a binary seed_addr))
          (at_datadir T H address_from_key ether randbits) g chosen in
      let same_dir : k ≡ d = let x : ok k ≡ ok d = ap (λ q. q.0) told in cc x in
      let (at, (tail, zero_status), wrote) =
        run_state_actor-eq-ok T H (actor_args a binary seed_addr) g made in
      let dir = H.resolve a.gen_dir in
      let all = generated T H a binary seed_addr dir g in
      let wrote_all : u ≡ all = wrote ∙ ap (λ l. generated T H a binary seed_addr l g) at in
      let told_all : h2 ≡ all ++ lines_of T (("    datadir: " <> dir) ∷ []) =
        sym (ap (λ q. q.1) told)
        ∙ (λ i. wrote_all i ++ lines_of T (("    datadir: " <> at i) ∷ [])) in
      let (r, h3, ran, _) =
        >>=-eq-ok
          (geth_dev_datadir T H d a.chain_id default_image none
            (submit_on T H address_from_key ether randbits a))
          (exit_with T H address_from_key ether randbits) (h2 ++ lines_of T (booting a)) e2 in
      let held =
        datadir_held T H d a.chain_id (submit_on T H address_from_key ether randbits a)
          (h2 ++ lines_of T (booting a)) ran in
      let (rest, even, end) = bloat_on-Keeps T H address_from_key ether randbits a d h2 in
      record {
        seed_addr = seed_addr;
        tail = tail;
        rest = lines_of T (("    datadir: " <> dir) ∷ []) ++ rest;
        funded = funded;
        succeeded =
            ap (λ l. H.on_generate (specified T H seed_addr default_seed_balance_wei l g)) (sym at)
            ∙ zero_status;
        has_chain =
            (λ i.
              H.has_chaindata (sym told_all i ++ lines_of T (booting a))
                (H.resolve ((sym at ∙ same_dir) i)))
            ∙ held;
        even = (λ s. unfold live in even s);
        listed =
            sym (ap (λ q. q.1) e2)
            ∙ end
            ∙ ap (λ l. l ++ rest) told_all
            ∙ append_assoc all (lines_of T (("    datadir: " <> dir) ∷ [])) rest;
      }
