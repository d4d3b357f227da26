-- ===== src/Process/StateActor.antt =====
-- eest_replay/state_actor.py: a datadir that state-actor generates, in which the seed has its funds.
use buildoor_tester.Base.{
  ℕ, ◌^◌, ◌≡◌, refl, sym, ap, ◌∙◌, Option, none, some, is_truthy, List, [], ◌∷◌, ◌++◌, append_assoc,
  String, ◌<>◌, starts_with, ℤ, pos, Outcome, ok, raised, runtime_error, Exec, continue, call, lift,
  ◌>>=◌, ◌>>◌, >>=-eq-ok, if◌then◌else◌,
}
use buildoor_tester.Base.Numeral.{decimal}
use buildoor_tester.Genesis.Forks.{lower}
use buildoor_tester.Testing.{Testing}
use buildoor_tester.Process.Events.{Event, make_dir, write_spec, generate, Host, note}
use buildoor_tester.Process.Balance.{step}
use buildoor_tester.Process.Running.{live, Keeps}

abbrev pub default_seed_balance_wei : ℤ
default_seed_balance_wei = pos (10 ^ 24)

-- The text that `write_seed_spec` writes.
unfoldable pub seed_spec : String → ℤ → String
seed_spec seed_addr balance_wei =
    let addr = if starts_with seed_addr "0x" then seed_addr else "0x" <> seed_addr in
    "# Auto-generated by eest-replay: prefund the EEST submit seed account\n# on the state-actor bloated chain.\nentities:\n  - kind: eoa\n    address: "
    <> (addr <> ("\n    balance: \"" <> (decimal balance_wei <> "\"\n")))

-- The keyword arguments of `run_state_actor`; paths are texts.
pub record ActorArgs : Type 0 where
  pub binary : String
  pub db_dir : String
  pub seed_addr : String
  pub chain_id : ℤ
  pub fork : String
  pub target_size : Option String
  pub seed_balance_wei : ℤ

abbrev size_option : Option String → List String
size_option none = []
size_option (some size) = if is_truthy (some size) then "--target-size" ∷ size ∷ [] else []

-- The list `cmd`, for the resolved directory.
unfoldable pub actor_command : ActorArgs → String → List String
actor_command a db_dir =
    a.binary
    ∷ "--client"
    ∷ "geth"
    ∷ "--db"
    ∷ (db_dir <> "/geth/chaindata")
    ∷ "--spec"
    ∷ (db_dir <> "/seed-spec.yaml")
    ∷ "--chain-id"
    ∷ decimal a.chain_id
    ∷ "--fork"
    ∷ lower a.fork
    ∷ size_option a.target_size

-- `if proc.returncode != 0: raise`.
unfoldable pub actor_result : String → ℤ × String → Outcome String
actor_result db_dir (ℤ.pos ℕ.zero, tail) = ok db_dir
actor_result db_dir (code, tail) =
    raised (runtime_error ("state-actor exited " <> (decimal code <> (":\n" <> tail))))

actor_result-eq-ok :
    (dir : String) (done : ℤ × String) {d : String}
    → actor_result dir done ≡ ok d
    → (d ≡ dir) × ((tail : String) × (done ≡ (pos 0, tail)))
unfolding actor_result
actor_result-eq-ok dir (ℤ.pos ℕ.zero, tail) e = (sym (cc e), (tail, refl))
actor_result-eq-ok dir (ℤ.pos (ℕ.suc n), tail) e = cc e
actor_result-eq-ok dir (ℤ.negsuc n, tail) e = cc e

module _ (T : Testing) (H : Host T) where
  unfoldable pub run_state_actor : ActorArgs → Exec (Event T) String
  unfolding seed_spec actor_command actor_result
  run_state_actor a =
      let db_dir = H.resolve a.db_dir in
      note T H (make_dir db_dir)
      >> (note T H
            (write_spec (db_dir <> "/seed-spec.yaml") (seed_spec a.seed_addr a.seed_balance_wei))
          >> (call H.on_generate (generate (actor_command a db_dir)) >>= λ done.
              lift (actor_result db_dir done)))

  -- The history behind the specification.
  abbrev pub specified : String → ℤ → String → List (Event T) → List (Event T)
  specified seed_addr balance_wei d h =
      (h ++ make_dir d ∷ [])
      ++ write_spec (d <> "/seed-spec.yaml") (seed_spec seed_addr balance_wei) ∷ []

  -- A generation that returned ended with the status 0.
  pub run_state_actor-eq-ok :
      (a : ActorArgs) (h : List (Event T)) {d : String} {t : List (Event T)}
      → run_state_actor a h ≡ (ok d, t)
      → (d ≡ H.resolve a.db_dir)
        × ((tail : String) × (H.on_generate (specified a.seed_addr a.seed_balance_wei d h)
              ≡ ok (pos 0, tail)))
        × (t ≡ specified a.seed_addr a.seed_balance_wei d h ++ generate (actor_command a d) ∷ [])
  unfolding run_state_actor
  run_state_actor-eq-ok a h {d} {t} e =
      let dir = H.resolve a.db_dir in
      let h2 = specified a.seed_addr a.seed_balance_wei dir h in
      let (done, u, ran, rest) =
        >>=-eq-ok (call H.on_generate (generate (actor_command a dir)))
          (λ done. lift (actor_result dir done)) h2 e in
      let (same, (tail, zero_status)) = actor_result-eq-ok dir done (ap (λ q. q.0) rest) in
      let ended : H.on_generate h2 ≡ ok done = ap (λ q. q.0) ran in
      (
        same,
        (
          tail,
          ap (λ k. H.on_generate (specified a.seed_addr a.seed_balance_wei k h)) same
              ∙ ended
              ∙ ap (λ x. ok x) zero_status,
        ),
        rw same (sym (ap (λ q. q.1) ran ∙ ap (λ q. q.1) rest)),
      )

  lift-history :
      {A B : Type 0} (f : A → Outcome B) (r : Outcome A) (u : List (Event T))
      → (continue r (λ x. lift (f x)) u).1 ≡ u
  lift-history f (ok x) u = refl
  lift-history f (raised e) u = refl

  pub run_state_actor-Keeps : (a : ActorArgs) → Keeps (step T) (run_state_actor a)
  unfolding run_state_actor
  run_state_actor-Keeps a h =
      let dir = H.resolve a.db_dir in
      let h2 =
        (h ++ make_dir dir ∷ [])
        ++ write_spec (dir <> "/seed-spec.yaml") (seed_spec a.seed_addr a.seed_balance_wei) ∷ [] in
      (
        make_dir dir
            ∷ write_spec (dir <> "/seed-spec.yaml") (seed_spec a.seed_addr a.seed_balance_wei)
            ∷ generate (actor_command a dir)
            ∷ [],
        (λ s. unfold live in refl),
        lift-history (actor_result dir) (H.on_generate h2)
              (h2 ++ generate (actor_command a dir) ∷ [])
            ∙ simp append_assoc,
      )
