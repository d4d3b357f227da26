-- ===== src/Cli/Bloat.antt =====
-- eest_replay/cli.py: the `bloat` command: a datadir is generated or reused, the client is booted on
-- it, and a test is submitted to it.
use buildoor_tester.Base.{
  ◌>>◌, ◌<>◌, ℕ, ◌≡◌, Bool, false, Option, none, some, List, [], ◌∷◌, ◌++◌, String, ℤ, Outcome, ok,
  raised, usage_error, Exec, lift, pure, fail, ◌>>=◌,
}
use buildoor_tester.Testing.{Testing}
use buildoor_tester.Export.Submit.{SubmitArgs, SubmitResult}
use buildoor_tester.Export.Session.{submit_transactions}
use buildoor_tester.Process.Events.{Event, Host}
use buildoor_tester.Process.Engine.{geth_dev_datadir}
use buildoor_tester.Process.CommandLines.{default_image}
use buildoor_tester.Process.Balance.{step}
use buildoor_tester.Process.Running.{Balanced, Keeps, Keeps-pure, Keeps-continue, Keeps->>=}
use buildoor_tester.Process.Stops.{geth_dev_datadir-Keeps}
use buildoor_tester.Process.StateActor.{
  ActorArgs, default_seed_balance_wei, run_state_actor, run_state_actor-Keeps,
}
use buildoor_tester.Cli.Commands.{submit_exit, report_submit_result}
use buildoor_tester.Base.Numeral.{decimal}
use buildoor_tester.Process.Hosted.{embedded, hosted, embedded-Keeps, hosted-Keeps}
use buildoor_tester.Export.Submit.{said}
use buildoor_tester.Export.Stops.{said-Keeps, submit_transactions-Balanced}

-- The options of the command. `gen_dir` is `--work-dir`, or the directory that `mkdtemp` makes.
pub record BloatArgs : Type 0 where
  pub test_selector : String
  pub fork : String
  pub chain_id : ℤ
  pub state_actor_bin : Option String
  pub target_size : String
  pub datadir : Option String
  pub gen_dir : String
  pub seed_key : String
  pub k_filter : Option String
  pub csv_path : Option String
  pub tx_wait_timeout : ℤ
  pub include_benchmark : Bool
  pub gas_benchmark_values : Option String
  pub transaction_gas_limit : Option ℤ
  pub max_fee_per_gas : Option ℤ
  pub max_priority_fee_per_gas : Option ℤ

unfoldable pub actor_args : BloatArgs → String → String → ActorArgs
actor_args a binary seed_addr = record {
  binary = binary;
  db_dir = a.gen_dir;
  seed_addr = seed_addr;
  chain_id = a.chain_id;
  fork = a.fork;
  target_size = some a.target_size;
  seed_balance_wei = default_seed_balance_wei;
}

-- There is nothing to reclaim from a chain that is thrown away. `randbits` is what
-- `random_eoa_start` would draw.
unfoldable pub bloat_submit_args : BloatArgs → (ℕ → ℕ) → String → SubmitArgs
bloat_submit_args a randbits rpc_url = record {
  test_selector = a.test_selector;
  fork = a.fork;
  rpc_url = rpc_url;
  chain_id = a.chain_id;
  seed_key = a.seed_key;
  eoa_start = none;
  randbits = randbits;
  k_filter = a.k_filter;
  csv_path = a.csv_path;
  tx_wait_timeout = a.tx_wait_timeout;
  include_benchmark = a.include_benchmark;
  gas_benchmark_values = a.gas_benchmark_values;
  transaction_gas_limit = a.transaction_gas_limit;
  gas_price = none;
  max_fee_per_gas = a.max_fee_per_gas;
  max_priority_fee_per_gas = a.max_priority_fee_per_gas;
  cleanup = false;
  min_seed_balance_wei = none;
  meta_path = none;
}

abbrev pub generating : BloatArgs → String → List String
generating a seed_addr =
    ("=== generating bloated datadir (target "
      <> (a.target_size
          <> (", fork "
              <> (a.fork
                  <> (", chain "
                      <> (decimal a.chain_id <> (", seed " <> (seed_addr <> ") ..."))))))))
    ∷ []

abbrev pub booting : BloatArgs → List String
booting a = ("=== booting geth --dev on bloated state, submitting: " <> a.test_selector) ∷ []

module _ (T : Testing) (H : Host T) (address_from_key : String → Outcome String)
    (ether : ℤ → String) (randbits : ℕ → ℕ) where
  -- `submit_transactions` against the client that runs.
  unfoldable pub submitted : SubmitArgs → Exec (Event T) SubmitResult
  unfolding submit_transactions
  submitted a = hosted T H a.rpc_url (λ W. submit_transactions W a)

  abbrev printed : List String → Exec (Event T) (Unit {0})
  printed lines = embedded T (said lines)

  abbrev usage : String
  usage = "pass --state-actor <bin> to generate a datadir, or --datadir <existing> to reuse one."

  abbrev pub at_datadir : String → Exec (Event T) String
  at_datadir datadir = printed (("    datadir: " <> datadir) ∷ []) >> pure datadir

  -- `--state-actor` wins over `--datadir`.
  unfoldable pub chosen_datadir :
      BloatArgs → String → Option String → Option String → Exec (Event T) String
  unfolding actor_args run_state_actor
  chosen_datadir a seed_addr (some binary) datadir =
      printed (generating a seed_addr)
      >> (run_state_actor T H (actor_args a binary seed_addr) >>= at_datadir)
  chosen_datadir a seed_addr none (some datadir) = pure datadir
  chosen_datadir a seed_addr none none = fail (usage_error usage)

  abbrev pub submit_on : BloatArgs → String → Exec (Event T) SubmitResult
  submit_on a rpc_url = submitted (bloat_submit_args a randbits rpc_url)

  abbrev pub exit_with : SubmitResult → Exec (Event T) ℕ
  exit_with r = embedded T (submit_exit ether r)

  abbrev pub bloat_on : BloatArgs → String → Exec (Event T) ℕ
  bloat_on a datadir =
      printed (booting a)
      >> (geth_dev_datadir T H datadir a.chain_id default_image none (submit_on a) >>= exit_with)

  abbrev pub bloat_with : BloatArgs → String → Exec (Event T) ℕ
  bloat_with a seed_addr = chosen_datadir a seed_addr a.state_actor_bin a.datadir >>= bloat_on a

  unfoldable pub bloat_cmd : BloatArgs → Exec (Event T) ℕ
  unfolding submitted chosen_datadir bloat_submit_args geth_dev_datadir
  bloat_cmd a = lift (address_from_key a.seed_key) >>= bloat_with a

  printed-Keeps : (lines : List String) → Keeps (step T) (printed lines)
  printed-Keeps lines = embedded-Keeps T (said lines) (said-Keeps lines)

  submit_on-Keeps : (a : BloatArgs) (rpc_url : String) → Keeps (step T) (submit_on a rpc_url)
  unfolding submitted
  submit_on-Keeps a rpc_url =
      let args = bloat_submit_args a randbits rpc_url in
      hosted-Keeps T H args.rpc_url (λ W. submit_transactions W args)
        (λ W. submit_transactions-Balanced W args)

  exit_with-Keeps : (r : SubmitResult) → Keeps (step T) (exit_with r)
  exit_with-Keeps r = printed-Keeps (report_submit_result ether r)

  pub bloat_on-Keeps : (a : BloatArgs) (datadir : String) → Keeps (step T) (bloat_on a datadir)
  bloat_on-Keeps a datadir =
      Keeps->>= (step T) (printed (booting a))
        (λ _.
          geth_dev_datadir T H datadir a.chain_id default_image none (submit_on a) >>= exit_with)
        (printed-Keeps (booting a))
        (λ _.
          Keeps->>= (step T)
            (geth_dev_datadir T H datadir a.chain_id default_image none (submit_on a)) exit_with
            (geth_dev_datadir-Keeps T H datadir a.chain_id default_image none (submit_on a)
              (submit_on-Keeps a))
            exit_with-Keeps)

  chosen_datadir-Keeps :
      (a : BloatArgs) (seed_addr : String) (binary datadir : Option String)
      → Keeps (step T) (chosen_datadir a seed_addr binary datadir)
  unfolding chosen_datadir
  chosen_datadir-Keeps a seed_addr (some binary) datadir =
      Keeps->>= (step T) (printed (generating a seed_addr))
        (λ _. run_state_actor T H (actor_args a binary seed_addr) >>= at_datadir)
        (printed-Keeps (generating a seed_addr))
        (λ _.
          Keeps->>= (step T) (run_state_actor T H (actor_args a binary seed_addr)) at_datadir
            (run_state_actor-Keeps T H (actor_args a binary seed_addr))
            (λ d. printed-Keeps (("    datadir: " <> d) ∷ [])))
  chosen_datadir-Keeps a seed_addr none (some datadir) = Keeps-pure (step T) (ok datadir)
  chosen_datadir-Keeps a seed_addr none none =
      Keeps-pure (step T) {A = String} (raised (usage_error usage))

  -- However the command ends, by an exit status or by an exception of any of its calls: the client's
  -- container and the server of the recording proxy that it started it also asked to stop, and the
  -- subprocess of `_run_execute` has ended within its time or its process group was killed, the last
  -- one first.
  pub bloat_cmd-Balanced :
      (a : BloatArgs) (h : List (Event T))
      → (xs : List (Event T)) × Balanced (step T) xs × ((bloat_cmd a h).1 ≡ h ++ xs)
  unfolding bloat_cmd
  bloat_cmd-Balanced a =
      Keeps-continue (step T) (bloat_with a)
        (λ seed_addr.
          Keeps->>= (step T) (chosen_datadir a seed_addr a.state_actor_bin a.datadir) (bloat_on a)
            (chosen_datadir-Keeps a seed_addr a.state_actor_bin a.datadir) (bloat_on-Keeps a))
        (address_from_key a.seed_key)
