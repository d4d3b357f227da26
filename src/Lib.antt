-- ===== src/Lib.antt =====
-- eest-replay replays the engine fixtures of the execution specs against a client and a block
-- builder, records or submits the transactions of a test, and recovers the funds that a test used.
-- This library models the Python package src/eest_replay.
--
-- The parts and how they interact:
--   Base        Tests on numbers and texts, lists over native numbers, integers, JSON, the reading
--               and printing of numbers (`int(text, base)`, `hex`, `str`), exceptions, and calls
--               whose answers come from the surroundings.
--   Testing     The types of the package `execution_testing` that the program reads, as parameters.
--   Buildoor    src/eest_replay/buildoor_client.py: `request_build`, its body and its reply.
--   Runner      src/eest_replay/runner.py. Results holds the results and `_diff_payload`, Calls the
--               calls of the two processes, Drive `_drive_chain`, and Replay `replay`. Diff, Asked,
--               Round, Order, Blocks and Built hold the proofs about the chain: a comparison, the
--               calls of a round, a round, the loop, its blocks; Replayed has what a replay that
--               returned has run.
--   Process     src/eest_replay/el.py, state_actor.py, and `buildoor_simbuild` of
--               buildoor_client.py. Events has what is done to the processes, Poll the wait of both,
--               CommandLines what they are started by, Engine the three context managers,
--               StateActor the generator. Hosted embeds what an export or a submit does to a client
--               that runs. Running has histories that stop what they start; Balance, Stops,
--               Inner and Inside hold the proofs about the contexts, Waits those about the waits.
--   Report      src/eest_replay/report.py: the counters and the Markdown lines of a batch. Summary has
--               `to_dict`, the JSON report.
--   Cli         src/eest_replay/cli.py: `run_cmd`, which replays the fixtures, prints their results,
--               and writes the reports; Printed has its lines, Places the directories. Shown, Batch,
--               Reported, Written and Whole hold the proofs; Replays joins it with `replay`, Stops has the proof about its
--               processes. Commands has `export_cmd` and `submit_cmd` with their
--               proofs in Exits, Bloat `bloat_cmd` with its proof in Generated, Recover
--               `recover_cmd`, and Reclaim joins that with a submit. Options has the options that
--               the decorators declare, and Signatures compares them with the functions.
--   FixtureFiles  src/eest_replay/fixture.py: the entries of a parsed file that are yielded. Walk has
--               `discover_fixture_files`.
--   Proxy       src/eest_replay/rpc_proxy.py: `do_POST` and the recorder. Threads has the
--               interleavings of the server's threads, Credentials `split_basic_auth`.
--   Sweep       src/eest_replay/sweep.py: `sweep_account` and `recover_funded_eoas`. Account and
--               Recovery hold the proofs, Receipts those about the wait for receipts.
--   Genesis     src/eest_replay/chainspec.py and src/eest_replay/devnet_genesis.py. Forks has the
--               tables, Devnet and Chainspec the two builders; Activation, Prefix, Configs and
--               Forked hold the proofs about the forks, Blobs those about the blob schedule, Accounts
--               and Fixtures those about the accounts.
--   Export      src/eest_replay/export.py. Gas has the gas defaults and the start of the derived
--               accounts, Command the subprocess, Rows the rows of the file, Submit `_run_execute` and
--               `recording_proxy` of src/eest_replay/rpc_proxy.py, Session `submit_transactions` and
--               what `export_transactions` does with its client, Transactions the whole of that.
--               Stops, Closing, Histories, Captures, Reports and Outcomes hold the proofs;
--               Options reads the command line back.
--   Tests       Concrete inputs and the theorems applied to them.
--
-- How the model stands to the code. A function that calls another process is an `Exec`: it runs on
-- the list of the calls made so far and extends it, and an answer may be any function of that list,
-- an exception included. The records Node, Host, Chain and World hold these answers. An early return
-- of a loop is a value that ends it. A `with` is a function of its body, and `ensuring` is its
-- `finally`. Most loops run over a list or a count, so that the definitions are structural. Three
-- loops run against a clock, on a number of rounds. The two waits for a process have one round for
-- each millisecond of their time-out and one more: a request takes some time, so that each round takes
-- a millisecond or more. The wait for the receipts has 46 rounds: each but the last sleeps four of its
-- 180 seconds. Dicts keep their order of insertion. Python integers are unbounded, and ℤ stands for
-- them; times are in milliseconds.
--
-- Not modelled: docker, sockets, HTTP and the files themselves, which are answers of the surroundings;
-- the log files of the processes, the set-up of the logging, and the environment and the directory of
-- the subprocess of `_run_execute`; `urlsplit` and base64, which are parameters; the parsing of the
-- options by click, whose declarations are data here; exceptions that are no `Exception`, such as an
-- interrupt from the keyboard; exceptions of `communicate` other than the time-out;
-- the formats of the CSV and JSON files; and the printing of floats, which is a parameter.
pub mod Base
pub mod Process
pub mod Testing
pub mod Buildoor
pub mod Runner
pub mod Report
pub mod Cli
pub mod Proxy
pub mod Sweep
pub mod Genesis
pub mod Export
pub mod Tests
pub mod FixtureFiles
