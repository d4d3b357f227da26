-- ===== src/Export/Submit.antt =====
-- eest_replay/export.py: `export_transactions` and `submit_transactions`.
use buildoor_tester.Base.{
  ℕ, ◌^◌, Bool, true, false, Option, none, some, List, [], ◌∷◌, String, ℤ, pos, ltb_ℤ, Outcome, ok,
  raised, Exc, process_lookup_error, Exec, call, lift, pure, ensuring, ◌>>=◌, ◌>>◌, ◌++◌, ◌<>◌, map,
  if◌then◌else◌,
}
use buildoor_tester.Base.Numeral.{decimal}
use buildoor_tester.Base.Json.{Json, null, num, str, Dict, empty, entry}
use buildoor_tester.Export.Gas.{random_eoa_start}
use buildoor_tester.Export.Command.{
  ExecuteArgs, execute_command, ProcessEnd, timed_out, returned, execute_result,
}
use buildoor_tester.Export.Rows.{Row, enrich}

-- What the two functions do to their surroundings, in the order in which they do it.
pub data Event : Type 0 where
  -- `get_balance` of an address.
  ask_balance : String → Event
  -- A JSON file is written, and the file of the rows.
  write_json : String → Dict → Event
  write_csv : String → List Row → Event
  -- The lines of a text file.
  write_text : String → List String → Event
  -- The recording proxy starts in front of a URL, its loop is ended, and its socket is closed.
  open_proxy : String → Event
  shut_down : Event
  server_close : Event
  -- The subprocess of `_run_execute` is started in a session of its own; it has ended within its time;
  -- its process group is killed, and it is waited for again.
  execute : List String → Event
  ended : Event
  kill_group : Event
  collect : Event
  -- A line is printed on the terminal.
  echo : String → Event

-- The surroundings: balances, how the subprocess ends, what the recorder holds behind it, the
-- digest and the node of `_enrich`, the gas caps of the forks, and the address of a private key.
pub record World : Type 0 where
  pub balance : List Event → Outcome ℤ
  -- The free port that the server of the proxy is bound to, and the end of its loop.
  pub bind : List Event → Outcome ℕ
  pub on_shutdown : List Event → Outcome (Unit {0})
  -- `Popen` and `communicate`, `os.killpg`, and `communicate` behind it. An exception of `process` is
  -- one of `Popen`: then there is no subprocess.
  pub process : List Event → Outcome ProcessEnd
  pub on_kill : List Event → Outcome (Unit {0})
  pub on_collect : List Event → Outcome (Unit {0})
  pub snapshot : List Event → List String
  pub digest : String → Outcome String
  pub rpc : String → Outcome Json
  pub cap_lookup : String → Option (Outcome (Option ℕ))
  pub address : String → Outcome String
  -- `csv_path.with_suffix(".recovery.json")`, and a number of wei as it is printed in ether.
  pub recovery_suffix : String → String
  pub ether : ℤ → String

abbrev pub default_prefund_wei : ℤ
default_prefund_wei = pos (10 ^ 24)

abbrev pub null_or_str : Option String → Json
null_or_str none = null
null_or_str (some s) = str s

-- The arguments of `export_transactions`; the directory of the subprocess is left out.
pub record ExportArgs : Type 0 where
  pub output_dir : String
  pub work_dir : String
  pub test_selector : String
  pub fork : String
  pub chain_id : ℤ
  pub seed_key : String
  pub seed_addr : Option String
  pub eoa_start : String
  pub tx_wait_timeout : ℤ
  pub include_benchmark : Bool
  pub gas_benchmark_values : Option String
  pub transaction_gas_limit : Option ℤ
  pub k_filter : Option String

-- What the arguments hold besides is left out.
pub record ExportResult : Type 0 where
  pub tx_count : ℕ
  pub csv_path : String
  pub genesis_path : String
  pub meta_path : String
  pub execute_ok : Bool
  pub error : Option String

-- The arguments of `submit_transactions`, and what `secrets.randbits` would draw.
pub record SubmitArgs : Type 0 where
  pub test_selector : String
  pub fork : String
  pub rpc_url : String
  pub chain_id : ℤ
  pub seed_key : String
  pub eoa_start : Option String
  pub randbits : ℕ → ℕ
  pub k_filter : Option String
  pub csv_path : Option String
  pub tx_wait_timeout : ℤ
  pub include_benchmark : Bool
  pub gas_benchmark_values : Option String
  pub transaction_gas_limit : Option ℤ
  pub gas_price : Option ℤ
  pub max_fee_per_gas : Option ℤ
  pub max_priority_fee_per_gas : Option ℤ
  pub cleanup : Bool
  pub min_seed_balance_wei : Option ℤ
  pub meta_path : Option String

pub record SubmitResult : Type 0 where
  pub execute_ok : Bool
  pub submitted_count : Option ℕ
  pub csv_path : Option String
  pub error : Option String
  pub spent_wei : Option ℤ
  pub meta_path : Option String

-- The green run that recorded nothing is reported as a failure.
unfoldable pub export_outcome : Bool × Option String → List Row → Bool × Option String
export_outcome (true, none) [] = (
  false,
  some
      "execute exited 0 but captured 0 transactions (test skipped, filtered out, or selected nothing)",
)
export_outcome (true, some e) [] = (false, some e)
export_outcome (false, e) [] = (false, e)
export_outcome r (x ∷ rows) = r

-- Where `_write_recovery_meta` writes: `None` without both paths.
unfoldable pub recovery_path : (String → String) → Option String → Option String → Option String
recovery_path suffix (some p) csv = some p
recovery_path suffix none (some csv) = some (suffix csv)
recovery_path suffix none none = none

-- The start that the accounts of a submit are derived from.
unfoldable pub start_of : Option String → (ℕ → ℕ) → String
start_of (some s) randbits = s
start_of none randbits = random_eoa_start randbits

abbrev pub recovery_note : String
recovery_note =
    "EEST funded per-test EOAs with key = int(eoa_start) + i. To reclaim their balances: eest-replay recover --meta this-file --to <addr>."

unfoldable pub recovery_meta : String → String → ℤ → String → String → Dict
recovery_meta seed_addr eoa_start chain_id fork rpc_url = entry "seed_address" (str seed_addr) (
    entry "eoa_start" (str eoa_start) (
      entry "chain_id" (num chain_id) (
        entry "fork" (str fork)
          (entry "rpc_url" (str rpc_url) (entry "note" (str recovery_note) empty)))))

-- The guard before a submit: the seed's balance is known and below the floor.
unfoldable pub is_below_floor : Option ℤ → Option ℤ → Bool
is_below_floor none balance = false
is_below_floor (some floor) none = false
is_below_floor (some floor) (some balance) = ltb_ℤ balance floor

abbrev is_process_lookup : Exc → Bool
is_process_lookup (process_lookup_error m) = true
is_process_lookup _ = false

-- What is done without an answer, such as the writing of a file.
abbrev pub done : Event → Exec Event (Unit {0})
done e = call (λ h. ok tt) e

-- Lines are printed, one after the other.
abbrev pub said : List String → Exec Event (Unit {0})
said lines h = (ok tt, h ++ map echo lines)

module _ (W : World) where
  -- `except Exception: balance = None`.
  abbrev or_none : Outcome ℤ → Outcome (Option ℤ)
  or_none (ok n) = ok (some n)
  or_none (raised e) = ok none

  unfoldable pub read_balance : String → Exec Event (Option ℤ)
  read_balance addr = call (λ h. or_none (W.balance h)) (ask_balance addr)

  -- `contextlib.suppress(ProcessLookupError)`.
  abbrev pub suppressed : Outcome (Unit {0}) → Outcome (Unit {0})
  suppressed (ok u) = ok u
  suppressed (raised e) = if is_process_lookup e then ok tt else raised e

  -- `except subprocess.TimeoutExpired`: the whole process group is killed, and waited for. Otherwise
  -- `communicate` has returned.
  abbrev pub settle : ProcessEnd → Exec Event (Unit {0})
  settle timed_out = call (λ h. suppressed (W.on_kill h)) kill_group >> call W.on_collect collect
  settle (returned code tail) = done ended

  abbrev pub launched : Event → Outcome ProcessEnd → Exec Event ProcessEnd
  launched e (ok end) h = (ok end, h ++ e ∷ [])
  launched e (raised x) h = (raised x, h)

  abbrev pub launch : List String → Exec Event ProcessEnd
  launch cmd h = launched (execute cmd) (W.process h) h

  -- `_run_execute`.
  unfoldable pub run_execute : ExecuteArgs → Exec Event (Bool × Option String)
  unfolding execute_command execute_result
  run_execute a = launch (execute_command a) >>= λ end.
      settle end >> pure (execute_result a.tx_wait_timeout end)

  -- `recorder.snapshot()`.
  abbrev pub recorded : Exec Event (List String)
  recorded h = (ok (W.snapshot h), h)

  -- `_enrich` of what was recorded.
  abbrev pub enriched : List String → Exec Event (List Row)
  enriched txs = lift (enrich W.digest W.rpc 0 txs)

  abbrev pub close_proxy : Exec Event (Unit {0})
  close_proxy = call W.on_shutdown shut_down >>= λ _. done server_close

  abbrev pub proxy_url : ℕ → String
  proxy_url port = "http://127.0.0.1:" <> decimal (pos port)

  -- A server that could not be bound leaves no event.
  abbrev pub bound : {A : Type 0} → String → (String → Exec Event A) → Outcome ℕ → Exec Event A
  bound target body (ok port) h =
      ensuring (body (proxy_url port)) close_proxy (h ++ open_proxy target ∷ [])
  bound target body (raised e) h = (raised e, h)

  -- `with recording_proxy(target) as (url, recorder)`: the code under it is `body`.
  unfoldable pub recording_proxy : {A : Type 0} → String → (String → Exec Event A) → Exec Event A
  recording_proxy target body h = bound target body (W.bind h) h

  -- `_write_recovery_meta`.
  unfoldable pub write_recovery_meta : Option String → Dict → Exec Event (Option String)
  write_recovery_meta none meta = pure none
  write_recovery_meta (some path) meta = done (write_json path meta) >> pure (some path)
