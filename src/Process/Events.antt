-- ===== src/Process/Events.antt =====
-- eest_replay/el.py, buildoor_client.py and state_actor.py: what they do to other processes, as
-- events, and the answers that these give.
use buildoor_tester.Base.{
  ℕ, Bool, true, false, Option, List, [], ◌∷◌, ◌++◌, String, ℤ, Outcome, ok, raised, Exc, Exec,
}
use buildoor_tester.Base.Json.{Dict}
use buildoor_tester.Testing.{Testing}
use buildoor_tester.Runner.Calls.{Call, Node}
use buildoor_tester.Export.Submit
use buildoor_tester.Process.Running.{Process}

pub data Event (T : Testing) : Type 0 where
  write_genesis : String → Dict → Event T
  write_jwt : String → Event T
  -- `docker run … init`, which runs to its end.
  init_datadir : List String → Event T
  -- `subprocess.Popen` with its command: the process runs from here on.
  start : Process → List String → Event T
  -- A request of a wait, and a sleep in milliseconds.
  ask_ready : String → Event T
  nap : ℕ → Event T
  -- `docker stop` of a container, or `terminate` of buildoor.
  stop : Process → Event T
  -- `proc.wait` with its time in seconds, and `proc.kill`.
  wait_end : Process → ℕ → Event T
  kill : Process → Event T
  -- A call of the replay.
  calls : Call T → Event T
  -- What state-actor is run by: its directory, its specification, and its command.
  make_dir : String → Event T
  write_spec : String → String → Event T
  generate : List String → Event T
  -- What a submit does.
  submits : Submit.Event → Event T

-- The surroundings. Each answer may depend on all that was done before it.
pub record Host (T : Testing) : Type 0 where
  -- The clock in milliseconds.
  pub now : List (Event T) → ℕ
  -- `_free_port` with the place of its call among those of one function, and `secrets.token_hex`.
  pub free_port : List (Event T) → ℕ → ℕ
  pub token_hex : List (Event T) → String
  -- The outcomes of `docker … init`, with `check=True`, of `Popen` and of `docker stop`.
  pub on_init : List (Event T) → Outcome (Unit {0})
  pub on_start : List (Event T) → Outcome (Unit {0})
  pub on_stop : List (Event T) → Outcome (Unit {0})
  -- Whether the file of a report can be written.
  pub on_write : List (Event T) → Outcome (Unit {0})
  -- The status that a request gets, and whether a process ends within the time of a wait.
  pub on_ask : List (Event T) → Outcome ℕ
  pub ends_in_time : List (Event T) → Bool
  -- `(path / "geth" / "chaindata").is_dir()`.
  pub has_chaindata : List (Event T) → String → Bool
  -- What the client at two URLs and buildoor answer to the calls of a replay.
  pub node : List (Event T) → String → String → Node T
  -- An exception as it is printed.
  pub show : Option Exc → String
  -- `path.resolve()`, and how state-actor ends: by its status and the last fifteen lines of its
  -- output, or by an exception of `subprocess.run`.
  pub resolve : String → String
  pub on_generate : List (Event T) → Outcome (ℤ × String)
  -- What a submit meets with the client at a URL.
  pub world : List (Event T) → String → Submit.World

module _ (T : Testing) (H : Host T) where
  abbrev pub note : Event T → Exec (Event T) (Unit {0})
  note e h = (ok tt, h ++ e ∷ [])

  -- A process that could not be started leaves no event.
  abbrev pub started : Event T → Outcome (Unit {0}) → Exec (Event T) (Unit {0})
  started e (ok u) h = (ok tt, h ++ e ∷ [])
  started e (raised x) h = (raised x, h)

  abbrev pub spawn : Process → List String → Exec (Event T) (Unit {0})
  spawn p cmd h = started (start p cmd) (H.on_start h) h

  abbrev pub request_stop : Process → Exec (Event T) (Unit {0})
  request_stop p h = (H.on_stop h, h ++ stop p ∷ [])

  abbrev killed_unless : Bool → Process → Exec (Event T) (Unit {0})
  killed_unless true p h = (ok tt, h)
  killed_unless false p h = (ok tt, h ++ kill p ∷ [])

  -- `try: proc.wait(timeout=…) except TimeoutExpired: proc.kill()`.
  unfoldable pub reap : Process → ℕ → Exec (Event T) (Unit {0})
  reap p seconds h = killed_unless (H.ends_in_time h) p (h ++ wait_end p seconds ∷ [])
