-- ===== src/Process/Balance.antt =====
-- eest_replay/el.py, buildoor_client.py and rpc_proxy.py: what an event does to the processes that
-- run.
use buildoor_tester.Base.{Option, some, List, ◌∷◌}
use buildoor_tester.Testing.{Testing}
use buildoor_tester.Process.Running.{Process, stopped}
use buildoor_tester.Process.Events.{
  Event, write_genesis, write_jwt, init_datadir, start, ask_ready, nap, stop, wait_end, kill, calls,
  make_dir, write_spec, generate, submits,
}
use buildoor_tester.Export.Stops.{step_submit}

abbrev pub step : (T : Testing) → Event T → List Process → Option (List Process)
step T (start p cmd) s = some (p ∷ s)
step T (stop p) s = stopped p s
step T (submits e) s = step_submit e s
step T (write_genesis path g) s = some s
step T (write_jwt path) s = some s
step T (init_datadir cmd) s = some s
step T (ask_ready url) s = some s
step T (nap time) s = some s
step T (wait_end p seconds) s = some s
step T (kill p) s = some s
step T (calls c) s = some s
step T (make_dir path) s = some s
step T (write_spec path text) s = some s
step T (generate cmd) s = some s
