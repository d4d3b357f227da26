-- ===== src/Process.antt =====
-- eest_replay/el.py and buildoor_client.py: the processes that a replay starts, waits for and stops.
pub mod Running
pub mod Poll
pub mod Events
pub mod CommandLines
pub mod Engine
pub mod Balance
pub mod Hosted
pub mod Stops
pub mod Inner
pub mod Inside
pub mod Waits
pub mod StateActor
