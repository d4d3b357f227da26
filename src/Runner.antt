-- ===== src/Runner.antt =====
-- eest_replay/runner.py: a fixture is driven through an execution client, block by block.
pub mod Results
pub mod Calls
pub mod Drive
pub mod Diff
pub mod Asked
pub mod Round
pub mod Order
pub mod Blocks
pub mod Built
pub mod Replay
pub mod Replayed
