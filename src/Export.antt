-- ===== src/Export.antt =====
-- eest_replay/export.py: recording a test's transactions, and submitting them to a live network.
pub mod Gas
pub mod Command
pub mod Options
pub mod Rows
pub mod Submit
pub mod Session
pub mod Stops
pub mod Histories
pub mod Transactions
pub mod Captures
pub mod Reports
pub mod Closing
pub mod Outcomes
