-- ===== src/Genesis.antt =====
-- eest_replay/chainspec.py and devnet_genesis.py: the genesis of the client that is booted.
pub mod Forks
pub mod Devnet
pub mod Chainspec
pub mod Activation
pub mod Prefix
pub mod Configs
pub mod Forked
pub mod Blobs
pub mod Accounts
pub mod Fixtures
