-- ===== src/Persistence.antt =====
-- persistence/: the local stores over a bolt database.
pub mod Bolt
pub mod Db
pub mod Opening
pub mod Jobs
pub mod Tokens
pub mod Aliases
pub mod Logs
pub mod Providers
