-- ===== src/Builtins.antt =====
-- commands/builtins/builtins.go: the commands that come with the bot.
pub mod Types
pub mod Table
pub mod Services
pub mod JobCommands
pub mod LogCommands
pub mod OtherCommands
pub mod Access
pub mod Ownership
pub mod Flags
pub mod Dispatch
pub mod Privacy
pub mod Helping
