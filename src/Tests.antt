-- ===== src/Tests.antt =====
-- Runs of the definitions on concrete inputs, one module for each part of the program.
mod Parsing
pub mod Access
pub mod Registering
pub mod Recording
mod Builtins
mod Privacy
mod Tokens
mod Aliases
mod Executing
mod Chatting
pub mod Remoting
mod Agents
mod Starting
mod Replying
mod Logging
mod Posting
mod Recorded
mod Delivering
