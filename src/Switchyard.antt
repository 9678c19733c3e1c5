-- ===== src/Switchyard.antt =====
-- cmd/switchyard: the terminal client, without its terminal.
pub mod Paths
pub mod Safety
pub mod Edits
pub mod Parsing
pub mod Session
pub mod Calls
pub mod RepoConfig
pub mod Context
pub mod Daemon
pub mod WebLogin
pub mod Completer
