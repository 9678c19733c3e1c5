-- ===== src/Http.antt =====
-- internal/http/handlers: the handlers, without the HTTP library that calls them.
pub mod Response
pub mod Prompt
pub mod Failover
pub mod Completion
pub mod Chat
pub mod Tasks
pub mod Supabase
pub mod Provision
pub mod AuthCli
pub mod Models
pub mod Admin
