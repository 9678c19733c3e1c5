-- ===== src/Domain.antt =====
-- internal/domain: the entities, values and errors of the gateway.
pub mod Errors
pub mod Keys
pub mod Scopes
pub mod Tenancy
pub mod Policy
pub mod Requests
pub mod Tasks
pub mod Models
