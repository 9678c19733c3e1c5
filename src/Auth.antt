-- ===== src/Auth.antt =====
-- internal/auth: API keys and their validation.
pub mod Keys
pub mod Validator
