-- ===== src/Examples.antt =====
-- Concrete inputs, and the theorems at these inputs.
mod Codec
mod Cache
mod Data
mod Routes
mod Access
mod Chat
mod Adapters
mod Login
mod Edits
mod Tasks
mod Admin
mod Agent
mod Mentions
