-- ===== src/State.antt =====
-- The durable state of the provider: src/access/provider_store.rs.
pub mod Types
pub mod Transition
pub mod Validate
pub mod Advance
pub mod Steps
pub mod Unique
pub mod Keep
pub mod Lifecycle
