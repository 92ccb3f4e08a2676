-- ===== src/Application.antt =====
-- `ProviderApplication` of src/access/application.rs: the session in front of the provider.
pub mod Types
pub mod Action
pub mod Authority
pub mod Decision
pub mod Submission
pub mod Execution
pub mod Queries
pub mod Queried
pub mod Reconcile
pub mod Ending
pub mod Drops
pub mod Rounds
pub mod Ended
pub mod Answered
pub mod Follows
pub mod Kept
pub mod Methods
pub mod Requests
pub mod Opening
pub mod Progress
pub mod Lease
pub mod Run
pub mod Safety
pub mod Stale
pub mod Closed
pub mod Locked
