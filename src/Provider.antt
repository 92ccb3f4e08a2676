-- ===== src/Provider.antt =====
-- The provider of src/access/provider.rs: its operations on the durable state.
pub mod Defs
pub mod Requests
pub mod Expiry
pub mod Execution
pub mod Writes
pub mod Evolution
pub mod Changes
pub mod Pairing
pub mod Signed
pub mod Catalogue
pub mod Administered
pub mod Runs
pub mod Policies
pub mod Revisions
pub mod Growth
pub mod Sweeps
pub mod Lookup
pub mod Markers
pub mod Replay
pub mod Listing
pub mod Upsert
pub mod Kept
pub mod Refines
pub mod Claims
pub mod Attempts
pub mod Begin
pub mod Transact
pub mod Reconciled
pub mod ClaimValid
pub mod Moves
pub mod Calls
pub mod Settles
