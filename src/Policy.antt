-- ===== src/Policy.antt =====
-- The protected-operation policy of src/access/policy.rs: drafts and their checks, the revision
-- that binds a policy, its arguments, and the review that a request shows.
pub mod Types
pub mod Checks
pub mod Ssh
pub mod Image
pub mod Draft
pub mod Arguments
pub mod Review
pub mod Order
