-- ===== src/Access.antt =====
-- `AccessRequest` and `SignedAccessRequest` of src/access.rs.
pub mod Types
pub mod Preflight
pub mod Fresh
pub mod Admitted
pub mod Stale
