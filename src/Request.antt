-- ===== src/Request.antt =====
-- Direct requests: src/access/direct_request.rs and src/access/history.rs.
pub mod Types
pub mod Status
pub mod History
pub mod Record
pub mod Valid
pub mod Events
pub mod Snapshots
pub mod Newest
