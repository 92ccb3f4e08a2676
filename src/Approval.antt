-- ===== src/Approval.antt =====
-- The approval contract of src/access/approval_v2.rs: the canonical form of a review, and the
-- transcripts that a biometric approval and an enrolment sign.
pub mod Canonical
pub mod Reorder
pub mod Transcript
pub mod Injective
