-- ===== src/Totp.antt =====
-- One-time passwords of src/totp.rs: the seed's forms, the decoding of secrets and parameters, and
-- the derivation of a code. The HMAC of the crates hmac, sha1 and sha2 is a parameter.
pub mod Decode
pub mod Seed
pub mod Code
pub mod Base32
pub mod Percent
pub mod Decimal
pub mod Shape
pub mod Bounds
