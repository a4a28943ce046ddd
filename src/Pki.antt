-- ===== src/Pki.antt =====
-- resolver/internal/pki: owner signatures of records and resolver signatures of responses.
pub mod Owner
pub mod Message
pub mod Verify
pub mod Resource
pub mod Manifest
pub mod Placeholder
