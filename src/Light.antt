-- ===== src/Light.antt =====
-- The light client's verification of headers, of light/verifier.go.
pub mod Verifier
pub mod NewHeader
pub mod Signed
pub mod Accepted
mod Tests
