-- ===== src/Commits.antt =====
-- Verifying commits: VerifyCommit, VerifyCommitLight and VerifyCommitLightTrusting of
-- types/voter_set.go.
pub mod Sums
pub mod Slot
pub mod Verify
pub mod Signed
pub mod VerifySlots
pub mod Accepted
pub mod Stopping
pub mod Repeated
pub mod Picks
pub mod Held
pub mod TrustingLoop
pub mod Trusting
pub mod Negative
mod Tests
