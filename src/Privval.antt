-- ===== src/Privval.antt =====
-- privval/file.go: the signer that keeps its last signature on disk.
pub mod State
pub mod Sign
pub mod Release
pub mod Votes
pub mod SignVote
pub mod Proposals
pub mod SignProposal
pub mod History
pub mod Errors
pub mod Order
pub mod Safety
mod Tests
