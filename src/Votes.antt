-- ===== src/Votes.antt =====
-- Counting votes: the voters and their weights, and vote sets, of types/voter_set.go and
-- types/vote_set.go.
pub mod Voters
pub mod Total
pub mod VoteSet
pub mod AddVote
pub mod Tally
pub mod Tracked
pub mod Invariant
pub mod Counting
pub mod Adding
pub mod Handling
pub mod Peers
pub mod Quorum
pub mod MakeCommit
mod Tests
