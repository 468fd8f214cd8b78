-- ===== src/Rounds.antt =====
-- The vote sets of a height, of consensus/types/height_vote_set.go.
pub mod HeightVoteSet
pub mod RoundMap
pub mod Kept
pub mod Adding
pub mod Advance
pub mod Pol
mod Tests
