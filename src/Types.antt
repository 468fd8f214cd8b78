-- ===== src/Types.antt =====
-- The data types of types/ that the components share: block identifiers, votes, proposals, their
-- canonical forms, validators and voter sets.
pub mod BlockId
pub mod Vote
pub mod Canonical
pub mod Commit
pub mod Header
mod Tests
