-- ===== src/Merkle.antt =====
-- crypto/merkle: trees over byte slices, and inclusion proofs.
-- tmhash.Sum (SHA-256) is a parameter of every definition.
pub mod Split
pub mod Tree
pub mod Iterative
pub mod Proof
pub mod Trails
pub mod Complete
pub mod Sound
mod Tests
