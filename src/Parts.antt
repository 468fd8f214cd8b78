-- ===== src/Parts.antt =====
-- types/part_set.go: a block cut into parts that carry Merkle proofs, and put together again.
pub mod PartSet
pub mod Cutting
pub mod FromData
pub mod Slots
pub mod Adding
pub mod Receiving
pub mod Reader
mod Tests
