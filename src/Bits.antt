-- ===== src/Bits.antt =====
-- libs/bits/bit_array.go: bit arrays over 64-bit words.
pub mod Word
pub mod Array
pub mod Access
pub mod Sized
pub mod Copy
pub mod Combine
pub mod Reads
pub mod Complement
pub mod Empty
pub mod Full
mod Tests
