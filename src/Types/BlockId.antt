-- ===== src/Types/BlockId.antt =====
-- BlockId of types/block.go, PartSetHeader of types/part_set.go, ValidateHash of
-- types/validation.go.
use ostracon.Prelude.{
  ℕ, ◌≡◌, ◌↔◌, Bool, true, not, ◌&&◌, ◌||◌, [], ◌++◌, arith, Bytes, bytes_eq, bytes_eq_refl,
  bytes_eq→eq, length, ltb, ◌==◌,
}

-- tmhash.Size
abbrev pub hash_size : ℕ
hash_size = 32

pub record PartSetHeader : Type 0 where
  pub total : ℕ
  pub hash : Bytes

pub record BlockId : Type 0 where
  pub hash : Bytes
  pub parts : PartSetHeader

-- ValidateHash: whether it returns an error.
abbrev pub hash_invalid : Bytes → Bool
hash_invalid h = ltb 0 (length h) && not (length h == hash_size)

unfoldable pub header_equals : PartSetHeader → PartSetHeader → Bool
header_equals a b = (a.total == b.total) && bytes_eq a.hash b.hash

unfoldable pub header_is_zero : PartSetHeader → Bool
header_is_zero h = (h.total == 0) && (length h.hash == 0)

unfoldable pub equals : BlockId → BlockId → Bool
unfolding header_equals
equals a b = bytes_eq a.hash b.hash && header_equals a.parts b.parts

-- Key, with the encoding of a part set header as a parameter.
unfoldable pub key : (PartSetHeader → Bytes) → BlockId → Bytes
key marshal b = b.hash ++ marshal b.parts

-- ValidateBasic: whether it returns an error.
unfoldable pub block_id_invalid : BlockId → Bool
block_id_invalid b = hash_invalid b.hash || hash_invalid b.parts.hash

unfoldable pub is_zero : BlockId → Bool
unfolding header_is_zero
is_zero b = (length b.hash == 0) && header_is_zero b.parts

unfoldable pub is_complete : BlockId → Bool
is_complete b =
    (length b.hash == hash_size) && (ltb 0 b.parts.total && (length b.parts.hash == hash_size))

-- BlockId{}
abbrev pub zero_block_id : BlockId
zero_block_id = record { hash = []; parts = record { total = 0; hash = [] } }

-- Equals decides the equality of block identifiers.
pub equals_iff : (a b : BlockId) → (equals a b ≡ true) ↔ (a ≡ b)
unfolding equals
equals_iff a b = (
  λ e. ground (arith, bytes_eq→eq a.hash b.hash, bytes_eq→eq a.parts.hash b.parts.hash),
  λ e. ground (arith, bytes_eq_refl a.hash, bytes_eq_refl a.parts.hash),
)
