-- ===== src/Types/Header.antt =====
-- Header of types/block.go, and SignedHeader of types/light.go. The protobuf encodings are
-- parameters; marshalling does not fail.
use ostracon.Prelude.{
  ℕ, not, ◌&&◌, ◌||◌, [], ◌∷◌, Option, none, some, Bytes, bytes_eq, length, ltb, ◌==◌,
  if◌then◌else◌,
}
use ostracon.Prelude.Int.{ℤ, pos, ltb_ℤ, eqb_ℤ}
use ostracon.Types.BlockId.{BlockId, hash_invalid, block_id_invalid}
use ostracon.Types.Vote.{address_size_bytes}
use ostracon.Types.Commit.{Commit, InvalidCommit, commit_validate_basic}
use ostracon.Merkle.Tree.{hash_from_byte_slices}

pub record Header : Type 0 where
  pub version_block : ℕ
  pub version_app : ℕ
  pub chain_id : Bytes
  pub height : ℤ
  pub time : ℤ
  pub last_block_id : BlockId
  pub last_commit_hash : Bytes
  pub data_hash : Bytes
  pub voters_hash : Bytes
  pub validators_hash : Bytes
  pub next_validators_hash : Bytes
  pub consensus_hash : Bytes
  pub app_hash : Bytes
  pub last_results_hash : Bytes
  pub evidence_hash : Bytes
  pub proposer_address : Bytes
  pub round : ℤ
  pub proof : Bytes

-- A signed header, whose header is not nil.
pub record SignedHeader : Type 0 where
  pub head : Header
  pub commit : Option Commit

pub data InvalidHeader : Type 0 where
  wrong_protocol long_chain_id header_negative_height header_zero_height : InvalidHeader
  wrong_last_block_id wrong_hash wrong_proposer_size header_negative_round : InvalidHeader
  wrong_vrf_proof missing_commit another_chain height_mismatch other_block : InvalidHeader
  invalid_commit : InvalidCommit → InvalidHeader

-- version.BlockProtocol, and MaxChainIDLen
abbrev pub block_protocol : ℕ
block_protocol = 11

abbrev pub max_chain_id_len : ℕ
max_chain_id_len = 50

-- Header.ValidateBasic, with the size of a VRF proof as an argument.
unfoldable pub header_validate_basic : ℕ → Header → Option InvalidHeader
header_validate_basic proof_size h =
    if not (h.version_block == block_protocol)
    then some wrong_protocol
    else if ltb max_chain_id_len (length h.chain_id)
    then some long_chain_id
    else if ltb_ℤ h.height (pos 0)
    then some header_negative_height
    else if eqb_ℤ h.height (pos 0)
    then some header_zero_height
    else if block_id_invalid h.last_block_id
    then some wrong_last_block_id
    else if hash_invalid h.last_commit_hash
        || (hash_invalid h.data_hash || hash_invalid h.evidence_hash)
    then some wrong_hash
    else if not (length h.proposer_address == address_size_bytes)
    then some wrong_proposer_size
    else if hash_invalid h.validators_hash
        || (hash_invalid h.next_validators_hash
            || (hash_invalid h.consensus_hash
                || (hash_invalid h.last_results_hash || hash_invalid h.voters_hash)))
    then some wrong_hash
    else if ltb_ℤ h.round (pos 0)
    then some header_negative_round
    else if ltb 0 (length h.proof) && not (length h.proof == proof_size)
    then some wrong_vrf_proof
    else none

-- The protobuf encodings that Header.Hash calls.
pub record Encodings : Type 0 where
  pub version : ℕ → ℕ → Bytes
  pub time : ℤ → Bytes
  pub block_id : BlockId → Bytes
  pub string : Bytes → Bytes
  pub bytes : Bytes → Bytes
  pub int64 : ℤ → Bytes
  pub int32 : ℤ → Bytes

-- cdcEncode of a string or of bytes.
unfoldable pub cdc_encode : (Bytes → Bytes) → Bytes → Bytes
cdc_encode marshal b = if length b == 0 then [] else marshal b

module _ (sum : Bytes → Bytes) (e : Encodings) where
  -- Header.Hash, which is nil without a hash of the validators and of the voters.
  unfoldable pub header_hash : Header → Bytes
  unfolding cdc_encode
  header_hash h =
      if (length h.validators_hash == 0) || (length h.voters_hash == 0)
      then []
      else hash_from_byte_slices sum (
          e.version h.version_block h.version_app
          ∷ cdc_encode e.string h.chain_id
          ∷ e.int64 h.height
          ∷ e.time h.time
          ∷ e.block_id h.last_block_id
          ∷ cdc_encode e.bytes h.last_commit_hash
          ∷ cdc_encode e.bytes h.data_hash
          ∷ cdc_encode e.bytes h.voters_hash
          ∷ cdc_encode e.bytes h.validators_hash
          ∷ cdc_encode e.bytes h.next_validators_hash
          ∷ cdc_encode e.bytes h.consensus_hash
          ∷ cdc_encode e.bytes h.app_hash
          ∷ cdc_encode e.bytes h.last_results_hash
          ∷ cdc_encode e.bytes h.evidence_hash
          ∷ cdc_encode e.bytes h.proposer_address
          ∷ e.int32 h.round
          ∷ cdc_encode e.bytes h.proof
          ∷ [])

  -- SignedHeader.ValidateBasic, with the sizes of a VRF proof and of a signature as arguments.
  unfoldable pub signed_header_validate_basic : ℕ → ℕ → SignedHeader → Bytes → Option InvalidHeader
  unfolding header_validate_basic header_hash
  signed_header_validate_basic proof_size max_signature sh chain = elim sh.commit [
    | none ↦ some missing_commit
    | some commit ↦ elim (header_validate_basic proof_size sh.head) [
      | some x ↦ some x
      | none ↦ elim (commit_validate_basic max_signature commit) [
        | some x ↦ some (invalid_commit x)
        | none ↦
            if not (bytes_eq sh.head.chain_id chain)
            then some another_chain
            else if not (eqb_ℤ commit.height sh.head.height)
            then some height_mismatch
            else if not (bytes_eq (header_hash sh.head) commit.block_id.hash)
            then some other_block
            else none
      ]
    ]
  ]
