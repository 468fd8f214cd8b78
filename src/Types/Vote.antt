-- ===== src/Types/Vote.antt =====
-- Vote of types/vote.go and Proposal of types/proposal.go. A nil signature is `none`, a timestamp a
-- number of nanoseconds. The generated protobuf types have the same fields, so the conversions
-- to and from them are left out.
use ostracon.Prelude.{
  ℕ, Bool, not, ◌&&◌, ◌||◌, [], Option, none, some, Bytes, length, ltb, ◌==◌, if◌then◌else◌,
}
use ostracon.Prelude.Int.{ℤ, pos, negsuc, ltb_ℤ}
use ostracon.Types.BlockId.{BlockId, block_id_invalid, is_zero, is_complete}

-- SignedMsgType
abbrev pub prevote_type : ℕ
prevote_type = 1

abbrev pub precommit_type : ℕ
precommit_type = 2

abbrev pub proposal_type : ℕ
proposal_type = 32

pub record Vote : Type 0 where
  pub type : ℕ
  pub height : ℤ
  pub round : ℤ
  pub block_id : BlockId
  pub timestamp : ℤ
  pub validator_address : Bytes
  pub validator_index : ℤ
  pub signature : Option Bytes

pub record Proposal : Type 0 where
  pub type : ℕ
  pub height : ℤ
  pub round : ℤ
  pub pol_round : ℤ
  pub block_id : BlockId
  pub timestamp : ℤ
  pub signature : Option Bytes

-- The bytes of a slice that may be nil, as bytes.Equal and len read it.
abbrev pub contents : Option Bytes → Bytes
contents none = []
contents (some b) = b

unfoldable pub is_vote_type_valid : ℕ → Bool
is_vote_type_valid t = (t == prevote_type) || (t == precommit_type)

pub data InvalidVote : Type 0 where
  invalid_type negative_height negative_round wrong_block_id block_id_not_complete : InvalidVote
  address_size negative_index signature_missing signature_too_big negative_pol_round : InvalidVote

-- crypto.AddressSize
abbrev pub address_size_bytes : ℕ
address_size_bytes = 20

-- Vote.ValidateBasic, with MaxSignatureSize as an argument.
unfoldable pub vote_validate_basic : ℕ → Vote → Option InvalidVote
unfolding is_vote_type_valid
vote_validate_basic max_signature v =
    if not (is_vote_type_valid v.type)
    then some invalid_type
    else if ltb_ℤ v.height (pos 0)
    then some negative_height
    else if ltb_ℤ v.round (pos 0)
    then some negative_round
    else if block_id_invalid v.block_id
    then some wrong_block_id
    else if not (is_zero v.block_id) && not (is_complete v.block_id)
    then some block_id_not_complete
    else if not (length v.validator_address == address_size_bytes)
    then some address_size
    else if ltb_ℤ v.validator_index (pos 0)
    then some negative_index
    else if length (contents v.signature) == 0
    then some signature_missing
    else if ltb max_signature (length (contents v.signature))
    then some signature_too_big
    else none

-- Proposal.ValidateBasic
unfoldable pub proposal_validate_basic : ℕ → Proposal → Option InvalidVote
proposal_validate_basic max_signature p =
    if not (p.type == proposal_type)
    then some invalid_type
    else if ltb_ℤ p.height (pos 0)
    then some negative_height
    else if ltb_ℤ p.round (pos 0)
    then some negative_round
    else if ltb_ℤ p.pol_round (negsuc 0)
    then some negative_pol_round
    else if block_id_invalid p.block_id
    then some wrong_block_id
    else if not (is_complete p.block_id)
    then some block_id_not_complete
    else if length (contents p.signature) == 0
    then some signature_missing
    else if ltb max_signature (length (contents p.signature))
    then some signature_too_big
    else none
