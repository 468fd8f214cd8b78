-- ===== src/Votes/VoteSet.antt =====
-- VoteSet and blockVotes of types/vote_set.go. The mutex is left out: each method is one step. A map
-- is a list of keys and values; an access out of range of a slice panics.
use ostracon.Prelude.{
  ℕ, ◌+◌, ◌*◌, ◌/◌, Bool, true, false, not, ◌&&◌, List, [], ◌∷◌, Option, none, some, Bytes,
  bytes_eq, get_elem?, set, replicate, ltb, leb, if◌then◌else◌,
}
use ostracon.Prelude.Int.{ℤ, pos, eqb_ℤ}
use ostracon.Prelude.Run.{Run, ok, panic, ◌>>=◌, or_panic}
use ostracon.Bits.Array.{BitArray, new_bit_array, set_index}
use ostracon.Types.BlockId.{PartSetHeader, BlockId, key, equals}
use ostracon.Types.Vote.{Vote, contents}
use ostracon.Types.Canonical.{CanonicalVote, canonicalize_vote}
use ostracon.Votes.Voters.{VoterSet, size, get_total_voting_weight}

-- What counting calls: the protobuf encodings, of which that of a vote may fail, the address of a
-- public key, and the test of a signature.
pub record Crypto : Type 0 where
  pub marshal_header : PartSetHeader → Bytes
  pub marshal_vote : CanonicalVote → Option Bytes
  pub address_of : Bytes → Bytes
  pub verify_signature : Bytes → Bytes → Bytes → Bool

pub record BlockVotes : Type 0 where
  pub peer_maj23 : Bool
  pub bit_array : Option BitArray
  pub votes : List (Option Vote)
  pub sum : ℕ

pub record VoteSet : Type 0 where
  pub chain_id : Bytes
  pub height : ℤ
  pub round : ℤ
  pub signed_msg_type : ℕ
  pub voter_set : VoterSet
  pub votes_bit_array : Option BitArray
  pub votes : List (Option Vote)
  pub sum : ℕ
  pub maj23 : Option BlockId
  pub votes_by_block : List (Bytes × BlockVotes)
  pub peer_maj23s : List (Bytes × BlockId)

pub data VoteError : Type 0 where
  vote_nil invalid_index invalid_address unexpected_step : VoteError
  non_deterministic_signature invalid_signature : VoteError
  conflicting_votes : Vote → Vote → VoteError

unfoldable pub lookup {ℓ} : {A : Type ℓ} → Bytes → List (Bytes × A) → Option A
lookup k [] = none
lookup k ((k', v) ∷ m) = let rest = lookup k m in if bytes_eq k k' then some v else rest

unfoldable pub insert {ℓ} : {A : Type ℓ} → Bytes → A → List (Bytes × A) → List (Bytes × A)
insert k v [] = (k, v) ∷ []
insert k v ((k', v') ∷ m) =
    let rest = insert k v m in if bytes_eq k k' then (k, v) ∷ m else (k', v') ∷ rest

abbrev pub is_some {ℓ} : {A : Type ℓ} → Option A → Bool
is_some none = false
is_some (some a) = true

unfoldable pub new_vote_set : Bytes → ℤ → ℤ → ℕ → VoterSet → Run VoteSet
new_vote_set chain height round type voters =
    if eqb_ℤ height (pos 0)
    then panic
    else ok (record {
      chain_id = chain;
      height = height;
      round = round;
      signed_msg_type = type;
      voter_set = voters;
      votes_bit_array = new_bit_array (size voters);
      votes = replicate (size voters) none;
      sum = 0;
      maj23 = none;
      votes_by_block = [];
      peer_maj23s = [];
    })

unfoldable pub new_block_votes : Bool → ℕ → BlockVotes
new_block_votes peer n = record {
  peer_maj23 = peer;
  bit_array = new_bit_array n;
  votes = replicate n none;
  sum = 0;
}

-- votes[i]
unfoldable pub vote_at : List (Option Vote) → ℕ → Run (Option Vote)
vote_at votes i = elim (get_elem? votes i) [ none ↦ panic | some v ↦ ok v ]

-- blockVotes.addVerifiedVote
unfoldable pub add_to_block : BlockVotes → Vote → ℕ → ℕ → Run BlockVotes
unfolding vote_at
add_to_block bv vote i power = vote_at bv.votes i >>= λ existing. elim existing [
  | some e ↦ ok bv
  | none ↦ set_index bv.bit_array i true >>= λ (bits, _).
      ok (record bv { bit_array = bits; votes = set bv.votes i (some vote); sum = bv.sum + power })
]

-- votes[i] = vote, and its bit.
unfoldable pub set_vote : VoteSet → ℕ → Vote → Run VoteSet
set_vote s i vote = set_index s.votes_bit_array i true >>= λ (bits, _).
    ok (record s { votes = set s.votes i (some vote); votes_bit_array = bits })

-- Copying the votes of a block over votes.
unfoldable pub copy_votes : List (Option Vote) → List (Option Vote) → Run (List (Option Vote))
copy_votes votes [] = ok votes
copy_votes [] (none ∷ from) = copy_votes [] from
copy_votes [] (some v ∷ from) = panic
copy_votes (v ∷ votes) (none ∷ from) = copy_votes votes from >>= λ rest. ok (v ∷ rest)
copy_votes (v ∷ votes) (some w ∷ from) = copy_votes votes from >>= λ rest. ok (some w ∷ rest)

abbrev pub quorum_of : ℕ → ℕ
quorum_of total = total * 2 / 3 + 1

module _ (c : Crypto) where
  -- Whether maj23 is set and has the key.
  unfoldable pub maj23_is : Option BlockId → Bytes → Bool
  maj23_is none k = false
  maj23_is (some b) k = bytes_eq (key c.marshal_header b) k

  -- The first part of addVerifiedVote: the vote goes to votes, or there is a conflicting one.
  unfoldable pub place : VoteSet → Vote → ℕ → Bytes → ℕ → Run (VoteSet × Option Vote)
  unfolding vote_at set_vote maj23_is
  place s vote i k power = vote_at s.votes i >>= λ existing. elim existing [
    | some e ↦
        if equals e.block_id vote.block_id
        then panic
        else if maj23_is s.maj23 k
        then (set_vote s i vote >>= λ s'. ok (s', some e))
        else ok (s, some e)
    | none ↦ set_vote s i vote >>= λ s'. ok (record s' { sum = s.sum + power }, none)
  ]

  -- The votes for the block, where the vote is counted there.
  unfoldable pub tracked : VoteSet → Bytes → Option Vote → Option BlockVotes
  unfolding new_block_votes
  tracked s k conflicting = elim (lookup k s.votes_by_block) [
    | some bv ↦ if is_some conflicting && not bv.peer_maj23 then none else some bv
    | none ↦ if is_some conflicting then none else some (new_block_votes false (size s.voter_set))
  ]

  -- The last part of addVerifiedVote: counting the vote for its block, and the quorum.
  unfoldable pub tally : VoteSet → Vote → ℕ → Bytes → ℕ → BlockVotes → Run VoteSet
  unfolding add_to_block copy_votes
  tally s vote i k power bv = get_total_voting_weight s.voter_set >>= λ (voters, total).
      add_to_block bv vote i power >>= λ bv'.
      let s' = record s { voter_set = voters; votes_by_block = insert k bv' s.votes_by_block } in
      if ltb bv.sum (quorum_of total) && (leb (quorum_of total) bv'.sum && not (is_some s.maj23))
      then (copy_votes s.votes bv'.votes >>= λ votes.
          ok (record s' { maj23 = some vote.block_id; votes = votes }))
      else ok s'

  unfoldable pub add_verified_vote :
      VoteSet → Vote → ℕ → Bytes → ℕ → Run (VoteSet × Bool × Option Vote)
  unfolding place tracked tally
  add_verified_vote s vote i k power = place s vote i k power >>= λ (s', conflicting).
      elim (tracked s' k conflicting) [
        | none ↦ ok (s', false, conflicting)
        | some bv ↦ tally s' vote i k power bv >>= λ s''. ok (s'', true, conflicting)
      ]

  -- VoteSignBytes panics where the encoding fails.
  unfoldable pub sign_bytes_of : Bytes → Vote → Run Bytes
  sign_bytes_of chain vote = canonicalize_vote chain vote >>= λ cv. or_panic (c.marshal_vote cv)

  -- Vote.Verify
  unfoldable pub vote_verify : Bytes → Bytes → Vote → Run (Option VoteError)
  vote_verify chain pub_key vote =
      if not (bytes_eq (c.address_of pub_key) vote.validator_address)
      then ok (some invalid_address)
      else (sign_bytes_of chain vote >>= λ bytes. ok (
          if c.verify_signature pub_key bytes (contents vote.signature)
          then none
          else some invalid_signature))

  -- The test of AddAggregatedVote.
  unfoldable pub address_verify : Bytes → Bytes → Vote → Run (Option VoteError)
  address_verify chain pub_key vote = ok (
      if not (bytes_eq (c.address_of pub_key) vote.validator_address)
      then some invalid_address
      else none)

  -- blockVotes.getByIndex, of votes that may be nil.
  unfoldable pub block_vote_at : Option BlockVotes → ℕ → Run (Option Vote)
  unfolding vote_at
  block_vote_at none i = ok none
  block_vote_at (some bv) i = vote_at bv.votes i

  unfoldable pub get_vote : VoteSet → ℕ → Bytes → Run (Option Vote)
  unfolding vote_at block_vote_at
  get_vote s i k = vote_at s.votes i >>= λ existing. elim existing [
    | none ↦ block_vote_at (lookup k s.votes_by_block) i
    | some e ↦
        if bytes_eq (key c.marshal_header e.block_id) k
        then ok (some e)
        else block_vote_at (lookup k s.votes_by_block) i
  ]
