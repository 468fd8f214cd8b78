-- ===== src/Votes/AddVote.antt =====
-- addVote, SetPeerMaj23 and the reading methods of VoteSet.
use ostracon.Prelude.{
  ℕ, ◌*◌, ◌/◌, ◌⊎◌, inl, inr, Bool, true, false, not, ◌&&◌, ◌||◌, List, [], ◌∷◌, Option, none, some,
  Bytes, bytes_eq, length, ltb, ◌==◌, if◌then◌else◌,
}
use ostracon.Prelude.Int.{pos, negsuc, eqb_ℤ}
use ostracon.Prelude.Run.{Run, ok, panic, ◌>>=◌}
use ostracon.Bits.Array.{BitArray}
use ostracon.Types.BlockId.{BlockId, key, equals, zero_block_id}
use ostracon.Types.Vote.{Vote, contents, precommit_type}
use ostracon.Votes.Voters.{Voter, size, get_by_index, get_by_address, get_total_voting_weight}
use ostracon.Votes.VoteSet.{
  Crypto, VoteSet, VoteError, vote_nil, invalid_index, invalid_address, unexpected_step,
  non_deterministic_signature, conflicting_votes, lookup, insert, is_some, new_block_votes, vote_at,
  add_verified_vote, get_vote, vote_verify, address_verify,
}

-- The state afterwards, whether the vote was added, and the error.
abbrev pub Added : Type 0
Added = VoteSet × Bool × Option VoteError

-- The tests of addVote that read the vote, and the index of the voter.
unfoldable pub check_vote : VoteSet → Vote → VoteError ⊎ (ℕ × Voter)
check_vote s vote = elim vote.validator_index [
  | negsuc i ↦ inl invalid_index
  | pos i ↦
      if length vote.validator_address == 0
      then inl invalid_address
      else if not (eqb_ℤ vote.height s.height)
          || (not (eqb_ℤ vote.round s.round) || not (vote.type == s.signed_msg_type))
      then inl unexpected_step
      else elim (get_by_index s.voter_set (pos i)) [
        | none ↦ inl invalid_index
        | some voter ↦
            if bytes_eq vote.validator_address voter.address
            then inr (i, voter)
            else inl invalid_address
      ]
]

module _ (c : Crypto) where
  -- What addVote does with a vote that passed the signature test.
  unfoldable pub add_checked : VoteSet → Vote → ℕ → ℕ → Run Added
  add_checked s vote i power =
      add_verified_vote c s vote i (key c.marshal_header vote.block_id) power
      >>= λ (s', added, conflicting). elim conflicting [
        | some e ↦ ok (s', added, some (conflicting_votes e vote))
        | none ↦ if added then ok (s', true, none) else panic
      ]

  -- addVote, with the test of the signature as an argument.
  unfoldable pub add_vote :
      (Bytes → Bytes → Vote → Run (Option VoteError)) → VoteSet → Option Vote → Run Added
  unfolding check_vote add_checked
  add_vote check s none = ok (s, false, some vote_nil)
  add_vote check s (some vote) = elim (check_vote s vote) [
    | inl e ↦ ok (s, false, some e)
    | inr (i, voter) ↦ get_vote c s i (key c.marshal_header vote.block_id) >>= λ known. elim known [
      | some e ↦
          if bytes_eq (contents e.signature) (contents vote.signature)
          then ok (s, false, none)
          else ok (s, false, some non_deterministic_signature)
      | none ↦ check s.chain_id voter.pub_key vote >>= λ refused. elim refused [
        | some e ↦ ok (s, false, some e)
        | none ↦ add_checked s vote i voter.voting_weight
      ]
    ]
  ]

  unfoldable pub set_peer_maj23 : VoteSet → Bytes → BlockId → VoteSet × Bool
  unfolding new_block_votes
  set_peer_maj23 s peer b =
      let k = key c.marshal_header b in
      let s' = record s { peer_maj23s = insert peer b s.peer_maj23s } in
      elim (lookup peer s.peer_maj23s) [
        | some known ↦ (s, equals known b)
        | none ↦ elim (lookup k s.votes_by_block) [
          | none ↦ (
            record s' {
              votes_by_block = insert k (new_block_votes true (size s.voter_set)) s.votes_by_block;
            },
            true,
          )
          | some bv ↦ if bv.peer_maj23 then (s', true) else (
            record s' {
              votes_by_block = insert k (record bv { peer_maj23 = true }) s.votes_by_block;
            },
            true,
          )
        ]
      ]

  unfoldable pub bit_array_by_block_id : VoteSet → BlockId → Option BitArray
  bit_array_by_block_id s b = elim (lookup (key c.marshal_header b) s.votes_by_block) [
    | none ↦ none
    | some bv ↦ bv.bit_array
  ]

unfoldable pub get_vote_by_address : VoteSet → Bytes → Run (Option Vote)
get_vote_by_address s a = elim (get_by_address s.voter_set a) [
  | none ↦ panic
  | some (i, v) ↦ vote_at s.votes i
]

unfoldable pub list_votes : List (Option Vote) → List Vote
list_votes [] = []
list_votes (none ∷ votes) = list_votes votes
list_votes (some v ∷ votes) = v ∷ list_votes votes

unfoldable pub has_two_thirds_majority : VoteSet → Bool
has_two_thirds_majority s = is_some s.maj23

unfoldable pub is_commit : VoteSet → Bool
is_commit s = (s.signed_msg_type == precommit_type) && is_some s.maj23

unfoldable pub has_two_thirds_any : VoteSet → Run Bool
has_two_thirds_any s =
    get_total_voting_weight s.voter_set >>= λ (_, total). ok (ltb (total * 2 / 3) s.sum)

unfoldable pub has_all : VoteSet → Run Bool
has_all s = get_total_voting_weight s.voter_set >>= λ (_, total). ok (s.sum == total)

unfoldable pub two_thirds_majority : VoteSet → BlockId × Bool
two_thirds_majority s = elim s.maj23 [ none ↦ (zero_block_id, false) | some b ↦ (b, true) ]

module _ (c : Crypto) where
  -- AddVote of a set that is not nil.
  unfoldable pub add_signed_vote : VoteSet → Option Vote → Run Added
  unfolding add_vote
  add_signed_vote = add_vote c (vote_verify c)

  -- AddAggregatedVote of a set that is not nil.
  unfoldable pub add_aggregated_vote : VoteSet → Option Vote → Run Added
  unfolding add_vote
  add_aggregated_vote = add_vote c (address_verify c)
