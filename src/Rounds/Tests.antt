-- ===== src/Rounds/Tests.antt =====
-- The theorems about the vote sets of a height at concrete inputs: two voters, rounds 0 and 1, and a
-- majority of the prevotes in round 0.
use ostracon.Prelude.{ℕ, ◌<◌, ◌≤◌, ◌≡◌, ◌⊎◌, refl, List, [], ◌∷◌, none, some, arith, true, false}
use ostracon.Prelude.Int.{ℤ, pos, negsuc}
use ostracon.Prelude.Run.{ok}
use ostracon.Bits.Array.{new_bit_array}
use ostracon.Bits.Sized.{BitsFor-new_bit_array}
use ostracon.Types.BlockId.{BlockId, zero_block_id, block_id_invalid}
use ostracon.Types.Vote.{Vote, prevote_type, precommit_type}
use ostracon.Votes.Voters.{Voter, VoterSet, wrap_sorted, get_total_voting_weight}
use ostracon.Votes.Total.{wrap_sorted-total}
use ostracon.Votes.VoteSet.{Crypto, VoteSet}
use ostracon.Votes.Invariant.{IsConsistent}
use ostracon.Rounds.HeightVoteSet.{max_int32, set_round, HeightVoteSet, add_height_vote, pol_info}
use ostracon.Rounds.Kept.{IsKept}
use ostracon.Rounds.Advance.{IsKnown, set_round-IsKnown, set_round-max}
use ostracon.Rounds.Adding.{Returns, add_height_vote-Returns}
use ostracon.Rounds.Pol.{HasPol, NoPol, pol_info-Latest}

abbrev toy_crypto : Crypto
toy_crypto = record {
  marshal_header = λ h. h.total ∷ h.hash;
  marshal_vote = λ v. some (v.type ∷ v.chain_id);
  address_of = λ k. k;
  verify_signature = λ k m s. true;
}

abbrev two_voters : List Voter
two_voters =
    record { address = 1 ∷ []; pub_key = 1 ∷ []; voting_power = 10; voting_weight = 10 }
    ∷ record { address = 2 ∷ []; pub_key = 2 ∷ []; voting_power = 30; voting_weight = 30 }
    ∷ []

abbrev two_voter_set : VoterSet
two_voter_set = record { voters = two_voters; total_voting_weight = 40 }

abbrev empty_votes : ℕ → VoteSet
empty_votes type = record {
  chain_id = 9 ∷ [];
  height = pos 5;
  round = pos 0;
  signed_msg_type = type;
  voter_set = two_voter_set;
  votes_bit_array = new_bit_array 2;
  votes = none ∷ none ∷ [];
  sum = 0;
  maj23 = none;
  votes_by_block = [];
  peer_maj23s = [];
}

empty_votes-IsConsistent : (type : ℕ) → IsConsistent toy_crypto (empty_votes type)
unfolding get_total_voting_weight
empty_votes-IsConsistent type = record {
  some_voters = omega arith;
  total = refl;
  sized = refl;
  bits = BitsFor-new_bit_array 2 (omega arith);
  counted = refl;
  blocks = tt;
  majority = λ b m. absurd (ground arith);
}

abbrev one_round : HeightVoteSet
one_round = record {
  chain_id = 9 ∷ [];
  height = pos 5;
  voter_set = two_voter_set;
  round = pos 0;
  round_vote_sets =
      (
        pos 0,
        record { prevotes = empty_votes prevote_type; precommits = empty_votes precommit_type },
      )
      ∷ [];
  peer_catchup_rounds = [];
}

wrapped : wrap_sorted two_voters ≡ ok two_voter_set
wrapped = wrap_sorted-total two_voters

one_round-IsKept : IsKept toy_crypto one_round
one_round-IsKept = record {
  vals = two_voters;
  some_vals = omega arith;
  made = wrapped;
  height = refl;
  rounds = ((empty_votes-IsConsistent prevote_type, empty_votes-IsConsistent precommit_type), tt);
  peers = tt;
}

-- A vote of a later round.
abbrev later_vote : Vote
later_vote = record {
  type = precommit_type;
  height = pos 5;
  round = pos 3;
  block_id = zero_block_id;
  timestamp = pos 3;
  validator_address = 2 ∷ [];
  validator_index = pos 1;
  signature = some (4 ∷ []);
}

zero-valid : block_id_invalid zero_block_id ≡ false
unfolding block_id_invalid
zero-valid = refl

add_height_vote-Returns_example :
    Returns toy_crypto (add_height_vote toy_crypto one_round later_vote (7 ∷ []))
add_height_vote-Returns_example =
    add_height_vote-Returns toy_crypto one_round later_vote (7 ∷ []) one_round-IsKept zero-valid
      (λ chain cv _. (_, refl))

abbrev pol_rounds : HeightVoteSet
pol_rounds = record one_round {
  round = pos 1;
  round_vote_sets =
      (
        pos 0,
        record {
          prevotes = record (empty_votes prevote_type) { maj23 = some zero_block_id };
          precommits = empty_votes precommit_type;
        },
      )
      ∷ (
        pos 1,
        record { prevotes = empty_votes prevote_type; precommits = empty_votes precommit_type },
      )
      ∷ [];
}

pol_info-Latest_example :
    (r : ℤ) × (b : BlockId) × (pol_info pol_rounds ≡ ok (r, b))
    × (((r ≡ negsuc 0) × ((k : ℕ) → k ≤ 1 → NoPol pol_rounds k))
        ⊎ ((k : ℕ) × (k ≤ 1)
            × (r ≡ pos k)
            × HasPol pol_rounds k b
            × ((m : ℕ) → k < m → m ≤ 1 → NoPol pol_rounds m)))
pol_info-Latest_example = pol_info-Latest pol_rounds 1 refl

set_round-IsKnown_example :
    (hvs' : HeightVoteSet) × (set_round 5 one_round (pos 2) ≡ ok (some hvs'))
    × IsKept toy_crypto hvs'
    × (hvs'.round ≡ pos 2)
    × ((j : ℕ) → 0 ≤ j → j ≤ 2 → IsKnown hvs' (pos j))
set_round-IsKnown_example =
    set_round-IsKnown toy_crypto 5 one_round 0 2 one_round-IsKept refl (omega arith) (omega arith)
      (omega arith)

set_round-max_example : set_round 9 one_round max_int32 ≡ ok none
set_round-max_example = set_round-max toy_crypto 9 one_round 0 one_round-IsKept refl (omega arith)
