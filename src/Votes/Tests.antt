-- ===== src/Votes/Tests.antt =====
-- The theorems about voters and vote sets at concrete inputs: two voters, and a vote of the second.
use ostracon.Prelude.{
  ◌<◌, ◌*◌, bytes_eq_refl, ◌≡◌, refl, sym, ◌∙◌, subst, true, false, List, [], ◌∷◌, none, some,
  arith, ltb, if◌then◌else◌,
}
use ostracon.Prelude.Int.{pos}
use ostracon.Prelude.Run.{ok, panic}
use ostracon.Bits.Array.{new_bit_array}
use ostracon.Types.BlockId.{zero_block_id, key}
use ostracon.Types.Vote.{Vote, prevote_type}
use ostracon.Votes.Voters.{
  Voter, VoterSet, size, get_total_voting_weight, wrap_sorted, max_total_voting_weight,
}
use ostracon.Votes.Total.{weights, wrap_sorted-total}
use ostracon.Votes.VoteSet.{Crypto, BlockVotes, VoteSet, new_vote_set, lookup}
use ostracon.Votes.Tally.{weigh}
use ostracon.Votes.Quorum.{in_both, two_majorities}
use ostracon.Bits.Sized.{BitsFor-new_bit_array}
use ostracon.Votes.AddVote.{set_peer_maj23}
use ostracon.Votes.Invariant.{IsConsistent}
use ostracon.Votes.Counting.{Counted}
use ostracon.Votes.Peers.{new_vote_set-IsConsistent, set_peer_maj23-Counted}

abbrev toy_crypto : Crypto
toy_crypto = record {
  marshal_header = λ h. h.total ∷ h.hash;
  marshal_vote = λ v. some (v.type ∷ v.chain_id);
  address_of = λ k. k;
  verify_signature = λ k m s. true;
}

abbrev two_voters : List Voter
two_voters =
    record { address = 1 ∷ []; pub_key = 1 ∷ []; voting_power = 10; voting_weight = 10 }
    ∷ record { address = 2 ∷ []; pub_key = 2 ∷ []; voting_power = 30; voting_weight = 30 }
    ∷ []

abbrev two_voter_set : VoterSet
two_voter_set = record { voters = two_voters; total_voting_weight = 40 }

wrapped : wrap_sorted two_voters ≡ ok two_voter_set
wrapped = wrap_sorted-total two_voters

abbrev start_set : VoteSet
start_set = record {
  chain_id = 9 ∷ [];
  height = pos 5;
  round = pos 0;
  signed_msg_type = prevote_type;
  voter_set = two_voter_set;
  votes_bit_array = new_bit_array 2;
  votes = none ∷ none ∷ [];
  sum = 0;
  maj23 = none;
  votes_by_block = [];
  peer_maj23s = [];
}

started : new_vote_set (9 ∷ []) (pos 5) (pos 0) prevote_type two_voter_set ≡ ok start_set
unfolding new_vote_set size
started = refl

start_set-IsConsistent : IsConsistent toy_crypto start_set
start_set-IsConsistent =
    let (s, made, h) =
      new_vote_set-IsConsistent toy_crypto two_voters two_voter_set (9 ∷ []) (pos 5) (pos 0)
        prevote_type (omega arith) wrapped refl in
    let both : ok s ≡ ok start_set = sym made ∙ started in
    let same : s ≡ start_set = ground arith in subst (IsConsistent toy_crypto) same h

abbrev second_vote : Vote
second_vote = record {
  type = prevote_type;
  height = pos 5;
  round = pos 0;
  block_id = zero_block_id;
  timestamp = pos 3;
  validator_address = 2 ∷ [];
  validator_index = pos 1;
  signature = some (4 ∷ []);
}

wrap_sorted-total_example : wrap_sorted two_voters ≡ (
    if ltb max_total_voting_weight (weights two_voters)
    then panic
    else ok (record { voters = two_voters; total_voting_weight = weights two_voters }))
wrap_sorted-total_example = wrap_sorted-total two_voters

new_vote_set-IsConsistent_example :
    (s : VoteSet) × (new_vote_set (9 ∷ []) (pos 5) (pos 0) prevote_type two_voter_set ≡ ok s)
    × IsConsistent toy_crypto s
new_vote_set-IsConsistent_example =
    new_vote_set-IsConsistent toy_crypto two_voters two_voter_set (9 ∷ []) (pos 5) (pos 0)
      prevote_type (omega arith) wrapped refl

set_peer_maj23-Counted_example :
    Counted toy_crypto start_set (set_peer_maj23 toy_crypto start_set (6 ∷ []) zero_block_id).0
set_peer_maj23-Counted_example =
    set_peer_maj23-Counted toy_crypto start_set (6 ∷ []) zero_block_id start_set-IsConsistent

-- A vote set with the second vote, whose weight of 30 of 40 is a majority.
abbrev second_block : BlockVotes
second_block = record {
  peer_maj23 = false;
  bit_array = new_bit_array 2;
  votes = none ∷ some second_vote ∷ [];
  sum = 30;
}

abbrev majority_set : VoteSet
majority_set = record start_set {
  votes = none ∷ some second_vote ∷ [];
  sum = 30;
  maj23 = some zero_block_id;
  votes_by_block = (key toy_crypto.marshal_header zero_block_id, second_block) ∷ [];
}

majority_found :
    lookup (key toy_crypto.marshal_header zero_block_id) majority_set.votes_by_block
    ≡ some second_block
unfolding lookup
majority_found = rw (bytes_eq_refl (key toy_crypto.marshal_header zero_block_id)) refl

majority_set-IsConsistent : IsConsistent toy_crypto majority_set
unfolding get_total_voting_weight
majority_set-IsConsistent = record {
  some_voters = omega arith;
  total = refl;
  sized = refl;
  bits = BitsFor-new_bit_array 2 (omega arith);
  counted = refl;
  blocks =
      (record { bits = BitsFor-new_bit_array 2 (omega arith); covered = tt; counted = refl }, tt);
  majority = λ b m.
      let same : zero_block_id ≡ b = ground arith in
      (
        second_block,
        subst
            (λ t.
              lookup (key toy_crypto.marshal_header t) majority_set.votes_by_block
              ≡ some second_block)
            same majority_found,
        omega arith,
      );
}

two_majorities_example :
    (bv : BlockVotes) × (bv' : BlockVotes) × (lookup
        (key toy_crypto.marshal_header zero_block_id)
        majority_set.votes_by_block
      ≡ some bv)
    × (lookup (key toy_crypto.marshal_header zero_block_id) majority_set.votes_by_block ≡ some bv')
    × (weights two_voters < 3 * weigh two_voters (in_both bv.votes bv'.votes))
two_majorities_example =
    two_majorities toy_crypto majority_set majority_set zero_block_id zero_block_id
      majority_set-IsConsistent majority_set-IsConsistent refl refl refl
