-- ===== src/Types/Tests.antt =====
-- The theorem about commit signatures at a concrete input: a vote for nil.
use ostracon.Prelude.{◌≡◌, refl, false, [], ◌∷◌, some, if◌then◌else◌}
use ostracon.Prelude.Int.{pos}
use ostracon.Prelude.Run.{ok}
use ostracon.Types.BlockId.{BlockId, zero_block_id, is_complete, is_zero}
use ostracon.Types.Vote.{Vote, precommit_type}
use ostracon.Types.Commit.{
  CommitSig, flag_nil, is_absent, for_block, commit_sig, sig_block_id, commit_sig-block_id,
}

abbrev nil_vote : Vote
nil_vote = record {
  type = precommit_type;
  height = pos 7;
  round = pos 1;
  block_id = zero_block_id;
  timestamp = pos 6;
  validator_address = 5 ∷ [];
  validator_index = pos 0;
  signature = some (8 ∷ []);
}

abbrev nil_sig : CommitSig
nil_sig = record {
  block_id_flag = flag_nil;
  validator_address = 5 ∷ [];
  timestamp = pos 6;
  signature = some (8 ∷ []);
}

nil_vote-sig : commit_sig (some nil_vote) ≡ ok nil_sig
unfolding commit_sig is_complete is_zero
nil_vote-sig = refl

abbrev some_block : BlockId
some_block = record { hash = 4 ∷ []; parts = record { total = 2; hash = 3 ∷ [] } }

commit_sig-block_id_example :
    (is_absent nil_sig ≡ false)
    × (for_block nil_sig ≡ is_complete nil_vote.block_id)
    × (sig_block_id nil_sig some_block
        ≡ ok (if is_complete nil_vote.block_id then some_block else zero_block_id))
    × (sig_block_id nil_sig nil_vote.block_id ≡ ok nil_vote.block_id)
commit_sig-block_id_example = commit_sig-block_id nil_vote nil_sig some_block nil_vote-sig
