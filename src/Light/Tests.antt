-- ===== src/Light/Tests.antt =====
-- The theorem about the light client at concrete headers of the heights 1 and 2, with one voter.
use ostracon.Prelude.{ℕ, ◌≡◌, refl, true, List, [], ◌∷◌, Option, none, some, Bytes, replicate}
use ostracon.Prelude.Int.{pos, ◌+ℤ◌}
use ostracon.Prelude.Run.{ok}
use ostracon.Merkle.Tree.{hash_from_byte_slices}
use ostracon.Types.BlockId.{block_id_invalid, is_zero, equals, zero_block_id}
use ostracon.Types.Canonical.{canonicalize_vote}
use ostracon.Types.Commit.{Commit, flag_commit, sig_block_id, commit_validate_basic}
use ostracon.Types.Header.{
  Header, SignedHeader, header_validate_basic, header_hash, signed_header_validate_basic,
}
use ostracon.Votes.Voters.{Voter, VoterSet, size, get_by_address, get_total_voting_weight}
use ostracon.Commits.Sums.{add_int64, gt_int64}
use ostracon.Commits.Slot.{bls_key, commit_sign_bytes, verify_or_collect}
use ostracon.Commits.Verify.{check_commit, light_slots, count_slot, finish, verify_commit_light}
use ostracon.Light.Verifier.{
  Calls, header_expired, validators_hash_of, voters_hash_of, verify_new_header, new_voters_signed,
  verify_adjacent, verify_header,
}
use ostracon.Light.Accepted.{Verified, verify_header-Verified}

abbrev digest : Bytes
digest = replicate 32 7

abbrev toy_calls : Calls
toy_calls = record {
  sum = λ b. digest;
  encodings = record {
    version = λ b a. b ∷ a ∷ [];
    time = λ t. [];
    block_id = λ b. b.hash;
    string = λ s. s;
    bytes = λ s. s;
    int64 = λ n. [];
    int32 = λ n. [];
  };
  marshal_validator = λ k p. p ∷ k;
  crypto = record {
    marshal_header = λ h. h.total ∷ h.hash;
    marshal_vote = λ v. some (v.type ∷ v.chain_id);
    address_of = λ k. k;
    verify_signature = λ k m s. true;
  };
  bls = record {
    decode_key = λ k. bls_key k;
    hash = λ m. m;
    is_signature = λ s. true;
    is_key = λ k. true;
    verify_hashes = λ s ks hs. true;
  };
  proof_size = 81;
  max_signature = 96;
}

abbrev address : Bytes
address = replicate 20 1

abbrev one_voter : List Voter
one_voter =
    record { address = address; pub_key = 5 ∷ []; voting_power = 10; voting_weight = 10 } ∷ []

abbrev one_voter_set : VoterSet
one_voter_set = record { voters = one_voter; total_voting_weight = 10 }

abbrev header_at : ℕ → ℕ → Header
header_at height time = record {
  version_block = 11;
  version_app = 0;
  chain_id = 9 ∷ [];
  height = pos height;
  time = pos time;
  last_block_id = zero_block_id;
  last_commit_hash = digest;
  data_hash = digest;
  voters_hash = digest;
  validators_hash = digest;
  next_validators_hash = digest;
  consensus_hash = digest;
  app_hash = [];
  last_results_hash = [];
  evidence_hash = [];
  proposer_address = address;
  round = pos 0;
  proof = [];
}

abbrev commit_at : ℕ → Commit
commit_at height = record {
  height = pos height;
  round = pos 0;
  block_id = record { hash = digest; parts = record { total = 1; hash = digest } };
  signatures =
      record {
        block_id_flag = flag_commit;
        validator_address = address;
        timestamp = pos 4;
        signature = some (6 ∷ []);
      }
      ∷ [];
  aggregated_signature = none;
}

abbrev signed_at : ℕ → ℕ → SignedHeader
signed_at height time = record { head = header_at height time; commit = some (commit_at height) }

accepts :
    verify_header toy_calls
      (signed_at 1 100)
      one_voter_set
      (signed_at 2 110)
      one_voter
      one_voter_set
      (pos 1000)
      (pos 120)
      (pos 10)
      1
      3
    ≡ ok none
unfolding verify_header verify_adjacent header_expired verify_new_header new_voters_signed
    signed_header_validate_basic header_validate_basic header_hash validators_hash_of voters_hash_of
    hash_from_byte_slices commit_validate_basic verify_commit_light check_commit size light_slots
    count_slot commit_sign_bytes verify_or_collect canonicalize_vote sig_block_id block_id_invalid
    is_zero equals get_by_address get_total_voting_weight ostracon.Prelude.Slices.bytes_eq add_int64
    gt_int64 finish ◌+ℤ◌ ostracon.Merkle.Tree.inner_hash ostracon.Merkle.Tree.leaf_hash
accepts = refl

verify_header-Verified_example :
    Verified toy_calls
      (signed_at 1 100)
      one_voter_set
      (signed_at 2 110)
      one_voter
      one_voter_set
      (pos 1000)
      (pos 120)
      (pos 10)
      1
      3
verify_header-Verified_example =
    verify_header-Verified toy_calls (signed_at 1 100) one_voter_set (signed_at 2 110) one_voter
      one_voter_set (pos 1000) (pos 120) (pos 10) 1 3 accepts
