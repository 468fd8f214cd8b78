-- ===== src/Commits/Slot.antt =====
-- What is signed in a slot of a commit (GetVote and VoteSignBytes of types/block.go), the test of one
-- slot (types/voter_set.go), and the test of the aggregate (crypto/bls/bls.go).
use ostracon.Prelude.{
  ℕ, Bool, true, false, not, ◌⊎◌, inl, inr, List, [], ◌∷◌, ◌++◌, map, Option, none, some, Bytes,
  length, get_elem?, ◌==◌, if◌then◌else◌,
}
use ostracon.Prelude.Int.{pos}
use ostracon.Prelude.Run.{Run, ok, panic, ◌>>=◌, or_panic}
use ostracon.Types.Vote.{Vote, precommit_type}
use ostracon.Types.Canonical.{canonicalize_vote}
use ostracon.Types.Commit.{CommitSig, Commit, sig_block_id}
use ostracon.Votes.Voters.{Voter}
use ostracon.Votes.VoteSet.{Crypto}

-- The public keys: composite ones have a key for signatures and one for VRF proofs.
pub data PubKey : Type 0 where
  composite_key : PubKey → PubKey → PubKey
  bls_key : Bytes → PubKey
  other_key : PubKey

-- GetSignatureKey
unfoldable pub get_signature_key : PubKey → Option Bytes
get_signature_key (composite_key sign vrf) = get_signature_key sign
get_signature_key (bls_key k) = some k
get_signature_key other_key = none

-- What the tests call: the public key that bytes encode, SHA-512/256, and the BLS library, which
-- reads a signature and a key, and tests an aggregate on keys and hashes.
pub record Bls : Type 0 where
  pub decode_key : Bytes → PubKey
  pub hash : Bytes → Bytes
  pub is_signature : Bytes → Bool
  pub is_key : Bytes → Bool
  pub verify_hashes : Bytes → List Bytes → List Bytes → Bool

pub data AggregateError : Type 0 where
  different_lengths aggregate_missing not_a_signature not_a_key hashes_refused : AggregateError

pub data CommitError : Type 0 where
  wrong_size wrong_height wrong_commit_block : CommitError
  wrong_signature omitted_signature : ℕ → CommitError
  wrong_aggregate : AggregateError → CommitError
  not_enough : ℕ → ℕ → CommitError
  zero_denominator weight_overflow : CommitError
  double_vote : ℕ → ℕ → CommitError

-- The vote that a slot with an index stands for.
unfoldable pub vote_of_slot : Commit → ℕ → CommitSig → Run Vote
vote_of_slot c i cs = sig_block_id cs c.block_id >>= λ b. ok (record {
  type = precommit_type;
  height = c.height;
  round = c.round;
  block_id = b;
  timestamp = cs.timestamp;
  validator_address = cs.validator_address;
  validator_index = pos i;
  signature = cs.signature;
})

-- Commit.GetVote, at an index that is not negative.
unfoldable pub commit_get_vote : Commit → ℕ → Run Vote
unfolding vote_of_slot
commit_get_vote c i = elim (get_elem? c.signatures i) [
  | none ↦ panic
  | some cs ↦ vote_of_slot c i cs
]

unfoldable all_keys : (Bytes → Bool) → List Bytes → Bool
all_keys is_key [] = true
all_keys is_key (k ∷ keys) = let rest = all_keys is_key keys in if is_key k then rest else false

-- VerifyAggregatedSignature
unfoldable pub verify_aggregated_signature :
    Bls → Option Bytes → List Bytes → List Bytes → Option AggregateError
unfolding all_keys
verify_aggregated_signature bls sig keys messages =
    if not (length keys == length messages) then some different_lengths else elim sig [
      | none ↦ if length keys == 0 then none else some aggregate_missing
      | some a ↦
          if not (bls.is_signature a)
          then some not_a_signature
          else if not (all_keys bls.is_key keys)
          then some not_a_key
          else if not (bls.verify_hashes a keys (map bls.hash messages))
          then some hashes_refused
          else none
    ]

module _ (c : Crypto) where
  -- Commit.VoteSignBytes
  unfoldable pub commit_sign_bytes : Bytes → Commit → ℕ → Run Bytes
  unfolding commit_get_vote
  commit_sign_bytes chain commit i = commit_get_vote commit i >>= λ v.
      canonicalize_vote chain v >>= λ cv. or_panic (c.marshal_vote cv)

module _ (c : Crypto) (bls : Bls) where
  -- verifySignatureOrCollectBlsPubKeysAndGetVotingWeight: the weight that is verified, the weight
  -- that is not, and the keys and messages; or an error.
  unfoldable pub verify_or_collect :
      ℕ
      → CommitSig
      → Voter
      → Bytes
      → List Bytes
      → List Bytes
      → CommitError ⊎ (ℕ × ℕ × List Bytes × List Bytes)
  verify_or_collect i cs v bytes keys messages = elim cs.signature [
    | some sig ↦
        if c.verify_signature v.pub_key bytes sig
        then inr (v.voting_weight, 0, keys, messages)
        else inl (wrong_signature i)
    | none ↦ elim (get_signature_key (bls.decode_key v.pub_key)) [
      | none ↦ inl (omitted_signature i)
      | some k ↦ inr (0, v.voting_weight, keys ++ (k ∷ []), messages ++ (bytes ∷ []))
    ]
  ]
