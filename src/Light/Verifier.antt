-- ===== src/Light/Verifier.antt =====
-- The functions of light/verifier.go, and the hashes of validators and voters that they call. Times
-- and durations are integers. The totals that the voter sets cache are left out of the results. A
-- validator is a Voter, whose weight its hash does not read.
use ostracon.Prelude.{
  ℕ, ◌*◌, ◌%◌, Bool, not, ◌||◌, List, [], map, Option, none, some, Bytes, bytes_eq, length, ltb,
  ◌==◌, if◌then◌else◌,
}
use ostracon.Prelude.Int.{ℤ, pos, ltb_ℤ, eqb_ℤ, ◌+ℤ◌}
use ostracon.Prelude.Run.{Run, ok, panic, ◌>>=◌}
use ostracon.Types.Header.{
  Header, SignedHeader, InvalidHeader, Encodings, header_validate_basic, header_hash,
  signed_header_validate_basic,
}
use ostracon.Merkle.Tree.{hash_from_byte_slices}
use ostracon.Votes.Voters.{Voter, VoterSet}
use ostracon.Votes.VoteSet.{Crypto}
use ostracon.Commits.Sums.{two_64}
use ostracon.Commits.Slot.{Bls, CommitError, not_enough}
use ostracon.Commits.Verify.{verify_commit_light, verify_commit_light_trusting}

pub data InvalidNewHeader : Type 0 where
  not_basic : InvalidHeader → InvalidNewHeader
  not_higher not_later from_the_future other_validators other_voters : InvalidNewHeader
  not_signed : CommitError → InvalidNewHeader
  wrong_chain not_earlier not_last_block : InvalidNewHeader

pub data LightError : Type 0 where
  must_be_non_adjacent must_be_adjacent old_header_expired : LightError
  invalid_new_header : InvalidNewHeader → LightError
  cannot_be_trusted commit_refused : CommitError → LightError
  next_validators_differ : LightError

-- What the light client calls: digests, encodings, keys and signatures, and the sizes of a VRF proof
-- and of a signature.
pub record Calls : Type 0 where
  pub sum : Bytes → Bytes
  pub encodings : Encodings
  pub marshal_validator : Bytes → ℕ → Bytes
  pub crypto : Crypto
  pub bls : Bls
  pub proof_size : ℕ
  pub max_signature : ℕ

unfoldable pub header_expired : SignedHeader → ℤ → ℤ → Bool
header_expired h trusting_period now = not (ltb_ℤ now (h.head.time +ℤ trusting_period))

-- ValidateTrustLevel: whether it returns no error. The product is one of uint64 values.
unfoldable pub trust_level_valid : ℕ → ℕ → Bool
trust_level_valid numerator denominator =
    not (
      ltb (numerator * 3 % two_64) denominator || (ltb denominator numerator || (denominator == 0)))

module _ (c : Calls) where
  -- Validator.Bytes
  unfoldable pub validator_bytes : Voter → Bytes
  validator_bytes v = c.marshal_validator v.pub_key v.voting_power

  -- ValidatorSet.Hash
  unfoldable pub validators_hash_of : List Voter → Bytes
  unfolding validator_bytes
  validators_hash_of vals = hash_from_byte_slices c.sum (map validator_bytes vals)

  -- VoterSet.Hash
  unfoldable pub voters_hash_of : VoterSet → Bytes
  unfolding validator_bytes
  voters_hash_of vs =
      if length vs.voters == 0
      then []
      else hash_from_byte_slices c.sum (map validator_bytes vs.voters)

  -- verifyNewHeaderAndValsAndVoters
  unfoldable pub verify_new_header :
      SignedHeader → List Voter → VoterSet → SignedHeader → ℤ → ℤ → Option InvalidNewHeader
  unfolding validators_hash_of voters_hash_of
  verify_new_header new vals voters trusted now drift =
      elim (signed_header_validate_basic c.sum c.encodings c.proof_size c.max_signature new
        trusted.head.chain_id) [
          | some x ↦ some (not_basic x)
          | none ↦
              if not (ltb_ℤ trusted.head.height new.head.height)
              then some not_higher
              else if not (ltb_ℤ trusted.head.time new.head.time)
              then some not_later
              else if not (ltb_ℤ new.head.time (now +ℤ drift))
              then some from_the_future
              else if not (bytes_eq new.head.validators_hash (validators_hash_of vals))
              then some other_validators
              else if not (bytes_eq new.head.voters_hash (voters_hash_of voters))
              then some other_voters
              else none
        ]

  -- The last test of both: that the new voters signed.
  unfoldable pub new_voters_signed :
      SignedHeader → SignedHeader → VoterSet → Run (Option LightError)
  new_voters_signed trusted new voters = elim new.commit [
    | none ↦ panic
    | some commit ↦
        verify_commit_light c.crypto c.bls voters trusted.head.chain_id commit.block_id
          new.head.height commit
        >>= λ (voters', e).
            ok (elim e [ none ↦ none | some x ↦ some (invalid_new_header (not_signed x)) ])
  ]

  unfoldable pub verify_adjacent :
      SignedHeader → SignedHeader → List Voter → VoterSet → ℤ → ℤ → ℤ → Run (Option LightError)
  unfolding header_expired verify_new_header new_voters_signed
  verify_adjacent trusted new vals voters trusting_period now drift =
      if not (eqb_ℤ new.head.height (trusted.head.height +ℤ pos 1))
      then ok (some must_be_adjacent)
      else if header_expired trusted trusting_period now
      then ok (some old_header_expired)
      else elim (verify_new_header new vals voters trusted now drift) [
        | some x ↦ ok (some (invalid_new_header x))
        | none ↦
            if not (bytes_eq new.head.validators_hash trusted.head.next_validators_hash)
            then ok (some next_validators_differ)
            else new_voters_signed trusted new voters
      ]

  -- The test of VerifyNonAdjacent that enough of the trusted voters signed.
  unfoldable pub trusted_voters_signed :
      SignedHeader → VoterSet → SignedHeader → ℕ → ℕ → Run (Option LightError)
  trusted_voters_signed trusted voters new numerator denominator = elim new.commit [
    | none ↦ panic
    | some commit ↦
        verify_commit_light_trusting c.crypto c.bls voters trusted.head.chain_id commit numerator
          denominator
        >>= λ (voters', e). ok (elim e [
          | none ↦ none
          | some (not_enough got needed) ↦ some (cannot_be_trusted (not_enough got needed))
          | some x ↦ some (commit_refused x)
        ])
  ]

  unfoldable pub verify_non_adjacent :
      SignedHeader
      → VoterSet
      → SignedHeader
      → List Voter
      → VoterSet
      → ℤ
      → ℤ
      → ℤ
      → ℕ
      → ℕ
      → Run (Option LightError)
  unfolding header_expired verify_new_header trusted_voters_signed new_voters_signed
  verify_non_adjacent trusted trusted_voters new vals voters trusting_period now drift numerator
        denominator =
      if eqb_ℤ new.head.height (trusted.head.height +ℤ pos 1)
      then ok (some must_be_non_adjacent)
      else if header_expired trusted trusting_period now
      then ok (some old_header_expired)
      else elim (verify_new_header new vals voters trusted now drift) [
        | some x ↦ ok (some (invalid_new_header x))
        | none ↦ trusted_voters_signed trusted trusted_voters new numerator denominator >>= λ e.
            elim e [ some x ↦ ok (some x) | none ↦ new_voters_signed trusted new voters ]
      ]

  -- Verify
  unfoldable pub verify_header :
      SignedHeader
      → VoterSet
      → SignedHeader
      → List Voter
      → VoterSet
      → ℤ
      → ℤ
      → ℤ
      → ℕ
      → ℕ
      → Run (Option LightError)
  unfolding verify_adjacent verify_non_adjacent
  verify_header trusted trusted_voters new vals voters trusting_period now drift numerator
        denominator =
      if not (eqb_ℤ new.head.height (trusted.head.height +ℤ pos 1))
      then verify_non_adjacent trusted trusted_voters new vals voters trusting_period now drift
          numerator denominator
      else verify_adjacent trusted new vals voters trusting_period now drift

  unfoldable pub verify_backwards : Header → Header → Option InvalidNewHeader
  verify_backwards new trusted = elim (header_validate_basic c.proof_size new) [
    | some x ↦ some (not_basic x)
    | none ↦
        if not (bytes_eq new.chain_id trusted.chain_id)
        then some wrong_chain
        else if not (ltb_ℤ new.time trusted.time)
        then some not_earlier
        else if not (bytes_eq (header_hash c.sum c.encodings new) trusted.last_block_id.hash)
        then some not_last_block
        else none
  ]
