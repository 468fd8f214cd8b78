-- ===== src/Commits/Repeated.antt =====
-- A commit for VerifyCommitLight that holds one signature in all of its slots.
use ostracon.Prelude.{
  ℕ, zero, suc, ◌+◌, ◌*◌, ◌/◌, ◌≤◌, ◌<◌, ◌≡◌, refl, sym, ap, ◌∙◌, Bool, true, false, inl, inr,
  Option, none, some, arith, Bytes, length, get_elem?, replicate, length-replicate, ltb, Bool-cases,
}
use ostracon.Prelude.Int.{ℤ, pos}
use ostracon.Prelude.Run.{Run, ok, panic, ◌>>=◌, or_panic}
use ostracon.Types.BlockId.{BlockId}
use ostracon.Types.Vote.{Vote, precommit_type}
use ostracon.Types.Canonical.{canonicalize_vote}
use ostracon.Types.Commit.{CommitSig, Commit, for_block, sig_block_id}
use ostracon.Votes.Voters.{
  Voter, VoterSet, max_total_voting_weight, get_by_address, get_total_voting_weight,
}
use ostracon.Votes.VoteSet.{Crypto}
use ostracon.Commits.Sums.{two_63}
use ostracon.Commits.Slot.{Bls, CommitError, vote_of_slot, commit_get_vote, commit_sign_bytes}
use ostracon.Commits.Verify.{
  Counts, nothing_counted, Outcome, enough, count_slot, light_slots, finish, verify_commit_light,
}
use ostracon.Commits.Accepted.{check_commit_iff}
use ostracon.Commits.Stopping.{count_slot-own}

get_elem?-replicate {ℓ} :
    {A : Type ℓ} (n : ℕ) (a : A) (i : ℕ) → i < n → get_elem? (replicate n a) i ≡ some a
get_elem?-replicate zero a i h = elim h [ ]
get_elem?-replicate (suc n) a zero h = refl
get_elem?-replicate (suc n) a (suc i) h = get_elem?-replicate n a i (omega arith)

module _ (c : Crypto) (bls : Bls) (chain : Bytes) (commit : Commit) where
  -- What is signed in a slot for the block: the index of the slot is not.
  abbrev block_sign_bytes : CommitSig → Run Bytes
  block_sign_bytes cs =
      canonicalize_vote chain (record {
        type = precommit_type;
        height = commit.height;
        round = commit.round;
        block_id = commit.block_id;
        timestamp = cs.timestamp;
        validator_address = cs.validator_address;
        validator_index = pos 0;
        signature = cs.signature;
      })
      >>= λ cv. or_panic (c.marshal_vote cv)

  block_sign_bytes_lem :
      (i : ℕ) (cs : CommitSig)
      → for_block cs ≡ true
      → get_elem? commit.signatures i ≡ some cs
      → commit_sign_bytes c chain commit i ≡ block_sign_bytes cs
  unfolding commit_sign_bytes commit_get_vote vote_of_slot canonicalize_vote sig_block_id
  block_sign_bytes_lem i cs signed at =
      let id : sig_block_id cs commit.block_id ≡ ok commit.block_id = ground arith in
      ap (λ o. after_slot o >>= after_vote) at ∙ ap (λ r. (r >>= with_id) >>= after_vote) id
    where
      with_id : BlockId → Run Vote
      with_id b = ok (record {
        type = precommit_type;
        height = commit.height;
        round = commit.round;
        block_id = b;
        timestamp = cs.timestamp;
        validator_address = cs.validator_address;
        validator_index = pos i;
        signature = cs.signature;
      })

      after_vote : Vote → Run Bytes
      after_vote v = canonicalize_vote chain v >>= λ cv. or_panic (c.marshal_vote cv)

      after_slot : Option CommitSig → Run Vote
      after_slot none = panic
      after_slot (some cs') = vote_of_slot commit i cs'

  module _ (vs : VoterSet) (needed : ℕ) (v : Voter) (cs : CommitSig) (bytes sig : Bytes) where
    light_slots-replicate :
        {k : ℕ} (m i : ℕ) (n : Counts)
        → for_block cs ≡ true
        → get_by_address vs cs.validator_address ≡ some (k, v)
        → cs.signature ≡ some sig
        → c.verify_signature v.pub_key bytes sig ≡ true
        → ((j : ℕ) → j < i + m → commit_sign_bytes c chain commit j ≡ ok bytes)
        → needed + v.voting_weight < two_63
        → n.tallied ≤ needed
        → n.unverified ≡ 0
        → needed < n.tallied + m * v.voting_weight
        → light_slots c bls chain commit vs needed i (replicate m cs) n ≡ ok enough
    unfolding light_slots
    light_slots-replicate zero i n signed at here good said fits low none_left more =
        absurd (omega (arith, low, more))
    light_slots-replicate (suc m) i n signed at here good said fits low none_left more =
        let first = said i (omega arith) in
        ap after_test signed
        ∙ (ap after_voter at
            ∙ (count_slot-own c bls chain commit needed v i cs n next bytes sig first here good
                  (omega (arith, low, fits)) (omega (arith, none_left)) (omega (arith, fits))
                ∙ elim (Bool-cases (ltb needed (n.tallied + v.voting_weight))) [
                  | inl done ↦ ap stop done
                  | inr less ↦
                      ap stop less
                      ∙ light_slots-replicate m (i + 1)
                          (record n { tallied = n.tallied + v.voting_weight }) signed at here good
                          (λ j lt. said j (omega (arith, lt))) fits (ground arith) none_left
                          (omega (arith, more))
                ]))
      where
        next : Counts → Run Outcome
        next n' = light_slots c bls chain commit vs needed (i + 1) (replicate m cs) n'

        after_voter : Option (ℕ × Voter) → Run Outcome
        after_voter none = next n
        after_voter (some (k, w)) = count_slot c bls chain commit needed i cs w n next

        after_test : Bool → Run Outcome
        after_test false = next n
        after_test true = after_voter (get_by_address vs cs.validator_address)

        stop : Bool → Run Outcome
        stop true = ok enough
        stop false = next (record n { tallied = n.tallied + v.voting_weight })

module _ (c : Crypto) (bls : Bls) where
  -- VerifyCommitLight counts one signature as often as it stands in the commit: it accepts a commit
  -- for the height and block asked for whose slots all hold the same valid signature of one voter,
  -- where the number of voters times the weight of that voter is more than two thirds of the total
  -- weight. The total is positive and at most MaxTotalVotingWeight, and no less than the weight of
  -- the voter.
  pub verify_commit_light-repeats :
      (vs : VoterSet) (chain : Bytes) (b : BlockId) (height : ℤ) (commit : Commit) (cs : CommitSig)
      (k : ℕ) (v : Voter) (bytes sig : Bytes)
      → commit.signatures ≡ replicate (length vs.voters) cs
      → height ≡ commit.height
      → b ≡ commit.block_id
      → for_block cs ≡ true
      → get_by_address vs cs.validator_address ≡ some (k, v)
      → cs.signature ≡ some sig
      → commit_sign_bytes c chain commit 0 ≡ ok bytes
      → c.verify_signature v.pub_key bytes sig ≡ true
      → 0 < length vs.voters
      → 0 < vs.total_voting_weight
      → vs.total_voting_weight ≤ max_total_voting_weight
      → v.voting_weight ≤ vs.total_voting_weight
      → vs.total_voting_weight * 2 / 3 < length vs.voters * v.voting_weight
      → verify_commit_light c bls vs chain b height commit ≡ ok (vs, none)
  unfolding verify_commit_light get_total_voting_weight finish
  verify_commit_light-repeats vs chain b height commit cs k v bytes sig all height_same block_same
        signed at here said good some_voter positive fits part more =
      let count = length-replicate (length vs.voters) cs in
      let checks =
        (check_commit_iff vs b height commit).1
          (sym (ap length all ∙ count), height_same, block_same) in
      let total : get_total_voting_weight vs ≡ ok (vs, vs.total_voting_weight) = ground arith in
      let slot : (j : ℕ) → j < length vs.voters → get_elem? commit.signatures j ≡ some cs =
        λ j lt. ap (λ t. get_elem? t j) all ∙ get_elem?-replicate (length vs.voters) cs j lt in
      let loop : light_slots c bls chain commit vs (vs.total_voting_weight * 2 / 3) 0
            (replicate (length vs.voters) cs) nothing_counted
          ≡ ok enough =
        light_slots-replicate c bls chain commit vs (vs.total_voting_weight * 2 / 3) v cs bytes sig
          (length vs.voters) 0 nothing_counted signed at here good
          (λ j lt.
            block_sign_bytes_lem c bls chain commit j cs signed (slot j (omega (arith, lt)))
            ∙ (sym (block_sign_bytes_lem c bls chain commit 0 cs signed (slot 0 some_voter))
                ∙ said))
          (omega (arith, fits, part)) (omega arith) refl (omega (arith, more)) in
      ap after_checks checks
      ∙ (ap (λ r. r >>= after_total) total
          ∙ ap (λ r. r >>= after_loop)
              (ap
                  (λ sigs.
                    light_slots c bls chain commit vs (vs.total_voting_weight * 2 / 3) 0 sigs
                      nothing_counted)
                  all
                ∙ loop))
    where
      after_loop : Outcome → Run (VoterSet × Option CommitError)
      after_loop end = ok (vs, finish c bls commit (vs.total_voting_weight * 2 / 3) end)

      after_total : VoterSet × ℕ → Run (VoterSet × Option CommitError)
      after_total (vs', total) =
          light_slots c bls chain commit vs' (total * 2 / 3) 0 commit.signatures nothing_counted
          >>= λ end. ok (vs', finish c bls commit (total * 2 / 3) end)

      after_checks : Option CommitError → Run (VoterSet × Option CommitError)
      after_checks (some e) = ok (vs, some e)
      after_checks none = get_total_voting_weight vs >>= after_total
