-- ===== src/Commits/Verify.antt =====
-- VerifyCommit, VerifyCommitLight and VerifyCommitLightTrusting of types/voter_set.go, of a voter set
-- and a commit that are not nil. They return the voter set, which caches its total weight, and the
-- error. The sums are those of int64. The total weight is at most MaxTotalVotingWeight, so twice it
-- does not wrap; a numerator and a denominator are uint64 values, whose bits are read as int64.
use ostracon.Prelude.{
  ℕ, ◌+◌, ◌*◌, ◌/◌, true, false, not, ◌⊎◌, inl, inr, List, [], ◌∷◌, Option, none, some, Bytes,
  length, get_elem?, ◌==◌, if◌then◌else◌,
}
use ostracon.Prelude.Int.{ℤ, eqb_ℤ}
use ostracon.Prelude.Run.{Run, ok, panic, ◌>>=◌}
use ostracon.Types.BlockId.{BlockId, equals}
use ostracon.Types.Commit.{CommitSig, Commit, for_block, is_absent}
use ostracon.Votes.Voters.{Voter, VoterSet, size, get_by_address, get_total_voting_weight}
use ostracon.Votes.VoteSet.{Crypto}
use ostracon.Commits.Sums.{add_int64, gt_int64, quot_int64, safe_mul}
use ostracon.Commits.Slot.{
  Bls, CommitError, wrong_size, wrong_height, wrong_commit_block, wrong_aggregate, not_enough,
  zero_denominator, weight_overflow, double_vote, verify_aggregated_signature, commit_sign_bytes,
  verify_or_collect,
}

-- What a loop over the slots has counted: the weight that is verified and the weight that is not,
-- the keys and the messages of the signatures that were left out.
pub record Counts : Type 0 where
  pub tallied : ℕ
  pub unverified : ℕ
  pub keys : List Bytes
  pub messages : List Bytes

-- How a loop ends: with an error, with enough weight, or at the end of the slots.
pub data Outcome : Type 0 where
  failed : CommitError → Outcome
  enough : Outcome
  counted : Counts → Outcome

abbrev pub nothing_counted : Counts
nothing_counted = record { tallied = 0; unverified = 0; keys = []; messages = [] }

-- The tests before the loop of VerifyCommit and VerifyCommitLight.
unfoldable pub check_commit : VoterSet → BlockId → ℤ → Commit → Option CommitError
check_commit vs b height commit =
    if not (size vs == length commit.signatures)
    then some wrong_size
    else if not (eqb_ℤ height commit.height)
    then some wrong_height
    else if not (equals b commit.block_id)
    then some wrong_commit_block
    else none

-- seenVoters, with the index of the slot that was seen.
unfoldable pub seen_at : ℕ → List (ℕ × ℕ) → Option ℕ
seen_at i [] = none
seen_at i ((j, k) ∷ seen) = let rest = seen_at i seen in if i == j then some k else rest

module _ (c : Crypto) (bls : Bls) where
  -- A slot of the loop of VerifyCommit that is not absent, and the loop's rest. Both weights are
  -- counted in one.
  unfoldable pub verify_slot :
      Bytes
      → Commit
      → VoterSet
      → ℕ
      → CommitSig
      → Counts
      → (Counts → Run (CommitError ⊎ Counts))
      → Run (CommitError ⊎ Counts)
  verify_slot chain commit vs i cs n next = elim (get_elem? vs.voters i) [
    | none ↦ panic
    | some v ↦ commit_sign_bytes c chain commit i >>= λ bytes.
        elim (verify_or_collect c bls i cs v bytes n.keys n.messages) [
          | inl e ↦ ok (inl e)
          | inr (w, u, keys, messages) ↦ next (record {
            tallied = if for_block cs then add_int64 n.tallied (add_int64 w u) else n.tallied;
            unverified = 0;
            keys = keys;
            messages = messages;
          })
        ]
  ]

  -- The loop of VerifyCommit.
  unfoldable pub verify_slots :
      Bytes → Commit → VoterSet → ℕ → List CommitSig → Counts → Run (CommitError ⊎ Counts)
  unfolding verify_slot
  verify_slots chain commit vs i [] n = ok (inr n)
  verify_slots chain commit vs i (cs ∷ sigs) n = elim (is_absent cs) [
    | true ↦ verify_slots chain commit vs (i + 1) sigs n
    | false ↦
        verify_slot chain commit vs i cs n (λ n'. verify_slots chain commit vs (i + 1) sigs n')
  ]

  -- The last test: whether the weight is enough.
  unfoldable pub enough_weight : ℕ → ℕ → Option CommitError
  enough_weight got needed = if gt_int64 got needed then none else some (not_enough got needed)

  -- What follows the loops: the test of the aggregate, and of the weight with what it verifies.
  unfoldable pub conclude : Commit → ℕ → Counts → Option CommitError
  unfolding enough_weight
  conclude commit needed n =
      elim (verify_aggregated_signature bls commit.aggregated_signature n.keys n.messages) [
        | some e ↦ some (wrong_aggregate e)
        | none ↦ enough_weight (add_int64 n.tallied n.unverified) needed
      ]

  unfoldable pub verify_commit :
      VoterSet → Bytes → BlockId → ℤ → Commit → Run (VoterSet × Option CommitError)
  unfolding check_commit verify_slots conclude
  verify_commit vs chain b height commit = elim (check_commit vs b height commit) [
    | some e ↦ ok (vs, some e)
    | none ↦ get_total_voting_weight vs >>= λ (vs', total).
        verify_slots chain commit vs' 0 commit.signatures nothing_counted >>= λ end. elim end [
          | inl e ↦ ok (vs', some e)
          | inr n ↦ ok (vs', conclude commit (total * 2 / 3) n)
        ]
  ]

  -- One signature of a loop that stops when the weight is enough, and the loop's rest.
  unfoldable pub count_slot :
      Bytes → Commit → ℕ → ℕ → CommitSig → Voter → Counts → (Counts → Run Outcome) → Run Outcome
  count_slot chain commit needed i cs v n next = commit_sign_bytes c chain commit i >>= λ bytes.
      elim (verify_or_collect c bls i cs v bytes n.keys n.messages) [
        | inl e ↦ ok (failed e)
        | inr (w, u, keys, messages) ↦
            let n' : Counts = record {
              tallied = add_int64 n.tallied w;
              unverified = add_int64 n.unverified u;
              keys = keys;
              messages = messages;
            } in
            elim (gt_int64 n'.tallied needed) [ true ↦ ok enough | false ↦ next n' ]
      ]

  -- The loop of VerifyCommitLight.
  unfoldable pub light_slots :
      Bytes → Commit → VoterSet → ℕ → ℕ → List CommitSig → Counts → Run Outcome
  unfolding count_slot
  light_slots chain commit vs needed i [] n = ok (counted n)
  light_slots chain commit vs needed i (cs ∷ sigs) n = elim (for_block cs) [
    | false ↦ light_slots chain commit vs needed (i + 1) sigs n
    | true ↦ elim (get_by_address vs cs.validator_address) [
      | none ↦ light_slots chain commit vs needed (i + 1) sigs n
      | some (j, v) ↦
          count_slot chain commit needed i cs v n
            (λ n'. light_slots chain commit vs needed (i + 1) sigs n')
    ]
  ]

  -- The loop of VerifyCommitLightTrusting.
  unfoldable pub trusting_slots :
      Bytes → Commit → VoterSet → ℕ → ℕ → List CommitSig → List (ℕ × ℕ) → Counts → Run Outcome
  unfolding count_slot seen_at
  trusting_slots chain commit vs needed i [] seen n = ok (counted n)
  trusting_slots chain commit vs needed i (cs ∷ sigs) seen n = elim (for_block cs) [
    | false ↦ trusting_slots chain commit vs needed (i + 1) sigs seen n
    | true ↦ elim (get_by_address vs cs.validator_address) [
      | none ↦ trusting_slots chain commit vs needed (i + 1) sigs seen n
      | some (j, v) ↦ elim (seen_at j seen) [
        | some first ↦ ok (failed (double_vote first i))
        | none ↦
            count_slot chain commit needed i cs v n
              (λ n'. trusting_slots chain commit vs needed (i + 1) sigs ((j, i) ∷ seen) n')
      ]
    ]
  ]

  -- What follows the loops that stop early.
  unfoldable pub finish : Commit → ℕ → Outcome → Option CommitError
  unfolding conclude
  finish commit needed (failed e) = some e
  finish commit needed enough = none
  finish commit needed (counted n) = conclude commit needed n

  unfoldable pub verify_commit_light :
      VoterSet → Bytes → BlockId → ℤ → Commit → Run (VoterSet × Option CommitError)
  unfolding check_commit light_slots finish
  verify_commit_light vs chain b height commit = elim (check_commit vs b height commit) [
    | some e ↦ ok (vs, some e)
    | none ↦ get_total_voting_weight vs >>= λ (vs', total).
        light_slots chain commit vs' (total * 2 / 3) 0 commit.signatures nothing_counted >>= λ end.
        ok (vs', finish commit (total * 2 / 3) end)
  ]

  unfoldable pub verify_commit_light_trusting :
      VoterSet → Bytes → Commit → ℕ → ℕ → Run (VoterSet × Option CommitError)
  unfolding trusting_slots finish
  verify_commit_light_trusting vs chain commit numerator denominator =
      if denominator == 0
      then ok (vs, some zero_denominator)
      else (get_total_voting_weight vs >>= λ (vs', total). elim (safe_mul total numerator) [
        | none ↦ ok (vs', some weight_overflow)
        | some product ↦
            trusting_slots chain commit vs' (quot_int64 product denominator) 0 commit.signatures []
              nothing_counted
            >>= λ end. ok (vs', finish commit (quot_int64 product denominator) end)
      ])
