-- ===== src/Commits/Negative.antt =====
-- VerifyCommitLightTrusting of types/voter_set.go at a trust level whose denominator is past int64.
use native.Mathlib.Nat.{div-le_self, le-div_iff_mul-le}
use ostracon.Prelude.{
  ℕ, suc, ◌+◌, ◌-◌, ◌/◌, ◌%◌, ◌≤◌, ◌<◌, ◌≡◌, refl, ap, ◌∙◌, Bool, true, false, List, [], ◌∷◌,
  Option, none, some, arith, Bytes, get_elem?, ltb, ◌==◌, if◌then◌else◌,
}
use ostracon.Prelude.Run.{Run, ok, ◌>>=◌}
use ostracon.Types.Commit.{CommitSig, Commit, for_block}
use ostracon.Votes.Voters.{
  Voter, VoterSet, max_total_voting_weight, get_total_voting_weight, get_by_address,
}
use ostracon.Votes.VoteSet.{Crypto}
use ostracon.Commits.Sums.{two_63, two_64, safe_mul, safe_mul-one, quot_int64, add_int64, gt_int64}
use ostracon.Commits.Slot.{
  Bls, CommitError, weight_overflow, zero_denominator, verify_aggregated_signature,
}
use ostracon.Commits.Verify.{
  Counts, nothing_counted, Outcome, counted, count_slot, trusting_slots, conclude, enough_weight,
  finish, verify_commit_light_trusting,
}

-- The quotient by a negative number of at most its size is negative.
quot_int64-negative :
    (a b : ℕ)
    → a < two_63
    → two_63 ≤ b
    → b < two_64
    → two_64 - b ≤ a
    → gt_int64 0 (quot_int64 a b) ≡ true
unfolding quot_int64 gt_int64
quot_int64-negative a b small past fits less =
    let pa : ltb a two_63 ≡ true = ground arith in
    let pb : ltb b two_63 ≡ false = ground arith in
    let some_times : 1 ≤ a / (two_64 - b) =
      (le-div_iff_mul-le {k = two_64 - b} {x = 1} {y = a} (omega arith)).1 (omega arith) in
    let low = div-le_self a (two_64 - b) in
    rw (pa, pb)
      (let wraps : (two_64 - a / (two_64 - b)) % two_64 ≡ two_64 - a / (two_64 - b) = omega arith in
        let high : (two_64 - a / (two_64 - b) + two_63) % two_64 ≡ two_63 - a / (two_64 - b) =
          omega arith in
        rw (wraps, high) (ground arith))

module _ (c : Crypto) (bls : Bls) where
  -- Slots that are not for the block are passed over.
  trusting_slots-none :
      (chain : Bytes) (commit : Commit) (vs : VoterSet) (needed i : ℕ) (sigs : List CommitSig)
      (n : Counts)
      → ((j : ℕ) (cs : CommitSig) → get_elem? sigs j ≡ some cs → for_block cs ≡ false)
      → trusting_slots c bls chain commit vs needed i sigs [] n ≡ ok (counted n)
  unfolding trusting_slots
  trusting_slots-none chain commit vs needed i [] n h = refl
  trusting_slots-none chain commit vs needed i (cs ∷ sigs) n h =
      ap after_test (h 0 cs refl)
      ∙ trusting_slots-none chain commit vs needed (i + 1) sigs n (λ j cs' e. h (suc j) cs' e)
    where
      after_voter : Option (ℕ × Voter) → Run Outcome
      after_voter o = elim o [
        | none ↦ trusting_slots c bls chain commit vs needed (i + 1) sigs [] n
        | some (j, v) ↦
            count_slot c bls chain commit needed i cs v n
              (λ n'. trusting_slots c bls chain commit vs needed (i + 1) sigs ((j, i) ∷ []) n')
      ]

      after_test : Bool → Run Outcome
      after_test b = elim b [
        | false ↦ trusting_slots c bls chain commit vs needed (i + 1) sigs [] n
        | true ↦ after_voter (get_by_address vs cs.validator_address)
      ]

  -- VerifyCommitLightTrusting accepts a commit that no voter has signed for the block, and that has
  -- no aggregate, at a trust level of 1 to a denominator that is negative as an int64 and no larger
  -- than the total weight in size: the weight that it needs is then negative. The total weight is
  -- positive and at most MaxTotalVotingWeight.
  pub verify_commit_light_trusting-negative :
      (vs : VoterSet) (chain : Bytes) (commit : Commit) (denominator : ℕ)
      → 0 < vs.total_voting_weight
      → vs.total_voting_weight ≤ max_total_voting_weight
      → two_63 ≤ denominator
      → denominator < two_64
      → two_64 - denominator ≤ vs.total_voting_weight
      → ((j : ℕ) (cs : CommitSig) → get_elem? commit.signatures j ≡ some cs → for_block cs ≡ false)
      → commit.aggregated_signature ≡ none
      → verify_commit_light_trusting c bls vs chain commit 1 denominator ≡ ok (vs, none)
  unfolding verify_commit_light_trusting get_total_voting_weight finish conclude enough_weight
      verify_aggregated_signature add_int64
  verify_commit_light_trusting-negative vs chain commit d positive fits past small less unsigned
        bare =
      let total = vs.total_voting_weight in
      let some_d : (d == 0) ≡ false = ground arith in
      let known : get_total_voting_weight vs ≡ ok (vs, total) = ground arith in
      let product = safe_mul-one total (omega (arith, fits)) in
      let run =
        trusting_slots-none chain commit vs (quot_int64 total d) 0 commit.signatures nothing_counted
          unsigned in
      let negative = quot_int64-negative total d (omega (arith, fits)) past small less in
      ap after_zero some_d
      ∙ (ap (λ r. r >>= after_total) known
          ∙ (ap after_product product
              ∙ (ap (λ r. r >>= after_loop total) run ∙ rw (bare, negative) refl)))
    where
      after_loop : ℕ → Outcome → Run (VoterSet × Option CommitError)
      after_loop product end = ok (vs, finish c bls commit (quot_int64 product d) end)

      after_product : Option ℕ → Run (VoterSet × Option CommitError)
      after_product o = elim o [
        | none ↦ ok (vs, some weight_overflow)
        | some product ↦
            trusting_slots c bls chain commit vs (quot_int64 product d) 0 commit.signatures []
              nothing_counted
            >>= after_loop product
      ]

      after_total : VoterSet × ℕ → Run (VoterSet × Option CommitError)
      after_total (vs', total') = elim (safe_mul total' 1) [
        | none ↦ ok (vs', some weight_overflow)
        | some product ↦
            trusting_slots c bls chain commit vs' (quot_int64 product d) 0 commit.signatures []
              nothing_counted
            >>= λ end. ok (vs', finish c bls commit (quot_int64 product d) end)
      ]

      after_zero : Bool → Run (VoterSet × Option CommitError)
      after_zero b =
          if b then ok (vs, some zero_denominator) else (get_total_voting_weight vs >>= after_total)
