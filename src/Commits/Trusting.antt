-- ===== src/Commits/Trusting.antt =====
-- What VerifyCommitLightTrusting has counted when it accepts a commit.
use native.Mathlib.Nat.{div-le_self}
use ostracon.Prelude.{
  ℕ, zero, suc, ◌+◌, ◌*◌, ◌/◌, ◌≤◌, ◌<◌, ◌≡◌, refl, sym, ap, ◌∙◌, subst, Bool, true, false, ◌⊎◌,
  inl, inr, List, [], Option, none, some, arith, Bytes, length, get_elem?, replicate,
  length-replicate, ltb→lt, ◌==◌, if◌then◌else◌, Bool-cases, Option-cases,
}
use ostracon.Prelude.Run.{Run, ok, ◌>>=◌, >>=-returns}
use ostracon.Types.Commit.{Commit}
use ostracon.Votes.Voters.{Voter, VoterSet, max_total_voting_weight, get_total_voting_weight}
use ostracon.Votes.Total.{weights}
use ostracon.Votes.VoteSet.{Crypto}
use ostracon.Commits.Sums.{
  two_63, safe_mul, safe_mul-product, quot_int64, quot_int64-small, add_int64, add_int64-small,
  gt_int64, gt_int64-small,
}
use ostracon.Commits.Slot.{
  Bls, CommitError, AggregateError, wrong_aggregate, weight_overflow, zero_denominator,
  verify_aggregated_signature,
}
use ostracon.Commits.Verify.{
  Counts, nothing_counted, Outcome, trusting_slots, conclude, enough_weight, finish,
  verify_commit_light_trusting,
}
use ostracon.Commits.Picks.{Picks, weight_of, weight_of-bound, weight_of-replicate}
use ostracon.Commits.Held.{Backed, Held}
use ostracon.Commits.TrustingLoop.{trusting_slots-Ended}

module _ (c : Crypto) (bls : Bls) (chain : Bytes) (commit : Commit) where
  -- The voters and slots behind an accepted commit: no voter is counted twice, each slot is signed
  -- by its voter, and the weight is enough; that of the voters whose signature was left out counts
  -- where the aggregate verifies.
  pub record Trusted (vs : VoterSet) (needed : ℕ) : Type 0 where
    picks : Picks
    keys : List Bytes
    messages : List Bytes
    backed :
        (j i : ℕ) (own : Bool)
        → get_elem? picks j ≡ some (some (i, own))
        → (v : Voter) × (get_elem? vs.voters j ≡ some v)
          × Backed c bls chain commit keys messages v i own
    weight :
        (needed < weight_of true vs.voters picks)
        ⊎ ((verify_aggregated_signature bls commit.aggregated_signature keys messages ≡ none)
            × (needed < weight_of true vs.voters picks + weight_of false vs.voters picks))

  abbrev returned : VoterSet → Option CommitError → Run (VoterSet × Option CommitError)
  returned vs x = ok (vs, x)

  no_error : {vs : VoterSet} {x : Option CommitError} → returned vs x ≡ returned vs none → x ≡ none
  no_error e = cc

  enough_weight-none :
      (got needed : ℕ) → enough_weight c bls got needed ≡ none → gt_int64 got needed ≡ true
  unfolding enough_weight
  enough_weight-none got needed e = elim (Bool-cases (gt_int64 got needed)) [
    | inl more ↦ more
    | inr less ↦ ground arith
  ]

  conclude-Trusted :
      (vs : VoterSet) (needed : ℕ) (ps : Picks) (n : Counts)
      → Held c bls chain commit vs.voters ps n
      → weights vs.voters < two_63
      → needed < two_63
      → conclude c bls commit needed n ≡ none
      → Trusted vs needed
  unfolding conclude
  conclude-Trusted vs needed ps n h fits small e =
      let tallied = h.tallied in
      let unverified = h.unverified in
      let bound = weight_of-bound vs.voters ps in
      let sum =
        add_int64-small n.tallied n.unverified (omega (arith, fits, tallied, unverified, bound)) in
      let gt =
        gt_int64-small (n.tallied + n.unverified) needed
          (omega (arith, fits, tallied, unverified, bound)) small in
      elim (Option-cases
        (verify_aggregated_signature bls commit.aggregated_signature n.keys n.messages)) [
          | inr (x, bad) ↦
              let both : some (wrong_aggregate x) ≡ none = sym (ap after_aggregate bad) ∙ e in
              absurd (ground arith)
          | inl good ↦
              let passed = enough_weight-none _ needed (sym (ap after_aggregate good) ∙ e) in
              let more =
                ltb→lt needed (n.tallied + n.unverified)
                  (sym gt ∙ (ap (λ (t : ℕ). gt_int64 t needed) (sym sum) ∙ passed)) in
              record {
                picks = ps;
                keys = n.keys;
                messages = n.messages;
                backed = h.backed;
                weight = inr (good, omega (arith, more, tallied, unverified));
              }
        ]
    where
      after_aggregate : Option AggregateError → Option CommitError
      after_aggregate (some x) = some (wrong_aggregate x)
      after_aggregate none = enough_weight c bls (add_int64 n.tallied n.unverified) needed

  not_picked :
      (k j i : ℕ) (own : Bool)
      → get_elem? {A = Option (ℕ × Bool)} (replicate k none) j ≡ some (some (i, own))
      → ⊥
  not_picked zero j i own e = ground arith
  not_picked (suc k) zero i own e = ground arith
  not_picked (suc k) (suc j) i own e = not_picked k j i own e

  empty_slot :
      (k j : ℕ) → j < k → get_elem? {A = Option (ℕ × Bool)} (replicate k none) j ≡ some none
  empty_slot zero j lt = elim lt [ ]
  empty_slot (suc k) zero lt = refl
  empty_slot (suc k) (suc j) lt = empty_slot k j (omega arith)

  -- Nothing is counted at the start.
  Held-start :
      (vs : List Voter) → Held c bls chain commit vs (replicate (length vs) none) nothing_counted
  Held-start vs = record {
    sized = length-replicate (length vs) none;
    paired = refl;
    tallied = sym (weight_of-replicate true vs (length vs));
    unverified = sym (weight_of-replicate false vs (length vs));
    backed = λ j i own e. absurd (not_picked (length vs) j i own e);
  }

  finish-Trusted :
      (vs : VoterSet) (needed : ℕ) (end : Outcome)
      → weights vs.voters < two_63
      → needed < two_63
      → trusting_slots c bls chain commit vs needed 0 commit.signatures [] nothing_counted ≡ ok end
      → finish c bls commit needed end ≡ none
      → Trusted vs needed
  unfolding finish
  finish-Trusted vs needed end fits small run e =
      let count = length-replicate {A = Option (ℕ × Bool)} (length vs.voters) none in
      elim (trusting_slots-Ended c bls chain commit vs needed 0 commit.signatures [] nothing_counted
        end (replicate (length vs.voters) none)
        (λ j. ap (get_elem? commit.signatures) (omega arith)) (Held-start vs.voters)
        (λ j lt _. empty_slot (length vs.voters) j (omega (arith, lt, count))) fits small run) [
          | inl (x, wrong) ↦
              let both : some x ≡ none = sym (ap (finish c bls commit needed) wrong) ∙ e in
              absurd (ground arith)
          | inr (ps, n, h, inl (stop, more)) ↦
              let tallied = h.tallied in
              record {
                picks = ps;
                keys = n.keys;
                messages = n.messages;
                backed = h.backed;
                weight = inl (omega (arith, more, tallied));
              }
          | inr (ps, n, h, inr all) ↦
              conclude-Trusted vs needed ps n h fits small
                (sym (ap (finish c bls commit needed) all) ∙ e)
        ]

  -- When VerifyCommitLightTrusting accepts a commit, voters that are counted at most once each, every
  -- one by a slot for the block with its address that it has signed, have more than the trust level
  -- of the total weight; a signature that was left out counts only where the aggregate verifies for
  -- its key and message. The voter set has its total, which is positive and at most
  -- MaxTotalVotingWeight, and the trust level's numerator and denominator are at most the largest
  -- int64.
  pub verify_commit_light_trusting_sound :
      (vs : VoterSet) (numerator denominator : ℕ)
      → vs.total_voting_weight ≡ weights vs.voters
      → 0 < vs.total_voting_weight
      → vs.total_voting_weight ≤ max_total_voting_weight
      → numerator < two_63
      → denominator < two_63
      → verify_commit_light_trusting c bls vs chain commit numerator denominator ≡ ok (vs, none)
      → Trusted vs (vs.total_voting_weight * numerator / denominator)
  unfolding verify_commit_light_trusting get_total_voting_weight
  verify_commit_light_trusting_sound vs numerator denominator total positive fits num_fits den_fits
        e =
      let known : get_total_voting_weight vs ≡ ok (vs, vs.total_voting_weight) = ground arith in
      let e1 = sym (ap (λ r. r >>= after_total) known) ∙ positive_denominator e in
      elim (Option-cases (safe_mul vs.total_voting_weight numerator)) [
        | inl overflow ↦
            let both : returned vs (some weight_overflow) ≡ returned vs none =
              sym (ap after_product overflow) ∙ e1 in
            absurd (ground arith)
        | inr (product, fine) ↦
            let (is, small) =
              safe_mul-product vs.total_voting_weight numerator (omega (arith, fits)) num_fits
                fine in
            let quot = quot_int64-small product denominator small den_fits in
            let (end, run, e2) =
              >>=-returns
                (trusting_slots c bls chain commit vs (quot_int64 product denominator) 0
                  commit.signatures [] nothing_counted)
                (after_loop product) (sym (ap after_product fine) ∙ e1) in
            let less = div-le_self product denominator in
            subst (λ (p : ℕ). Trusted vs (p / denominator)) is
              (subst (Trusted vs) quot (
                finish-Trusted vs (quot_int64 product denominator) end (omega (arith, total, fits))
                  (omega (arith, less, small, quot)) run (no_error e2)))
      ]
    where
      after_loop : ℕ → Outcome → Run (VoterSet × Option CommitError)
      after_loop product end = ok (vs, finish c bls commit (quot_int64 product denominator) end)

      after_product : Option ℕ → Run (VoterSet × Option CommitError)
      after_product none = ok (vs, some weight_overflow)
      after_product (some product) =
          trusting_slots c bls chain commit vs (quot_int64 product denominator) 0 commit.signatures
            [] nothing_counted
          >>= after_loop product

      after_total : VoterSet × ℕ → Run (VoterSet × Option CommitError)
      after_total (vs', total') = elim (safe_mul total' numerator) [
        | none ↦ ok (vs', some weight_overflow)
        | some product ↦
            trusting_slots c bls chain commit vs' (quot_int64 product denominator) 0
              commit.signatures [] nothing_counted
            >>= λ end. ok (vs', finish c bls commit (quot_int64 product denominator) end)
      ]

      after_zero : Bool → Run (VoterSet × Option CommitError)
      after_zero b =
          if b then ok (vs, some zero_denominator) else (get_total_voting_weight vs >>= after_total)

      positive_denominator :
          after_zero (denominator == 0) ≡ ok (vs, none)
          → (get_total_voting_weight vs >>= after_total) ≡ ok (vs, none)
      positive_denominator h = elim (Bool-cases (denominator == 0)) [
        | inl none_given ↦
            let both : returned vs (some zero_denominator) ≡ returned vs none =
              sym (ap after_zero none_given) ∙ h in
            absurd (ground arith)
        | inr some_given ↦ sym (ap after_zero some_given) ∙ h
      ]
