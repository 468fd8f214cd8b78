-- ===== src/Commits/Accepted.antt =====
-- When VerifyCommit accepts a commit.
use ostracon.Prelude.{
  ℕ, ◌*◌, ◌/◌, ◌≤◌, ◌<◌, ◌≡◌, ◌↔◌, refl, sym, ap, ◌∙◌, ◌⊎◌, inl, inr, List, Option, none, some,
  subst, arith, Bytes, length, Bool-cases, Option-cases,
}
use ostracon.Prelude.Int.{ℤ, eqb_ℤ, eqb_ℤ_iff}
use ostracon.Prelude.Run.{Run, ok, ◌>>=◌, >>=-returns}
use ostracon.Types.BlockId.{BlockId, equals, equals_iff}
use ostracon.Types.Commit.{Commit}
use ostracon.Votes.Voters.{VoterSet, size, max_total_voting_weight, get_total_voting_weight}
use ostracon.Votes.Total.{weights}
use ostracon.Votes.VoteSet.{Crypto}
use ostracon.Commits.Sums.{two_63, add_int64, add_int64-small, gt_int64-small}
use ostracon.Commits.Slot.{
  Bls, CommitError, AggregateError, wrong_aggregate, verify_aggregated_signature,
}
use ostracon.Commits.Verify.{
  Counts, nothing_counted, check_commit, verify_slots, enough_weight, conclude, verify_commit,
}
use ostracon.Commits.Signed.{Signed}
use ostracon.Commits.VerifySlots.{
  VotersFrom-start, Signed-bound, verify_slots-Signed, Signed-counts,
}

-- The three tests before the loop.
pub check_commit_iff :
    (vs : VoterSet) (b : BlockId) (height : ℤ) (commit : Commit)
    → (check_commit vs b height commit ≡ none) ↔ (
        (length vs.voters ≡ length commit.signatures)
        × (height ≡ commit.height)
        × (b ≡ commit.block_id))
unfolding check_commit size
check_commit_iff vs b height commit = (
  λ e. elim (Bool-cases (eqb_ℤ height commit.height)) [
    | inr n ↦ ground arith
    | inl h ↦ elim (Bool-cases (equals b commit.block_id)) [
      | inr n ↦ ground arith
      | inl s ↦
          (ground arith, (eqb_ℤ_iff height commit.height).0 h, (equals_iff b commit.block_id).0 s)
    ]
  ],
  λ (l, h, s).
      rw ((eqb_ℤ_iff height commit.height).1 h, (equals_iff b commit.block_id).1 s) (ground arith),
)

module _ (c : Crypto) (bls : Bls) where
  -- What a commit must hold: the height and the block asked for, slots that are absent or signed by
  -- their voters, an aggregate of the signatures left out, and more than two thirds of the weight.
  pub record Holds (vs : VoterSet) (chain : Bytes) (b : BlockId) (height : ℤ) (commit : Commit)
      : Type 0 where
    height_same : height ≡ commit.height
    block_same : b ≡ commit.block_id
    keys : List Bytes
    messages : List Bytes
    weight : ℕ
    slots : Signed c bls chain commit 0 vs.voters commit.signatures keys messages weight
    aggregate : verify_aggregated_signature bls commit.aggregated_signature keys messages ≡ none
    quorum : vs.total_voting_weight * 2 / 3 < weight

  conclude_iff :
      (commit : Commit) (needed w : ℕ) (keys messages : List Bytes)
      → needed < two_63
      → w < two_63
      → (conclude c bls commit needed
            (record { tallied = w; unverified = 0; keys = keys; messages = messages })
          ≡ none)
        ↔ ((verify_aggregated_signature bls commit.aggregated_signature keys messages ≡ none)
            × (needed < w))
  unfolding conclude enough_weight
  conclude_iff commit needed w keys messages small small' =
      let sum : add_int64 w 0 ≡ w = add_int64-small w 0 (omega arith) ∙ omega arith in
      let gt = gt_int64-small w needed small' small in
      (
        λ e.
            elim (Option-cases
              (verify_aggregated_signature bls commit.aggregated_signature keys messages)) [
                | inr (x, bad) ↦ ground arith
                | inl good ↦ (good, ground arith)
              ],
        λ (good, more). ap after_aggregate good ∙ rw (sum, gt) (ground arith),
      )
    where
      after_aggregate : Option AggregateError → Option CommitError
      after_aggregate (some e) = some (wrong_aggregate e)
      after_aggregate none = enough_weight c bls (add_int64 w 0) needed

  -- What follows the loop.
  abbrev after_slots :
      VoterSet → Commit → ℕ → CommitError ⊎ Counts → Run (VoterSet × Option CommitError)
  after_slots vs commit total (inl e) = ok (vs, some e)
  after_slots vs commit total (inr n) = ok (vs, conclude c bls commit (total * 2 / 3) n)

  -- VerifyCommit past its first tests.
  opened :
      (vs : VoterSet) (chain : Bytes) (b : BlockId) (height : ℤ) (commit : Commit)
      → 0 < vs.total_voting_weight
      → check_commit vs b height commit ≡ none
      → verify_commit c bls vs chain b height commit ≡ (
          verify_slots c bls chain commit vs 0 commit.signatures nothing_counted
          >>= after_slots vs commit vs.total_voting_weight)
  unfolding verify_commit get_total_voting_weight
  opened vs chain b height commit positive good =
      let total : get_total_voting_weight vs ≡ ok (vs, vs.total_voting_weight) = ground arith in
      ap after_check good ∙ ap (λ r. r >>= after_total) total
    where
      after_total : VoterSet × ℕ → Run (VoterSet × Option CommitError)
      after_total (vs', total) =
          verify_slots c bls chain commit vs' 0 commit.signatures nothing_counted
          >>= after_slots vs' commit total

      after_check : Option CommitError → Run (VoterSet × Option CommitError)
      after_check none = get_total_voting_weight vs >>= after_total
      after_check (some e) = ok (vs, some e)

  refused :
      (vs : VoterSet) (chain : Bytes) (b : BlockId) (height : ℤ) (commit : Commit) {x : CommitError}
      → check_commit vs b height commit ≡ some x
      → verify_commit c bls vs chain b height commit ≡ ok (vs, some x)
  unfolding verify_commit
  refused vs chain b height commit bad = ap after_check bad
    where
      after_check : Option CommitError → Run (VoterSet × Option CommitError)
      after_check none = get_total_voting_weight vs >>= λ (vs', total).
          verify_slots c bls chain commit vs' 0 commit.signatures nothing_counted
          >>= after_slots vs' commit total
      after_check (some e) = ok (vs, some e)

  ended :
      (vs : VoterSet) (commit : Commit) (x : CommitError ⊎ Counts)
      → after_slots vs commit vs.total_voting_weight x ≡ ok (vs, none)
      → (n : Counts) × (x ≡ inr n)
        × (conclude c bls commit (vs.total_voting_weight * 2 / 3) n ≡ none)
  ended vs commit (inl e) h = cc
  ended vs commit (inr n) h = (n, refl, cc)

  abbrev returned : Counts → Run (CommitError ⊎ Counts)
  returned n = ok (inr n)

  ok_inr : {a b : Counts} → returned a ≡ returned b → a ≡ b
  ok_inr e = cc

  -- VerifyCommit accepts a commit exactly where it is for the height and the block asked for, each of
  -- its slots is absent or signed by the slot's voter, with a signature of its own or in an aggregate
  -- that verifies for just the voters whose signature was left out, and the voters whose slot is for
  -- the block have more than two thirds of the total weight. The voter set has its total, which is
  -- positive and at most MaxTotalVotingWeight.
  pub verify_commit_iff :
      (vs : VoterSet) (chain : Bytes) (b : BlockId) (height : ℤ) (commit : Commit)
      → vs.total_voting_weight ≡ weights vs.voters
      → 0 < vs.total_voting_weight
      → vs.total_voting_weight ≤ max_total_voting_weight
      → (verify_commit c bls vs chain b height commit ≡ ok (vs, none))
        ↔ Holds vs chain b height commit
  verify_commit_iff vs chain b height commit total some_weight fits = (
    λ e. elim (Option-cases (check_commit vs b height commit)) [
      | inr (x, bad) ↦
          let both : ok (vs, some x) ≡ ok (vs, none) =
            sym (refused vs chain b height commit bad) ∙ e in
          absurd (ground arith)
      | inl good ↦
          let (end, run, e') =
            >>=-returns (verify_slots c bls chain commit vs 0 commit.signatures nothing_counted)
              (after_slots vs commit vs.total_voting_weight)
              (sym (opened vs chain b height commit some_weight good) ∙ e) in
          let (length_same, height_same, block_same) =
            (check_commit_iff vs b height commit).0 good in
          let (n, is, accepted) = ended vs commit end e' in
          let (keys, messages, w, slots) =
            verify_slots-Signed c bls chain commit vs 0 vs.voters commit.signatures nothing_counted
              (VotersFrom-start vs) length_same (run ∙ ap ok is) in
          let bound = Signed-bound c bls chain commit slots in
          let value = Signed-counts c bls chain commit vs slots (omega (arith, total, fits)) in
          let count : n ≡ record { tallied = w; unverified = 0; keys = keys; messages = messages } =
            ok_inr (sym (run ∙ ap ok is) ∙ value) in
          let (aggregate, quorum) =
            (conclude_iff commit (vs.total_voting_weight * 2 / 3) w keys messages
                (omega (arith, total, fits)) (omega (arith, total, fits, bound.0))).0
              (subst (λ t. conclude c bls commit (vs.total_voting_weight * 2 / 3) t ≡ none) count
                accepted) in
          record {
            height_same = height_same;
            block_same = block_same;
            keys = keys;
            messages = messages;
            weight = w;
            slots = slots;
            aggregate = aggregate;
            quorum = quorum;
          }
    ],
    λ h.
        let bound = Signed-bound c bls chain commit h.slots in
        opened vs chain b height commit some_weight
          ((check_commit_iff vs b height commit).1 (bound.1, h.height_same, h.block_same))
        ∙ (ap (λ r. r >>= after_slots vs commit vs.total_voting_weight)
              (Signed-counts c bls chain commit vs h.slots (omega (arith, total, fits)))
            ∙ ap (λ x. ok (vs, x))
                ((conclude_iff commit (vs.total_voting_weight * 2 / 3) h.weight h.keys h.messages
                    (omega (arith, total, fits)) (omega (arith, total, fits, bound.0))).1
                  (h.aggregate, h.quorum))),
  )
