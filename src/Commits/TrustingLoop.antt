-- ===== src/Commits/TrustingLoop.antt =====
-- The loop of VerifyCommitLightTrusting.
use ostracon.Prelude.{
  ℕ, suc, ◌+◌, ◌≤◌, ◌<◌, ◌≡◌, sym, ap, ◌∙◌, Bool, true, false, ◌⊎◌, inl, inr, List, [], ◌∷◌, Option,
  none, some, arith, Bytes, get_elem?, set, get_elem?-lt, Bool-cases, Option-cases,
}
use ostracon.Prelude.Run.{Run, ok}
use ostracon.Types.Commit.{CommitSig, Commit, for_block}
use ostracon.Votes.Voters.{Voter, VoterSet, get_by_address}
use ostracon.Votes.Total.{weights}
use ostracon.Votes.VoteSet.{Crypto}
use ostracon.Commits.Sums.{two_63}
use ostracon.Commits.Slot.{Bls, CommitError, double_vote}
use ostracon.Commits.Verify.{
  Counts, Outcome, failed, enough, counted, seen_at, count_slot, trusting_slots,
}
use ostracon.Commits.Stopping.{count_slot-inv}
use ostracon.Commits.Picks.{Picks}
use ostracon.Commits.Held.{Held, Held-Change, Held-room, voter_found, Fresh, Fresh-set}

module _ (c : Crypto) (bls : Bls) (chain : Bytes) (commit : Commit) where
  nil_end : {n : Counts} {end : Outcome} → ok (counted n) ≡ ok end → end ≡ counted n
  nil_end e = cc

  failed_end : {x : CommitError} {end : Outcome} → ok (failed x) ≡ ok end → end ≡ failed x
  failed_end e = cc

  module _ (vs : VoterSet) (needed : ℕ) where
    -- How the loop ends where it does not fail.
    abbrev pub Ended : Outcome → Type 0
    Ended end =
        ((e : CommitError) × (end ≡ failed e))
        ⊎ ((ps : Picks) × (n : Counts) × Held c bls chain commit vs.voters ps n
            × (((end ≡ enough) × (needed < n.tallied)) ⊎ (end ≡ counted n)))

    pub trusting_slots-Ended :
        (i : ℕ) (sigs : List CommitSig) (seen : List (ℕ × ℕ)) (n : Counts) (end : Outcome)
        (ps : Picks)
        → ((j : ℕ) → get_elem? commit.signatures (i + j) ≡ get_elem? sigs j)
        → Held c bls chain commit vs.voters ps n
        → Fresh c bls chain commit ps seen
        → weights vs.voters < two_63
        → needed < two_63
        → trusting_slots c bls chain commit vs needed i sigs seen n ≡ ok end
        → Ended end
    unfolding trusting_slots
    trusting_slots-Ended i [] seen n end ps at h f fits small e = inr (ps, n, h, inr (nil_end e))
    trusting_slots-Ended i (cs ∷ sigs) seen n end ps at h f fits small e =
        let again : (seen' : List (ℕ × ℕ)) (n' : Counts) (ps' : Picks)
            → Held c bls chain commit vs.voters ps' n'
            → Fresh c bls chain commit ps' seen'
            → trusting_slots c bls chain commit vs needed (i + 1) sigs seen' n' ≡ ok end
            → Ended end =
          λ seen' n' ps' h' f' e'.
            trusting_slots-Ended (i + 1) sigs seen' n' end ps' later h' f' fits small e' in
        elim (Bool-cases (for_block cs)) [
          | inr other ↦ again seen n ps h f (sym (ap after_test other) ∙ e)
          | inl signed ↦
              let e1 = sym (ap after_test signed) ∙ e in
              elim (Option-cases (get_by_address vs cs.validator_address)) [
                | inl unknown ↦ again seen n ps h f (sym (ap after_voter unknown) ∙ e1)
                | inr ((j, v), found) ↦
                    let e2 = sym (ap after_voter found) ∙ e1 in
                    elim (Option-cases (seen_at j seen)) [
                      | inr (first, double) ↦
                          inl (
                            double_vote first i,
                            failed_end (sym (ap (after_seen j v) double) ∙ e2),
                          )
                      | inl new ↦
                          taken again j v signed found new (sym (ap (after_seen j v) new) ∙ e2)
                    ]
              ]
        ]
      where
        next : ℕ → Counts → Run Outcome
        next j n' = trusting_slots c bls chain commit vs needed (i + 1) sigs ((j, i) ∷ seen) n'

        after_seen : ℕ → Voter → Option ℕ → Run Outcome
        after_seen j v (some first) = ok (failed (double_vote first i))
        after_seen j v none = count_slot c bls chain commit needed i cs v n (next j)

        after_voter : Option (ℕ × Voter) → Run Outcome
        after_voter none = trusting_slots c bls chain commit vs needed (i + 1) sigs seen n
        after_voter (some (j, v)) = after_seen j v (seen_at j seen)

        after_test : Bool → Run Outcome
        after_test false = trusting_slots c bls chain commit vs needed (i + 1) sigs seen n
        after_test true = after_voter (get_by_address vs cs.validator_address)

        later : (j : ℕ) → get_elem? commit.signatures (i + 1 + j) ≡ get_elem? sigs j
        later j = ap (get_elem? commit.signatures) (omega arith) ∙ at (suc j)

        Again : Type 0
        Again =
            (seen' : List (ℕ × ℕ)) (n' : Counts) (ps' : Picks)
            → Held c bls chain commit vs.voters ps' n'
            → Fresh c bls chain commit ps' seen'
            → trusting_slots c bls chain commit vs needed (i + 1) sigs seen' n' ≡ ok end
            → Ended end

        taken :
            Again
            → (j : ℕ) (v : Voter) → for_block cs ≡ true
            → get_by_address vs cs.validator_address ≡ some (j, v)
            → seen_at j seen ≡ none
            → count_slot c bls chain commit needed i cs v n (next j) ≡ ok end
            → Ended end
        taken again j v signed found new e' =
            let (here, address) = voter_found c bls chain commit vs cs.validator_address found in
            let sized = h.sized in
            let lt = get_elem?-lt vs.voters j here in
            let empty = f j (omega (arith, lt, sized)) new in
            let this = ap (get_elem? commit.signatures) (omega arith) ∙ at 0 in
            let room : (n.tallied + v.voting_weight ≤ weights vs.voters)
                × (n.unverified + v.voting_weight ≤ weights vs.voters) =
              Held-room c bls chain commit vs.voters ps n j i h here empty in
            elim (count_slot-inv c bls chain commit needed v i cs n (next j) end
              (omega (arith, fits, room.0)) (omega (arith, fits, room.1)) small e') [
                | inl wrong ↦ inl wrong
                | inr (own, n', change, inl stop) ↦ inr (
                  set ps j (some (i, own)),
                  n',
                  Held-Change c bls chain commit vs.voters ps n n' j i cs h here empty this signed
                      address change,
                  inl stop,
                )
                | inr (own, n', change, inr more) ↦
                    again ((j, i) ∷ seen) n' (set ps j (some (i, own)))
                      (Held-Change c bls chain commit vs.voters ps n n' j i cs h here empty this
                        signed address change)
                      (Fresh-set c bls chain commit ps seen j i own f) more
              ]
