-- ===== src/Commits/VerifySlots.antt =====
-- The loop of VerifyCommit accepts the slots that are signed, and no others.
use ostracon.Prelude.{
  ℕ, suc, ◌+◌, ◌≤◌, ◌<◌, ◌≡◌, refl, sym, ap, ◌∙◌, Bool, true, false, ◌⊎◌, inl, inr, List, [], ◌∷◌,
  ◌++◌, append-nil, append_assoc, some, subst, arith, Bytes, length, get_elem?, if◌then◌else◌,
  Bool-cases,
}
use ostracon.Prelude.Run.{Run, ok}
use ostracon.Types.Commit.{CommitSig, Commit, for_block, is_absent}
use ostracon.Votes.Voters.{Voter, VoterSet}
use ostracon.Votes.Total.{weights}
use ostracon.Votes.VoteSet.{Crypto}
use ostracon.Commits.Sums.{two_63}
use ostracon.Commits.Slot.{Bls, CommitError}
use ostracon.Commits.Verify.{Counts, nothing_counted, verify_slot, verify_slots}
use ostracon.Commits.Signed.{
  SignedBy, Signed, no_slots, absent_slot, signed_slot, verify_slot-inv, verify_slot-run,
}

-- The voters from an index on.
abbrev pub VotersFrom : VoterSet → ℕ → List Voter → Type 0
VotersFrom vs i voters = (j : ℕ) → get_elem? vs.voters (i + j) ≡ get_elem? voters j

VotersFrom-head :
    (vs : VoterSet) (i : ℕ) (v : Voter) (voters : List Voter)
    → VotersFrom vs i (v ∷ voters)
    → get_elem? vs.voters i ≡ some v
VotersFrom-head vs i v voters from = ap (get_elem? vs.voters) (omega arith) ∙ from 0

VotersFrom-tail :
    (vs : VoterSet) (i : ℕ) (v : Voter) (voters : List Voter)
    → VotersFrom vs i (v ∷ voters)
    → VotersFrom vs (i + 1) voters
VotersFrom-tail vs i v voters from j = ap (get_elem? vs.voters) (omega arith) ∙ from (suc j)

pub VotersFrom-start : (vs : VoterSet) → VotersFrom vs 0 vs.voters
VotersFrom-start vs j = ap (get_elem? vs.voters) (omega arith)

module _ (c : Crypto) (bls : Bls) (chain : Bytes) (commit : Commit) where
  pub Signed-bound :
      {i : ℕ} {voters : List Voter} {sigs : List CommitSig} {keys messages : List Bytes} {w : ℕ}
      → Signed c bls chain commit i voters sigs keys messages w
      → (w ≤ weights voters) × (length voters ≡ length sigs)
  Signed-bound no_slots = (omega arith, refl)
  Signed-bound (absent_slot absent rest) =
      let (b, l) = Signed-bound rest in (omega (arith, b), ap suc l)
  Signed-bound (signed_slot {v} {cs = cs} present by rest) =
      let (b, l) = Signed-bound rest in
      let own : (if for_block cs then v.voting_weight else 0) ≤ v.voting_weight = ground arith in
      (omega (arith, b, own), ap suc l)

  -- The loop at a slot that is absent, and at one that is not.
  slots_absent :
      (vs : VoterSet) (i : ℕ) (cs : CommitSig) (sigs : List CommitSig) (n : Counts)
      → is_absent cs ≡ true
      → verify_slots c bls chain commit vs i (cs ∷ sigs) n
        ≡ verify_slots c bls chain commit vs (i + 1) sigs n
  unfolding verify_slots
  slots_absent vs i cs sigs n absent = ap after absent
    where
      after : Bool → Run (CommitError ⊎ Counts)
      after true = verify_slots c bls chain commit vs (i + 1) sigs n
      after false =
          verify_slot c bls chain commit vs i cs n
            (λ n'. verify_slots c bls chain commit vs (i + 1) sigs n')

  slots_present :
      (vs : VoterSet) (i : ℕ) (cs : CommitSig) (sigs : List CommitSig) (n : Counts)
      → is_absent cs ≡ false
      → verify_slots c bls chain commit vs i (cs ∷ sigs) n
        ≡ verify_slot c bls chain commit vs i cs n
            (λ n'. verify_slots c bls chain commit vs (i + 1) sigs n')
  unfolding verify_slots
  slots_present vs i cs sigs n present = ap after present
    where
      after : Bool → Run (CommitError ⊎ Counts)
      after true = verify_slots c bls chain commit vs (i + 1) sigs n
      after false =
          verify_slot c bls chain commit vs i cs n
            (λ n'. verify_slots c bls chain commit vs (i + 1) sigs n')

  slots_end :
      (vs : VoterSet) (i : ℕ) (n : Counts)
      → n.unverified ≡ 0
      → verify_slots c bls chain commit vs i [] n
        ≡ ok (
            inr (record {
              tallied = n.tallied + 0;
              unverified = 0;
              keys = n.keys ++ [];
              messages = n.messages ++ [];
            }))
  unfolding verify_slots
  slots_end vs i n none_left =
      let t : n.tallied ≡ n.tallied + 0 = omega arith in
      λ k. ok (
        inr (record {
          tallied = t k;
          unverified = none_left k;
          keys = sym (append-nil n.keys) k;
          messages = sym (append-nil n.messages) k;
        }))

  pub verify_slots-Signed :
      {r : Counts} (vs : VoterSet) (i : ℕ) (voters : List Voter) (sigs : List CommitSig)
      (n : Counts)
      → VotersFrom vs i voters
      → length voters ≡ length sigs
      → verify_slots c bls chain commit vs i sigs n ≡ ok (inr r)
      → (keys : List Bytes) × (messages : List Bytes) × (w : ℕ) × Signed c bls chain commit i voters
          sigs keys messages w
  verify_slots-Signed vs i [] [] n from same e = ([], [], 0, no_slots)
  verify_slots-Signed vs i (v ∷ voters) [] n from same e = absurd (omega (arith, same))
  verify_slots-Signed vs i [] (cs ∷ sigs) n from same e = absurd (omega (arith, same))
  verify_slots-Signed vs i (v ∷ voters) (cs ∷ sigs) n from same e =
      let later = VotersFrom-tail vs i v voters from in
      elim (Bool-cases (is_absent cs)) [
        | inl absent ↦
            let (keys, messages, w, rest) =
              verify_slots-Signed vs (i + 1) voters sigs n later (omega (arith, same))
                (sym (slots_absent vs i cs sigs n absent) ∙ e) in
            (keys, messages, w, absent_slot absent rest)
        | inr present ↦
            let (v', ks, ms, n', at, by, e') =
              verify_slot-inv c bls chain commit vs i cs n _
                (sym (slots_present vs i cs sigs n present) ∙ e) in
            let (keys, messages, w, rest) =
              verify_slots-Signed vs (i + 1) voters sigs n' later (omega (arith, same)) e' in
            let both : some v' ≡ some v = sym at ∙ VotersFrom-head vs i v voters from in
            let this : v' ≡ v = ground arith in
            (
              ks ++ keys,
              ms ++ messages,
              (if for_block cs then v.voting_weight else 0) + w,
              signed_slot present
                  (subst (λ (t : Voter). SignedBy c bls chain commit t i cs ks ms) this by) rest,
            )
      ]

  Signed-verify_slots :
      {i : ℕ} {voters : List Voter} {sigs : List CommitSig} {keys messages : List Bytes} {w : ℕ}
      (vs : VoterSet) (n : Counts)
      → Signed c bls chain commit i voters sigs keys messages w
      → VotersFrom vs i voters
      → n.tallied + weights voters < two_63
      → n.unverified ≡ 0
      → verify_slots c bls chain commit vs i sigs n
        ≡ ok (
            inr (record {
              tallied = n.tallied + w;
              unverified = 0;
              keys = n.keys ++ keys;
              messages = n.messages ++ messages;
            }))
  Signed-verify_slots vs n (no_slots {i}) from fits none_left = slots_end vs i n none_left
  Signed-verify_slots vs n (absent_slot {i} {v} {vs = voters} {cs} {sigs} absent rest) from fits
        none_left =
      slots_absent vs i cs sigs n absent
      ∙ Signed-verify_slots vs n rest (VotersFrom-tail vs i v voters from) (omega (arith, fits))
          none_left
  Signed-verify_slots vs n
        (signed_slot {i} {v} {vs = voters} {cs} {sigs} {ks} {ms} {keys} {messages} {w} present by
          rest)
        from fits none_left =
      let own : (if for_block cs then v.voting_weight else 0) ≤ v.voting_weight = ground arith in
      let plus : n.tallied + (if for_block cs then v.voting_weight else 0) + w
          ≡ n.tallied + ((if for_block cs then v.voting_weight else 0) + w) =
        omega arith in
      slots_present vs i cs sigs n present
      ∙ (verify_slot-run c bls chain commit vs v i cs n _ (VotersFrom-head vs i v voters from) by
            (omega (arith, fits))
          ∙ (Signed-verify_slots vs _ rest (VotersFrom-tail vs i v voters from)
                (omega (arith, fits, own)) refl
              ∙ λ k. ok (
                  inr (record {
                    tallied = plus k;
                    unverified = 0;
                    keys = append_assoc n.keys ks keys k;
                    messages = append_assoc n.messages ms messages k;
                  }))))

  pub Signed-counts :
      {keys messages : List Bytes} {w : ℕ} (vs : VoterSet)
      → Signed c bls chain commit 0 vs.voters commit.signatures keys messages w
      → weights vs.voters < two_63
      → verify_slots c bls chain commit vs 0 commit.signatures nothing_counted
        ≡ ok (inr (record { tallied = w; unverified = 0; keys = keys; messages = messages }))
  Signed-counts {keys} {messages} {w} vs slots fits =
      Signed-verify_slots vs nothing_counted slots (VotersFrom-start vs) (omega (arith, fits)) refl
      ∙ ap
          (λ (t : ℕ).
            ok (inr (record { tallied = t; unverified = 0; keys = keys; messages = messages })))
          (omega arith)
