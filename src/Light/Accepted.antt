-- ===== src/Light/Accepted.antt =====
-- What holds of a new header that Verify accepts.
use ostracon.Prelude.{
  ℕ, ◌≡◌, ◌⊎◌, inl, inr, sym, ap, ◌∙◌, Bool, true, not, List, Option, none, some, arith, bytes_eq,
  bytes_eq→eq, Option-cases, Bool-cases, if◌then◌else◌,
}
use ostracon.Prelude.Int.{ℤ, pos, ltb_ℤ, eqb_ℤ, ◌+ℤ◌}
use ostracon.Prelude.Run.{Run, ok, >>=-returns}
use ostracon.Types.Header.{SignedHeader}
use ostracon.Votes.Voters.{Voter, VoterSet}
use ostracon.Commits.Verify.{verify_commit_light, verify_commit_light_trusting}
use ostracon.Light.Verifier.{
  Calls, LightError, InvalidNewHeader, must_be_adjacent, must_be_non_adjacent, old_header_expired,
  next_validators_differ, invalid_new_header, header_expired, validators_hash_of, voters_hash_of,
  verify_new_header, new_voters_signed, trusted_voters_signed, verify_adjacent, verify_non_adjacent,
  verify_header,
}
use ostracon.Light.NewHeader.{
  passed_run, avoided_run, ForChain, NewHeader, verify_new_header-NewHeader,
}
use ostracon.Light.Signed.{new_voters_signed-none, trusted_voters_signed-none}

module _ (c : Calls) where
  -- What a new header has passed that Verify accepts: it is for the chain of the trusted header, and
  -- higher and later; the trusted header has not expired, and the new one is not from the future; the
  -- validators and voters are those that it names; its commit is for its height and its hash, and
  -- the voters signed it. Its validators are those that the trusted header names as the next ones,
  -- or the trusted voters signed as well.
  pub record Verified (trusted : SignedHeader) (trusted_voters : VoterSet) (new : SignedHeader)
      (vals : List Voter) (voters : VoterSet) (trusting_period now drift : ℤ)
      (numerator denominator : ℕ) : Type 0 where
    not_expired : ltb_ℤ now (trusted.head.time +ℤ trusting_period) ≡ true
    higher : ltb_ℤ trusted.head.height new.head.height ≡ true
    later : ltb_ℤ trusted.head.time new.head.time ≡ true
    not_future : ltb_ℤ new.head.time (now +ℤ drift) ≡ true
    own_validators : new.head.validators_hash ≡ validators_hash_of c vals
    own_voters : new.head.voters_hash ≡ voters_hash_of c voters
    for_chain : ForChain c new trusted.head.chain_id
    signed :
        (after : VoterSet) × (verify_commit_light c.crypto c.bls voters trusted.head.chain_id
            for_chain.commit.block_id new.head.height for_chain.commit
          ≡ ok (after, none))
    linked :
        (new.head.validators_hash ≡ trusted.head.next_validators_hash)
        ⊎ ((after : VoterSet) × (verify_commit_light_trusting c.crypto c.bls trusted_voters
                trusted.head.chain_id for_chain.commit numerator denominator
              ≡ ok (after, none)))

  -- The tests that both functions begin with, and what follows them.
  abbrev checked :
      SignedHeader
      → SignedHeader
      → List Voter
      → VoterSet
      → ℤ
      → ℤ
      → ℤ
      → Run (Option LightError)
      → Run (Option LightError)
  checked trusted new vals voters trusting_period now drift next =
      if header_expired trusted trusting_period now
      then ok (some old_header_expired)
      else elim (verify_new_header c new vals voters trusted now drift) [
        | some x ↦ ok (some (invalid_new_header x))
        | none ↦ next
      ]

  checked-none :
      (trusted new : SignedHeader) (vals : List Voter) (voters : VoterSet)
      (trusting_period now drift : ℤ) (next : Run (Option LightError))
      → checked trusted new vals voters trusting_period now drift next ≡ ok none
      → (ltb_ℤ now (trusted.head.time +ℤ trusting_period) ≡ true)
        × NewHeader c trusted new vals voters now drift
        × (next ≡ ok none)
  unfolding header_expired
  checked-none trusted new vals voters trusting_period now drift next e =
      let (fresh, e1) =
        avoided_run (header_expired trusted trusting_period now) old_header_expired e in
      elim (Option-cases (verify_new_header c new vals voters trusted now drift)) [
        | inr (x, bad) ↦
            let both : ok (some (invalid_new_header x)) ≡ ok none = sym (ap after_new bad) ∙ e1 in
            absurd (ground arith)
        | inl good ↦ (
          ground arith,
          verify_new_header-NewHeader c trusted new vals voters now drift good,
          sym (ap after_new good) ∙ e1,
        )
      ]
    where
      after_new : Option InvalidNewHeader → Run (Option LightError)
      after_new (some x) = ok (some (invalid_new_header x))
      after_new none = next

  verify_adjacent-none :
      (trusted new : SignedHeader) (vals : List Voter) (voters : VoterSet)
      (trusting_period now drift : ℤ)
      → verify_adjacent c trusted new vals voters trusting_period now drift ≡ ok none
      → (ltb_ℤ now (trusted.head.time +ℤ trusting_period) ≡ true)
        × NewHeader c trusted new vals voters now drift
        × (new.head.validators_hash ≡ trusted.head.next_validators_hash)
        × (new_voters_signed c trusted new voters ≡ ok none)
  unfolding verify_adjacent
  verify_adjacent-none trusted new vals voters trusting_period now drift e =
      let (_, e1) =
        passed_run (eqb_ℤ new.head.height (trusted.head.height +ℤ pos 1)) must_be_adjacent e in
      let (fresh, header, e2) =
        checked-none trusted new vals voters trusting_period now drift _ e1 in
      let (same, e3) =
        passed_run (bytes_eq new.head.validators_hash trusted.head.next_validators_hash)
          next_validators_differ e2 in
      (fresh, header, bytes_eq→eq _ _ same, e3)

  verify_non_adjacent-none :
      (trusted new : SignedHeader) (trusted_voters : VoterSet) (vals : List Voter)
      (voters : VoterSet) (trusting_period now drift : ℤ) (numerator denominator : ℕ)
      → verify_non_adjacent c trusted trusted_voters new vals voters trusting_period now drift
          numerator denominator
        ≡ ok none
      → (ltb_ℤ now (trusted.head.time +ℤ trusting_period) ≡ true)
        × NewHeader c trusted new vals voters now drift
        × (trusted_voters_signed c trusted trusted_voters new numerator denominator ≡ ok none)
        × (new_voters_signed c trusted new voters ≡ ok none)
  unfolding verify_non_adjacent
  verify_non_adjacent-none trusted new trusted_voters vals voters trusting_period now drift
        numerator denominator e =
      let (_, e1) =
        avoided_run (eqb_ℤ new.head.height (trusted.head.height +ℤ pos 1)) must_be_non_adjacent e in
      let (fresh, header, e2) =
        checked-none trusted new vals voters trusting_period now drift _ e1 in
      let (x, run, e3) =
        >>=-returns (trusted_voters_signed c trusted trusted_voters new numerator denominator)
          after_trusted e2 in
      elim (Option-cases x) [
        | inr (y, wrong) ↦
            let both : ok (some y) ≡ ok none = sym (ap after_trusted wrong) ∙ e3 in
            absurd (ground arith)
        | inl good ↦ (fresh, header, run ∙ ap ok good, sym (ap after_trusted good) ∙ e3)
      ]
    where
      after_trusted : Option LightError → Run (Option LightError)
      after_trusted (some x) = ok (some x)
      after_trusted none = new_voters_signed c trusted new voters

  -- When Verify accepts a new header, the trusted header has not expired, and the new one is for its
  -- chain, higher and later, not from the future, with a commit for its own height and hash that its
  -- voters signed, as VerifyCommitLight tests it; its validators and voters have the hashes that it
  -- names. Its validators are those that the trusted header names as the next ones, or the trusted
  -- voters signed as well, as VerifyCommitLightTrusting tests it.
  pub verify_header-Verified :
      (trusted : SignedHeader) (trusted_voters : VoterSet) (new : SignedHeader) (vals : List Voter)
      (voters : VoterSet) (trusting_period now drift : ℤ) (numerator denominator : ℕ)
      → verify_header c trusted trusted_voters new vals voters trusting_period now drift numerator
          denominator
        ≡ ok none
      → Verified trusted trusted_voters new vals voters trusting_period now drift numerator
          denominator
  unfolding verify_header
  verify_header-Verified trusted trusted_voters new vals voters trusting_period now drift numerator
        denominator e =
      elim (Bool-cases (eqb_ℤ new.head.height (trusted.head.height +ℤ pos 1))) [
        | inl adjacent ↦
            let (fresh, h, same, signed) =
              verify_adjacent-none trusted new vals voters trusting_period now drift (
                sym (
                  ap
                    (λ (b : Bool).
                      if not b
                      then verify_non_adjacent c trusted trusted_voters new vals voters
                          trusting_period now drift numerator denominator
                      else verify_adjacent c trusted new vals voters trusting_period now drift)
                    adjacent)
                ∙ e) in
            record {
              not_expired = fresh;
              higher = h.higher;
              later = h.later;
              not_future = h.not_future;
              own_validators = h.own_validators;
              own_voters = h.own_voters;
              for_chain = h.for_chain;
              signed =
                  new_voters_signed-none c trusted new voters h.for_chain.commit h.for_chain.present
                    signed;
              linked = inl same;
            }
        | inr apart ↦
            let (fresh, h, trusting, signed) =
              verify_non_adjacent-none trusted new trusted_voters vals voters trusting_period now
                drift numerator denominator
                (sym (
                    ap
                      (λ (b : Bool).
                        if not b
                        then verify_non_adjacent c trusted trusted_voters new vals voters
                            trusting_period now drift numerator denominator
                        else verify_adjacent c trusted new vals voters trusting_period now drift)
                      apart)
                  ∙ e) in
            record {
              not_expired = fresh;
              higher = h.higher;
              later = h.later;
              not_future = h.not_future;
              own_validators = h.own_validators;
              own_voters = h.own_voters;
              for_chain = h.for_chain;
              signed =
                  new_voters_signed-none c trusted new voters h.for_chain.commit h.for_chain.present
                    signed;
              linked = inr (
                  trusted_voters_signed-none c trusted new trusted_voters numerator denominator
                    h.for_chain.commit h.for_chain.present trusting);
            }
      ]
