-- ===== src/Light/Signed.antt =====
-- What the verification of commits has shown where it gives no error.
use ostracon.Prelude.{ℕ, ◌≡◌, inl, inr, refl, sym, ap, ◌∙◌, Option, none, some, arith, Option-cases}
use ostracon.Prelude.Run.{Run, ok, panic, ◌>>=◌, >>=-returns}
use ostracon.Types.Header.{SignedHeader}
use ostracon.Types.Commit.{Commit}
use ostracon.Votes.Voters.{VoterSet}
use ostracon.Commits.Slot.{
  CommitError, wrong_size, wrong_height, wrong_commit_block, wrong_signature, omitted_signature,
  wrong_aggregate, not_enough, zero_denominator, weight_overflow, double_vote,
}
use ostracon.Commits.Verify.{verify_commit_light, verify_commit_light_trusting}
use ostracon.Light.Verifier.{
  Calls, LightError, invalid_new_header, cannot_be_trusted, commit_refused, not_signed,
  new_voters_signed, trusted_voters_signed,
}

module _ (c : Calls) where
  pub new_voters_signed-none :
      (trusted new : SignedHeader) (voters : VoterSet) (commit : Commit)
      → new.commit ≡ some commit
      → new_voters_signed c trusted new voters ≡ ok none
      → (after : VoterSet) × (verify_commit_light c.crypto c.bls voters trusted.head.chain_id
            commit.block_id new.head.height commit
          ≡ ok (after, none))
  unfolding new_voters_signed
  new_voters_signed-none trusted new voters commit here e =
      let ((after, x), run, e1) =
        >>=-returns
          (verify_commit_light c.crypto c.bls voters trusted.head.chain_id commit.block_id
            new.head.height commit)
          report (sym (ap after_commit here) ∙ e) in
      (
        after,
        elim (Option-cases x) [
          | inl none_left ↦ run ∙ ap (λ t. ok (after, t)) none_left
          | inr (y, wrong) ↦
              let both : ok (some (invalid_new_header (not_signed y))) ≡ ok none =
                sym (ap (λ t. report (after, t)) wrong) ∙ e1 in
              absurd (ground arith)
        ],
      )
    where
      error_of : Option CommitError → Option LightError
      error_of none = none
      error_of (some x) = some (invalid_new_header (not_signed x))

      report : VoterSet × Option CommitError → Run (Option LightError)
      report (after, x) = ok (error_of x)

      after_commit : Option Commit → Run (Option LightError)
      after_commit none = panic
      after_commit (some commit') =
          verify_commit_light c.crypto c.bls voters trusted.head.chain_id commit'.block_id
            new.head.height commit'
          >>= report

  pub trusted_voters_signed-none :
      (trusted new : SignedHeader) (voters : VoterSet) (numerator denominator : ℕ) (commit : Commit)
      → new.commit ≡ some commit
      → trusted_voters_signed c trusted voters new numerator denominator ≡ ok none
      → (after : VoterSet) × (verify_commit_light_trusting c.crypto c.bls voters
            trusted.head.chain_id commit numerator denominator
          ≡ ok (after, none))
  unfolding trusted_voters_signed
  trusted_voters_signed-none trusted new voters numerator denominator commit here e =
      let ((after, x), run, e1) =
        >>=-returns
          (verify_commit_light_trusting c.crypto c.bls voters trusted.head.chain_id commit numerator
            denominator)
          report (sym (ap after_commit here) ∙ e) in
      (after, run ∙ ap (λ t. ok (after, t)) (no_error x e1))
    where
      error_of : Option CommitError → Option LightError
      error_of none = none
      error_of (some (not_enough got needed)) = some (cannot_be_trusted (not_enough got needed))
      error_of (some x) = some (commit_refused x)

      report : VoterSet × Option CommitError → Run (Option LightError)
      report (after, x) = ok (error_of x)

      after_commit : Option Commit → Run (Option LightError)
      after_commit none = panic
      after_commit (some commit') =
          verify_commit_light_trusting c.crypto c.bls voters trusted.head.chain_id commit' numerator
            denominator
          >>= report

      some_error : (x : CommitError) → error_of (some x) ≡ none → ⊥
      some_error wrong_size h = cc
      some_error wrong_height h = cc
      some_error wrong_commit_block h = cc
      some_error (wrong_signature i) h = cc
      some_error (omitted_signature i) h = cc
      some_error (wrong_aggregate a) h = cc
      some_error (not_enough got needed) h = cc
      some_error zero_denominator h = cc
      some_error weight_overflow h = cc
      some_error (double_vote i j) h = cc

      no_error : (x : Option CommitError) → ok (error_of x) ≡ ok none → x ≡ none
      no_error none h = refl
      no_error (some x) h = elim (Option-cases (error_of (some x))) [
        | inl nothing ↦ absurd (some_error x nothing)
        | inr (y, there) ↦ absurd (ground arith)
      ]
