-- ===== src/Privval/Errors.antt =====
-- A call of the signer that returns an error leaves the state as it was.
use ostracon.Prelude.{◌≡◌, Bool, true, false, Option, none, some, arith, Bytes, if◌then◌else◌}
use ostracon.Prelude.Int.{ℤ}
use ostracon.Prelude.Run.{Run, ok, ◌>>=◌, >>=-returns}
use ostracon.Types.Vote.{Vote, Proposal}
use ostracon.Privval.State.{SignError, check_hrs, vote_to_step, step_propose}
use ostracon.Privval.Sign.{
  Env, FilePv, vote_sign_bytes, proposal_sign_bytes, reuse_vote, fresh_vote, sign_vote,
  reuse_proposal, fresh_proposal, sign_proposal,
}

module _ (e : Env) where
  reuse_vote-error :
      (pv : FilePv) (v : Vote) (b : Bytes) {pv' : FilePv} {v' : Vote} {x : SignError}
      → reuse_vote e pv v b ≡ ok (pv', v', some x)
      → (pv' ≡ pv) × (v' ≡ v)
  unfolding reuse_vote
  reuse_vote-error pv v b h = ground arith

  fresh_vote-error :
      (pv : FilePv) (v : Vote) (s : ℤ) (b : Bytes) {pv' : FilePv} {v' : Vote} {x : SignError}
      → fresh_vote e pv v s b ≡ ok (pv', v', some x)
      → (pv' ≡ pv) × (v' ≡ v)
  unfolding fresh_vote
  fresh_vote-error pv v s b h = ground arith

  -- SignVote changes neither the state nor the vote where it returns an error.
  pub sign_vote-error :
      (pv : FilePv) (chain : Bytes) (v : Vote) {pv' : FilePv} {v' : Vote} {x : SignError}
      → sign_vote e pv chain v ≡ ok (pv', v', some x)
      → (pv' ≡ pv) × (v' ≡ v)
  unfolding sign_vote
  sign_vote-error pv chain v {pv'} {v'} {x} h =
      let (step, _, h1) = >>=-returns (vote_to_step v.type) _ h in
      let (r, _, h2) = >>=-returns (check_hrs pv.last v.height v.round step) _ h1 in
      go step r.0 r.1 h2
    where
      go :
          (step : ℤ) (reuse : Bool) (err : Option SignError)
          → (elim err as (λ _. Run (FilePv × Vote × Option SignError)) [
            | some y ↦ ok (pv, v, some y)
            | none ↦ vote_sign_bytes e chain v >>= λ bytes.
                if reuse then reuse_vote e pv v bytes else fresh_vote e pv v step bytes
          ])
            ≡ ok (pv', v', some x)
          → (pv' ≡ pv) × (v' ≡ v)
      go step reuse (some y) g = ground arith
      go step true none g =
          let (b, _, r) = >>=-returns (vote_sign_bytes e chain v) (reuse_vote e pv v) g in
          reuse_vote-error pv v b r
      go step false none g =
          let (b, _, r) = >>=-returns (vote_sign_bytes e chain v) (fresh_vote e pv v step) g in
          fresh_vote-error pv v step b r

  reuse_proposal-error :
      (pv : FilePv) (v : Proposal) (b : Bytes) {pv' : FilePv} {v' : Proposal} {x : SignError}
      → reuse_proposal e pv v b ≡ ok (pv', v', some x)
      → (pv' ≡ pv) × (v' ≡ v)
  unfolding reuse_proposal
  reuse_proposal-error pv v b h = ground arith

  fresh_proposal-error :
      (pv : FilePv) (v : Proposal) (b : Bytes) {pv' : FilePv} {v' : Proposal} {x : SignError}
      → fresh_proposal e pv v b ≡ ok (pv', v', some x)
      → (pv' ≡ pv) × (v' ≡ v)
  unfolding fresh_proposal
  fresh_proposal-error pv v b h = ground arith

  -- SignProposal changes neither the state nor the proposal where it returns an error.
  pub sign_proposal-error :
      (pv : FilePv) (chain : Bytes) (v : Proposal) {pv' : FilePv} {v' : Proposal} {x : SignError}
      → sign_proposal e pv chain v ≡ ok (pv', v', some x)
      → (pv' ≡ pv) × (v' ≡ v)
  unfolding sign_proposal
  sign_proposal-error pv chain v {pv'} {v'} {x} h =
      let (r, _, h2) = >>=-returns (check_hrs pv.last v.height v.round step_propose) _ h in
      go r.0 r.1 h2
    where
      go :
          (reuse : Bool) (err : Option SignError)
          → (elim err as (λ _. Run (FilePv × Proposal × Option SignError)) [
            | some y ↦ ok (pv, v, some y)
            | none ↦ proposal_sign_bytes e chain v >>= λ bytes.
                if reuse then reuse_proposal e pv v bytes else fresh_proposal e pv v bytes
          ])
            ≡ ok (pv', v', some x)
          → (pv' ≡ pv) × (v' ≡ v)
      go reuse (some y) g = ground arith
      go true none g =
          let (b, _, r) = >>=-returns (proposal_sign_bytes e chain v) (reuse_proposal e pv v) g in
          reuse_proposal-error pv v b r
      go false none g =
          let (b, _, r) = >>=-returns (proposal_sign_bytes e chain v) (fresh_proposal e pv v) g in
          fresh_proposal-error pv v b r
