-- ===== src/Privval/Sign.antt =====
-- FilePV of privval/file.go: signVote and signProposal, with the state file as a field.
use ostracon.Prelude.{◌≡◌, Bool, Option, none, some, Bytes, bytes_eq, length, ◌==◌, if◌then◌else◌}
use ostracon.Prelude.Int.{ℤ, pos}
use ostracon.Prelude.Run.{Run, ok, panic, ◌>>=◌, or_panic}
use ostracon.Types.Vote.{Vote, Proposal, contents}
use ostracon.Types.Canonical.{
  CanonicalVote, CanonicalProposal, canonicalize_vote, canonicalize_proposal, vote_equal,
  proposal_equal,
}
use ostracon.Privval.State.{
  LastSignState, SignError, conflicting_data, sign_failed, check_hrs, vote_to_step, step_propose,
  step_none,
}

-- What the signer calls: the length-delimited protobuf encodings, the private key, the clock and
-- the atomic file write. An encoding or a signature that fails is `none`.
pub record Env : Type 0 where
  pub marshal_vote : CanonicalVote → Option Bytes
  pub unmarshal_vote : Bytes → Option CanonicalVote
  pub marshal_proposal : CanonicalProposal → Option Bytes
  pub unmarshal_proposal : Bytes → Option CanonicalProposal
  pub sign : Bytes → Option Bytes
  pub now : ℤ
  pub write_succeeds : LastSignState → Bool

-- Decoding an encoded message gives it back.
pub record RoundTrips (e : Env) : Type 0 where
  pub vote :
      (c : CanonicalVote) (b : Bytes) → e.marshal_vote c ≡ some b → e.unmarshal_vote b ≡ some c
  pub proposal :
      (c : CanonicalProposal) (b : Bytes)
      → e.marshal_proposal c ≡ some b
      → e.unmarshal_proposal b ≡ some c

-- The state in memory, and what the state file holds.
pub record FilePv : Type 0 where
  pub last : LastSignState
  pub disk : LastSignState

module _ (e : Env) where
  -- VoteSignBytes and ProposalSignBytes of types panic where the encoding fails.
  unfoldable pub vote_sign_bytes : Bytes → Vote → Run Bytes
  vote_sign_bytes chain v = canonicalize_vote chain v >>= λ c. or_panic (e.marshal_vote c)

  unfoldable pub proposal_sign_bytes : Bytes → Proposal → Run Bytes
  proposal_sign_bytes chain p =
      canonicalize_proposal chain p >>= λ c. or_panic (e.marshal_proposal c)

  -- checkVotesOnlyDifferByTimestamp
  unfoldable pub votes_only_differ : Bytes → Bytes → Run (ℤ × Bool)
  votes_only_differ last_bytes new_bytes = elim (e.unmarshal_vote last_bytes) [
    | none ↦ panic
    | some last ↦ elim (e.unmarshal_vote new_bytes) [
      | none ↦ panic
      | some new ↦ ok (
        last.timestamp,
        vote_equal (record new { timestamp = e.now }) (record last { timestamp = e.now }),
      )
    ]
  ]

  -- checkProposalsOnlyDifferByTimestamp
  unfoldable pub proposals_only_differ : Bytes → Bytes → Run (ℤ × Bool)
  proposals_only_differ last_bytes new_bytes = elim (e.unmarshal_proposal last_bytes) [
    | none ↦ panic
    | some last ↦ elim (e.unmarshal_proposal new_bytes) [
      | none ↦ panic
      | some new ↦ ok (
        last.timestamp,
        proposal_equal (record new { timestamp = e.now }) (record last { timestamp = e.now }),
      )
    ]
  ]

  -- LastSignState.Save
  unfoldable pub save : FilePv → Run FilePv
  save pv =
      if length pv.last.file_path == 0
      then panic
      else if e.write_succeeds pv.last
      then ok (record pv { disk = pv.last })
      else panic

  unfoldable pub save_signed : FilePv → ℤ → ℤ → ℤ → Bytes → Bytes → Run FilePv
  unfolding save
  save_signed pv height round step sign_bytes sig = save (record pv {
    last = record pv.last {
      height = height;
      round = round;
      step = step;
      signature = some sig;
      sign_bytes = some sign_bytes;
    };
  })

  -- The branch of signVote for the height, round and step that were signed last.
  unfoldable pub reuse_vote : FilePv → Vote → Bytes → Run (FilePv × Vote × Option SignError)
  reuse_vote pv v bytes =
      if bytes_eq bytes (contents pv.last.sign_bytes)
      then ok (pv, record v { signature = pv.last.signature }, none)
      else (votes_only_differ (contents pv.last.sign_bytes) bytes >>= λ (timestamp, only).
          if only
          then ok (pv, record v { timestamp = timestamp; signature = pv.last.signature }, none)
          else ok (pv, v, some conflicting_data))

  unfoldable pub fresh_vote : FilePv → Vote → ℤ → Bytes → Run (FilePv × Vote × Option SignError)
  fresh_vote pv v step bytes = elim (e.sign bytes) [
    | none ↦ ok (pv, v, some sign_failed)
    | some sig ↦ save_signed pv v.height v.round step bytes sig >>= λ pv'.
        ok (pv', record v { signature = some sig }, none)
  ]

  unfoldable pub sign_vote : FilePv → Bytes → Vote → Run (FilePv × Vote × Option SignError)
  sign_vote pv chain v = vote_to_step v.type >>= λ step.
      check_hrs pv.last v.height v.round step >>= λ (same, err). elim err [
        | some x ↦ ok (pv, v, some x)
        | none ↦ vote_sign_bytes chain v >>= λ bytes.
            if same then reuse_vote pv v bytes else fresh_vote pv v step bytes
      ]

  unfoldable pub reuse_proposal :
      FilePv → Proposal → Bytes → Run (FilePv × Proposal × Option SignError)
  reuse_proposal pv p bytes =
      if bytes_eq bytes (contents pv.last.sign_bytes)
      then ok (pv, record p { signature = pv.last.signature }, none)
      else (proposals_only_differ (contents pv.last.sign_bytes) bytes >>= λ (timestamp, only).
          if only
          then ok (pv, record p { timestamp = timestamp; signature = pv.last.signature }, none)
          else ok (pv, p, some conflicting_data))

  unfoldable pub fresh_proposal :
      FilePv → Proposal → Bytes → Run (FilePv × Proposal × Option SignError)
  fresh_proposal pv p bytes = elim (e.sign bytes) [
    | none ↦ ok (pv, p, some sign_failed)
    | some sig ↦ save_signed pv p.height p.round step_propose bytes sig >>= λ pv'.
        ok (pv', record p { signature = some sig }, none)
  ]

  unfoldable pub sign_proposal :
      FilePv → Bytes → Proposal → Run (FilePv × Proposal × Option SignError)
  sign_proposal pv chain p = check_hrs pv.last p.height p.round step_propose >>= λ (same, err).
      elim err [
        | some x ↦ ok (pv, p, some x)
        | none ↦ proposal_sign_bytes chain p >>= λ bytes.
            if same then reuse_proposal pv p bytes else fresh_proposal pv p bytes
      ]

  -- Reset, which is marked unsafe.
  unfoldable pub reset : FilePv → Run FilePv
  unfolding save
  reset pv = save (record pv {
    last = record pv.last {
      height = pos 0;
      round = pos 0;
      step = pos 0;
      signature = none;
      sign_bytes = none;
    };
  })

-- loadFilePV with its state: what the state file holds becomes the state in memory.
unfoldable pub load : FilePv → FilePv
load pv = record pv { last = record pv.disk { file_path = pv.last.file_path } }

-- The state of NewFilePV.
unfoldable pub new_last_sign_state : Bytes → LastSignState
new_last_sign_state path = record {
  height = pos 0;
  round = pos 0;
  step = step_none;
  signature = none;
  sign_bytes = none;
  file_path = path;
}
