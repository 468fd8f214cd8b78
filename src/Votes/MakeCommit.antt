-- ===== src/Votes/MakeCommit.antt =====
-- MakeCommit of types/vote_set.go, and AggregateSignatures of types/block.go. The size of a BLS
-- signature and the addition of two of them are parameters; an addition that fails is `none`.
use ostracon.Prelude.{
  ℕ, Bool, false, not, ◌&&◌, List, [], ◌∷◌, Option, none, some, Bytes, length, ◌==◌, if◌then◌else◌,
}
use ostracon.Prelude.Run.{Run, ok, panic, ◌>>=◌}
use ostracon.Types.BlockId.{BlockId, equals}
use ostracon.Types.Vote.{Vote, contents, precommit_type}
use ostracon.Types.Commit.{
  CommitSig, Commit, absent_sig, for_block, is_absent, commit_sig, new_commit,
}
use ostracon.Votes.VoteSet.{VoteSet}

-- Whether a vote that may be nil is for the block.
unfoldable pub vote_is_for : Option Vote → BlockId → Bool
vote_is_for none maj = false
vote_is_for (some v) maj = equals v.block_id maj

-- One round of the loop of MakeCommit.
unfoldable pub commit_slot : BlockId → Option Vote → Run CommitSig
unfolding vote_is_for
commit_slot maj v = commit_sig v >>= λ cs. elim cs.signature [
  | none ↦
      if not (is_absent cs)
      then panic
      else if for_block cs && not (vote_is_for v maj)
      then ok absent_sig
      else ok cs
  | some sig ↦ if for_block cs && not (vote_is_for v maj) then ok absent_sig else ok cs
]

unfoldable pub commit_slots : BlockId → List (Option Vote) → Run (List CommitSig)
unfolding commit_slot
commit_slots maj [] = ok []
commit_slots maj (v ∷ votes) =
    commit_slot maj v >>= λ cs. commit_slots maj votes >>= λ rest. ok (cs ∷ rest)

module _ (bls_size : ℕ) (add_signature : Bytes → Bytes → Option Bytes) where
  -- The signature that one step of the loop takes in.
  unfoldable pub aggregate_one : Option Bytes → Bytes → Run (Option Bytes)
  aggregate_one none sig = ok (some sig)
  aggregate_one (some sum) sig = elim (add_signature sum sig) [
    | none ↦ panic
    | some s ↦ ok (some s)
  ]

  unfoldable pub aggregate_from :
      Option Bytes → List CommitSig → Run (Option Bytes × List CommitSig)
  unfolding aggregate_one
  aggregate_from sum [] = ok (sum, [])
  aggregate_from sum (cs ∷ sigs) =
      if not (is_absent cs) && (length (contents cs.signature) == bls_size)
      then (aggregate_one sum (contents cs.signature) >>= λ sum'.
          aggregate_from sum' sigs >>= λ (s, rest). ok (s, record cs { signature = none } ∷ rest))
      else (aggregate_from sum sigs >>= λ (s, rest). ok (s, cs ∷ rest))

  unfoldable pub aggregate_signatures : Commit → Run Commit
  unfolding aggregate_from
  aggregate_signatures c = elim c.aggregated_signature [
    | some a ↦ panic
    | none ↦ aggregate_from none c.signatures >>= λ (s, sigs).
        ok (record c { aggregated_signature = s; signatures = sigs })
  ]

  unfoldable pub make_commit : VoteSet → Run Commit
  unfolding commit_slots aggregate_signatures
  make_commit s = if not (s.signed_msg_type == precommit_type) then panic else elim s.maj23 [
    | none ↦ panic
    | some maj ↦ commit_slots maj s.votes >>= λ sigs.
        aggregate_signatures (new_commit s.height s.round maj sigs)
  ]
