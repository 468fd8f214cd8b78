-- ===== src/Privval/Proposals.antt =====
-- What SignProposal of privval/file.go releases.
use ostracon.Prelude.{
  ◌≡◌, refl, ap, subst, ◌∙◌, Bool, true, false, Option, none, some, arith, Bytes, bytes_eq,
  bytes_eq→eq, if◌then◌else◌,
}
use ostracon.Prelude.Int.{ℤ}
use ostracon.Prelude.Run.{Run, ok, ◌>>=◌, >>=-returns, or_panic}
use ostracon.Types.Vote.{Proposal, Proposal, contents}
use ostracon.Types.Canonical.{
  CanonicalProposal, CanonicalProposal, canonicalize_block_id, canonicalize_proposal,
  canonicalize_proposal, proposal_equal, proposal_equal, proposal_equal→eq, proposal_equal→eq,
}
use ostracon.Privval.State.{SignError, conflicting_data, sign_failed, step_propose}
use ostracon.Privval.Sign.{
  Env, RoundTrips, FilePv, proposal_sign_bytes, proposal_sign_bytes, proposals_only_differ,
  proposals_only_differ, save_signed, reuse_proposal, fresh_proposal, reuse_proposal,
  fresh_proposal,
}
use ostracon.Privval.Release.{ok_done}

canonicalize_proposal-retime :
    (chain : Bytes) (v : Proposal) (t : ℤ) (s : Option Bytes) {c : CanonicalProposal}
    → canonicalize_proposal chain v ≡ ok c
    → canonicalize_proposal chain (record v { timestamp = t; signature = s })
      ≡ ok (record c { timestamp = t })
unfolding canonicalize_proposal
canonicalize_proposal-retime chain v t s h =
    let (b, e, f) = >>=-returns (canonicalize_block_id v.block_id) _ h in rw e (ground arith)

module _ (e : Env) where
  abbrev retimed : CanonicalProposal → CanonicalProposal
  retimed c = record c { timestamp = e.now }

  proposals_only_differ-ok :
      (laws : RoundTrips e) (last new : CanonicalProposal) (lb nb : Bytes)
      → e.marshal_proposal last ≡ some lb
      → e.marshal_proposal new ≡ some nb
      → proposals_only_differ e lb nb
        ≡ ok (last.timestamp, proposal_equal (retimed new) (retimed last))
  unfolding proposals_only_differ
  proposals_only_differ-ok laws last new lb nb le ne =
      rw (laws.proposal last lb le, laws.proposal new nb ne, proposals_only_differ)

  retime_eq :
      (last new : CanonicalProposal)
      → proposal_equal (retimed new) (retimed last) ≡ true
      → record new { timestamp = last.timestamp } ≡ last
  retime_eq last new o =
      ap (λ (c : CanonicalProposal). record c { timestamp = last.timestamp })
        (proposal_equal→eq _ _ o)

  -- What a reused signature stands for.
  pub record ReusedProposal (chain : Bytes) (v : Proposal) (stored : Bytes) (sig : Option Bytes)
      (v' : Proposal) : Type 0 where
    pub covers : proposal_sign_bytes e chain v' ≡ ok stored
    pub signature : v'.signature ≡ sig
    pub height : v'.height ≡ v.height
    pub round : v'.round ≡ v.round

  pub reuse_proposal-ok :
      (laws : RoundTrips e) (pv : FilePv) (chain : Bytes) (v : Proposal)
      (stored new : CanonicalProposal) (sb nb : Bytes) {pv' : FilePv} {v' : Proposal}
      → e.marshal_proposal stored ≡ some sb
      → e.marshal_proposal new ≡ some nb
      → pv.last.sign_bytes ≡ some sb
      → canonicalize_proposal chain v ≡ ok new
      → reuse_proposal e pv v nb ≡ ok (pv', v', none)
      → (pv ≡ pv') × ReusedProposal chain v sb pv.last.signature v'
  unfolding reuse_proposal proposal_sign_bytes canonicalize_proposal
  reuse_proposal-ok laws pv chain v stored new sb nb {pv'} {v'} se ne kept canon h =
      go _ _ refl refl
        (rw (ap contents kept, proposals_only_differ-ok laws stored new sb nb se ne) at h)
    where
      go :
          (a b : Bool)
          → bytes_eq nb sb ≡ a
          → proposal_equal (retimed new) (retimed stored) ≡ b
          → ◌≡◌ {A = Run (FilePv × Proposal × Option SignError)}
              (if a
                then ok (pv, record v { signature = pv.last.signature }, none)
                else if b
                then ok (
                  pv,
                  record v { timestamp = stored.timestamp; signature = pv.last.signature },
                  none,
                )
                else ok (pv, v, some conflicting_data))
              (ok (pv', v', none))
          → (pv ≡ pv') × ReusedProposal chain v sb pv.last.signature v'
      go true b same _ g =
          let d = ok_done g in
          (
            d.0,
            subst (ReusedProposal chain v sb pv.last.signature) d.1 (record {
              covers = rw (canon, ne) (ap ok (bytes_eq→eq _ _ same));
              signature = refl;
              height = refl;
              round = refl;
            }),
          )
      go false true _ only g =
          let d = ok_done g in
          (
            d.0,
            subst (ReusedProposal chain v sb pv.last.signature) d.1 (record {
              covers =
                  rw (canonicalize_proposal-retime chain v stored.timestamp pv.last.signature canon)
                    (ap (λ (c : CanonicalProposal). or_panic (e.marshal_proposal c))
                        (retime_eq stored new only)
                      ∙ ap or_panic se);
              signature = refl;
              height = refl;
              round = refl;
            }),
          )
      go false false _ _ g = absurd (ground arith)

  pub fresh_proposal-ok :
      (pv : FilePv) (v : Proposal) (bytes : Bytes) {pv' : FilePv} {v' : Proposal}
      → fresh_proposal e pv v bytes ≡ ok (pv', v', none)
      → (sig : Bytes) × (save_signed e pv v.height v.round step_propose bytes sig ≡ ok pv')
        × (record v { signature = some sig } ≡ v')
        × (e.sign bytes ≡ some sig)
  unfolding fresh_proposal
  fresh_proposal-ok pv v bytes {pv'} {v'} h = go (e.sign bytes) refl h
    where
      go :
          (o : Option Bytes)
          → e.sign bytes ≡ o
          → (elim o as (λ _. Run (FilePv × Proposal × Option SignError)) [
            | none ↦ ok (pv, v, some sign_failed)
            | some sig ↦ save_signed e pv v.height v.round step_propose bytes sig >>= λ p.
                ok (p, record v { signature = some sig }, none)
          ])
            ≡ ok (pv', v', none)
          → (sig : Bytes) × (save_signed e pv v.height v.round step_propose bytes sig ≡ ok pv')
            × (record v { signature = some sig } ≡ v')
            × (e.sign bytes ≡ some sig)
      go none _ g = absurd (ground arith)
      go (some sig) key g =
          let (p, saved, done) =
            >>=-returns (save_signed e pv v.height v.round step_propose bytes sig)
              (λ (p : FilePv). ok (p, record v { signature = some sig }, none)) g in
          let d = ok_done done in (sig, saved ∙ ap ok d.0, d.1, key)
