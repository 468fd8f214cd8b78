-- ===== src/Privval/SignProposal.antt =====
-- What SignProposal of privval/file.go releases.
use ostracon.Prelude.{
  ◌≡◌, refl, sym, subst, ◌∙◌, inl, inr, Bool, Option, none, some, arith, Bytes, if◌then◌else◌,
}
use mathlib.Core.Path.{subst₂}
use ostracon.Prelude.Run.{Run, ok, ◌>>=◌, >>=-returns, or_panic-ok}
use ostracon.Types.Vote.{Proposal, Proposal}
use ostracon.Types.Canonical.{
  CanonicalProposal, CanonicalProposal, canonicalize_proposal, canonicalize_proposal,
}
use ostracon.Privval.State.{
  SignError, step_propose, Before, Same, Checked, fresh, refused, unsigned, unmatched, repeated,
  check_hrs-Checked,
}
use ostracon.Privval.Sign.{
  Env, RoundTrips, FilePv, proposal_sign_bytes, proposal_sign_bytes, reuse_proposal, fresh_proposal,
  sign_proposal, reuse_proposal, fresh_proposal, sign_proposal,
}
use ostracon.Privval.Release.{Encodes, IsSigned, Released, Released-IsSigned, save_signed-ok}
use ostracon.Privval.Proposals.{reuse_proposal-ok, fresh_proposal-ok}

module _ (e : Env) where
  proposal_sign_bytes-ok :
      (chain : Bytes) (v : Proposal) {b : Bytes}
      → proposal_sign_bytes e chain v ≡ ok b
      → (c : CanonicalProposal) × (canonicalize_proposal chain v ≡ ok c)
        × (e.marshal_proposal c ≡ some b)
  unfolding proposal_sign_bytes
  proposal_sign_bytes-ok chain v h =
      let (c, canon, m) = >>=-returns (canonicalize_proposal chain v) _ h in
      (c, canon, or_panic-ok (e.marshal_proposal c) m)

  -- What SignProposal returns without an error: a proposal of the same height and round, whose
  -- signature is released over the sign bytes of that proposal.
  pub record ProposalReleased (pv : FilePv) (chain : Bytes) (v : Proposal) (pv' : FilePv)
      (v' : Proposal) (bytes : Bytes) : Type 0 where
    pub height : v'.height ≡ v.height
    pub round : v'.round ≡ v.round
    pub covers : proposal_sign_bytes e chain v' ≡ ok bytes
    pub released : Released e pv v'.height v'.round step_propose bytes v'.signature pv'
    pub encodes : Encodes e pv'.last

  fresh_proposal-Released :
      (pv : FilePv) (chain : Bytes) (v : Proposal) (bytes : Bytes) {pv' : FilePv} {v' : Proposal}
      → Before pv.last v.height v.round step_propose
      → proposal_sign_bytes e chain v ≡ ok bytes
      → fresh_proposal e pv v bytes ≡ ok (pv', v', none)
      → ProposalReleased pv chain v pv' v' bytes
  unfolding proposal_sign_bytes canonicalize_proposal
  fresh_proposal-Released pv chain v bytes before covers h =
      let (sig, saved, eq, key) = fresh_proposal-ok e pv v bytes h in
      let state = save_signed-ok e pv v.height v.round step_propose bytes sig saved in
      let (c, canon, enc) = proposal_sign_bytes-ok chain v covers in
      subst₂ (λ p w. ProposalReleased pv chain v p w bytes) (sym state) eq
        (record {
          height = refl;
          round = refl;
          covers = covers;
          released = record {
            at = (refl, refl, refl);
            stored = refl;
            signed = refl;
            moved = inr (before, refl, key);
            present = (sig, refl);
          };
          encodes = record {
            votes = λ b k s. absurd (elim s [ inl p ↦ ground arith | inr p ↦ ground arith ]);
            proposals = λ b k s. (c, enc ∙ k);
          };
        })

  reuse_proposal-Released :
      (laws : RoundTrips e) (pv : FilePv) (chain : Bytes) (v : Proposal) (bytes stored sig : Bytes)
      {pv' : FilePv} {v' : Proposal}
      → Encodes e pv.last
      → Same pv.last v.height v.round step_propose
      → pv.last.sign_bytes ≡ some stored
      → pv.last.signature ≡ some sig
      → proposal_sign_bytes e chain v ≡ ok bytes
      → reuse_proposal e pv v bytes ≡ ok (pv', v', none)
      → ProposalReleased pv chain v pv' v' stored
  reuse_proposal-Released laws pv chain v bytes stored sig {pv'} {v'} encodes same kept held covers
        h =
      let (c, canon, enc) = proposal_sign_bytes-ok chain v covers in
      let (o, enc_o) = encodes.proposals stored kept same.2 in
      let (kept_pv, r) =
        reuse_proposal-ok e laws pv chain v o c stored bytes enc_o enc kept canon h in
      subst (λ p. ProposalReleased pv chain v p v' stored) kept_pv
        (record {
          height = r.height;
          round = r.round;
          covers = r.covers;
          released = record {
            at = (same.0 ∙ sym r.height, same.1 ∙ sym r.round, same.2);
            stored = kept;
            signed = sym r.signature;
            moved = inl refl;
            present = (sig, r.signature ∙ held);
          };
          encodes = encodes;
        })

  -- What SignProposal returns with no error, without what is known of the stored signature.
  pub sign_proposal-ProposalReleased :
      (laws : RoundTrips e) (pv : FilePv) (chain : Bytes) (v : Proposal) {pv' : FilePv}
      {v' : Proposal}
      → Encodes e pv.last
      → sign_proposal e pv chain v ≡ ok (pv', v', none)
      → (bytes : Bytes) × ProposalReleased pv chain v pv' v' bytes
  unfolding sign_proposal
  sign_proposal-ProposalReleased laws pv chain v {pv'} {v'} encodes h =
      checked (check_hrs-Checked pv.last v.height v.round step_propose) h
    where
      cont : Bool × Option SignError → Run (FilePv × Proposal × Option SignError)
      cont (same, err) = elim err [
        | some x ↦ ok (pv, v, some x)
        | none ↦ proposal_sign_bytes e chain v >>= λ bytes.
            if same then reuse_proposal e pv v bytes else fresh_proposal e pv v bytes
      ]

      checked :
          {r : Run (Bool × Option SignError)}
          → Checked pv.last v.height v.round step_propose r
          → (r >>= cont) ≡ ok (pv', v', none)
          → (bytes : Bytes) × ProposalReleased pv chain v pv' v' bytes
      checked (refused x _) g = absurd (ground arith)
      checked (fresh before) g =
          let (bytes, covers, r) =
            >>=-returns (proposal_sign_bytes e chain v) (fresh_proposal e pv v) g in
          (bytes, fresh_proposal-Released pv chain v bytes before covers r)
      checked (unsigned _ _) g = absurd (ground arith)
      checked (unmatched _ _ _ _) g = absurd (ground arith)
      checked (repeated b s at kept held) g =
          let (bytes, covers, r) =
            >>=-returns (proposal_sign_bytes e chain v) (reuse_proposal e pv v) g in
          (b, reuse_proposal-Released laws pv chain v bytes b s encodes at kept held covers r)

  -- Where the stored sign bytes encode a message of the stored kind and the stored signature is the
  -- key's signature of them, a proposal that SignProposal returns with no error carries the key's
  -- signature of its own sign bytes, at the position that is stored afterwards; the position moved
  -- forward, and is on disk, unless the state is unchanged; and the stored signature afterwards is
  -- the key's signature of the stored sign bytes.
  pub sign_proposal-Released :
      (laws : RoundTrips e) (pv : FilePv) (chain : Bytes) (v : Proposal) {pv' : FilePv}
      {v' : Proposal}
      → Encodes e pv.last
      → IsSigned e pv.last
      → sign_proposal e pv chain v ≡ ok (pv', v', none)
      → (bytes : Bytes) × (sig : Bytes) × ProposalReleased pv chain v pv' v' bytes
        × (e.sign bytes ≡ some sig)
        × (v'.signature ≡ some sig)
        × IsSigned e pv'.last
  sign_proposal-Released laws pv chain v {pv'} {v'} encodes signed h =
      let (bytes, rel) = sign_proposal-ProposalReleased laws pv chain v encodes h in
      let (sig, has) = rel.released.present in
      let (made, after) =
        Released-IsSigned e pv v'.height v'.round step_propose bytes v'.signature pv' rel.released
          signed in
      (bytes, sig, rel, made ∙ has, has, after)
