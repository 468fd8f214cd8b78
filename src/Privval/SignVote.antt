-- ===== src/Privval/SignVote.antt =====
-- What SignVote of privval/file.go releases.
use ostracon.Prelude.{
  ℕ, ◌≡◌, ◌⊎◌, refl, sym, ap, subst, ◌∙◌, inl, inr, Bool, Option, none, some, arith, Bytes,
  if◌then◌else◌,
}
use mathlib.Core.Path.{subst₂}
use ostracon.Prelude.Int.{ℤ}
use ostracon.Prelude.Run.{Run, ok, ◌>>=◌, >>=-returns, or_panic-ok}
use ostracon.Types.Vote.{Vote}
use ostracon.Types.Canonical.{CanonicalVote, canonicalize_vote}
use ostracon.Privval.State.{
  SignError, vote_to_step, step_prevote, step_precommit, Before, Same, Checked, fresh, refused,
  unsigned, unmatched, repeated, check_hrs-Checked,
}
use ostracon.Privval.Sign.{
  Env, RoundTrips, FilePv, vote_sign_bytes, reuse_vote, fresh_vote, sign_vote,
}
use ostracon.Privval.Release.{Encodes, IsSigned, Released, Released-IsSigned, save_signed-ok}
use ostracon.Privval.Votes.{reuse_vote-ok, fresh_vote-ok}

module _ (e : Env) where
  vote_sign_bytes-ok :
      (chain : Bytes) (v : Vote) {b : Bytes}
      → vote_sign_bytes e chain v ≡ ok b
      → (c : CanonicalVote) × (canonicalize_vote chain v ≡ ok c) × (e.marshal_vote c ≡ some b)
  unfolding vote_sign_bytes
  vote_sign_bytes-ok chain v h =
      let (c, canon, m) = >>=-returns (canonicalize_vote chain v) _ h in
      (c, canon, or_panic-ok (e.marshal_vote c) m)

  vote_to_step-ok :
      (type : ℕ) {step : ℤ}
      → vote_to_step type ≡ ok step
      → (step ≡ step_prevote) ⊎ (step ≡ step_precommit)
  unfolding vote_to_step
  vote_to_step-ok type h = ground arith

  -- What SignVote returns without an error: a vote of the same height, round and type, whose
  -- signature is released over the sign bytes of that vote.
  pub record VoteReleased (pv : FilePv) (chain : Bytes) (v : Vote) (pv' : FilePv) (v' : Vote)
      (step : ℤ) (bytes : Bytes) : Type 0 where
    pub height : v'.height ≡ v.height
    pub round : v'.round ≡ v.round
    pub type : v'.type ≡ v.type
    pub stepped : vote_to_step v'.type ≡ ok step
    pub covers : vote_sign_bytes e chain v' ≡ ok bytes
    pub released : Released e pv v'.height v'.round step bytes v'.signature pv'
    pub encodes : Encodes e pv'.last

  fresh_vote-Released :
      (pv : FilePv) (chain : Bytes) (v : Vote) (step : ℤ) (bytes : Bytes) {pv' : FilePv} {v' : Vote}
      → Before pv.last v.height v.round step
      → vote_to_step v.type ≡ ok step
      → vote_sign_bytes e chain v ≡ ok bytes
      → fresh_vote e pv v step bytes ≡ ok (pv', v', none)
      → VoteReleased pv chain v pv' v' step bytes
  unfolding vote_sign_bytes canonicalize_vote
  fresh_vote-Released pv chain v step bytes before stepped covers h =
      let (sig, saved, eq, key) = fresh_vote-ok e pv v step bytes h in
      let state = save_signed-ok e pv v.height v.round step bytes sig saved in
      let (c, canon, enc) = vote_sign_bytes-ok chain v covers in
      subst₂ (λ p w. VoteReleased pv chain v p w step bytes) (sym state) eq
        (record {
          height = refl;
          round = refl;
          type = refl;
          stepped = stepped;
          covers = covers;
          released = record {
            at = (refl, refl, refl);
            stored = refl;
            signed = refl;
            moved = inr (before, refl, key);
            present = (sig, refl);
          };
          encodes = record {
            votes = λ b k s. (c, enc ∙ k);
            proposals = λ b k s. absurd (elim (vote_to_step-ok v.type stepped) [
              | inl p ↦ ground arith
              | inr p ↦ ground arith
            ]);
          };
        })

  reuse_vote-Released :
      (laws : RoundTrips e) (pv : FilePv) (chain : Bytes) (v : Vote) (step : ℤ)
      (bytes stored sig : Bytes) {pv' : FilePv} {v' : Vote}
      → Encodes e pv.last
      → Same pv.last v.height v.round step
      → pv.last.sign_bytes ≡ some stored
      → pv.last.signature ≡ some sig
      → vote_to_step v.type ≡ ok step
      → vote_sign_bytes e chain v ≡ ok bytes
      → reuse_vote e pv v bytes ≡ ok (pv', v', none)
      → VoteReleased pv chain v pv' v' step stored
  reuse_vote-Released laws pv chain v step bytes stored sig {pv'} {v'} encodes same kept held
        stepped covers h =
      let (c, canon, enc) = vote_sign_bytes-ok chain v covers in
      let kind : (pv.last.step ≡ step_prevote) ⊎ (pv.last.step ≡ step_precommit) =
        elim (vote_to_step-ok v.type stepped) [
          | inl p ↦ inl (same.2 ∙ p)
          | inr p ↦ inr (same.2 ∙ p)
        ] in
      let (o, enc_o) = encodes.votes stored kept kind in
      let (kept_pv, r) = reuse_vote-ok e laws pv chain v o c stored bytes enc_o enc kept canon h in
      subst (λ p. VoteReleased pv chain v p v' step stored) kept_pv
        (record {
          height = r.height;
          round = r.round;
          type = r.type;
          stepped = ap vote_to_step r.type ∙ stepped;
          covers = r.covers;
          released = record {
            at = (same.0 ∙ sym r.height, same.1 ∙ sym r.round, same.2);
            stored = kept;
            signed = sym r.signature;
            moved = inl refl;
            present = (sig, r.signature ∙ held);
          };
          encodes = encodes;
        })

  -- What SignVote returns with no error, without what is known of the stored signature.
  pub sign_vote-VoteReleased :
      (laws : RoundTrips e) (pv : FilePv) (chain : Bytes) (v : Vote) {pv' : FilePv} {v' : Vote}
      → Encodes e pv.last
      → sign_vote e pv chain v ≡ ok (pv', v', none)
      → (step : ℤ) × (bytes : Bytes) × VoteReleased pv chain v pv' v' step bytes
  unfolding sign_vote
  sign_vote-VoteReleased laws pv chain v {pv'} {v'} encodes h =
      let (step, stepped, h1) = >>=-returns (vote_to_step v.type) _ h in
      checked step stepped (check_hrs-Checked pv.last v.height v.round step) h1
    where
      cont : ℤ → Bool × Option SignError → Run (FilePv × Vote × Option SignError)
      cont step (same, err) = elim err [
        | some x ↦ ok (pv, v, some x)
        | none ↦ vote_sign_bytes e chain v >>= λ bytes.
            if same then reuse_vote e pv v bytes else fresh_vote e pv v step bytes
      ]

      checked :
          (step : ℤ)
          → vote_to_step v.type ≡ ok step
          → {r : Run (Bool × Option SignError)} → Checked pv.last v.height v.round step r
          → (r >>= cont step) ≡ ok (pv', v', none)
          → (step : ℤ) × (bytes : Bytes) × VoteReleased pv chain v pv' v' step bytes
      checked step stepped (refused x _) g = absurd (ground arith)
      checked step stepped (fresh before) g =
          let (bytes, covers, r) =
            >>=-returns (vote_sign_bytes e chain v) (fresh_vote e pv v step) g in
          (step, bytes, fresh_vote-Released pv chain v step bytes before stepped covers r)
      checked step stepped (unsigned _ _) g = absurd (ground arith)
      checked step stepped (unmatched _ _ _ _) g = absurd (ground arith)
      checked step stepped (repeated b s at kept held) g =
          let (bytes, covers, r) = >>=-returns (vote_sign_bytes e chain v) (reuse_vote e pv v) g in
          (
            step,
            b,
            reuse_vote-Released laws pv chain v step bytes b s encodes at kept held stepped covers
                r,
          )

  -- Where the stored sign bytes encode a message of the stored kind and the stored signature is the
  -- key's signature of them, a vote that SignVote returns with no error carries the key's signature
  -- of its own sign bytes, at the position that is stored afterwards; the position moved forward,
  -- and is on disk, unless the state is unchanged; and the stored signature afterwards is the key's
  -- signature of the stored sign bytes.
  pub sign_vote-Released :
      (laws : RoundTrips e) (pv : FilePv) (chain : Bytes) (v : Vote) {pv' : FilePv} {v' : Vote}
      → Encodes e pv.last
      → IsSigned e pv.last
      → sign_vote e pv chain v ≡ ok (pv', v', none)
      → (step : ℤ) × (bytes : Bytes) × (sig : Bytes) × VoteReleased pv chain v pv' v' step bytes
        × (e.sign bytes ≡ some sig)
        × (v'.signature ≡ some sig)
        × IsSigned e pv'.last
  sign_vote-Released laws pv chain v {pv'} {v'} encodes signed h =
      let (step, bytes, rel) = sign_vote-VoteReleased laws pv chain v encodes h in
      let (sig, has) = rel.released.present in
      let (made, after) =
        Released-IsSigned e pv v'.height v'.round step bytes v'.signature pv' rel.released signed in
      (step, bytes, sig, rel, made ∙ has, has, after)
