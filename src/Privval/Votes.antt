-- ===== src/Privval/Votes.antt =====
-- What SignVote of privval/file.go releases.
use ostracon.Prelude.{
  ◌≡◌, refl, ap, subst, ◌∙◌, Bool, true, false, Option, none, some, arith, Bytes, bytes_eq,
  bytes_eq→eq, if◌then◌else◌,
}
use ostracon.Prelude.Int.{ℤ}
use ostracon.Prelude.Run.{Run, ok, ◌>>=◌, >>=-returns, or_panic}
use ostracon.Types.Vote.{Vote, contents}
use ostracon.Types.Canonical.{
  CanonicalVote, canonicalize_block_id, canonicalize_vote, vote_equal, vote_equal→eq,
}
use ostracon.Privval.State.{SignError, conflicting_data, sign_failed}
use ostracon.Privval.Sign.{
  Env, RoundTrips, FilePv, vote_sign_bytes, votes_only_differ, save_signed, reuse_vote, fresh_vote,
}
use ostracon.Privval.Release.{ok_done}

canonicalize_vote-retime :
    (chain : Bytes) (v : Vote) (t : ℤ) (s : Option Bytes) {c : CanonicalVote}
    → canonicalize_vote chain v ≡ ok c
    → canonicalize_vote chain (record v { timestamp = t; signature = s })
      ≡ ok (record c { timestamp = t })
unfolding canonicalize_vote
canonicalize_vote-retime chain v t s h =
    let (b, e, f) = >>=-returns (canonicalize_block_id v.block_id) _ h in rw e (ground arith)

module _ (e : Env) where
  abbrev retimed : CanonicalVote → CanonicalVote
  retimed c = record c { timestamp = e.now }

  votes_only_differ-ok :
      (laws : RoundTrips e) (last new : CanonicalVote) (lb nb : Bytes)
      → e.marshal_vote last ≡ some lb
      → e.marshal_vote new ≡ some nb
      → votes_only_differ e lb nb ≡ ok (last.timestamp, vote_equal (retimed new) (retimed last))
  unfolding votes_only_differ
  votes_only_differ-ok laws last new lb nb le ne =
      rw (laws.vote last lb le, laws.vote new nb ne, votes_only_differ)

  retime_eq :
      (last new : CanonicalVote)
      → vote_equal (retimed new) (retimed last) ≡ true
      → record new { timestamp = last.timestamp } ≡ last
  retime_eq last new o =
      ap (λ (c : CanonicalVote). record c { timestamp = last.timestamp }) (vote_equal→eq _ _ o)

  -- What a reused signature stands for.
  pub record ReusedVote (chain : Bytes) (v : Vote) (stored : Bytes) (sig : Option Bytes) (v' : Vote)
      : Type 0 where
    pub covers : vote_sign_bytes e chain v' ≡ ok stored
    pub signature : v'.signature ≡ sig
    pub height : v'.height ≡ v.height
    pub round : v'.round ≡ v.round
    pub type : v'.type ≡ v.type

  pub reuse_vote-ok :
      (laws : RoundTrips e) (pv : FilePv) (chain : Bytes) (v : Vote) (stored new : CanonicalVote)
      (sb nb : Bytes) {pv' : FilePv} {v' : Vote}
      → e.marshal_vote stored ≡ some sb
      → e.marshal_vote new ≡ some nb
      → pv.last.sign_bytes ≡ some sb
      → canonicalize_vote chain v ≡ ok new
      → reuse_vote e pv v nb ≡ ok (pv', v', none)
      → (pv ≡ pv') × ReusedVote chain v sb pv.last.signature v'
  unfolding reuse_vote vote_sign_bytes canonicalize_vote
  reuse_vote-ok laws pv chain v stored new sb nb {pv'} {v'} se ne kept canon h =
      go _ _ refl refl
        (rw (ap contents kept, votes_only_differ-ok laws stored new sb nb se ne) at h)
    where
      go :
          (a b : Bool)
          → bytes_eq nb sb ≡ a
          → vote_equal (retimed new) (retimed stored) ≡ b
          → ◌≡◌ {A = Run (FilePv × Vote × Option SignError)}
              (if a
                then ok (pv, record v { signature = pv.last.signature }, none)
                else if b
                then ok (
                  pv,
                  record v { timestamp = stored.timestamp; signature = pv.last.signature },
                  none,
                )
                else ok (pv, v, some conflicting_data))
              (ok (pv', v', none))
          → (pv ≡ pv') × ReusedVote chain v sb pv.last.signature v'
      go true b same _ g =
          let d = ok_done g in
          (
            d.0,
            subst (ReusedVote chain v sb pv.last.signature) d.1 (record {
              covers = rw (canon, ne) (ap ok (bytes_eq→eq _ _ same));
              signature = refl;
              height = refl;
              round = refl;
              type = refl;
            }),
          )
      go false true _ only g =
          let d = ok_done g in
          (
            d.0,
            subst (ReusedVote chain v sb pv.last.signature) d.1 (record {
              covers =
                  rw (canonicalize_vote-retime chain v stored.timestamp pv.last.signature canon) (
                    ap (λ (c : CanonicalVote). or_panic (e.marshal_vote c))
                      (retime_eq stored new only)
                    ∙ ap or_panic se);
              signature = refl;
              height = refl;
              round = refl;
              type = refl;
            }),
          )
      go false false _ _ g = absurd (ground arith)

  pub fresh_vote-ok :
      (pv : FilePv) (v : Vote) (step : ℤ) (bytes : Bytes) {pv' : FilePv} {v' : Vote}
      → fresh_vote e pv v step bytes ≡ ok (pv', v', none)
      → (sig : Bytes) × (save_signed e pv v.height v.round step bytes sig ≡ ok pv')
        × (record v { signature = some sig } ≡ v')
        × (e.sign bytes ≡ some sig)
  unfolding fresh_vote
  fresh_vote-ok pv v step bytes {pv'} {v'} h = go (e.sign bytes) refl h
    where
      go :
          (o : Option Bytes)
          → e.sign bytes ≡ o
          → (elim o as (λ _. Run (FilePv × Vote × Option SignError)) [
            | none ↦ ok (pv, v, some sign_failed)
            | some sig ↦ save_signed e pv v.height v.round step bytes sig >>= λ p.
                ok (p, record v { signature = some sig }, none)
          ])
            ≡ ok (pv', v', none)
          → (sig : Bytes) × (save_signed e pv v.height v.round step bytes sig ≡ ok pv')
            × (record v { signature = some sig } ≡ v')
            × (e.sign bytes ≡ some sig)
      go none _ g = absurd (ground arith)
      go (some sig) key g =
          let (p, saved, done) =
            >>=-returns (save_signed e pv v.height v.round step bytes sig)
              (λ (p : FilePv). ok (p, record v { signature = some sig }, none)) g in
          let d = ok_done done in (sig, saved ∙ ap ok d.0, d.1, key)
