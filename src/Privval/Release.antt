-- ===== src/Privval/Release.antt =====
-- What a call of the signer releases, and what the stored state then says.
use ostracon.Prelude.{◌≡◌, ◌⊎◌, sym, ap, subst, ◌∙◌, inl, inr, Option, some, arith, Bytes}
use ostracon.Prelude.Int.{ℤ}
use ostracon.Prelude.Run.{Run, ok}
use ostracon.Types.Canonical.{CanonicalVote, CanonicalProposal}
use ostracon.Privval.State.{
  LastSignState, SignError, step_propose, step_prevote, step_precommit, Before, Same,
}
use ostracon.Privval.Sign.{Env, FilePv, save, save_signed}

pub ok_pair {ℓ κ} :
    {A : Type ℓ} {B : Type κ} {a c : A} {b d : B}
    → ◌≡◌ {A = Run (A × B)} (ok (a, b)) (ok (c, d))
    → (a ≡ c) × (b ≡ d)
ok_pair h = ground arith

pub ok_done :
    {V : Type 0} {pv pv' : FilePv} {v v' : V} {x y : Option SignError}
    → ◌≡◌ {A = Run (FilePv × V × Option SignError)} (ok (pv, v, x)) (ok (pv', v', y))
    → (pv ≡ pv') × (v ≡ v') × (x ≡ y)
ok_done h = ground arith

module _ (e : Env) where
  -- Stored sign bytes encode a message of the kind that the stored step names.
  pub record Encodes (l : LastSignState) : Type 0 where
    pub votes :
        (b : Bytes)
        → l.sign_bytes ≡ some b
        → (l.step ≡ step_prevote) ⊎ (l.step ≡ step_precommit)
        → (c : CanonicalVote) × (e.marshal_vote c ≡ some b)
    pub proposals :
        (b : Bytes)
        → l.sign_bytes ≡ some b
        → l.step ≡ step_propose
        → (c : CanonicalProposal) × (e.marshal_proposal c ≡ some b)

  -- A stored signature is the key's, over the stored sign bytes.
  abbrev pub IsSigned : LastSignState → Type 0
  IsSigned l = (b : Bytes) → l.sign_bytes ≡ some b → e.sign b ≡ l.signature

  -- A released signature: at the stored position, with the stored sign bytes, and either nothing
  -- changed or the key made it over these bytes, and the stored position moved forward and is on
  -- disk.
  pub record Released (pv : FilePv) (height round step : ℤ) (bytes : Bytes)
      (signature : Option Bytes) (pv' : FilePv) : Type 0 where
    pub at : Same pv'.last height round step
    pub stored : pv'.last.sign_bytes ≡ some bytes
    pub signed : pv'.last.signature ≡ signature
    pub moved :
        (pv' ≡ pv)
        ⊎ (Before pv.last height round step × (pv'.disk ≡ pv'.last) × (e.sign bytes ≡ signature))
    pub present : (sig : Bytes) × (signature ≡ some sig)

  -- What is released from a state with a genuine signature is genuine, and so is the state after.
  pub Released-IsSigned :
      (pv : FilePv) (h r s : ℤ) (b : Bytes) (sig : Option Bytes) (pv' : FilePv)
      → Released pv h r s b sig pv'
      → IsSigned pv.last
      → (e.sign b ≡ sig) × IsSigned pv'.last
  Released-IsSigned pv h r s b sig pv' rel signed =
      (made, λ b' e'. ap e.sign (same b' e') ∙ (made ∙ sym rel.signed))
    where
      same : (b' : Bytes) → pv'.last.sign_bytes ≡ some b' → b' ≡ b
      same b' e' = let stored = rel.stored in ground arith

      made : e.sign b ≡ sig
      made = elim rel.moved [
        | inl stay ↦
            subst (λ (p : FilePv). IsSigned p.last) (sym stay) signed b rel.stored ∙ rel.signed
        | inr (_, _, new) ↦ new
      ]

  save-ok : (pv : FilePv) {pv' : FilePv} → save e pv ≡ ok pv' → pv' ≡ record pv { disk = pv.last }
  unfolding save
  save-ok pv h = ground arith

  -- The state after a new signature.
  abbrev pub advanced : FilePv → ℤ → ℤ → ℤ → Bytes → Bytes → LastSignState
  advanced pv height round step bytes sig = record pv.last {
    height = height;
    round = round;
    step = step;
    signature = some sig;
    sign_bytes = some bytes;
  }

  pub save_signed-ok :
      (pv : FilePv) (height round step : ℤ) (bytes sig : Bytes) {pv' : FilePv}
      → save_signed e pv height round step bytes sig ≡ ok pv'
      → pv' ≡ record {
        last = advanced pv height round step bytes sig;
        disk = advanced pv height round step bytes sig;
      }
  unfolding save_signed
  save_signed-ok pv height round step bytes sig h =
      save-ok (record pv { last = advanced pv height round step bytes sig }) h
