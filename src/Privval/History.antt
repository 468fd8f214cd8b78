-- ===== src/Privval/History.antt =====
-- A signer over a sequence of requests, with restarts and crashes, and the log of what it releases.
use ostracon.Prelude.{Option, none, some, List, [], ◌∷◌, ◌++◌, Bytes}
use ostracon.Prelude.Int.{ℤ}
use ostracon.Prelude.Run.{Run, ok, panic}
use ostracon.Types.Vote.{Vote, Proposal}
use ostracon.Privval.State.{SignError, vote_to_step, step_propose}
use ostracon.Privval.Sign.{
  Env, FilePv, sign_vote, sign_proposal, vote_sign_bytes, proposal_sign_bytes, load,
}

-- A restart stands for a crash between two calls too.
pub data Request : Type 0 where
  votes : Bytes → Vote → Request
  proposes : Bytes → Proposal → Request
  restarts : Request

-- A signature that left the signer: its position, the bytes that it signs, and itself.
pub record Entry : Type 0 where
  pub height : ℤ
  pub round : ℤ
  pub step : ℤ
  pub bytes : Bytes
  pub signature : Option Bytes

module _ (e : Env) where
  unfoldable pub vote_entry : Vote → Run Bytes → Run ℤ → List Entry
  vote_entry v (ok b) (ok s) =
      record { height = v.height; round = v.round; step = s; bytes = b; signature = v.signature }
      ∷ []
  vote_entry v panic s = []
  vote_entry v (ok b) panic = []

  unfoldable pub proposal_entry : Proposal → Run Bytes → List Entry
  proposal_entry p (ok b) =
      record {
        height = p.height;
        round = p.round;
        step = step_propose;
        bytes = b;
        signature = p.signature;
      }
      ∷ []
  proposal_entry p panic = []

  unfoldable pub after_vote :
      FilePv → Bytes → Run (FilePv × Vote × Option SignError) → FilePv × List Entry
  unfolding vote_entry
  after_vote pv chain panic = (load pv, [])
  after_vote pv chain (ok (pv', v', some x)) = (pv', [])
  after_vote pv chain (ok (pv', v', none)) =
      (pv', vote_entry v' (vote_sign_bytes e chain v') (vote_to_step v'.type))

  unfoldable pub after_proposal :
      FilePv → Bytes → Run (FilePv × Proposal × Option SignError) → FilePv × List Entry
  unfolding proposal_entry
  after_proposal pv chain panic = (load pv, [])
  after_proposal pv chain (ok (pv', p', some x)) = (pv', [])
  after_proposal pv chain (ok (pv', p', none)) =
      (pv', proposal_entry p' (proposal_sign_bytes e chain p'))

  -- One request. A call that panics ends the process, which is started again from the file.
  unfoldable pub serve : FilePv → Request → FilePv × List Entry
  unfolding after_vote after_proposal
  serve pv (votes chain v) = after_vote pv chain (sign_vote e pv chain v)
  serve pv (proposes chain p) = after_proposal pv chain (sign_proposal e pv chain p)
  serve pv restarts = (load pv, [])

  -- The log, the latest entry first.
  unfoldable pub serve_all : FilePv → List Entry → List Request → FilePv × List Entry
  serve_all pv log [] = (pv, log)
  serve_all pv log (r ∷ rs) = let (pv', entries) = serve pv r in serve_all pv' (entries ++ log) rs
