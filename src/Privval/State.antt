-- ===== src/Privval/State.antt =====
-- FilePVLastSignState and CheckHRS of privval/file.go.
use ostracon.Prelude.{
  ℕ, ◌≡◌, refl, ◌⊎◌, Bool, true, false, Option, none, some, inl, inr, Bytes, ◌==◌, if◌then◌else◌,
}
use ostracon.Prelude.Int.{ℤ, pos, ltb_ℤ, eqb_ℤ, ◌<ℤ◌, above, equal, below, compare_ℤ}
use ostracon.Prelude.Run.{Run, ok, panic}
use ostracon.Types.Vote.{prevote_type, precommit_type}

-- stepNone to stepPrecommit
abbrev pub step_none : ℤ
step_none = pos 0

abbrev pub step_propose : ℤ
step_propose = pos 1

abbrev pub step_prevote : ℤ
step_prevote = pos 2

abbrev pub step_precommit : ℤ
step_precommit = pos 3

unfoldable pub vote_to_step : ℕ → Run ℤ
vote_to_step type =
    if type == prevote_type
    then ok step_prevote
    else if type == precommit_type
    then ok step_precommit
    else panic

pub record LastSignState : Type 0 where
  pub height : ℤ
  pub round : ℤ
  pub step : ℤ
  pub signature : Option Bytes
  pub sign_bytes : Option Bytes
  pub file_path : Bytes

pub data SignError : Type 0 where
  height_regression round_regression step_regression no_sign_bytes : SignError
  conflicting_data sign_failed : SignError

-- What CheckHRS returns where the height, round and step are the last ones.
abbrev pub check_same : Option Bytes → Option Bytes → Run (Bool × Option SignError)
check_same none signature = ok (false, some no_sign_bytes)
check_same (some b) none = panic
check_same (some b) (some s) = ok (true, none)

unfoldable pub check_hrs : LastSignState → ℤ → ℤ → ℤ → Run (Bool × Option SignError)
check_hrs lss height round step =
    if ltb_ℤ height lss.height
    then ok (false, some height_regression)
    else if eqb_ℤ lss.height height
    then (if ltb_ℤ round lss.round
        then ok (false, some round_regression)
        else if eqb_ℤ lss.round round
        then (if ltb_ℤ step lss.step
            then ok (false, some step_regression)
            else if eqb_ℤ lss.step step
            then check_same lss.sign_bytes lss.signature
            else ok (false, none))
        else ok (false, none))
    else ok (false, none)

-- The last signed position comes before another, by height, then round, then step.
abbrev pub Before : LastSignState → ℤ → ℤ → ℤ → Type 0
Before lss height round step =
    (lss.height <ℤ height)
    ⊎ ((lss.height ≡ height) × (lss.round <ℤ round))
    ⊎ ((lss.height ≡ height) × (lss.round ≡ round) × (lss.step <ℤ step))

abbrev pub Same : LastSignState → ℤ → ℤ → ℤ → Type 0
Same lss height round step = (lss.height ≡ height) × (lss.round ≡ round) × (lss.step ≡ step)

-- The last signed position comes after another.
abbrev pub After : LastSignState → ℤ → ℤ → ℤ → Type 0
After lss height round step =
    (height <ℤ lss.height)
    ⊎ ((lss.height ≡ height) × (round <ℤ lss.round))
    ⊎ ((lss.height ≡ height) × (lss.round ≡ round) × (step <ℤ lss.step))

-- The results of CheckHRS, each with the order of the positions, and at the last position with the
-- stored sign bytes and signature, for which it is returned.
pub data Checked (lss : LastSignState) (height round step : ℤ)
    : Run (Bool × Option SignError) → Type 0 where
  fresh : Before lss height round step → Checked lss height round step (ok (false, none))
  refused :
      (e : SignError)
      → After lss height round step
      → Checked lss height round step (ok (false, some e))
  unsigned :
      Same lss height round step
      → lss.sign_bytes ≡ none
      → Checked lss height round step (ok (false, some no_sign_bytes))
  unmatched :
      (b : Bytes)
      → Same lss height round step
      → lss.sign_bytes ≡ some b
      → lss.signature ≡ none
      → Checked lss height round step panic
  repeated :
      (b s : Bytes)
      → Same lss height round step
      → lss.sign_bytes ≡ some b
      → lss.signature ≡ some s
      → Checked lss height round step (ok (true, none))

check_same-Checked :
    (lss : LastSignState) (height round step : ℤ) (sb sg : Option Bytes)
    → Same lss height round step
    → lss.sign_bytes ≡ sb
    → lss.signature ≡ sg
    → Checked lss height round step (check_same sb sg)
check_same-Checked lss height round step none sg at b s = unsigned at b
check_same-Checked lss height round step (some x) none at b s = unmatched x at b s
check_same-Checked lss height round step (some x) (some y) at b s = repeated x y at b s

-- CheckHRS accepts a later position and refuses an earlier one with an error. At the last position
-- it returns an error where no sign bytes are stored, panics where sign bytes are stored without a
-- signature, and returns true with no error where both are stored.
pub check_hrs-Checked :
    (lss : LastSignState) (height round step : ℤ)
    → Checked lss height round step (check_hrs lss height round step)
unfolding check_hrs
check_hrs-Checked lss height round step = elim (compare_ℤ lss.height height) [
  | above t lt ↦ rw t (refused height_regression (inl lt))
  | below f n lt ↦ rw (f, n) (fresh (inl lt))
  | equal f t h ↦
      rw (f, t)
        (elim (compare_ℤ lss.round round) [
          | above t' lt ↦ rw t' (refused round_regression (inr (inl (h, lt))))
          | below f' n lt ↦ rw (f', n) (fresh (inr (inl (h, lt))))
          | equal f' t' r ↦
              rw (f', t')
                (elim (compare_ℤ lss.step step) [
                  | above u lt ↦ rw u (refused step_regression (inr (inr (h, r, lt))))
                  | below g n lt ↦ rw (g, n) (fresh (inr (inr (h, r, lt))))
                  | equal g u s ↦
                      rw (g, u)
                        (check_same-Checked lss height round step lss.sign_bytes lss.signature
                          (h, r, s) refl refl)
                ])
        ])
]
