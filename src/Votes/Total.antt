-- ===== src/Votes/Total.antt =====
-- The total voting weight.
use ostracon.Prelude.{
  ℕ, ◌+◌, ◌≤◌, ◌≡◌, inl, inr, List, [], ◌∷◌, arith, ltb, if◌then◌else◌, Bool-cases,
}
use ostracon.Prelude.Run.{ok, panic}
use ostracon.Votes.Voters.{
  Voter, max_total_voting_weight, safe_add_clip, add_weights, wrap_sorted,
  update_total_voting_weight,
}

-- The sum of the weights, without a bound.
abbrev pub weights : List Voter → ℕ
weights [] = 0
weights (v ∷ vs) = v.voting_weight + weights vs

pub add_weights-total :
    (sum : ℕ) (vs : List Voter)
    → sum ≤ max_total_voting_weight
    → add_weights sum vs
      ≡ (if ltb max_total_voting_weight (sum + weights vs) then panic else ok (sum + weights vs))
unfolding add_weights safe_add_clip
add_weights-total sum [] h = ground arith
add_weights-total sum (v ∷ vs) h =
    elim (Bool-cases (ltb max_total_voting_weight (sum + v.voting_weight))) [
      | inl big ↦ ground arith
      | inr fits ↦
          let clip : safe_add_clip sum v.voting_weight ≡ sum + v.voting_weight = ground arith in
          let rest = add_weights-total (sum + v.voting_weight) vs (ground arith) in
          rw (clip, fits, rest) (ground arith)
    ]

-- A voter set made of validators has the sum of their weights as its total, and making it panics
-- exactly where the sum is above MaxTotalVotingWeight: no overflow goes unseen.
pub wrap_sorted-total :
    (vals : List Voter)
    → wrap_sorted vals ≡ (
        if ltb max_total_voting_weight (weights vals)
        then panic
        else ok (record { voters = vals; total_voting_weight = weights vals }))
unfolding wrap_sorted update_total_voting_weight
wrap_sorted-total vals = rw (add_weights-total 0 vals (omega arith)) (ground arith)
